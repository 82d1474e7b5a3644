-- ===== src/Memory/Types.antt =====
-- The data of core/memory/models.py, and the tables of core/memory/store.py.
use s13code.Prelude.{ℕ, String, Bool, true, false, ◌&&◌, ◌==◌, Option, none, some, List, [], eqb}
use s13code.Json.{Fields}

pub data MemoryKind : Type 0 where
  working episode fact playbook policy audit document_chunk : MemoryKind

abbrev pub kind_rank : MemoryKind → ℕ
kind_rank working = 0
kind_rank episode = 1
kind_rank fact = 2
kind_rank playbook = 3
kind_rank policy = 4
kind_rank audit = 5
kind_rank document_chunk = 6

infix 50 ◌=ₖ◌
abbrev pub ◌=ₖ◌ : MemoryKind → MemoryKind → Bool
k =ₖ l = eqb (kind_rank k) (kind_rank l)

abbrev pub kind_value : MemoryKind → String
kind_value working = "working"
kind_value episode = "episode"
kind_value fact = "fact"
kind_value playbook = "playbook"
kind_value policy = "policy"
kind_value audit = "audit"
kind_value document_chunk = "document_chunk"

pub record MemoryScope : Type 0 where
  pub tenant_id : String
  pub project_id : Option String
  pub user_id : Option String
  pub agent_id : Option String
  pub run_id : Option String

abbrev pub same_text : Option String → Option String → Bool
same_text none none = true
same_text (some s) (some t) = s == t
same_text none (some t) = false
same_text (some s) none = false

-- `==` of the dataclass.
infix 50 ◌=ᵣ◌
abbrev pub ◌=ᵣ◌ : MemoryScope → MemoryScope → Bool
a =ᵣ b =
    a.tenant_id == b.tenant_id
    && same_text a.project_id b.project_id
    && same_text a.user_id b.user_id
    && same_text a.agent_id b.agent_id
    && same_text a.run_id b.run_id

pub record Principal : Type 0 where
  pub id : String
  pub role : String

pub record SourceRef : Type 0 where
  pub uri : String
  pub author : String
  pub captured_at : String
  pub excerpt : Option String

-- A row of `records`. The column `embedding_json` is a cache of what the embedder computes from the
-- text, and is left out.
pub record MemoryRecord : Type 0 where
  pub id : String
  pub kind : MemoryKind
  pub scope : MemoryScope
  pub text : String
  pub sources : List SourceRef
  pub principal : Principal
  pub metadata : Fields
  pub valid_from : String
  pub valid_to : Option String
  pub confidence : Option String
  pub created_at : String
  pub status : String
  pub supersedes_id : Option String

abbrev pub current : String
current = "current"

abbrev pub superseded : String
superseded = "superseded"

pub record DocumentRow : Type 0 where
  pub document_id : String
  pub version : ℕ
  pub active : Bool
  pub scope : MemoryScope
  pub source_uri : String
  pub source_sha256 : String
  pub prepared_sha256 : String
  pub preprocessing : String
  pub created_at : String

pub record Memory : Type 0 where
  pub records : List MemoryRecord
  pub records_fts : List (String × String)
  pub documents : List DocumentRow

abbrev pub no_memory : Memory
no_memory = record { records = []; records_fts = []; documents = [] }

-- ValueError with its message, PermissionDenied, or IntegrityError for a primary key.
pub data MemoryError : Type 0 where
  no_source absent_superseded other_kind_or_scope not_current : MemoryError
  policy_denied audit_denied primary_key : MemoryError
