-- ===== src/Planner/Parse.antt =====
-- `ConstrainedGraphPatchPlanner._parse` of planner.py, on what `json.loads` gives.
use Prim.Native.Char.{code}
use Prim.Native.String.{String}
use s13code.Prelude.{
  ℕ, Bool, true, false, ◌&&◌, ◌||◌, Option, none, some, List, [], ◌∷◌, length, leb, eqb, all, elem,
  Outcome, ok, err, ensure, if◌then◌else◌,
}
use s13code.Json.{
  Json, Items, Fields, null, bool, str, arr, obj, nil, cons, end, field, get_or, put,
}
use s13code.Graph.Types.{TaskSpec, GraphPatch}

-- `ValueError` with its message, or the `TypeError` of an operation on a value of another kind.
pub data ParseError : Type 0 where
  value_error : String → ParseError
  not_iterable unhashable not_text : ParseError

infixl 10 ◌>>=◌ ◌>>◌
unfoldable pub ◌>>=◌ :
    {A B : Type 0} → Outcome ParseError A → (A → Outcome ParseError B) → Outcome ParseError B
ok a >>= f = f a
err e >>= f = err e

unfoldable pub ◌>>◌ :
    {A B : Type 0} → Outcome ParseError A → Outcome ParseError B → Outcome ParseError B
ok a >> k = k
err e >> k = err e

abbrev code_points : String → List ℕ
code_points String.[] = []
code_points (String.◌∷◌ c s) = code c ∷ code_points s

abbrev is_letter : ℕ → Bool
is_letter c = leb b'A' c && leb c b'Z' || leb b'a' c && leb c b'z'

abbrev is_id_char : ℕ → Bool
is_id_char c = is_letter c || leb b'0' c && leb c b'9' || eqb c b'_' || eqb c b'-'

abbrev id_points : List ℕ → Bool
id_points [] = false
id_points (c ∷ s) = is_letter c && leb (length s) 63 && all is_id_char s

-- `_ID.fullmatch(x)`
unfoldable pub is_id : String → Bool
is_id s = id_points (code_points s)

abbrev keys_within : List String → Fields → Bool
keys_within allowed end = true
keys_within allowed (field k v rest) = elem k allowed && keys_within allowed rest

abbrev patch_keys : List String
patch_keys = "add" ∷ "connect" ∷ "cancel" ∷ "wait" ∷ "resume" ∷ "finish" ∷ "reason" ∷ []

abbrev task_keys : List String
task_keys = "id" ∷ "role" ∷ "input" ∷ "metadata" ∷ []

-- `isinstance(value, dict)`, and no other keys
abbrev pub object_with : List String → String → Json → Outcome ParseError Fields
object_with allowed message (obj fields) =
    ensure (keys_within allowed fields) (value_error message) >> ok fields
object_with allowed message other = err (value_error message)

abbrev keys_of : Fields → Items
keys_of end = nil
keys_of (field k v rest) = cons (str k) (keys_of rest)

abbrev characters : String → Items
characters String.[] = nil
characters (String.◌∷◌ c s) = cons (str (String.◌∷◌ c String.[])) (characters s)

-- What a `for` loop runs through.
abbrev pub elements : Json → Outcome ParseError Items
elements (arr items) = ok items
elements (obj fields) = ok (keys_of fields)
elements (str s) = ok (characters s)
elements other = err not_iterable

abbrev pub id_text : Json → Outcome ParseError String
id_text (str s) = ensure (is_id s) (value_error "invalid node id or unsupported role") >> ok s
id_text other = err (value_error "invalid node id or unsupported role")

-- `role not in self.roles`, where a list or an object cannot be looked up in a set
abbrev pub role_text : List String → Json → Outcome ParseError String
role_text roles (str s) =
    ensure (elem s roles) (value_error "invalid node id or unsupported role") >> ok s
role_text roles (arr items) = err unhashable
role_text roles (obj fields) = err unhashable
role_text roles other = err (value_error "invalid node id or unsupported role")

-- Both are tested by one condition, with one message.
abbrev pub both_objects : Json → Json → Outcome ParseError (Fields × Fields)
both_objects (obj input) (obj metadata) = ok (input, metadata)
both_objects input metadata = err (value_error "task input/metadata must be objects")

unfoldable pub parse_task : List String → Json → Outcome ParseError TaskSpec
parse_task roles raw = do
  fields ← object_with task_keys "invalid task object" raw
  node_id ← id_text (get_or "id" null fields)
  role ← role_text roles (get_or "role" null fields)
  given ← both_objects (get_or "input" (obj end) fields) (get_or "metadata" (obj end) fields)
  ok record {
    id = node_id;
    skill = role;
    input = given.0;
    metadata = put "agent" (str role) given.1;
  }

abbrev pub parse_tasks : List String → Items → Outcome ParseError (List TaskSpec)
parse_tasks roles nil = ok []
parse_tasks roles (cons raw rest) = do
  task ← parse_task roles raw
  tasks ← parse_tasks roles rest
  ok (task ∷ tasks)

abbrev pub all_ids : Items → Option (List String)
all_ids nil = some []
all_ids (cons (str s) rest) = elim (all_ids rest) [
  | some ids ↦ if is_id s then some (s ∷ ids) else none
  | none ↦ none
]
all_ids (cons other rest) = none

abbrev pub valid_or : {A : Type 0} → String → Option A → Outcome ParseError A
valid_or message none = err (value_error message)
valid_or message (some a) = ok a

abbrev pub ids_in : Json → Option (List String)
ids_in (arr items) = all_ids items
ids_in other = none

-- `id_list(name)`; the message is `invalid {name}`
abbrev pub id_list : String → String → Fields → Outcome ParseError (List String)
id_list name message fields = valid_or message (ids_in (get_or name (arr nil) fields))

-- A list of two identifiers.
abbrev pub two : Option (List String) → Option (String × String)
two none = none
two (some []) = none
two (some (a ∷ [])) = none
two (some (a ∷ b ∷ [])) = some (a, b)
two (some (a ∷ b ∷ c ∷ ids)) = none

abbrev pub edge_of : Json → Option (String × String)
edge_of e = two (ids_in e)

abbrev pub all_edges : Items → Option (List (String × String))
all_edges nil = some []
all_edges (cons e rest) = elim (all_edges rest) [
  | some edges ↦ elim (edge_of e) [ some pair ↦ some (pair ∷ edges) | none ↦ none ]
  | none ↦ none
]

abbrev pub edges_in : Json → Option (List (String × String))
edges_in (arr items) = all_edges items
edges_in other = none

abbrev pub finish_and_reason : Json → Json → Outcome ParseError (Bool × String)
finish_and_reason (bool finish) (str reason) = ok (finish, reason)
finish_and_reason finish reason = err (value_error "invalid finish/reason")

unfoldable pub parse : List String → Json → Outcome ParseError GraphPatch
parse roles value = do
  fields ← object_with patch_keys "invalid GraphPatch object" value
  raws ← elements (get_or "add" (arr nil) fields)
  tasks ← parse_tasks roles raws
  edges ← valid_or "invalid connect" (edges_in (get_or "connect" (arr nil) fields))
  closing ←
      finish_and_reason (get_or "finish" (bool false) fields) (get_or "reason" (str "") fields)
  cancel ← id_list "cancel" "invalid cancel" fields
  wait ← id_list "wait" "invalid wait" fields
  resume ← id_list "resume" "invalid resume" fields
  ok record {
    add = tasks;
    connect = edges;
    cancel = cancel;
    wait = wait;
    resume = resume;
    finish = closing.0;
    reason = closing.1;
  }
