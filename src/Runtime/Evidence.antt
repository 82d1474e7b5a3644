-- ===== src/Runtime/Evidence.antt =====
-- The worker `answer` of runtime.py up to its prompt: the evidence that it gathers, and its bound.
use Prim.Native.String.{String}
use s13code.Prelude.{
  ℕ, zero, suc, ◌+◌, ◌-◌, Bool, ◌&&◌, ◌==◌, Option, none, some, List, [], ◌∷◌, ◌++◌, elem, leb,
  decimal, text_append, Outcome, ok, err, if◌then◌else◌,
}
use s13code.Json.{Json, Items, Fields, null, num, str, arr, obj, nil, cons, end, field, get_or, put}
use s13code.Graph.Types.{failed, ◌=ₛ◌, NodeView, GraphSnapshot}
use s13code.Graph.Patch.{find_view}
use s13code.Runtime.Pieces.{listed, truthy}

-- KeyError, or the AttributeError of `None.get`.
pub data EvidenceError : Type 0 where
  missing : String → EvidenceError
  no_result : EvidenceError

-- `s[:n]` and `len(s)`
abbrev pub take_chars : ℕ → String → String
take_chars zero s = String.[]
take_chars (suc n) String.[] = String.[]
take_chars (suc n) (String.◌∷◌ c s) = String.◌∷◌ c (take_chars n s)

abbrev pub chars : String → ℕ
chars String.[] = 0
chars (String.◌∷◌ c s) = suc (chars s)

-- A value in an f-string or under a join; the workers write texts and numbers there.
abbrev as_text : Json → String
as_text (str s) = s
as_text (num n) = decimal n
as_text other = ""

abbrev evidence : String → Items → String → Fields
evidence text sources kind =
    field "text" (str text) (field "sources" (arr sources) (field "kind" (str kind) end))

abbrev one : Json → Items
one value = cons value nil

-- `fields[key]`
abbrev required : String → Fields → Outcome EvidenceError Json
required key end = err (missing key)
required key (field k v rest) = if k == key then ok v else required key rest

abbrev with_value :
    Outcome EvidenceError Json → (Json → List Fields) → Outcome EvidenceError (List Fields)
with_value (ok value) f = ok (f value)
with_value (err e) f = err e

abbrev fields_of : Json → Fields
fields_of (obj fields) = fields
fields_of other = end

-- `hit.get(key, default)` as text
abbrev hit_text : String → Json → String
hit_text key hit = as_text (get_or key (str "") (fields_of hit))

abbrev hit_evidence : String → String → Json → Fields
hit_evidence default_uri kind hit =
    evidence (text_append (hit_text "title" hit) (text_append ": " (hit_text "snippet" hit)))
      (one (get_or "url" (str default_uri) (fields_of hit))) kind

abbrev hits_evidence : String → String → Items → List Fields
hits_evidence default_uri kind nil = []
hits_evidence default_uri kind (cons hit hits) =
    hit_evidence default_uri kind hit ∷ hits_evidence default_uri kind hits

abbrev joined : Items → String
joined nil = ""
joined (cons item nil) = as_text item
joined (cons item (cons next items)) =
    text_append (as_text item) (text_append ", " (joined (cons next items)))

abbrev role_skills : List String
role_skills =
    "distiller" ∷ "coder_validator" ∷ "researcher" ∷ "retriever" ∷ "summariser" ∷ "formatter" ∷ []

abbrev has_true : String → Fields → Bool
has_true key result = truthy (get_or key null result)

abbrev node_uri : String → String → String
node_uri run_id node_id = text_append "graph://" (text_append run_id (text_append "/" node_id))

abbrev calendar_evidence : Items → Fields
calendar_evidence artifacts =
    evidence (text_append "Calendar reminders created: " (joined artifacts)) artifacts
      "calendar_artifact"

-- The last cases of the loop over the nodes.
abbrev report_evidence : String → NodeView → Fields → Outcome EvidenceError (List Fields)
report_evidence run_id node result =
    let uri = node_uri run_id node.id in
    if elem node.skill role_skills && has_true "text" result
    then ok (evidence (as_text (get_or "text" null result)) (one (str uri)) "role_output" ∷ [])
    else if node.skill == "create_reminder" && has_true "artifacts" result
    then ok (calendar_evidence (listed (get_or "artifacts" null result)) ∷ [])
    else if node.state =ₛ failed
    then ok (
        evidence (as_text (get_or "error" (str "task failed") result)) (one (str uri)) "failure"
        ∷ [])
    else ok []

abbrev page_evidence : Fields → Json → List Fields
page_evidence result url =
    evidence (take_chars 12000 (as_text (get_or "text" null result))) (one url) "web_page" ∷ []

abbrev index_evidence : Fields → Json → List Fields
index_evidence result chunks =
    evidence
      (text_append "Indexed " (text_append (as_text chunks) " semantic chunks from this document."))
      (one (get_or "source_uri" null result)) "index_report"
    ∷ []

unfoldable pub node_evidence : String → NodeView → Fields → Outcome EvidenceError (List Fields)
node_evidence run_id node result =
    let hits = listed (get_or "hits" (arr nil) result) in
    if node.skill == "fetch_url" && has_true "text" result
    then with_value (required "url" result) (page_evidence result)
    else if node.skill == "web_search"
    then ok (hits_evidence (text_append "search://" node.id) "search_result" hits)
    else if node.skill == "researcher"
    then ok (hits_evidence (node_uri run_id node.id) "research" hits)
    else if node.skill == "index_file" && has_true "source_uri" result
    then with_value (required "chunks" result) (index_evidence result)
    else report_evidence run_id node result

-- `node.get("result") or {}`
abbrev pub result_of : Option Fields → Fields
result_of none = end
result_of (some result) = result

abbrev pub append_evidence :
    Outcome EvidenceError (List Fields)
    → Outcome EvidenceError (List Fields)
    → Outcome EvidenceError (List Fields)
append_evidence (err e) rest = err e
append_evidence (ok items) (err e) = err e
append_evidence (ok items) (ok rest) = ok (items ++ rest)

abbrev nodes_evidence : String → List NodeView → Outcome EvidenceError (List Fields)
nodes_evidence run_id [] = ok []
nodes_evidence run_id (node ∷ nodes) =
    append_evidence (node_evidence run_id node (result_of node.result))
      (nodes_evidence run_id nodes)

abbrev items_fields : Items → List Fields
items_fields nil = []
items_fields (cons item items) = fields_of item ∷ items_fields items

-- `snapshot.nodes.get("recall", {}).get("result") or {}`
abbrev recalled_evidence : Option NodeView → List Fields
recalled_evidence none = []
recalled_evidence (some node) =
    items_fields (listed (get_or "hits" (arr nil) (result_of node.result)))

abbrev fact_in : Fields → List Fields
fact_in result =
    let found = get_or "fact" null result in if truthy found then fields_of found ∷ [] else []

-- `snapshot.nodes.get("remember", {}).get("result", {}).get("fact")`: a node without a result has
-- `None` there, not the default.
abbrev pub remembered : Option NodeView → Outcome EvidenceError (List Fields)
remembered none = ok []
remembered (some node) = elim node.result [
  | none ↦ err no_result
  | some result ↦ ok (fact_in result)
]

unfoldable pub gather : String → GraphSnapshot → Outcome EvidenceError (List Fields)
gather run_id snapshot = append_evidence (remembered (find_view "remember" snapshot.nodes)) (
    append_evidence (ok (recalled_evidence (find_view "recall" snapshot.nodes)))
      (nodes_evidence run_id snapshot.nodes))

abbrev pub evidence_limit : ℕ
evidence_limit = 28000

-- `item.get("text", "")`
abbrev pub text_in : Fields → String
text_in item = as_text (get_or "text" (str "") item)

-- The loop that fills `bounded`.
abbrev pub bound : ℕ → ℕ → List Fields → List Fields
bound limit used [] = []
bound limit used (item ∷ items) =
    let clipped = take_chars (limit - used) (text_in item) in
    let rest = bound limit (used + chars clipped) items in
    if leb limit used then [] else put "text" (str clipped) item ∷ rest

unfoldable pub answer_evidence : String → GraphSnapshot → Outcome EvidenceError (List Fields)
answer_evidence run_id snapshot = elim (gather run_id snapshot) [
  | ok items ↦ ok (bound evidence_limit 0 items)
  | err e ↦ err e
]
