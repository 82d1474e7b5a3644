-- ===== src/Planner/Plan.antt =====
-- `ConstrainedGraphPatchPlanner.plan` of planner.py: a parsed reply, or the fallback's patch.
use s13code.Prelude.{ℕ, String, List, [], ◌∷◌, Outcome, ok, err}
use s13code.Json.{Json, Fields, null, str, get_or}
use s13code.Graph.Types.{GraphPatch, GraphSnapshot, Event}
use s13code.Planner.Parse.{ParseError, not_text, ◌>>=◌, parse}

abbrev pub non_browser_roles : List String
non_browser_roles =
    "researcher" ∷ "retriever" ∷ "distiller" ∷ "summariser" ∷ "formatter" ∷ "coder_validator" ∷ []

-- `roles or set(NON_BROWSER_ROLES)`
abbrev pub roles_or_default : List String → List String
roles_or_default [] = non_browser_roles
roles_or_default (role ∷ roles) = role ∷ roles

-- What made `plan` fall back: the call of the model raised, or its reply was refused.
pub data Refusal : Type 0 where
  call_failed : String → Refusal
  rejected : ParseError → Refusal

-- `last_selection`
pub data Selection : Type 0 where
  by_llm : Json → Json → ℕ → Selection
  by_fallback : ℕ → Refusal → Selection

-- `self._parse(reply.get("text", ""))`; `loads` is `json.loads`
abbrev pub read_reply :
    (String → Outcome ParseError Json) → List String → Fields → Outcome ParseError GraphPatch
read_reply loads roles reply = do
  value ← loaded loads (get_or "text" (str "") reply)
  parse (roles_or_default roles) value
  where
    loaded : (String → Outcome ParseError Json) → Json → Outcome ParseError Json
    loaded loads (str text) = loads text
    loaded loads other = err not_text

abbrev pub from_reply :
    Fields → ℕ → GraphPatch → Outcome ParseError GraphPatch → GraphPatch × Selection
from_reply reply sequence otherwise (ok patch) =
    (patch, by_llm (get_or "provider" null reply) (get_or "model" null reply) sequence)
from_reply reply sequence otherwise (err error) = (otherwise, by_fallback sequence (rejected error))

-- `reply` is what the model answered to the prompt for this graph and event.
unfoldable pub plan_with :
    (String → Outcome ParseError Json)
    → List String
    → (GraphSnapshot → Event → GraphPatch)
    → Outcome String Fields
    → GraphSnapshot
    → Event
    → GraphPatch × Selection
plan_with loads roles fallback (err error) graph event =
    (fallback graph event, by_fallback event.sequence (call_failed error))
plan_with loads roles fallback (ok reply) graph event =
    from_reply reply event.sequence (fallback graph event) (read_reply loads roles reply)
