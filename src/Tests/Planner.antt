-- ===== src/Tests/Planner.antt =====
-- The reply of a model at concrete inputs.
use s13code.Prelude.{String, true, false, some, [], ◌∷◌, ◌≡◌, refl, ◌⊎◌, Outcome, ok, err, ensure}
use s13code.Json.{Json, Fields, null, str, arr, obj, nil, cons, end, field, get_or}
use s13code.Graph.Types.{GraphSnapshot, Event, task_succeeded}
use s13code.Planner.Parse.{ParseError, value_error, is_id, ◌>>=◌, ◌>>◌, parse_task, parse}
use s13code.Planner.Plan.{non_browser_roles, roles_or_default, plan_with}
use s13code.Planner.Tasks.{SafePatch}
use s13code.Planner.Safe.{plan_with-Safe}
use s13code.Runtime.Pieces.{no_patch}

abbrev graph : GraphSnapshot
graph = record { run_id = "r"; finished = false; nodes = []; edges = [] }

abbrev event : Event
event = record { sequence = 3; kind = task_succeeded; node_id = some "n"; payload = end }

abbrev retriever : Json
retriever = obj (
    field "id" (str "look_up") (
      field "role" (str "retriever") (field "metadata" (obj (field "agent" (str "root") end)) end)))

abbrev patch_value : Json
patch_value = obj (
    field "add" (arr (cons retriever nil))
      (field "connect" (arr (cons (arr (cons (str "n") (cons (str "look_up") nil))) nil)) end))

abbrev loads : String → Outcome ParseError Json
loads text = ok patch_value

abbrev reply : Outcome String Fields
reply = ok (field "text" (str "{…}") end)

plan_with-Safe_example :
    ((plan_with loads [] (λ _ _. no_patch) reply graph event).0 ≡ no_patch)
    ⊎ SafePatch (roles_or_default []) (plan_with loads [] (λ _ _. no_patch) reply graph event).0
plan_with-Safe_example = plan_with-Safe loads [] (λ _ _. no_patch) reply graph event

-- The role takes the place of the agent that the reply names.
accepted :
    parse non_browser_roles patch_value
    ≡ ok (record {
      add =
          record {
            id = "look_up";
            skill = "retriever";
            input = end;
            metadata = field "agent" (str "retriever") end;
          }
          ∷ [];
      connect = ("n", "look_up") ∷ [];
      cancel = [];
      wait = [];
      resume = [];
      finish = false;
      reason = "";
    })
unfolding parse parse_task is_id ◌>>=◌ ◌>>◌ ensure get_or
accepted = refl

foreign_key_refused :
    parse [] (obj (field "shell" null end)) ≡ err (value_error "invalid GraphPatch object")
unfolding parse ◌>>=◌ ◌>>◌ ensure
foreign_key_refused = refl

bad_id : (is_id "1a" ≡ false) × (is_id "a-b_2" ≡ true) × (is_id "" ≡ false)
unfolding is_id
bad_id = (refl, refl, refl)
