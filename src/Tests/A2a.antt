-- ===== src/Tests/A2a.antt =====
-- The A2A adapter at concrete inputs.
use s13code.Prelude.{
  ◌↔◌, ◌≤◌, String, ◌≡◌, refl, ◌⊎◌, true, false, none, some, List, [], ◌∷◌, ok, Memᴰ, eqb, ◌==◌,
  if◌then◌else◌,
}
use s13code.A2a.Cards.{
  Interface, negotiate_interface, min_by, rank_from, Signature, TrustPolicy, verify, verifies,
}
use s13code.A2a.Cards.Chosen.{Verified, verify_lem}
use s13code.A2a.PushConfigs.{PushConfig, put_config, get_config, list_configs, delete_config}
use s13code.A2a.PushConfigs.Stored.{
  PushCall, puts, deletes, after, described, belongs, after-described,
}
use s13code.A2a.Push.{Notice, delivery, accepted, failing, notify, attempts_from, record_delivery}
use s13code.A2a.Push.Attempts.{posts_for, posts_for-bounded}
use s13code.A2a.Server.{
  Task, completed, find_task, put_task, store_task, Submission, new_task, send, complete, cancel,
  answer, Step, sends, completes, cancels, restarts, step, steps, no_tasks, works_on,
}
use s13code.A2a.Server.Terminal.{steps-Saved, steps-Ended}

abbrev third : Notice
third = record {
  event_id = "e";
  task_id = "t";
  post = λ number. if eqb number 3 then accepted else failing "timeout";
}

two_retries : (posts_for 4 "e" (third ∷ third ∷ []) []).0 ≡ 3
unfolding notify attempts_from record_delivery delivery
two_retries = refl

posts_for-bounded_example :
    ((posts_for 4 "e" (third ∷ []) []).0 ≤ 4)
    × ((delivery "e" (posts_for 4 "e" (third ∷ []) []).1).1 ≡ (posts_for 4 "e" (third ∷ []) []).0)
    × ((delivery "e" (posts_for 4 "e" (third ∷ []) []).1).0 ≡ true
        → (posts_for 4 "e" (third ∷ []) (posts_for 4 "e" (third ∷ []) []).1).0 ≡ 0)
posts_for-bounded_example = posts_for-bounded 4 "e" (third ∷ []) (third ∷ [])

abbrev request : Submission
request = record {
  id = "x";
  context_id = "c";
  text = "sum";
  slow = false;
  callback_url = none;
  callback_token = none;
  now = "1";
}

abbrev answered : List Step
answered = sends request ∷ completes "x" false (answer "done") "2" ∷ []

abbrev done_task : Task
done_task = record {
  id = "x";
  context_id = "c";
  text = "sum";
  state = completed;
  artifacts = ("result-x", "done") ∷ [];
  callback_url = none;
  callback_token = none;
  updated_at = "2";
}

is_done : find_task "x" (steps no_tasks answered).tasks ≡ some done_task
unfolding steps step send complete store_task put_task new_task
is_done = refl

-- A cancellation that arrives while the handler of a plain send runs is lost.
abbrev crossed : List Step
crossed = sends request ∷ cancels "x" "2" ∷ completes "x" false (answer "done") "2" ∷ []

cancellation_lost : find_task "x" (steps no_tasks crossed).tasks ≡ some done_task
unfolding steps step send complete cancel store_task put_task new_task
cancellation_lost = refl

steps-Saved_example :
    find_task "x" (steps no_tasks crossed).rows ≡ find_task "x" (steps no_tasks crossed).tasks
steps-Saved_example = steps-Saved crossed "x"

nobody_works : works_on "x" (steps no_tasks answered).completing ≡ false
unfolding steps step send complete store_task put_task new_task
nobody_works = refl

steps-Ended_example :
    find_task "x" (steps (steps no_tasks answered) (cancels "x" "3" ∷ restarts "4" ∷ [])).tasks
    ≡ some done_task
steps-Ended_example =
    steps-Ended (cancels "x" "3" ∷ restarts "4" ∷ []) (steps no_tasks answered) "x" done_task
      (steps-Saved answered) refl is_done refl nobody_works

abbrev offers : List Interface
offers =
    record { url = "u1"; protocol_binding = "GRPC"; protocol_version = "1.0" }
    ∷ record { url = "u2"; protocol_binding = "JSONRPC"; protocol_version = "0.3" }
    ∷ record { url = "u3"; protocol_binding = "JSONRPC"; protocol_version = "1.0" }
    ∷ []

prefers_first :
    negotiate_interface (λ s. s) ("JSONRPC" ∷ []) ("1.0" ∷ "0.3" ∷ []) offers
    ≡ ok (record { url = "u3"; protocol_binding = "JSONRPC"; protocol_version = "1.0" })
unfolding negotiate_interface min_by rank_from
prefers_first = refl

abbrev policy : TrustPolicy
policy = record {
  key_resolver = λ kid. if kid == "k1" then some "pem" else none;
  require_signature = true;
  allowed_algorithms = "RS256" ∷ [];
  is_valid = λ key s payload. s.signature == payload;
}

abbrev signed : List Signature
signed =
    record { protected = "h"; signature = "other"; header = some (some "RS256", some "k1") }
    ∷ record { protected = "h"; signature = "card"; header = some (some "RS256", some "k1") }
    ∷ []

is_trusted : verify policy "card" signed ≡ ok tt
unfolding verify verifies
is_trusted = refl

verify_lem_example :
    ((signed ≡ []) × (true ≡ false)) ⊎ ((s : Signature) × Memᴰ s signed × Verified policy "card" s)
verify_lem_example = verify_lem policy "card" signed is_trusted

abbrev hook : String → PushConfig
hook task = record { task_id = task; id = "h"; url = "u"; token = "k" }

-- The identifier alone is the key: another task's configuration is replaced.
replaced : list_configs "t1" (put_config (hook "t2") (put_config (hook "t1") [])) ≡ []
unfolding list_configs put_config
replaced = refl

-- Two tasks put, one of them under the other's identifier, and the first one's deletion is empty.
abbrev config_calls : List PushCall
config_calls = puts (hook "t1") ∷ puts (hook "t2") ∷ deletes "t1" "h" ∷ []

after-described_example :
    ((ident : String)
      → get_config ident (after config_calls []) ≡ described config_calls (λ _. none) ident)
    × ((task ident : String)
        → (delete_config task ident (after config_calls [])).0
          ≡ belongs task (described config_calls (λ _. none) ident))
    × ((task : String) (c : PushConfig)
        → Memᴰ c (list_configs task (after config_calls []))
          ↔ ((described config_calls (λ _. none) c.id ≡ some c) × ((c.task_id == task) ≡ true)))
after-described_example = after-described config_calls
