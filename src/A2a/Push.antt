-- ===== src/A2a/Push.antt =====
-- The delivery ledger of `DurableTaskStore` and the retries of `_notify` in
-- core/a2a_adapter/server.py.
pub mod Posts
pub mod Attempts
use s13code.Prelude.{
  ℕ, zero, suc, ◌+◌, ◌-◌, String, Bool, true, false, ◌==◌, Option, none, some, List, [], ◌∷◌, ◌++◌,
  if◌then◌else◌,
}

-- A row of `a2a_push_delivery`.
pub record Delivery : Type 0 where
  pub event_id : String
  pub task_id : String
  pub delivered : Bool
  pub attempts : ℕ
  pub last_error : String

-- `delivery`: whether the event was delivered, and how often it was tried.
unfoldable pub delivery : String → List Delivery → Bool × ℕ
delivery event [] = (false, 0)
delivery event (d ∷ ds) =
    if d.event_id == event then (d.delivered, d.attempts) else delivery event ds

abbrev without : String → List Delivery → List Delivery
without event [] = []
without event (d ∷ ds) =
    let rest = without event ds in if d.event_id == event then rest else d ∷ rest

-- `record_delivery`: `insert or replace` on the primary key.
unfoldable pub record_delivery : Delivery → List Delivery → List Delivery
record_delivery d ds = without d.event_id ds ++ d ∷ []

-- What a POST gives: an answer with a good status, or the text of an exception.
pub data Post : Type 0 where
  accepted : Post
  failing : String → Post

-- One call of `_notify` with `push_http`: the event, and what each attempt, by its number, gives.
pub record Notice : Type 0 where
  pub event_id : String
  pub task_id : String
  pub post : ℕ → Post

abbrev pub outcome : Notice → ℕ → Delivery
outcome n number = elim (n.post number) [
  | accepted ↦ record {
    event_id = n.event_id;
    task_id = n.task_id;
    delivered = true;
    attempts = number;
    last_error = "";
  }
  | failing error ↦ record {
    event_id = n.event_id;
    task_id = n.task_id;
    delivered = false;
    attempts = number;
    last_error = error;
  }
]

-- `for number in range(…)`, with `left` rounds to go: the number of POSTs made, and the ledger.
unfoldable pub attempts_from : Notice → ℕ → ℕ → List Delivery → ℕ × List Delivery
attempts_from n zero number ds = (0, ds)
attempts_from n (suc left) number ds =
    let ds' = record_delivery (outcome n number) ds in
    let rest = attempts_from n left (suc number) ds' in
    if (outcome n number).delivered then (1, ds') else (suc rest.0, rest.1)

abbrev unless_delivered : ℕ → Notice → Bool × ℕ → List Delivery → ℕ × List Delivery
unless_delivered push_attempts n (true, attempts) ds = (0, ds)
unless_delivered push_attempts n (false, attempts) ds =
    attempts_from n (push_attempts - attempts) (suc attempts) ds

-- The part of `_notify` that posts.
unfoldable pub notify : ℕ → Notice → List Delivery → ℕ × List Delivery
notify push_attempts n ds = unless_delivered push_attempts n (delivery n.event_id ds) ds
