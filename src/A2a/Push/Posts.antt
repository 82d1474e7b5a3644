-- ===== src/A2a/Push/Posts.antt =====
-- The POSTs of one call of `notify` in core/a2a_adapter/server.py, and the ledger that counts them.
use s13code.Prelude.{
  ℕ, zero, suc, ◌+◌, ◌≤◌, String, ◌≡◌, refl, ◌∙◌, ap, true, false, ◌==◌, List, [], ◌∷◌, ◌++◌, arith,
  eq_iff, eq_self, Bool-cases, inl, inr,
}
use s13code.A2a.Push.{
  Delivery, delivery, without, record_delivery, Notice, outcome, attempts_from, Post, accepted,
  failing,
}

delivery-absent :
    (event : String) (d : Delivery) (ds : List Delivery)
    → delivery event (without event ds ++ d ∷ []) ≡ delivery event (d ∷ [])
unfolding delivery
delivery-absent event d [] = refl
delivery-absent event d (x ∷ ds) = elim (Bool-cases (x.event_id == event)) [
  | inl e ↦ rw e (delivery-absent event d ds)
  | inr e ↦ rw e (rw e (delivery-absent event d ds))
]

delivery-own :
    (d : Delivery) (ds : List Delivery)
    → delivery d.event_id (record_delivery d ds) ≡ (d.delivered, d.attempts)
unfolding record_delivery delivery
delivery-own d ds = delivery-absent d.event_id d ds ∙ rw (eq_self d.event_id)

delivery-other :
    (event : String) (d : Delivery) (ds : List Delivery)
    → (d.event_id == event) ≡ false
    → delivery event (record_delivery d ds) ≡ delivery event ds
unfolding record_delivery delivery
delivery-other event d [] ne = rw ne
delivery-other event d (x ∷ ds) ne = elim (Bool-cases (x.event_id == event)) [
  | inl e ↦
      let away : (x.event_id == d.event_id) ≡ false =
        ground
          (arith, eq_iff x.event_id event, eq_iff x.event_id d.event_id, eq_iff d.event_id event) in
      rw (away, e)
  | inr e ↦ elim (Bool-cases (x.event_id == d.event_id)) [
    | inl k ↦ rw (k, e) (delivery-other event d ds ne)
    | inr k ↦ rw (k, e) (delivery-other event d ds ne)
  ]
]

outcome-id :
    (n : Notice) (number : ℕ)
    → ((outcome n number).event_id ≡ n.event_id) × ((outcome n number).attempts ≡ number)
outcome-id n number = go (n.post number)
  where
    go :
        (p : Post)
        → ((elim p as (λ _. Delivery) [
          | accepted ↦ record {
            event_id = n.event_id;
            task_id = n.task_id;
            delivered = true;
            attempts = number;
            last_error = "";
          }
          | failing error ↦ record {
            event_id = n.event_id;
            task_id = n.task_id;
            delivered = false;
            attempts = number;
            last_error = error;
          }
        ]).event_id
            ≡ n.event_id)
          × ((elim p as (λ _. Delivery) [
            | accepted ↦ record {
              event_id = n.event_id;
              task_id = n.task_id;
              delivered = true;
              attempts = number;
              last_error = "";
            }
            | failing error ↦ record {
              event_id = n.event_id;
              task_id = n.task_id;
              delivered = false;
              attempts = number;
              last_error = error;
            }
          ]).attempts
              ≡ number)
    go accepted = (refl, refl)
    go (failing e) = (refl, refl)

-- The loop counts its POSTs in the ledger, and makes no more than it has rounds.
pub attempts_from-own :
    (n : Notice) (left number : ℕ) (ds : List Delivery)
    → (delivery n.event_id ds).1 ≡ number
    → ((delivery n.event_id (attempts_from n left (suc number) ds).1).1
        ≡ number + (attempts_from n left (suc number) ds).0)
      × ((attempts_from n left (suc number) ds).0 ≤ left)
unfolding attempts_from
attempts_from-own n zero number ds h = (omega (arith, h), omega arith)
attempts_from-own n (suc left) number ds h =
    let (same, count) = outcome-id n (suc number) in
    let own : (delivery n.event_id (record_delivery (outcome n (suc number)) ds)).1 ≡ suc number =
      ap (λ q. q.1) (rw same at (delivery-own (outcome n (suc number)) ds)) ∙ count in
    let (a, b) =
      attempts_from-own n left (suc number) (record_delivery (outcome n (suc number)) ds) own in
    elim (Bool-cases (outcome n (suc number)).delivered) [
      | inl e ↦ (rw e (omega (arith, own)), rw e (omega arith))
      | inr e ↦ (rw e (omega (arith, a)), rw e (omega (arith, b)))
    ]

pub attempts_from-other :
    (event : String) (n : Notice) (left number : ℕ) (ds : List Delivery)
    → (n.event_id == event) ≡ false
    → delivery event (attempts_from n left number ds).1 ≡ delivery event ds
unfolding attempts_from
attempts_from-other event n zero number ds ne = refl
attempts_from-other event n (suc left) number ds ne =
    let (same, _) = outcome-id n number in
    let kept = delivery-other event (outcome n number) ds (rw same ne) in
    let rest =
      attempts_from-other event n left (suc number) (record_delivery (outcome n number) ds) ne in
    elim (Bool-cases (outcome n number).delivered) [
      | inl e ↦ rw e kept
      | inr e ↦ rw e (rest ∙ kept)
    ]
