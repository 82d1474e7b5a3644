-- ===== src/A2a/Push/Attempts.antt =====
-- The POSTs for one event over a list of calls of `_notify` in core/a2a_adapter/server.py.
use s13code.Prelude.{
  ℕ, zero, suc, ◌+◌, ◌-◌, ◌≤◌, String, ◌≡◌, refl, ◌∙◌, ap, subst, Bool, true, false, ◌==◌, List, [],
  ◌∷◌, arith, eq_iff, if◌then◌else◌, Bool-cases, ◌⊎◌, inl, inr,
}
use s13code.A2a.Push.{Delivery, delivery, Notice, attempts_from, unless_delivered, notify}
use s13code.A2a.Push.Posts.{attempts_from-own, attempts_from-other}

-- The POSTs for one event over a list of calls, and the ledger after them.
abbrev pub posts_for : ℕ → String → List Notice → List Delivery → ℕ × List Delivery
posts_for push_attempts event [] ds = (0, ds)
posts_for push_attempts event (n ∷ ns) ds =
    let made = notify push_attempts n ds in
    let rest = posts_for push_attempts event ns made.1 in
    (if n.event_id == event then made.0 + rest.0 else rest.0, rest.1)

few : (most k p j : ℕ) → j ≡ k → p ≤ most - k → (p ≡ 0) ⊎ (j + p ≤ most)
few most k zero j e h = inl refl
few most k (suc p) j e h = inr (omega arith)

-- One call: the count goes up by the POSTs made, up to the limit; none are made once delivered.
notify-own :
    (push_attempts : ℕ) (n : Notice) (ds : List Delivery)
    → ((delivery n.event_id (notify push_attempts n ds).1).1
        ≡ (delivery n.event_id ds).1 + (notify push_attempts n ds).0)
      × (((notify push_attempts n ds).0 ≡ 0)
          ⊎ ((delivery n.event_id ds).1 + (notify push_attempts n ds).0 ≤ push_attempts))
unfolding notify
notify-own push_attempts n ds = go (delivery n.event_id ds) refl
  where
    go :
        (o : Bool × ℕ)
        → delivery n.event_id ds ≡ o
        → ((delivery n.event_id (unless_delivered push_attempts n o ds).1).1
            ≡ (delivery n.event_id ds).1 + (unless_delivered push_attempts n o ds).0)
          × (((unless_delivered push_attempts n o ds).0 ≡ 0)
              ⊎ ((delivery n.event_id ds).1 + (unless_delivered push_attempts n o ds).0
                  ≤ push_attempts))
    go (true, k) e = (omega arith, inl refl)
    go (false, k) e =
        let had : (delivery n.event_id ds).1 ≡ k = ap (λ q. q.1) e in
        let (a, b) = attempts_from-own n (push_attempts - k) k ds had in
        (
          omega (arith, a, had),
          few push_attempts k (attempts_from n (push_attempts - k) (suc k) ds).0
              (delivery n.event_id ds).1 had b,
        )

notify-other :
    (push_attempts : ℕ) (event : String) (n : Notice) (ds : List Delivery)
    → (n.event_id == event) ≡ false
    → delivery event (notify push_attempts n ds).1 ≡ delivery event ds
unfolding notify
notify-other push_attempts event n ds ne = go (delivery n.event_id ds)
  where
    go :
        (o : Bool × ℕ)
        → delivery event (unless_delivered push_attempts n o ds).1 ≡ delivery event ds
    go (true, k) = refl
    go (false, k) = attempts_from-other event n (push_attempts - k) (suc k) ds ne

notify-silent :
    (push_attempts : ℕ) (n : Notice) (ds : List Delivery)
    → (delivery n.event_id ds).0 ≡ true
    → notify push_attempts n ds ≡ (0, ds)
unfolding notify
notify-silent push_attempts n ds = go (delivery n.event_id ds)
  where
    go : (o : Bool × ℕ) → o.0 ≡ true → unless_delivered push_attempts n o ds ≡ (0, ds)
    go (true, k) h = refl
    go (false, k) h = absurd (ground arith)

notify-at :
    (push_attempts : ℕ) (n : Notice) (event : String) (ds : List Delivery)
    → n.event_id ≡ event
    → ((delivery event (notify push_attempts n ds).1).1
        ≡ (delivery event ds).1 + (notify push_attempts n ds).0)
      × (((notify push_attempts n ds).0 ≡ 0)
          ⊎ ((delivery event ds).1 + (notify push_attempts n ds).0 ≤ push_attempts))
notify-at push_attempts n event ds same =
    subst
      (λ ev.
        ((delivery ev (notify push_attempts n ds).1).1
          ≡ (delivery ev ds).1 + (notify push_attempts n ds).0)
        × (((notify push_attempts n ds).0 ≡ 0)
            ⊎ ((delivery ev ds).1 + (notify push_attempts n ds).0 ≤ push_attempts)))
      same (notify-own push_attempts n ds)

posts_lem :
    (push_attempts : ℕ) (event : String) (ns : List Notice) (ds : List Delivery)
    → ((delivery event (posts_for push_attempts event ns ds).1).1
        ≡ (delivery event ds).1 + (posts_for push_attempts event ns ds).0)
      × (((posts_for push_attempts event ns ds).0 ≡ 0)
          ⊎ ((delivery event ds).1 + (posts_for push_attempts event ns ds).0 ≤ push_attempts))
posts_lem push_attempts event [] ds = (omega arith, inl refl)
posts_lem push_attempts event (n ∷ ns) ds =
    let (a, b) = posts_lem push_attempts event ns (notify push_attempts n ds).1 in
    elim (Bool-cases (n.event_id == event)) [
      | inl e ↦
          let (own, bound) = notify-at push_attempts n event ds ((eq_iff n.event_id event).0 e) in
          (
            rw e (omega (arith, a, own)),
            rw e (elim b [
              | inl z ↦ elim bound [ inl y ↦ inl (omega arith) | inr y ↦ inr (omega (arith, y, z)) ]
              | inr z ↦ inr (omega (arith, z, own))
            ]),
          )
      | inr e ↦
          let same = notify-other push_attempts event n ds e in
          (
            rw e (
                a
                ∙ ap (λ q. q.1 + (posts_for push_attempts event ns (notify push_attempts n ds).1).0)
                    same),
            rw e (rw same at b),
          )
    ]

posts-silent :
    (push_attempts : ℕ) (event : String) (ns : List Notice) (ds : List Delivery)
    → (delivery event ds).0 ≡ true
    → (posts_for push_attempts event ns ds).0 ≡ 0
posts-silent push_attempts event [] ds h = refl
posts-silent push_attempts event (n ∷ ns) ds h = elim (Bool-cases (n.event_id == event)) [
  | inl e ↦
      let quiet = notify-silent push_attempts n ds (rw ((eq_iff n.event_id event).0 e) h) in
      rw (e, quiet) (omega (arith, posts-silent push_attempts event ns ds h))
  | inr e ↦ rw e (
      posts-silent push_attempts event ns (notify push_attempts n ds).1
        (ap (λ q. q.0) (notify-other push_attempts event n ds e) ∙ h))
]

-- From the empty ledger, over any list of notifications, of this event and others, whatever the
-- receivers answer: the event is posted at most `push_attempts` times, the ledger counts its
-- posts, and once the ledger says delivered, no further notifications post it.
pub posts_for-bounded :
    (push_attempts : ℕ) (event : String) (ns ms : List Notice)
    → ((posts_for push_attempts event ns []).0 ≤ push_attempts)
      × ((delivery event (posts_for push_attempts event ns []).1).1
          ≡ (posts_for push_attempts event ns []).0)
      × ((delivery event (posts_for push_attempts event ns []).1).0 ≡ true
          → (posts_for push_attempts event ms (posts_for push_attempts event ns []).1).0 ≡ 0)
unfolding delivery
posts_for-bounded push_attempts event ns ms =
    let (a, b) = posts_lem push_attempts event ns [] in
    (
      elim b [ inl z ↦ omega arith | inr z ↦ omega (arith, z) ],
      omega (arith, a),
      posts-silent push_attempts event ms (posts_for push_attempts event ns []).1,
    )
