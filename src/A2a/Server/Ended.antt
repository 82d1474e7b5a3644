-- ===== src/A2a/Server/Ended.antt =====
-- What keeps a task ended: the changes of the table of tasks and of the waiting coroutines that the
-- handlers of core/a2a_adapter/server.py make.
use s13code.Prelude.{
  String, ◌≡◌, refl, ◌∙◌, Bool, true, false, ◌==◌, Option, none, some, List, [], ◌∷◌, arith, eq_iff,
  if◌then◌else◌, Bool-cases, inl, inr, filter,
}
use s13code.A2a.Server.{
  Task, is_terminal, Server, find_task, has_url, store_task, push, unless_terminal, Step, sends,
  streams, drop_work, has_work, works_on,
}
use s13code.A2a.Server.Saved.{find-put}

-- The task has ended, and no handler runs for it.
pub record Ended (nid : String) (t : Task) (s : Server) : Type 0 where
  pub there : find_task nid s.tasks ≡ some t
  pub over : is_terminal t.state ≡ true
  pub idle : works_on nid s.completing ≡ false

-- A new task takes the identifier.
abbrev pub submits : String → Step → Bool
submits nid (sends m) = m.id == nid
submits nid (streams m) = m.id == nid
submits nid _ = false

pub find_task-id :
    (nid : String) (ts : List Task) (t : Task) → find_task nid ts ≡ some t → (t.id == nid) ≡ true
find_task-id nid [] t h = absurd (ground arith)
find_task-id nid (x ∷ ts) t h = elim (Bool-cases (x.id == nid)) [
  | inl e ↦ let same : x ≡ t = ground arith in rw (← same) e
  | inr e ↦ find_task-id nid ts t (rw e at h)
]

pub store_task-Ended :
    (nid : String) (t u : Task) (s : Server)
    → (u.id == nid) ≡ false
    → Ended nid t s
    → Ended nid t (store_task u s)
unfolding store_task
store_task-Ended nid t u s ne h = record {
  there = find-put nid u s.tasks ∙ rw (ne, h.there);
  over = h.over;
  idle = h.idle;
}

pub if-Ended :
    (nid : String) (t : Task) (b : Bool) (x y : Server)
    → (b ≡ true → Ended nid t x)
    → (b ≡ false → Ended nid t y)
    → Ended nid t (if b then x else y)
if-Ended nid t true x y p q = p refl
if-Ended nid t false x y p q = q refl

pub push-Ended : (nid : String) (t u : Task) (s : Server) → Ended nid t s → Ended nid t (push u s)
push-Ended nid t u s h =
    if-Ended nid t (has_url u.callback_url) _ s
      (λ _. record { there = h.there; over = h.over; idle = h.idle }) (λ _. h)

-- A change of the places where coroutines wait.
moved :
    (nid : String) (t : Task) (s : Server) (ws : List (String × Bool)) (a b c d : List String)
    → Ended nid t s
    → works_on nid ws ≡ false
    → Ended nid t
        (record s { jobs = a; starting = b; sleeping = c; streaming = d; completing = ws })
moved nid t s ws a b c d h w = record { there = h.there; over = h.over; idle = w }

pub idle-work :
    (nid : String) (j : Bool) (ws : List (String × Bool))
    → works_on nid ws ≡ false
    → has_work nid j ws ≡ false
idle-work nid j [] h = refl
idle-work nid j (w ∷ ws) h = ground (arith, idle-work nid j ws)

pub works-drop :
    (nid k : String) (j : Bool) (ws : List (String × Bool))
    → works_on nid ws ≡ false
    → works_on nid (drop_work k j ws) ≡ false
works-drop nid k j ws = go _ ws
  where
    go :
        (p : String × Bool → Bool) (us : List (String × Bool))
        → works_on nid us ≡ false
        → works_on nid (filter p us) ≡ false
    go p [] h = refl
    go p (u ∷ us) h = elim (Bool-cases (p u)) [
      | inl e ↦ rw e (ground (arith, go p us))
      | inr e ↦ rw e (ground (arith, go p us))
    ]

-- What follows a test of the state of another task, or of this one.
pub unless-Ended :
    (nid k : String) (t : Task) (s x y : Server)
    → Ended nid t s
    → Ended nid t x
    → ((k == nid) ≡ false → Ended nid t y)
    → Ended nid t (unless_terminal (find_task k s.tasks) x y)
unless-Ended nid k t s x y h p q = elim (Bool-cases (k == nid)) [
  | inl e ↦ rw ((eq_iff k nid).0 e, h.there, h.over) p
  | inr e ↦ go (find_task k s.tasks) (q e)
]
  where
    go : (o : Option Task) → Ended nid t y → Ended nid t (unless_terminal o x y)
    go none r = p
    go (some u) r = if-Ended nid t (is_terminal u.state) x y (λ _. p) (λ _. r)
