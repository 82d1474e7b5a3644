-- ===== src/Planner/Safe.antt =====
-- The patches that planner.py makes of the reply of a model.
use s13code.Prelude.{
  ℕ, String, Bool, true, false, Option, none, some, List, [], ◌∷◌, ◌≡◌, refl, ◌⊎◌, inl, inr,
  Outcome, ok, err, if◌then◌else◌,
}
use s13code.Json.{Json, Items, Fields, null, num, real, str, arr, obj, bool, nil, cons, get_or}
use s13code.Graph.Types.{GraphPatch, GraphSnapshot, Event}
use s13code.Planner.Parse.{
  ParseError, is_id, all_ids, ids_in, two, edge_of, all_edges, edges_in, valid_or, id_list, parse,
}
use s13code.Planner.Plan.{roles_or_default, read_reply, from_reply, plan_with}
use s13code.Planner.Tasks.{
  AllIds, AllEdges, SafeTasks, SafePatch, Gives, bind-Gives, anything, parse_tasks-Gives,
}

abbrev Holds : {A : Type 0} → (A → Type 0) → Option A → Type 0
Holds P none = Unit
Holds P (some a) = P a

if-Holds :
    {A : Type 0} (P : A → Type 0) (t : Bool) (a : A)
    → (t ≡ true → P a)
    → Holds P (if t then some a else none)
if-Holds P true a h = h refl
if-Holds P false a h = tt

all_ids-Holds : (items : Items) → Holds AllIds (all_ids items)
all_ids-Holds nil = tt
all_ids-Holds (cons (str s) rest) = go (all_ids rest) (all_ids-Holds rest)
  where
    go :
        (o : Option (List String))
        → Holds AllIds o
        → Holds AllIds (elim o as (λ _. Option (List String)) [
          | some ids ↦ if is_id s then some (s ∷ ids) else none
          | none ↦ none
        ])
    go none h = tt
    go (some ids) h = if-Holds AllIds (is_id s) (s ∷ ids) (λ e. (e, h))
all_ids-Holds (cons null rest) = tt
all_ids-Holds (cons (bool b) rest) = tt
all_ids-Holds (cons (num n) rest) = tt
all_ids-Holds (cons (real r) rest) = tt
all_ids-Holds (cons (arr items) rest) = tt
all_ids-Holds (cons (obj fields) rest) = tt

AllIds-in : (j : Json) → Holds AllIds (ids_in j)
AllIds-in (arr items) = all_ids-Holds items
AllIds-in (str s) = tt
AllIds-in null = tt
AllIds-in (bool b) = tt
AllIds-in (num n) = tt
AllIds-in (real r) = tt
AllIds-in (obj fields) = tt

abbrev ValidEdge : String × String → Type 0
ValidEdge (a, b) = (is_id a ≡ true) × (is_id b ≡ true)

edge_of-Holds : (j : Json) → Holds ValidEdge (edge_of j)
edge_of-Holds j = go (ids_in j) (AllIds-in j)
  where
    go : (o : Option (List String)) → Holds AllIds o → Holds ValidEdge (two o)
    go none h = tt
    go (some []) h = tt
    go (some (a ∷ [])) h = tt
    go (some (a ∷ b ∷ [])) (ha, (hb, _)) = (ha, hb)
    go (some (a ∷ b ∷ c ∷ ids)) h = tt

all_edges-Holds : (items : Items) → Holds AllEdges (all_edges items)
all_edges-Holds nil = tt
all_edges-Holds (cons e rest) =
    go (all_edges rest) (edge_of e) (all_edges-Holds rest) (edge_of-Holds e)
  where
    go :
        (o : Option (List (String × String))) (p : Option (String × String))
        → Holds AllEdges o
        → Holds ValidEdge p
        → Holds AllEdges (elim o as (λ _. Option (List (String × String))) [
          | some edges ↦ elim p [ some pair ↦ some (pair ∷ edges) | none ↦ none ]
          | none ↦ none
        ])
    go none p h k = tt
    go (some edges) none h k = tt
    go (some edges) (some (a, b)) h (ka, kb) = (ka, kb, h)

AllEdges-in : (j : Json) → Holds AllEdges (edges_in j)
AllEdges-in (arr items) = all_edges-Holds items
AllEdges-in (str s) = tt
AllEdges-in null = tt
AllEdges-in (bool b) = tt
AllEdges-in (num n) = tt
AllEdges-in (real r) = tt
AllEdges-in (obj fields) = tt

valid_or-Gives :
    {A : Type 0} (P : A → Type 0) (message : String) (o : Option A)
    → Holds P o
    → Gives P (valid_or message o)
valid_or-Gives P message none h = tt
valid_or-Gives P message (some a) h = h

id_list-Gives :
    (name message : String) (fields : Fields) → Gives AllIds (id_list name message fields)
id_list-Gives name message fields =
    valid_or-Gives AllIds message _ (AllIds-in (get_or name (arr nil) fields))

parse-Gives : (roles : List String) (value : Json) → Gives (SafePatch roles) (parse roles value)
unfolding parse
parse-Gives roles value =
    bind-Gives (λ _. Unit) (SafePatch roles) _ _ (anything _)
      λ fields _.
        bind-Gives (λ _. Unit) (SafePatch roles) _ _ (anything _)
          λ raws _.
            bind-Gives (SafeTasks roles) (SafePatch roles) _ _ (parse_tasks-Gives roles raws)
              λ tasks safe.
                bind-Gives AllEdges (SafePatch roles) _ _
                  (valid_or-Gives AllEdges _ _ (AllEdges-in (get_or "connect" (arr nil) fields)))
                  λ edges wired.
                    bind-Gives (λ _. Unit) (SafePatch roles) _ _ (anything _)
                      λ closing _.
                        bind-Gives AllIds (SafePatch roles) _ _ (id_list-Gives "cancel" _ fields)
                          λ cancel hc.
                            bind-Gives AllIds (SafePatch roles) _ _ (id_list-Gives "wait" _ fields)
                              λ wait hw.
                                bind-Gives AllIds (SafePatch roles) _ _
                                  (id_list-Gives "resume" _ fields)
                                  λ resume hr. (safe, wired, hc, hw, hr)

read_reply-Gives :
    (loads : String → Outcome ParseError Json) (roles : List String) (reply : Fields)
    → Gives (SafePatch (roles_or_default roles)) (read_reply loads roles reply)
read_reply-Gives loads roles reply =
    bind-Gives (λ _. Unit) (SafePatch (roles_or_default roles)) _ _ (anything _)
      λ value _. parse-Gives (roles_or_default roles) value

from_reply-Safe :
    (roles : List String) (reply : Fields) (n : ℕ) (otherwise : GraphPatch)
    (o : Outcome ParseError GraphPatch)
    → Gives (SafePatch roles) o
    → ((from_reply reply n otherwise o).0 ≡ otherwise)
      ⊎ SafePatch roles (from_reply reply n otherwise o).0
from_reply-Safe roles reply n otherwise (ok patch) h = inr h
from_reply-Safe roles reply n otherwise (err e) h = inl refl

-- Whatever the model replies, and whatever `json.loads` gives for it, the planner's patch is the
-- fallback's patch, or one in which each added task has a valid identifier, a skill that is one
-- of the allowed roles and a metadata entry `agent` that is this skill, and each identifier in
-- connect, cancel, wait and resume is valid.
pub plan_with-Safe :
    (loads : String → Outcome ParseError Json) (roles : List String)
    (fallback : GraphSnapshot → Event → GraphPatch) (reply : Outcome String Fields)
    (graph : GraphSnapshot) (event : Event)
    → ((plan_with loads roles fallback reply graph event).0 ≡ fallback graph event)
      ⊎ SafePatch (roles_or_default roles) (plan_with loads roles fallback reply graph event).0
unfolding plan_with
plan_with-Safe loads roles fallback (err e) graph event = inl refl
plan_with-Safe loads roles fallback (ok reply) graph event =
    from_reply-Safe (roles_or_default roles) reply event.sequence (fallback graph event)
      (read_reply loads roles reply) (read_reply-Gives loads roles reply)
