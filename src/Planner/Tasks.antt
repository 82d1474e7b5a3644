-- ===== src/Planner/Tasks.antt =====
-- What `_parse` of planner.py reads as a task.
use s13code.Prelude.{
  String, true, List, [], ◌∷◌, ◌≡◌, inl, inr, Outcome, ok, err, ensure, elem, Bool-cases,
}
use s13code.Json.{Json, Items, null, num, real, str, arr, obj, bool, nil, cons, get_or, get_or-put}
use s13code.Graph.Types.{TaskSpec, GraphPatch}
use s13code.Planner.Parse.{
  ParseError, ◌>>=◌, ◌>>◌, is_id, id_text, role_text, parse_task, parse_tasks,
}

abbrev pub AllIds : List String → Type 0
AllIds [] = Unit
AllIds (s ∷ ids) = (is_id s ≡ true) × AllIds ids

abbrev pub AllEdges : List (String × String) → Type 0
AllEdges [] = Unit
AllEdges ((a, b) ∷ edges) = (is_id a ≡ true) × (is_id b ≡ true) × AllEdges edges

-- A valid identifier, an allowed role, and a metadata entry that names that role.
abbrev pub SafeTask : List String → TaskSpec → Type 0
SafeTask roles t =
    (is_id t.id ≡ true)
    × (elem t.skill roles ≡ true)
    × (get_or "agent" null t.metadata ≡ str t.skill)

abbrev pub SafeTasks : List String → List TaskSpec → Type 0
SafeTasks roles [] = Unit
SafeTasks roles (t ∷ ts) = SafeTask roles t × SafeTasks roles ts

abbrev pub SafePatch : List String → GraphPatch → Type 0
SafePatch roles p =
    SafeTasks roles p.add × AllEdges p.connect × AllIds p.cancel × AllIds p.wait × AllIds p.resume

-- What a parser returns has the property, whatever the input.
abbrev pub Gives : {A : Type 0} → (A → Type 0) → Outcome ParseError A → Type 0
Gives P (ok a) = P a
Gives P (err e) = Unit

pub bind-Gives :
    {A B : Type 0} (P : A → Type 0) (Q : B → Type 0) (m : Outcome ParseError A)
    (f : A → Outcome ParseError B)
    → Gives P m
    → ((a : A) → P a → Gives Q (f a))
    → Gives Q (m >>= f)
unfolding ◌>>=◌
bind-Gives P Q (ok a) f h k = k a h
bind-Gives P Q (err e) f h k = tt

id_text-Gives : (j : Json) → Gives (λ s. is_id s ≡ true) (id_text j)
unfolding ensure ◌>>◌
id_text-Gives (str s) = elim (Bool-cases (is_id s)) [
  | inl e ↦ rw (e, ensure) e
  | inr e ↦ rw (e, ensure) tt
]
id_text-Gives null = tt
id_text-Gives (bool b) = tt
id_text-Gives (num n) = tt
id_text-Gives (real r) = tt
id_text-Gives (arr items) = tt
id_text-Gives (obj fields) = tt

role_text-Gives :
    (roles : List String) (j : Json) → Gives (λ s. elem s roles ≡ true) (role_text roles j)
unfolding ensure ◌>>◌
role_text-Gives roles (str s) = elim (Bool-cases (elem s roles)) [
  | inl e ↦ rw (e, ensure) e
  | inr e ↦ rw (e, ensure) tt
]
role_text-Gives roles null = tt
role_text-Gives roles (bool b) = tt
role_text-Gives roles (num n) = tt
role_text-Gives roles (real r) = tt
role_text-Gives roles (arr items) = tt
role_text-Gives roles (obj fields) = tt

pub anything : {A : Type 0} (m : Outcome ParseError A) → Gives (λ _. Unit {0}) m
anything (ok a) = tt
anything (err e) = tt

parse_task-Gives :
    (roles : List String) (raw : Json) → Gives (SafeTask roles) (parse_task roles raw)
unfolding parse_task
parse_task-Gives roles raw =
    bind-Gives (λ _. Unit) (SafeTask roles) _ _ (anything _)
      λ fields _.
        bind-Gives (λ s. is_id s ≡ true) (SafeTask roles) _ _ (id_text-Gives _)
          λ id valid.
            bind-Gives (λ s. elem s roles ≡ true) (SafeTask roles) _ _ (role_text-Gives roles _)
              λ role allowed.
                bind-Gives (λ _. Unit) (SafeTask roles) _ _ (anything _)
                  λ given _. (valid, allowed, get_or-put "agent" null (str role) given.1)

pub parse_tasks-Gives :
    (roles : List String) (raws : Items) → Gives (SafeTasks roles) (parse_tasks roles raws)
parse_tasks-Gives roles nil = tt
parse_tasks-Gives roles (cons raw rest) =
    bind-Gives (SafeTask roles) (SafeTasks roles) _ _ (parse_task-Gives roles raw) λ t safe.
      bind-Gives (SafeTasks roles) (SafeTasks roles) _ _ (parse_tasks-Gives roles rest)
        λ ts all_safe. (safe, all_safe)
