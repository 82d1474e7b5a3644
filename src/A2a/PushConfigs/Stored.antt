-- ===== src/A2a/PushConfigs/Stored.antt =====
-- `DurablePushConfigs` of core/a2a_adapter/official.py as a map from identifiers, over a list of its
-- calls.
use mathlib.Core.List.Memᴰ
use s13code.Prelude.{
  String, ◌≡◌, refl, Bool, true, false, not, ◌&&◌, ◌==◌, Option, none, some, List, [], ◌∷◌, ◌++◌,
  arith, eq_iff, if◌then◌else◌, any, Memᴰ, ◌↔◌, Bool-cases, Option-cases, inl, inr, ap, ◌∙◌, sym,
  subst, eq_self,
}
use s13code.Prelude.Members.{Memᴰ_cons, Memᴰ-filter, any-true, all-not-any}
use s13code.A2a.PushConfigs.{
  PushConfig, others, put_config, get_config, list_configs, unlisted, delete_config, is_row,
}
use s13code.A2a.PushConfigs.Lookups.{get-Memᴰ, get-none, get-filter, get-absent, get-others}

-- The calls that change the table.
pub data PushCall : Type 0 where
  puts : PushConfig → PushCall
  deletes : String → String → PushCall

abbrev pub call : PushCall → List PushConfig → List PushConfig
call (puts c) cs = put_config c cs
call (deletes task ident) cs = (delete_config task ident cs).1

abbrev pub after : List PushCall → List PushConfig → List PushConfig
after [] cs = cs
after (x ∷ xs) cs = after xs (call x cs)

-- The description: a map from identifiers to configurations.
abbrev pub Configs : Type 0
Configs = String → Option PushConfig

abbrev pub belongs : String → Option PushConfig → Bool
belongs task none = false
belongs task (some c) = c.task_id == task

abbrev pub changed : PushCall → Configs → Configs
changed (puts c) table ident = if c.id == ident then some c else table ident
changed (deletes task i) table ident =
    if i == ident && belongs task (table ident) then none else table ident

abbrev pub described : List PushCall → Configs → Configs
described [] table = table
described (x ∷ xs) table = described xs (changed x table)

-- The table is the map, and no other row has the identifier of a row.
record Agrees (cs : List PushConfig) (table : Configs) : Type 0 where
  found : (k : String) → get_config k cs ≡ table k
  keyed : (c : PushConfig) → Memᴰ c cs → get_config c.id cs ≡ some c

-- Rows with one identifier are one row.
one_row :
    {cs : List PushConfig} {table : Configs}
    → Agrees cs table
    → (k : String) (c d : PushConfig) → get_config k cs ≡ some d
    → Memᴰ c cs
    → (c.id == k) ≡ true
    → c ≡ d
one_row {cs} a k c d h m e =
    let f : get_config k cs ≡ some c =
      subst (λ (i : String). get_config i cs ≡ some c) ((eq_iff c.id k).0 e) (a.keyed c m) in
    let g : some c ≡ some d = sym f ∙ h in ground arith

put-Agrees :
    (c : PushConfig) (cs : List PushConfig) (table : Configs)
    → Agrees cs table
    → Agrees (put_config c cs) (changed (puts c) table)
unfolding put_config
put-Agrees c cs table a = record {
  found = λ k.
      get-others c k cs
      ∙ ap (λ (o : Option PushConfig). if c.id == k then some c else o) (a.found k);
  keyed = λ d m. get-others c d.id cs ∙ kept d m;
}
  where
    kept :
        (d : PushConfig)
        → Memᴰ d (others c.id cs ++ c ∷ [])
        → (if c.id == d.id then some c else get_config d.id cs) ≡ some d
    kept d m = elim (Memᴰ.append_cases (others c.id cs) m) [
      | inl old ↦
          let (stored, away) = (Memᴰ-filter (λ x. not (x.id == c.id)) d cs).0 old in
          let ne : (c.id == d.id) ≡ false = ground (arith, eq_iff c.id d.id, eq_iff d.id c.id) in
          rw ne (a.keyed d stored)
      | inr new ↦ elim ((Memᴰ_cons d c []).0 new) [
        | inl e ↦ rw (e, eq_self c.id)
        | inr t ↦ absurd (Memᴰ.not-nil t)
      ]
    ]

delete-found :
    (task ident k : String) (cs : List PushConfig) (table : Configs)
    → Agrees cs table
    → get_config k (unlisted task ident cs)
      ≡ (if ident == k && belongs task (get_config k cs) then none else get_config k cs)
delete-found task ident k cs table a = elim (Option-cases (get_config k cs)) [
  | inl e ↦ rw e (
      get-absent k (unlisted task ident cs)
        (λ c m. get-none k cs e c ((Memᴰ-filter (λ x. not (is_row task ident x)) c cs).0 m).0)
      ∙ sym (if_none (ident == k && false)))
  | inr (d, e) ↦ elim (Bool-cases (ident == k && belongs task (some d))) [
    | inl b ↦
        rw (e, b)
          (get-absent k (unlisted task ident cs) (λ c m.
            let (stored, away) = (Memᴰ-filter (λ x. not (is_row task ident x)) c cs).0 m in
            elim (Bool-cases (c.id == k)) [
              | inr n ↦ n
              | inl i ↦
                  let q : c ≡ d = one_row a k c d e stored i in
                  let t : (c.task_id == task) ≡ (d.task_id == task) =
                    ap (λ (x : PushConfig). x.task_id == task) q in
                  absurd (ground (arith, eq_iff ident k, eq_iff c.id k, eq_iff c.id ident))
            ]))
    | inr b ↦
        let i : (d.id == k) ≡ true = (get-Memᴰ k cs d e).1 in
        let stays : not (is_row task ident d) ≡ true =
          ground (arith, eq_iff ident k, eq_iff d.id k, eq_iff d.id ident) in
        rw (e, b) (get-filter (λ x. not (is_row task ident x)) k cs d e stays)
  ]
]
  where
    if_none : (b : Bool) → ◌≡◌ {A = Option PushConfig} (if b then none else none) none
    if_none true = refl
    if_none false = refl

delete-Agrees :
    (task ident : String) (cs : List PushConfig) (table : Configs)
    → Agrees cs table
    → Agrees (delete_config task ident cs).1 (changed (deletes task ident) table)
unfolding delete_config
delete-Agrees task ident cs table a = record {
  found = λ k.
      delete-found task ident k cs table a
      ∙ ap (λ (o : Option PushConfig). if ident == k && belongs task o then none else o)
          (a.found k);
  keyed = λ c m.
      let (stored, stays) = (Memᴰ-filter (λ x. not (is_row task ident x)) c cs).0 m in
      get-filter (λ x. not (is_row task ident x)) c.id cs c (a.keyed c stored) stays;
}

after-Agrees :
    (calls : List PushCall) (cs : List PushConfig) (table : Configs)
    → Agrees cs table
    → Agrees (after calls cs) (described calls table)
after-Agrees [] cs table a = a
after-Agrees (puts c ∷ calls) cs table a =
    after-Agrees calls (put_config c cs) (changed (puts c) table) (put-Agrees c cs table a)
after-Agrees (deletes task ident ∷ calls) cs table a =
    after-Agrees calls (delete_config task ident cs).1 (changed (deletes task ident) table)
      (delete-Agrees task ident cs table a)

-- Whether `delete` deletes a row.
deleted_lem :
    (task ident : String) (cs : List PushConfig) (table : Configs)
    → Agrees cs table
    → any (is_row task ident) cs ≡ belongs task (table ident)
deleted_lem task ident cs table a =
    go (get_config ident cs) refl ∙ ap (belongs task) (a.found ident)
  where
    go :
        (o : Option PushConfig)
        → get_config ident cs ≡ o
        → any (is_row task ident) cs ≡ belongs task (get_config ident cs)
    go none e = rw e (
        all-not-any (is_row task ident) cs (λ c m. let n = get-none ident cs e c m in ground arith))
    go (some d) e = elim (Bool-cases (d.task_id == task)) [
      | inl t ↦
          let (m, i) = get-Memᴰ ident cs d e in
          rw (e, t) (any-true (is_row task ident) d cs m (ground arith))
      | inr t ↦
          rw (e, t)
            (all-not-any (is_row task ident) cs (λ c m. elim (Bool-cases (c.id == ident)) [
              | inr n ↦ ground arith
              | inl i ↦
                  let q : c ≡ d = one_row a ident c d e m i in
                  let f : (c.task_id == task) ≡ (d.task_id == task) =
                    ap (λ (x : PushConfig). x.task_id == task) q in
                  ground arith
            ]))
    ]

-- From the empty table, after any calls of `put` and `delete`, the table is the map from
-- identifiers that the same calls describe, in which `put` replaces whatever stood under the
-- identifier and `delete` removes it only if it belongs to the task: `get` gives what the map
-- has, `delete` says that it deleted a row exactly if the map has a configuration of that task
-- there, and `list` gives exactly the configurations of the map that belong to the task.
pub after-described :
    (calls : List PushCall)
    → ((ident : String) → get_config ident (after calls []) ≡ described calls (λ _. none) ident)
      × ((task ident : String)
          → (delete_config task ident (after calls [])).0
            ≡ belongs task (described calls (λ _. none) ident))
      × ((task : String) (c : PushConfig)
          → Memᴰ c (list_configs task (after calls []))
            ↔ ((described calls (λ _. none) c.id ≡ some c) × ((c.task_id == task) ≡ true)))
unfolding delete_config list_configs get_config
after-described calls =
    let a = after-Agrees calls [] (λ _. none) empty_Agrees in
    (
      a.found,
      λ task ident. deleted_lem task ident (after calls []) (described calls (λ _. none)) a,
      λ task c. (
        λ m.
            let (stored, own) =
              (Memᴰ-filter (λ (x : PushConfig). x.task_id == task) c (after calls [])).0 m in
            (sym (a.found c.id) ∙ a.keyed c stored, own),
        λ (e, own).
            (Memᴰ-filter (λ (x : PushConfig). x.task_id == task) c (after calls [])).1
              ((get-Memᴰ c.id (after calls []) c (a.found c.id ∙ e)).0, own),
      ),
    )
  where
    empty_Agrees : Agrees [] (λ _. none)
    empty_Agrees = record { found = λ k. refl; keyed = λ c m. absurd (Memᴰ.not-nil m) }
