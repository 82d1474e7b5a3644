-- ===== src/Graph/Patch/Checks.antt =====
-- What the checks of `apply_patch` establish of the tasks that a patch names.
use s13code.Prelude.{
  String, ◌≡◌, refl, Bool, true, false, ◌==◌, Option, none, some, List, [], ◌∷◌, ◌++◌, arith,
  eq_iff, Outcome, ok, err, ensure, elem, any, has_duplicates, Bool-cases, inl, inr,
}
use s13code.Graph.Types.{
  NodeState, pending, waiting, ◌=ₛ◌, NodeView, GraphSnapshot, GraphPatch, GraphError, unknown_task,
  not_pending, not_waiting,
}
use s13code.Graph.Patch.{
  check_patch, check_each, check_cancel, check_state, check_wait, check_resume, check_edge,
  then_check, find_view, is_open, add_ids, view_ids,
}
use s13code.Graph.Snapshot.{view_state}

pub then_check-ok :
    (a b : Outcome GraphError Unit) → then_check a b ≡ ok tt → (a ≡ ok tt) × (b ≡ ok tt)
unfolding then_check
then_check-ok (ok _) b h = (refl, h)
then_check-ok (err e) b h = absurd (ground arith)

pub ensure-ok : (b : Bool) (e : GraphError) → ensure b e ≡ ok tt → b ≡ true
unfolding ensure
ensure-ok true e h = refl
ensure-ok false e h = absurd (ground arith)

pub check_each-ok :
    (check : String → Outcome GraphError Unit) (xs : List String) (x : String)
    → check_each check xs ≡ ok tt
    → elem x xs ≡ true
    → check x ≡ ok tt
check_each-ok check [] x h m = absurd (ground arith)
check_each-ok check (y ∷ ys) x h m =
    let (now, later) = then_check-ok (check y) (check_each check ys) h in
    elim (Bool-cases (x == y)) [
      | inl e ↦ rw ((eq_iff x y).0 e) now
      | inr e ↦ check_each-ok check ys x later (rw e at m)
    ]

check_cancel-open :
    (vs : List NodeView) (nid : String) (s : NodeState)
    → check_cancel vs nid ≡ ok tt
    → view_state (find_view nid vs) ≡ some s
    → is_open s ≡ true
unfolding check_cancel
check_cancel-open vs nid s h v = go (find_view nid vs) refl
  where
    go : (o : Option NodeView) → find_view nid vs ≡ o → is_open s ≡ true
    go none e = absurd (ground arith)
    go (some w) e =
        let same : w.state ≡ s = ground arith in
        rw same at (ensure-ok (is_open w.state) _ (rw (e, check_cancel) at h))

check_state-eq :
    (want : NodeState) (err' : GraphError) (vs : List NodeView) (nid : String) (s : NodeState)
    → check_state want err' vs nid ≡ ok tt
    → view_state (find_view nid vs) ≡ some s
    → (s =ₛ want) ≡ true
unfolding check_state
check_state-eq want err' vs nid s h v = go (find_view nid vs) refl
  where
    go : (o : Option NodeView) → find_view nid vs ≡ o → (s =ₛ want) ≡ true
    go none e = absurd (ground arith)
    go (some w) e =
        let same : w.state ≡ s = ground arith in
        rw same at (ensure-ok (w.state =ₛ want) _ (rw (e, check_state) at h))

pub record Checked (existing : GraphSnapshot) (patch : GraphPatch) : Type 0 where
  pub unfinished : existing.finished ≡ false
  pub fresh_ids :
      (x : String) → elem x (add_ids patch) ≡ true → elem x (view_ids existing.nodes) ≡ false
  pub distinct_ids : has_duplicates (add_ids patch) ≡ false
  pub edges :
      check_each (check_edge (view_ids existing.nodes ++ add_ids patch)) patch.connect ≡ ok tt
  pub named :
      (x : String)
      → elem x (patch.cancel ++ patch.wait ++ patch.resume) ≡ true
      → elem x (view_ids existing.nodes ++ add_ids patch) ≡ true
  pub cancels :
      (x : String) (s : NodeState)
      → elem x patch.cancel ≡ true
      → view_state (find_view x existing.nodes) ≡ some s
      → is_open s ≡ true
  pub waits :
      (x : String) (s : NodeState)
      → elem x patch.wait ≡ true
      → view_state (find_view x existing.nodes) ≡ some s
      → (s =ₛ pending) ≡ true
  pub resumes :
      (x : String) (s : NodeState)
      → elem x patch.resume ≡ true
      → view_state (find_view x existing.nodes) ≡ some s
      → (s =ₛ waiting) ≡ true

no_common :
    (xs ids : List String) (x : String)
    → any (λ y. elem y ids) xs ≡ false
    → elem x xs ≡ true
    → elem x ids ≡ false
no_common [] ids x h m = absurd (ground arith)
no_common (y ∷ ys) ids x h m = elim (Bool-cases (x == y)) [
  | inl e ↦ rw ((eq_iff x y).0 e) (ground arith)
  | inr e ↦ no_common ys ids x (ground arith) (ground arith)
]

pub check_patch-Checked :
    (existing : GraphSnapshot) (patch : GraphPatch)
    → check_patch existing patch ≡ ok tt
    → Checked existing patch
unfolding check_patch check_wait check_resume
check_patch-Checked existing patch h =
    let (c1, h1) = then_check-ok _ _ h in
    let (c2, h2) = then_check-ok _ _ h1 in
    let (c3, h3) = then_check-ok _ _ h2 in
    let (c4, h4) = then_check-ok _ _ h3 in
    let (c5, h5) = then_check-ok _ _ h4 in
    let (c6, c7) = then_check-ok _ _ h5 in
    let e1 = ensure-ok _ _ c1 in
    let e2 = ensure-ok _ _ c2 in
    record {
      unfinished = ground arith;
      fresh_ids = λ x m. no_common (add_ids patch) (view_ids existing.nodes) x (ground arith) m;
      distinct_ids = ground arith;
      edges = c3;
      named = λ x m. ensure-ok _ (unknown_task x) (check_each-ok _ _ x c4 m);
      cancels =
          λ x s m v. check_cancel-open existing.nodes x s (check_each-ok _ patch.cancel x c5 m) v;
      waits = λ x s m v.
          check_state-eq pending (not_pending x) existing.nodes x s
            (check_each-ok _ patch.wait x c6 m) v;
      resumes = λ x s m v.
          check_state-eq waiting (not_waiting x) existing.nodes x s
            (check_each-ok _ patch.resume x c7 m) v;
    }
