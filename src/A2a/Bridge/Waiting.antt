-- ===== src/A2a/Bridge/Waiting.antt =====
-- The node that a call of `A2AGraphBridge` in core/a2a_adapter/official.py resumes.
use mathlib.Core.Option
use s13code.Prelude.{
  ℕ, String, Bool, true, false, ◌&&◌, ◌==◌, Option, none, some, List, [], ◌∷◌, ◌≡◌, refl, sym, ap,
  ◌∙◌, subst, ◌⊎◌, inl, inr, arith, eq_iff, Outcome, ok, err, Bool-cases, if◌then◌else◌,
}
use s13code.Graph.Types.{NodeState, pending, waiting, ◌=ₛ◌, Event, GraphError}
use s13code.Graph.Db.{Db, NodeRow, find_node, is_node}
use s13code.Graph.Keys.{Unique}
use s13code.Graph.Nodes.{state_in}
use s13code.Graph.Store.{node_state, state_of, record_external_event}
use s13code.Graph.Patch.{apply_patch}
use s13code.Graph.Patch.Effect.{or_else, entry}
use s13code.Graph.Patch.Settle.{settle}
use s13code.Graph.Patch.Commit.{apply_patch_lem}
use s13code.Graph.Calls.States.{record_external_event-nodes}
use s13code.A2a.Bridge.{
  RemoteTask, remote_payload, resume_patch, forget_answer, resume_if, after_event, finish_dispatch,
}

-- A node keeps its state, or it is the node of the bridge and goes from waiting to pending.
abbrev pub Resumes : String → String → Db → Db → Type 0
Resumes run node db db' =
    (run' nid : String)
    → (state_in run' nid db'.nodes ≡ state_in run' nid db.nodes)
      ⊎ ((run' ≡ run)
          × (nid ≡ node)
          × (state_in run' nid db.nodes ≡ some waiting)
          × (state_in run' nid db'.nodes ≡ some pending))

node_state_in :
    (run nid : String) (ns : List NodeRow) (s : NodeState)
    → state_of nid (find_node run nid ns) ≡ ok s
    → state_in run nid ns ≡ some s
node_state_in run nid [] s h = absurd (ground arith)
node_state_in run nid (n ∷ ns) s h = elim (Bool-cases (is_node run nid n)) [
  | inl e ↦ rw (e, state_in) (ground (arith, rw (e, find_node) at h))
  | inr e ↦ rw (e, state_in) (node_state_in run nid ns s (rw (e, find_node) at h))
]

-- What the patch makes of the state `o` of a node.
abbrev after_patch : String → String → String → String → Option NodeState → Option NodeState
after_patch run node run' nid o =
    Option.map (λ s. if run' == run then settle (resume_patch node) nid s else s)
      (or_else o (entry (run' == run && false)))

resumed :
    (run node run' nid : String) (o : Option NodeState)
    → ((run' ≡ run) → (nid ≡ node) → o ≡ some waiting)
    → (after_patch run node run' nid o ≡ o)
      ⊎ ((run' ≡ run)
          × (nid ≡ node)
          × (o ≡ some waiting)
          × (after_patch run node run' nid o ≡ some pending))
resumed run node run' nid o w = elim (Bool-cases (run' == run)) [
  | inr e ↦ inl (ground (arith, outside o, e))
  | inl e ↦
      let q : run' ≡ run = (eq_iff run' run).0 e in
      elim (Bool-cases (nid == node)) [
        | inl f ↦
            let r : nid ≡ node = (eq_iff nid node).0 f in
            let h : o ≡ some waiting = w q r in inr (q, r, h, rw (h, e, f) refl)
        | inr f ↦ inl (ground (arith, outside o, e, f))
      ]
]
  where
    outside : (o : Option NodeState) → Option.map (λ s. s) (or_else o (entry false)) ≡ o
    outside none = refl
    outside (some s) = refl

forget_answer-db : (o : Outcome GraphError Bool × Db) → (forget_answer o).1 ≡ o.1
forget_answer-db (ok applied, db) = refl
forget_answer-db (err e, db) = refl

module _ (run node : String) (db : Db) where
  unchanged : (d : Db) → d.nodes ≡ db.nodes → Resumes run node db d
  unchanged d e run' nid = inl (ap (state_in run' nid) e)

  apply_patch-Resumes :
      (d : Db) (n : ℕ)
      → d.nodes ≡ db.nodes
      → Unique db.nodes
      → state_in run node d.nodes ≡ some waiting
      → Resumes run node db (apply_patch run (resume_patch node) n d).1
  apply_patch-Resumes d n e u w =
      elim (apply_patch_lem run (resume_patch node) n d (subst Unique (sym e) u)) [
        | inl (x, q) ↦ rw q (unchanged d e)
        | inr (inl (used, q)) ↦ rw q (unchanged d e)
        | inr (inr (new, answer, states)) ↦ λ run' nid.
            let before : state_in run' nid d.nodes ≡ state_in run' nid db.nodes =
              ap (state_in run' nid) e in
            elim (resumed run node run' nid (state_in run' nid d.nodes) (λ p q. at run' nid p q)) [
              | inl same ↦ inl (states run' nid ∙ same ∙ before)
              | inr (p, q, was, now) ↦ inr (p, q, sym before ∙ was, states run' nid ∙ now)
            ]
      ]
    where
      at : (run' nid : String) → run' ≡ run → nid ≡ node → state_in run' nid d.nodes ≡ some waiting
      at run' nid p q = ap (λ x. state_in x nid d.nodes) p ∙ ap (λ x. state_in run x d.nodes) q ∙ w

  resume_if-Resumes :
      (o : Outcome GraphError NodeState) (event : Event) (d : Db)
      → node_state run node d ≡ o
      → d.nodes ≡ db.nodes
      → Unique db.nodes
      → Resumes run node db (resume_if o run node event d).1
  resume_if-Resumes (err x) event d h e u = unchanged d e
  resume_if-Resumes (ok s) event d h e u = elim (Bool-cases (s =ₛ waiting)) [
    | inr f ↦ rw (f, resume_if) (unchanged d e)
    | inl f ↦
        let w : state_in run node d.nodes ≡ some s =
          node_state_in run node d.nodes s (unfold node_state in h) in
        rw (f, resume_if)
          (subst (Resumes run node db)
            (sym (forget_answer-db (apply_patch run (resume_patch node) event.sequence d)))
            (apply_patch-Resumes d event.sequence e u (w ∙ ap some (is_waiting s f))))
  ]
    where
      is_waiting : (s : NodeState) → (s =ₛ waiting) ≡ true → s ≡ waiting
      is_waiting waiting f = refl
      is_waiting pending f = absurd (ground arith)
      is_waiting NodeState.running f = absurd (ground arith)
      is_waiting NodeState.succeeded f = absurd (ground arith)
      is_waiting NodeState.failed f = absurd (ground arith)
      is_waiting NodeState.cancelled f = absurd (ground arith)

  after_event-Resumes :
      (o : Outcome GraphError Event × Db)
      → o.1.nodes ≡ db.nodes
      → Unique db.nodes
      → Resumes run node db (after_event o run node).1
  after_event-Resumes (err x, d) e u = unchanged d e
  after_event-Resumes (ok event, d) e u = resume_if-Resumes (node_state run node d) event d refl e u

-- If no two nodes share a key, then when a remote subscription has ended the bridge leaves every
-- node of every run in its state, but for its own node where that is still waiting, which may
-- become pending.
pub finish_dispatch-Resumes :
    (run node : String) (final : RemoteTask) (db : Db)
    → Unique db.nodes
    → Resumes run node db (finish_dispatch run node final db).1
unfolding finish_dispatch
finish_dispatch-Resumes run node final db u =
    after_event-Resumes run node db
      (record_external_event run "a2a_task_completed" node (remote_payload final) db)
      (record_external_event-nodes run "a2a_task_completed" node (remote_payload final) db) u
