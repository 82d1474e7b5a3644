-- ===== src/Graph/Store/Ready.antt =====
-- The tasks that `ready` of core/live_graph/store.py gives.
use mathlib.Core.List.Memᴰ
use s13code.Prelude.{
  ℕ, ◌≤◌, ◌<◌, String, ◌≡◌, ◌∙◌, true, false, not, ◌&&◌, ◌==◌, List, Memᴰ, arith, eq_iff, inl, inr,
  length, take, filter, sort_by, any, length-take-le, Bool-cases,
}
use s13code.Prelude.Members.{
  Memᴰ-filter, Memᴰ-sort_by, Memᴰ-take, take_all, any-false, any-true, all-not-any, length-map,
}
use s13code.Graph.Types.{TaskSpec, NodeState, pending, succeeded, ◌=ₛ◌}
use s13code.Graph.Db.{Db, NodeRow, EdgeRow, is_node}
use s13code.Graph.Store.{ready, is_ready, row_le, spec, unmet}

-- The node is pending, and each of its parents that is in the table has succeeded.
pub record Runnable (run : String) (db : Db) (n : NodeRow) : Type 0 where
  pub stored : Memᴰ n db.nodes
  pub here : n.run_id ≡ run
  pub waits : n.state ≡ pending
  pub parents :
      (e : EdgeRow) (p : NodeRow)
      → Memᴰ e db.edges
      → Memᴰ p db.nodes
      → e.run_id ≡ run
      → e.child_id ≡ n.id
      → p.run_id ≡ run
      → p.id ≡ e.parent_id
      → p.state ≡ succeeded

state_eq : (s t : NodeState) → (s =ₛ t) ≡ true → s ≡ t
state_eq s t h = ground arith

unmet-false :
    (run : String) (db : Db) (n : NodeRow) (e : EdgeRow) (p : NodeRow)
    → unmet db n e ≡ false
    → Memᴰ p db.nodes
    → n.run_id ≡ run
    → e.run_id ≡ run
    → e.child_id ≡ n.id
    → p.run_id ≡ run
    → p.id ≡ e.parent_id
    → p.state ≡ succeeded
unmet-false run db n e p h m nr er ec pr pi = elim (Bool-cases (p.state =ₛ succeeded)) [
  | inl s ↦ state_eq p.state succeeded s
  | inr s ↦
      let blocked =
        any-true (λ (q : NodeRow). is_node e.run_id e.parent_id q && not (q.state =ₛ succeeded)) p
          db.nodes m (ground (arith, eq_iff p.run_id e.run_id, eq_iff p.id e.parent_id)) in
      absurd (ground (arith, eq_iff e.run_id n.run_id, eq_iff e.child_id n.id))
]

is_ready-Runnable :
    (run : String) (db : Db) (n : NodeRow)
    → Memᴰ n db.nodes
    → is_ready run db n ≡ true
    → Runnable run db n
is_ready-Runnable run db n m h =
    let here : n.run_id ≡ run = ground (arith, eq_iff n.run_id run) in
    let free : any (unmet db n) db.edges ≡ false = ground arith in
    record {
      stored = m;
      here = here;
      waits = state_eq n.state pending (ground arith);
      parents = λ e p me mp er ec pr pi.
          unmet-false run db n e p (any-false (unmet db n) e db.edges free me) mp here er ec pr pi;
    }

met :
    (run : String) (db : Db) (n : NodeRow) (e : EdgeRow)
    → Runnable run db n
    → Memᴰ e db.edges
    → unmet db n e ≡ false
met run db n e r me = elim (Bool-cases (e.run_id == n.run_id && e.child_id == n.id)) [
  | inl k ↦
      let er : e.run_id ≡ n.run_id = ground (arith, eq_iff e.run_id n.run_id) in
      let ec : e.child_id ≡ n.id = ground (arith, eq_iff e.child_id n.id) in
      rw (passed er ec) (ground arith)
  | inr k ↦ ground arith
]
  where
    passed :
        e.run_id ≡ n.run_id
        → e.child_id ≡ n.id
        → any
            (λ (p : NodeRow). is_node e.run_id e.parent_id p && not (p.state =ₛ succeeded))
            db.nodes
          ≡ false
    passed er ec = all-not-any _ db.nodes λ p mp.
        elim (Bool-cases (is_node e.run_id e.parent_id p)) [
          | inl k ↦
              let s =
                r.parents e p me mp (er ∙ r.here) ec
                  (ground (arith, eq_iff p.run_id e.run_id, r.here))
                  (ground (arith, eq_iff p.id e.parent_id)) in
              ground arith
          | inr k ↦ rw k
        ]

Runnable-is_ready :
    (run : String) (db : Db) (n : NodeRow) → Runnable run db n → is_ready run db n ≡ true
Runnable-is_ready run db n r =
    rw (all-not-any (unmet db n) db.edges (λ e me. met run db n e r me))
      (ground (arith, eq_iff n.run_id run, r.here, r.waits))

-- `ready` gives at most `limit` tasks, each the specification of a pending node of the run all of
-- whose stored parents have succeeded, and if it gives fewer than `limit` then it gives every
-- such node's.
pub ready_lem :
    (run : String) (limit : ℕ) (db : Db)
    → (length (ready run limit db) ≤ limit)
      × ((t : TaskSpec)
          → Memᴰ t (ready run limit db)
          → (n : NodeRow) × Runnable run db n × (spec n ≡ t))
      × (length (ready run limit db) < limit
          → (n : NodeRow) → Runnable run db n
          → Memᴰ (spec n) (ready run limit db))
unfolding ready
ready_lem run limit db = (
  rw (length-map spec chosen) (length-take-le limit sorted),
  λ t m.
      let (n, mn, e) = Memᴰ.of_map spec chosen m in
      let in_table =
        (Memᴰ-filter (is_ready run db) n db.nodes).0
          ((Memᴰ-sort_by row_le n candidates).0 (Memᴰ-take limit n sorted mn)) in
      (n, is_ready-Runnable run db n in_table.0 in_table.1, e),
  λ short n r. rw (take_all limit sorted (rw (length-map spec chosen) at short)) (
      Memᴰ.map spec (
        (Memᴰ-sort_by row_le n candidates).1
          ((Memᴰ-filter (is_ready run db) n db.nodes).1 (r.stored, Runnable-is_ready run db n r)))),
)
  where
    candidates : List NodeRow
    candidates = filter (is_ready run db) db.nodes

    sorted : List NodeRow
    sorted = sort_by row_le candidates

    chosen : List NodeRow
    chosen = take limit sorted
