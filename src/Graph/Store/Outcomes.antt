-- ===== src/Graph/Store/Outcomes.antt =====
-- `record_outcome` and `resume` of core/live_graph/store.py, on the states of the tasks.
use mathlib.Core.Option
use s13code.Prelude.{
  suc, String, ◌≡◌, refl, Bool, true, false, ◌==◌, none, some, List, [], ◌∷◌, arith, eq_iff,
  if◌then◌else◌, ok, err, ◌⊎◌, inl, inr, Bool-cases, eq_self,
}
use s13code.Json.{Fields}
use s13code.Graph.Types.{NodeState, pending, running, ◌=ₛ◌, not_running, key_error}
use s13code.Graph.Db.{Db, NodeRow, is_node, has_run, insert_event, set_state}
use s13code.Graph.Store.{
  record_outcome, resume, rowcount, in_state, node_in_state, outcome_state, outcome_kind,
}
use s13code.Graph.Keys.{Unique}
use s13code.Graph.Nodes.{state_in, swap_state, state_in-set_result, state_in-in_state}

rowcount-absent :
    (run nid : String) (s : NodeState) (ns : List NodeRow)
    → state_in run nid ns ≡ none
    → rowcount (node_in_state run nid s) ns ≡ 0
unfolding rowcount
rowcount-absent run nid s [] h = refl
rowcount-absent run nid s (n ∷ ns) h = ground (arith, rowcount-absent run nid s ns)

-- The state is `s` and the statement meets one row, or it is not and it meets none.
rowcount_lem :
    (run nid : String) (s : NodeState) (ns : List NodeRow)
    → Unique ns
    → ((state_in run nid ns ≡ some s) × (rowcount (node_in_state run nid s) ns ≡ 1))
      ⊎ (¬ (state_in run nid ns ≡ some s) × (rowcount (node_in_state run nid s) ns ≡ 0))
unfolding rowcount
rowcount_lem run nid s [] u = inr (λ e. absurd (ground arith), refl)
rowcount_lem run nid s (n ∷ ns) u = elim (Bool-cases (is_node run nid n)) [
  | inl e ↦
      let away : state_in run nid ns ≡ none =
        ground (arith, u.0, eq_iff n.run_id run, eq_iff n.id nid) in
      let zero_rows = rowcount-absent run nid s ns away in
      elim (Bool-cases (n.state =ₛ s)) [
        | inl k ↦ inl (ground arith, ground arith)
        | inr k ↦ inr (λ same. absurd (ground arith), ground arith)
      ]
  | inr e ↦ elim (rowcount_lem run nid s ns u.1) [
    | inl (a, b) ↦ inl (rw e a, rw e b)
    | inr (a, b) ↦ inr (rw e a, rw e b)
  ]
]

-- If no two nodes share a key and the run exists, then `record_outcome` for a running task
-- returns the event with the outcome's kind, the next sequence number and the payload, and the
-- task has succeeded or failed by the flag; for any other task it raises and changes nothing.
pub record_outcome_lem :
    (run nid : String) (success : Bool) (payload : Fields) (db : Db)
    → Unique db.nodes
    → has_run run db ≡ true
    → ((state_in run nid db.nodes ≡ some running)
        × ((record_outcome run nid success payload db).0
            ≡ ok (record {
              sequence = suc db.last_sequence;
              kind = outcome_kind success;
              node_id = some nid;
              payload = payload;
            }))
        × (state_in run nid (record_outcome run nid success payload db).1.nodes
            ≡ some (outcome_state success)))
      ⊎ (¬ (state_in run nid db.nodes ≡ some running)
          × (record_outcome run nid success payload db ≡ (err (not_running nid), db)))
unfolding record_outcome insert_event
record_outcome_lem run nid success payload db u h = elim (rowcount_lem run nid running db.nodes u) [
  | inl (e, k) ↦ inl (
    e,
    rw (k, h),
    rw (k, h)
        (rw (
          state_in-set_result run nid run nid running (outcome_state success) payload db.nodes,
          e,
          eq_self run,
          eq_self nid,
        )),
  )
  | inr (e, k) ↦ inr (e, rw k)
]

resume-known :
    (run : String) (db : Db)
    → has_run run db ≡ true
    → ((resume run db).0 ≡ ok tt)
      × ((resume run db).1.nodes ≡ set_state (in_state run running) pending db.nodes)
unfolding resume insert_event
resume-known run db e = (ground arith, ground arith)

-- `resume` of a known run returns, puts the run's running tasks back to pending and keeps every
-- other state, of this run and of others; for an unknown run it raises and changes nothing.
pub resume_lem :
    (run : String) (db : Db)
    → ((has_run run db ≡ true)
        × ((resume run db).0 ≡ ok tt)
        × ((run' nid : String)
            → state_in run' nid (resume run db).1.nodes
              ≡ Option.map
                  (λ s. if run' == run then swap_state running pending s else s)
                  (state_in run' nid db.nodes)))
      ⊎ ((has_run run db ≡ false) × (resume run db ≡ (err (key_error run), db)))
unfolding resume insert_event
resume_lem run db = elim (Bool-cases (has_run run db)) [
  | inl e ↦
      let (done, nodes) = resume-known run db e in
      inl (e, done, λ run' nid. rw nodes (state_in-in_state run' nid run running pending db.nodes))
  | inr e ↦ inr (e, rw e)
]
