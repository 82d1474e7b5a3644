-- ===== src/Graph/Snapshot.antt =====
-- A snapshot of a run beside the tables of core/live_graph/store.py.
use s13code.Prelude.{
  String, ◌≡◌, refl, ◌∙◌, ap, false, ◌==◌, Option, none, some, List, [], ◌∷◌, arith, eq_iff,
  if◌then◌else◌, ok, sort_by, insert_by, text_le, text_le_refl, Bool-cases, inl, inr,
}
use s13code.Graph.Types.{NodeState, NodeView, GraphSnapshot}
use s13code.Graph.Db.{NodeRow, Db}
use s13code.Graph.Store.{snapshot, view_le, views_of, is_finished}
use s13code.Graph.Patch.{find_view}
use s13code.Graph.Nodes.{state_in}

abbrev pub view_state : Option NodeView → Option NodeState
view_state none = none
view_state (some v) = some v.state

find_view-insert :
    (nid : String) (x : NodeView) (ys : List NodeView)
    → find_view nid (insert_by view_le x ys) ≡ (if x.id == nid then some x else find_view nid ys)
find_view-insert nid x [] = refl
find_view-insert nid x (y ∷ ys) = elim (Bool-cases (view_le x y)) [
  | inl e ↦ rw e
  | inr e ↦
      rw e (ground (arith, find_view-insert nid x ys, eq_iff x.id nid, eq_iff y.id nid, later e))
]
  where
    later : view_le x y ≡ false → x.id ≡ nid → y.id ≡ nid → ⊥
    later e p q = cc (ap (λ a. text_le a y.id) p, ap (text_le nid) q, text_le_refl nid, e)

find_view-sort :
    (nid : String) (vs : List NodeView) → find_view nid (sort_by view_le vs) ≡ find_view nid vs
find_view-sort nid [] = refl
find_view-sort nid (v ∷ vs) =
    find_view-insert nid v (sort_by view_le vs) ∙ rw (find_view-sort nid vs)

find_view-views_of :
    (run nid : String) (ns : List NodeRow)
    → view_state (find_view nid (views_of run ns)) ≡ state_in run nid ns
find_view-views_of run nid [] = refl
find_view-views_of run nid (n ∷ ns) = ground (arith, find_view-views_of run nid ns)

pub snapshot-state :
    (run : String) (db : Db) (g : GraphSnapshot)
    → snapshot run db ≡ ok g
    → (nid : String) → view_state (find_view nid g.nodes) ≡ state_in run nid db.nodes
unfolding snapshot
snapshot-state run db g h nid =
    let e : g.nodes ≡ sort_by view_le (views_of run db.nodes) = ground arith in
    rw (e, find_view-sort nid (views_of run db.nodes)) (find_view-views_of run nid db.nodes)

pub snapshot-finished :
    (run : String) (db : Db) (g : GraphSnapshot)
    → snapshot run db ≡ ok g
    → g.finished ≡ is_finished run db
unfolding snapshot is_finished
snapshot-finished run db g h = ground arith
