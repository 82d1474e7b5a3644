-- ===== src/Graph/Patch/Commit.antt =====
-- `apply_patch` of core/live_graph/store.py as a whole, and the states of the nodes after it.
use mathlib.Core.Option
use s13code.Prelude.{
  ℕ, String, ◌≡◌, true, false, ◌&&◌, ◌==◌, Option, ok, err, elem, any, if◌then◌else◌, ◌⊎◌, inl, inr,
}
use s13code.Graph.Types.{NodeState, GraphPatch, GraphError}
use s13code.Graph.Db.{Db, is_patch}
use s13code.Graph.Patch.{apply_patch, add_ids}
use s13code.Graph.Patch.Stages.{repeated, refused, committed, apply_patch_cases}
use s13code.Graph.Patch.Effect.{or_else, entry}
use s13code.Graph.Patch.Settle.{settle, settled}
use s13code.Graph.Keys.{Unique}
use s13code.Graph.Nodes.{state_in}

-- The state that the patch gives to a node, from the one it has, none for a node that is not there.
abbrev pub patched_state : String → GraphPatch → String → String → Db → Option NodeState
patched_state run patch run' nid db =
    Option.map (λ s. if run' == run then settle patch nid s else s)
      (or_else (state_in run' nid db.nodes) (entry (run' == run && elem nid (add_ids patch))))

-- If no two nodes share a key, then `apply_patch` either raises and changes nothing, or returns
-- False for a trigger that was used and changes nothing, or returns True for a trigger that was
-- not used, and then every identifier of every run has the state that `patched_state` computes
-- from the state before and the patch.
pub apply_patch_lem :
    (run : String) (patch : GraphPatch) (trigger : ℕ) (db : Db)
    → Unique db.nodes
    → ((e : GraphError) × (apply_patch run patch trigger db ≡ (err e, db)))
      ⊎ ((any (is_patch run trigger) db.patches ≡ true)
          × (apply_patch run patch trigger db ≡ (ok false, db)))
      ⊎ ((any (is_patch run trigger) db.patches ≡ false)
          × ((apply_patch run patch trigger db).0 ≡ ok true)
          × ((run' nid : String)
              → state_in run' nid (apply_patch run patch trigger db).1.nodes
                ≡ patched_state run patch run' nid db))
apply_patch_lem run patch trigger db u = elim (apply_patch_cases run patch trigger db) [
  | repeated used e ↦ inr (inl (used, e))
  | refused x e ↦ inl (x, e)
  | committed db' e a ↦ inr (
      inr (
        a.fresh,
        rw e,
        λ run' nid. rw e (settled run patch a.existing trigger db db' u a.stages run' nid),
      ))
]
