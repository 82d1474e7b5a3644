-- ===== src/Graph/Executor/Results.antt =====
-- What the loop of `LiveGraphExecutor` in core/live_graph/core.py makes of the result of a worker.
use s13code.Prelude.{String, ◌≡◌, some, List}
use s13code.Graph.Types.{NodeState}
use s13code.Graph.Db.{Db}
use s13code.Graph.Store
use s13code.Graph.Patch
use s13code.Graph.Keys.{Unique}
use s13code.Graph.Nodes.{state_in}
use s13code.Graph.Calls
use s13code.Graph.Executor.{Config, Exec}

-- The outcome is in the tables and in the report.
record Recorded (c : Config) (nid : String) (s : NodeState) (done : List String) (x : Exec)
    : Type 0 where
  unique : Unique x.db.nodes
  there : state_in c.run_id nid x.db.nodes ≡ some s
  listed : x.executed ≡ done
