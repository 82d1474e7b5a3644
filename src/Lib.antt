-- ===== src/Lib.antt =====
-- S13Code, an agent runtime (s13code/): a planner grows a durable task graph while workers run
-- its tasks. This library models the code in antt and proves what makes it correct.
--
-- Json.antt: the JSON values of the text columns. Prelude.antt: tests, lists and results that the
-- components share.
--
-- Graph.antt, for s13code/core/live_graph/: Graph/Types (the data of core.py), Graph/Db (the
-- SQLite tables of store.py as lists, and the statements that its methods share; a transaction is
-- a state-passing function whose error rolls the tables back), Graph/Store (the methods of
-- GraphStore), Graph/Patch (apply_patch: its checks, then its statements), Graph/Cycle
-- (_has_cycle), Graph/Calls (the calls that change the database, as data, so that a history is a
-- list of calls). The files below these hold the proofs about the part that they are named for;
-- Graph/Nodes, Graph/Keys and Graph/Snapshot hold the lemmas that they share.
--
-- Graph/Executor, for LiveGraphExecutor of core.py: the state is the tables, the tasks in flight,
-- the executed ones and the futures that were asked to cancel; a tick says which workers have
-- ended when asyncio.wait returns and how, so that every interleaving of the workers is a list of
-- ticks. The planner and the registry of skills are arguments. A run goes over the ticks that it
-- is given; after the last one it still waits. Graph/Executor/Sound, Rounds, Launch, Turns, Loops
-- and Runs carry its invariant through the loop, and Results follows one worker's ending. Other
-- coroutines that change the same run while one of its awaits is pending are not modelled.
--
-- Memory.antt, for s13code/core/memory/: Memory/Types (models.py, and the tables of store.py),
-- Memory/Store (write), Memory/Recall (_scope_where and recall), Memory/Ingest (ingest_document),
-- Memory/Calls (writes and ingestions as data). An exception of write leaves the tables as they
-- are, one of ingest_document rolls them back. The rank of a record in recall, the hash function,
-- the clock, the new identifiers, and what Python's int and SQLite's comparisons make of the
-- values in a record's metadata are arguments; embeddings and the vector index are caches and are
-- left out.
--
-- Chunking.antt, for s13code/core/memory/chunking.py: Chunking/Text (Python's text operations on
-- code points: strip, find, split, slices), Chunking/Markdown (headings, fences, tables,
-- prepare_markdown; each regular expression is a scan that starts where a line begins),
-- Chunking/Blocks (the segmenter, and a block within the word budget), Chunking/Segments
-- (semantic_chunks, with one round of its loop as a function from pending_start to a piece and
-- the next pending_start), Chunking/Words (fixed_word_chunks, _take_words). The loop runs on fuel
-- for the length of the text and one more, enough because a round moves on by a character at
-- least. Chunking/Slices, Structure, Bounds, Settled, Rounds, Tiles and Suffix hold the proofs.
--
-- Planner.antt, for s13code/planner.py: Planner/Parse (_parse, on the value that json.loads
-- gives), Planner/Plan (plan, with the reply of the model as an argument), Planner/Tasks and
-- Planner/Safe (proofs). Runtime.antt, for s13code/runtime.py: Runtime/Intent (_work_intent, on
-- what its regular expressions find), Runtime/Pieces and Runtime/Plans (DeterministicPlanner: its
-- tests and tasks, and its chain of early returns), Runtime/Recalled (the worker recall behind
-- the store), Runtime/Evidence (the worker answer up to its prompt). Its patches are those that
-- Graph/Patch checks and that the planner argument of Graph/Executor gives. Values of worker
-- results are read as the workers of this file write them: texts, numbers and lists.
--
-- A2a.antt, for s13code/core/a2a_adapter/: A2a/Server (for server.py: the tasks of A2ADemoServer
-- and the table of DurableTaskStore; a step is what a coroutine does between two awaits, so that
-- an interleaving is a list of steps; the identifiers, the clock, the handler's answer and the
-- test of the text for a slow task are data of the steps), A2a/Push (the delivery ledger and the
-- retries of _notify; what a POST answers is an argument, and the waiting between attempts is
-- left out). A2a/Cards: negotiate_interface of schema.py and the trust policy of trust.py, for
-- headers that decode to an object or not at all; the SDK's validation, the decoding, the
-- resolver of keys and the check of a signature are arguments. A2a/PushConfigs:
-- DurablePushConfigs of official.py, and A2a/PushConfigs/Stored its abstract view, a map from
-- identifiers. A2a/Transports: the tests of credentials and the dispatch of rpc (server.py) and
-- of OfficialA2AServicer (official.py), on the machine of A2a/Server. A2a/Bridge: A2AGraphBridge
-- of official.py on the tables of Graph, with the remote tasks as arguments.
--
-- Bounds: `_has_cycle` recurses on fuel, two more than the number of parents; Graph/Cycle/Total
-- shows that it suffices for any edges. Python's own recursion limit is not modelled. Sequence
-- numbers are unbounded naturals. The table rows stand in insertion order; ORDER BY is a stable
-- sort on the texts.
--
-- Tests/ holds runs at concrete inputs.
--
-- Not modelled: the embeddings and the vector index (s13code/core/memory/embeddings.py,
-- vector_index.py), which compute with floating-point vectors and a remote model, and the query
-- text of audit_events; the tools, the gateway and the HTTP routes (s13code/tools.py, gateway.py,
-- routes.py, a2a_routes.py, main.py, cli.py), which read files and call services; the client, the
-- older binding of grpc_binding.py, and the generated a2a_s13_pb2.py and a2a_s13_pb2_grpc.py; the
-- workers of runtime.py that only call a tool or the model; connections, locks and the migration
-- of columns.
pub mod Prelude
pub mod Json
pub mod Graph
pub mod Chunking
pub mod Memory
pub mod A2a
pub mod Planner
pub mod Runtime
pub mod Tests
