-- ===== src/Memory/Calls.antt =====
-- The calls that change the memory, as data: a history is a list of calls.
pub mod Authority
pub mod Versions
use s13code.Prelude.{Bool, List, [], ◌∷◌}
use s13code.Memory.Types.{MemoryRecord, Memory}
use s13code.Memory.Store
use s13code.Memory.Store.{Stamp}
use s13code.Memory.Ingest
use s13code.Memory.Ingest.{Ingestion}

pub data Call : Type 0 where
  write : Stamp → Bool → MemoryRecord → Call
  ingest_document : Ingestion → Call

-- The memory after the call, whether it returned or raised.
unfoldable pub step : Memory → Call → Memory
step m (write stamp with_audit r) = (Store.write stamp with_audit r m).1
step m (ingest_document c) = (Ingest.ingest_document c m).1

unfoldable pub steps : Memory → List Call → Memory
steps m [] = m
steps m (c ∷ cs) = steps (step m c) cs
