-- ===== src/Tests.antt =====
-- Runs of the definitions on concrete inputs, and the theorems applied to them.
mod PathRuns
mod StoreRuns
mod SampleCodec
mod JournalRuns
mod KeyRuns
mod CacheRuns
mod ChunkRuns
mod DepfileRuns
mod BuildRuns
mod Codes
mod NodeCodec
mod GraphCodec
mod WarmRuns
mod ManifestRuns
mod GraphRuns
mod ExecRuns
mod PlanRuns
