-- ===== src/Tests.antt =====
-- Concrete runs: the theorems at inputs where their hypotheses hold, and evaluations.
mod Metadata
mod Offsets
mod Messages
mod Topics
mod Streams
mod Connections
mod Merged
mod Blocks
mod Wire
mod Sets
mod Cluster
