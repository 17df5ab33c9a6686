-- ===== src/Tests.antt =====
-- Runs and examples on a small cluster that is held in memory.
mod Cluster
mod Laws
mod Names
mod Cooperation
mod Admission
mod Runs
mod Files
mod Lives
mod Starts
mod Copies
mod Failures
mod Interleavings
