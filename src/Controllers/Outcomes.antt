-- ===== src/Controllers/Outcomes.antt =====
-- What whole runs of the two controllers come to.
pub mod Terminal
pub mod AutoApprove
pub mod Submission
pub mod Completion
pub mod File
