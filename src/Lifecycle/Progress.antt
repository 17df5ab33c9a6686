-- ===== src/Lifecycle/Progress.antt =====
-- How far a run gets if nothing outside fails.
pub mod Cooperation
mod Preparation
mod Submission
mod Completion
mod Closed
pub mod Next
pub mod Approval
pub mod Together
pub mod Polling
