-- ===== src/Lifecycle.antt =====
-- The life of one Kubeconfig as its users see it: a small machine of stages, which the two controllers
-- implement on any API server that keeps what it is given.
pub mod Stages
pub mod Server
pub mod Copies
mod Secrets
mod Creation
mod Requests
mod Verdicts
mod Endings
mod Flags
mod Approvals
mod Decisions
mod Admission
pub mod Refinement
pub mod Bounds
pub mod Progress
