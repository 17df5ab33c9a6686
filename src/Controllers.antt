-- ===== src/Controllers.antt =====
-- Package controllers (controllers/): the two reconcilers and the objects that they create.
pub mod Csr
pub mod Keys
pub mod Resources
pub mod Kubeconfig
pub mod Safety
pub mod Frames
pub mod Errors
pub mod Panics
pub mod Outcomes
