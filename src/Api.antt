-- ===== src/Api.antt =====
-- Package v1alpha1 (api/v1alpha1): the custom resource, its condition types, its webhooks and its deep
-- copies.
pub mod Types
pub mod Conditions
mod Equality
pub mod Webhook
pub mod Memory
pub mod DeepCopy
