-- ===== src/Controllers/Errors.antt =====
-- Which failures of the API server a run of the Kubeconfig controller reports: a vocabulary for traces.
mod Steps
mod Endings
pub mod Runs
use kubeconfig_operator.Base.{Option, none, some, List, [], ◌∷◌, ◌≡◌, if◌then◌else◌}
use kubeconfig_operator.K8s.{Error}
use kubeconfig_operator.Platform.{Platform}
use kubeconfig_operator.Effects.{
  Effect, World, kubeconfig_get, secret_get, csr_get, binding_get, config_map_get, secret_create,
  secret_update, csr_create, csr_status_update, csr_approval_update, binding_create,
  kubeconfig_status_update, event,
}
use kubeconfig_operator.Effects.Ends.{Exit, returns, panics, Occurs}

-- The error with which the API server answered.
abbrev pub error_of : Effect → Option Error
error_of (kubeconfig_get n r) = r.err
error_of (secret_get n r) = r.err
error_of (csr_get n r) = r.err
error_of (binding_get n r) = r.err
error_of (config_map_get n r) = r.err
error_of (secret_create x r) = r.err
error_of (secret_update x r) = r.err
error_of (csr_create x r) = r.err
error_of (csr_status_update x r) = r.err
error_of (csr_approval_update x r) = r.err
error_of (binding_create x r) = r.err
error_of (kubeconfig_status_update x r) = r.err
error_of (event t r m) = none

module _ (P : Platform) where
  abbrev pub unless_missing : Option Error → Option Error
  unless_missing e = if P.is_not_found e then none else e

  -- The error, but not that of an object that is not there, nor that of the write of a status.
  abbrev pub failure : Effect → Option Error
  failure (kubeconfig_get n r) = unless_missing r.err
  failure (secret_get n r) = unless_missing r.err
  failure (csr_get n r) = unless_missing r.err
  failure (binding_get n r) = unless_missing r.err
  failure (config_map_get n r) = r.err
  failure (secret_create x r) = r.err
  failure (secret_update x r) = r.err
  failure (csr_create x r) = r.err
  failure (csr_status_update x r) = r.err
  failure (csr_approval_update x r) = r.err
  failure (binding_create x r) = r.err
  failure (kubeconfig_status_update x r) = none
  failure (event t r m) = none

  -- Nothing failed.
  abbrev pub IsClean : List Effect → Type 0
  IsClean [] = Unit {0}
  IsClean (e ∷ es) = (failure e ≡ none) × IsClean es

  -- An error that is returned is one of the API server's. Where none is returned, nothing failed.
  abbrev pub Reports : Exit → World P.State → Type 0
  Reports (returns r none) w = IsClean w.effects
  Reports (returns r (some e)) w = Occurs (λ f. error_of f ≡ some e) w.effects
  Reports panics w = IsClean w.effects
