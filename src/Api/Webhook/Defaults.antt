-- ===== src/Api/Webhook/Defaults.antt =====
-- What the defaulting webhook leaves, and what it leaves alone.
use kubeconfig_operator.Base.{
  String, Bool, true, false, not, Option, none, some, ◌≡◌, refl, ◌⊎◌, inl, inr, ◌==◌, is_some,
  get_or, Bool-cases, arith,
}
use kubeconfig_operator.K8s.{RoleRef}
use kubeconfig_operator.Api.Types.{Kubeconfig, Cluster, CertificateSigningRequest}
use kubeconfig_operator.Api.Conditions.{
  condition_type_csr_created, condition_type_csr_approved, condition_type_user_secret_created,
  condition_type_user_secret_finished, condition_type_kubeconfig_finished, phase_pending,
}
use kubeconfig_operator.Platform.{Platform}
use kubeconfig_operator.Effects.{World, pure, value}
use kubeconfig_operator.Effects.Ends.{Ends, Ends-bind_run}
use kubeconfig_operator.Utils.{cluster_endpoint}
use kubeconfig_operator.Api.Webhook.Blocks.{contains, defaulted_types, Added}
use kubeconfig_operator.Api.Webhook.{
  default, default_cluster, default_name, no_cluster, server_or_default,
}

module _ (P : Platform) where
  -- Every part of the object that the other components read through a pointer is there.
  pub record HasDefaults (k : Kubeconfig) : Type 0 where
    pub cluster : Cluster
    pub has_cluster : k.spec.cluster ≡ some cluster
    pub name_set : (cluster.name == "") ≡ false
    pub role_ref : RoleRef
    pub has_role_ref : k.spec.role_ref ≡ some role_ref
    pub csr : CertificateSigningRequest
    pub has_csr : k.spec.csr ≡ some csr
    pub algorithm_set : (csr.signature_algorithm == "") ≡ false
    pub pending : k.status.status ≡ phase_pending

  default_name-set : (c : Cluster) → ((default_name c).name == "") ≡ false
  unfolding default_name
  default_name-set c = elim (Bool-cases (c.name == "")) [
    | inl empty ↦ rw empty
    | inr given ↦ rw given given
  ]

  cluster_endpoint_total :
      (w : World P.State) → Ends (λ _ _. Unit {0}) (λ _ _. ⊥) (cluster_endpoint P w)
  unfolding cluster_endpoint
  cluster_endpoint_total w = tt

  pub default_cluster-name :
      (o : Option Cluster) (w : World P.State)
      → Ends (λ c v. (c.name == "") ≡ false) (λ _ _. ⊥) (default_cluster P o w)
  unfolding default_cluster
  default_cluster-name o w = elim (Bool-cases ((get_or o no_cluster).server == "")) [
    | inl empty ↦ rw empty (
        Ends-bind_run (λ _ _. Unit {0}) (λ (c : Cluster) v. (c.name == "") ≡ false) (λ _ _. ⊥)
          (cluster_endpoint P w)
          (λ ep.
            pure (default_name (record (get_or o no_cluster) { server = server_or_default ep })))
          (cluster_endpoint_total w)
          λ ep v _.
            default_name-set (record (get_or o no_cluster) { server = server_or_default ep }))
    | inr given ↦ rw given (default_name-set (get_or o no_cluster))
  ]

  abbrev has_algorithm : Option CertificateSigningRequest → Bool
  has_algorithm none = false
  has_algorithm (some c) = not (c.signature_algorithm == "")

  -- What the webhook makes of `k`.
  pub record Defaulted (k k' : Kubeconfig) : Type 0 where
    pub defaults : HasDefaults k'
    pub conditions : Added P defaulted_types k.status.conditions k'.status.conditions
    pub same_meta : k'.meta ≡ k.meta
    pub same_username : k'.spec.username ≡ k.spec.username
    pub same_existing_csr : k'.spec.existing_csr ≡ k.spec.existing_csr
    pub same_auto_approve : k'.spec.auto_approve_csr ≡ k.spec.auto_approve_csr
    pub same_role_ref : (k.spec.role_ref ≡ none) ⊎ (k'.spec.role_ref ≡ k.spec.role_ref)
    pub same_csr : (has_algorithm k.spec.csr ≡ false) ⊎ (k'.spec.csr ≡ k.spec.csr)

  -- An object that already has a named cluster with a server, a role reference, an algorithm, the
  -- phase "Pending" and a condition of each of the five types passes the webhook unchanged, and
  -- the world does too: no request is sent.
  pub default_again :
      (k : Kubeconfig) (w : World P.State) (d : HasDefaults k)
      → (d.cluster.server == "") ≡ false
      → ((t : String)
          → contains defaulted_types t ≡ true
          → is_some (P.find_status_condition k.status.conditions t) ≡ true)
      → default P k w ≡ value k w
  unfolding default
  default_again k w d server known = ground (
    arith,
    known condition_type_csr_created refl,
    known condition_type_csr_approved refl,
    known condition_type_user_secret_created refl,
    known condition_type_user_secret_finished refl,
    known condition_type_kubeconfig_finished refl,
  )
