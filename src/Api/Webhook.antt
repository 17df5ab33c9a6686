-- ===== src/Api/Webhook.antt =====
-- api/v1alpha1/kubeconfig_webhook.go: the defaulting and the validating webhook. Both are called
-- with a `Kubeconfig`, so that the type assertion succeeds.
pub mod Blocks
pub mod Defaults
pub mod Immutable
use kubeconfig_operator.Base.{
  String, not, Option, none, some, List, [], ◌∷◌, ◌++◌, ◌==◌, if◌then◌else◌, is_some, get_or,
}
use kubeconfig_operator.K8s.{Error, Condition, RoleRef, Fallible, ok, failed}
use kubeconfig_operator.Platform.{Platform, Forbidden}
use kubeconfig_operator.Effects.{M, pure, step, ◌>>=◌}
use kubeconfig_operator.Utils.{cluster_endpoint}
use kubeconfig_operator.Api.Types.{
  Kubeconfig, Cluster, CertificateSigningRequest, no_additional_fields, sha256_with_rsa,
}
use kubeconfig_operator.Api.Equality.{csr_beq, secret_ref_beq}
use kubeconfig_operator.Api.Conditions.{
  condition_type_csr_created, condition_type_csr_approved, condition_type_user_secret_created,
  condition_type_user_secret_finished, condition_type_kubeconfig_finished, condition_unknown,
  phase_pending,
}

abbrev pub default_server : String
default_server = "https://localhost:6443"

abbrev pub default_role_ref : RoleRef
default_role_ref = record {
  api_group = "rbac.authorization.k8s.io";
  kind = "ClusterRole";
  name = "cluster-admin";
}

abbrev no_cluster : Cluster
no_cluster = record { name = ""; server = "" }

server_or_default : Fallible String → String
server_or_default (ok ep) = ep
server_or_default (failed e) = default_server

default_name : Cluster → Cluster
default_name c = if c.name == "" then record c { name = "kubernetes" } else c

-- A missing request is the default one; an empty algorithm is replaced.
default_algorithm : CertificateSigningRequest → CertificateSigningRequest
default_algorithm c =
    if c.signature_algorithm == "" then record c { signature_algorithm = sha256_with_rsa } else c

default_csr : Option CertificateSigningRequest → CertificateSigningRequest
unfolding default_algorithm
default_csr o = default_algorithm (
    get_or o
      (record { signature_algorithm = sha256_with_rsa; additional_fields = no_additional_fields }))

module _ (P : Platform) where
  unfoldable pub default_cluster : Option Cluster → M P.State Cluster
  unfolding server_or_default default_name
  default_cluster o =
      let c : Cluster = get_or o no_cluster in
      if c.server == ""
      then (do
        ep ← cluster_endpoint P
        pure (default_name (record c { server = server_or_default ep })))
      else pure (default_name c)

  -- One of the five blocks that append a condition in state "Unknown".
  unfoldable pub append_unknown : String → List Condition → M P.State (List Condition)
  append_unknown t cs = if is_some (P.find_status_condition cs t) then pure cs else (do
    now ← step P.now
    pure (
        cs
        ++ (record {
          type = t;
          status = condition_unknown;
          last_transition_time = some now;
          reason = "Unknown";
          message = "n/a";
        }
            ∷ [])))

  unfoldable pub default_conditions : List Condition → M P.State (List Condition)
  default_conditions c₀ = do
    c₁ ← append_unknown condition_type_csr_created c₀
    c₂ ← append_unknown condition_type_csr_approved c₁
    c₃ ← append_unknown condition_type_user_secret_created c₂
    c₄ ← append_unknown condition_type_user_secret_finished c₃
    append_unknown condition_type_kubeconfig_finished c₄

  -- `Default` returns nil on every path: what counts is the object that it leaves.
  unfoldable pub default : Kubeconfig → M P.State Kubeconfig
  unfolding default_cluster default_conditions append_unknown default_csr
  default k = do
    cluster ← default_cluster k.spec.cluster
    conditions ← default_conditions k.status.conditions
    pure (record k {
      spec = record (k.spec) {
        cluster = some cluster;
        role_ref = some (get_or k.spec.role_ref default_role_ref);
        csr = some (default_csr k.spec.csr);
      };
      status = record (k.status) { conditions = conditions; status = phase_pending };
    })

  -- One error for each immutable field that changed.
  immutable_errors : Kubeconfig → Kubeconfig → List Forbidden
  immutable_errors old new =
      (if not (secret_ref_beq old.spec.existing_csr new.spec.existing_csr)
        then record {
          path = "spec" ∷ "existingCSR" ∷ [];
          detail = ".spec.existingCSR is immutable";
        }
          ∷ []
        else [])
      ++ (if not (csr_beq old.spec.csr new.spec.csr)
          then record { path = "spec" ∷ "CSR" ∷ []; detail = ".spec.csr is immutable" } ∷ []
          else [])

  -- `len(allErrs) == 0` accepts.
  verdict : String → List Forbidden → Option Error
  verdict name [] = none
  verdict name (e ∷ es) =
      some
        (P.new_forbidden "kubeconfig.k8s.zoomoid.dev" "Kubeconfig" name (P.to_aggregate (e ∷ es)))

  unfoldable pub validate_update : Kubeconfig → Kubeconfig → Option Error
  unfolding immutable_errors verdict
  validate_update old new = verdict old.meta.name (immutable_errors old new)

  unfoldable pub validate_create : Kubeconfig → Option Error
  validate_create k = none

  unfoldable pub validate_delete : Kubeconfig → Option Error
  validate_delete k = none
