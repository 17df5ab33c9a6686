-- ===== src/Controllers/Safety.antt =====
-- What the requests of the two controllers rest on: a vocabulary for traces, newest first.
mod Secrets
mod Requests
mod Binding
pub mod Approval
pub mod Traces
use kubeconfig_operator.Base.{
  String, Bool, true, false, none, some, List, [], ◌∷◌, ◌<>◌, ◌≡◌, ◌==◌, ◌⊎◌, ◌≢◌,
}
use kubeconfig_operator.K8s.{Error, Result, Secret, CsrObject, ClusterRoleBinding, Subject}
use kubeconfig_operator.Api.Types.{Kubeconfig}
use kubeconfig_operator.Api.Conditions.{phase_done}
use kubeconfig_operator.Effects.{
  Effect, World, kubeconfig_get, csr_get, binding_get, secret_update, csr_create,
  csr_approval_update, binding_create, kubeconfig_status_update,
}
use kubeconfig_operator.Effects.Ends.{Exit, Ends, Occurs}
use kubeconfig_operator.Controllers.Csr.{
  get_cert_approval_condition, has_auto_approve_annotation, is_kubeconfig_v1alpha1_csr,
}
use kubeconfig_operator.Controllers.Resources.{
  certificate_secret_priv_key_key, certificate_secret_csr_key, certificate_secret_cert_key,
  read_content,
}

-- The effect is a read of a Kubeconfig with this metadata, specification and phase.
abbrev pub Shows : Kubeconfig → Effect → Type 0
Shows k (kubeconfig_get n r) =
    (r.err ≡ none)
    × (r.object.meta ≡ k.meta)
    × (r.object.spec ≡ k.spec)
    × (r.object.status.status ≡ k.status.status)
Shows k _ = ⊥

-- The effect is a read of this signing request.
abbrev pub ShowsCsr : CsrObject → Effect → Type 0
ShowsCsr csr (csr_get n r) = (r.err ≡ none) × (r.object ≡ csr)
ShowsCsr csr _ = ⊥

-- The effect saved a secret with a private key and this request.
abbrev pub SavesKey : String → Effect → Type 0
SavesKey request (secret_update s r) =
    (r.err ≡ none)
    × (read_content certificate_secret_priv_key_key s.content ≢ none)
    × (read_content certificate_secret_csr_key s.content ≡ some request)
SavesKey request _ = ⊥

-- The effect saved a secret with this certificate.
abbrev pub SavesCertificate : String → Effect → Type 0
SavesCertificate cert (secret_update s r) =
    (r.err ≡ none) × (read_content certificate_secret_cert_key s.content ≡ some cert)
SavesCertificate cert _ = ⊥

-- The effect is a read of this signing request under the name of the Kubeconfig.
abbrev pub ShowsRequestOf : String → CsrObject → Effect → Type 0
ShowsRequestOf name csr (csr_get n r) =
    (n ≡ record { namespace = ""; name = name }) × (r.err ≡ none) × (r.object ≡ csr)
ShowsRequestOf name csr _ = ⊥

-- The request was approved, neither denied nor failed, and carries a certificate.
pub record IsIssued (csr : CsrObject) : Type 0 where
  pub approved : (get_cert_approval_condition csr.conditions).approved ≡ true
  pub not_denied : (get_cert_approval_condition csr.conditions).denied ≡ false
  pub not_failed : (get_cert_approval_condition csr.conditions).failed ≡ false
  pub has_certificate : (csr.certificate == "") ≡ false

-- The binding gives the role of the Kubeconfig to its user and to nobody else.
pub record BindsUser (k : Kubeconfig) (b : ClusterRoleBinding) : Type 0 where
  pub binding_name : b.meta.name ≡ (k.spec.username <> "-kubeconfig")
  pub subject :
      b.subjects
      ≡ record { kind = "User"; api_group = "rbac.authorization.k8s.io"; name = k.spec.username }
        ∷ []
  pub role : some b.role_ref ≡ k.spec.role_ref

-- The effect showed that a cluster role binding of the user's name is there, or made the one of the user.
abbrev pub ShowsBinding : Kubeconfig → Effect → Type 0
ShowsBinding k (binding_get n r) =
    (n ≡ record { namespace = ""; name = k.spec.username <> "-kubeconfig" }) × (r.err ≡ none)
ShowsBinding k (binding_create b r) = BindsUser k b × (r.err ≡ none)
ShowsBinding k _ = ⊥

-- What must have happened before a Kubeconfig is written as done: it was read, its own request was read
-- as issued, the certificate saved, and its binding shown.
pub record DoneGrounds (k : Kubeconfig) (past : List Effect) : Type 0 where
  pub kubeconfig : Kubeconfig
  pub same_meta : k.meta ≡ kubeconfig.meta
  pub same_spec : k.spec ≡ kubeconfig.spec
  pub csr : CsrObject
  pub read : Occurs (Shows kubeconfig) past
  pub read_csr : Occurs (ShowsRequestOf kubeconfig.meta.name csr) past
  pub issued : IsIssued csr
  pub saved : Occurs (SavesCertificate csr.certificate) past
  pub bound : Occurs (ShowsBinding kubeconfig) past

-- What must have happened before a binding is created.
pub record BindingGrounds (b : ClusterRoleBinding) (past : List Effect) : Type 0 where
  pub kubeconfig : Kubeconfig
  pub csr : CsrObject
  pub read : Occurs (Shows kubeconfig) past
  pub binds : BindsUser kubeconfig b
  pub read_csr : Occurs (ShowsRequestOf kubeconfig.meta.name csr) past
  pub issued : IsIssued csr
  pub saved : Occurs (SavesCertificate csr.certificate) past

-- What must have happened before a request is approved: it was read as one of the operator's,
-- annotated, and undecided; the approval changes its conditions only, and approves it.
pub record ApprovalGrounds (c : CsrObject) (past : List Effect) : Type 0 where
  pub csr : CsrObject
  pub read : Occurs (ShowsCsr csr) past
  pub owned : is_kubeconfig_v1alpha1_csr csr ≡ true
  pub annotated : has_auto_approve_annotation csr ≡ true
  pub undecided :
      get_cert_approval_condition csr.conditions
      ≡ record { approved = false; denied = false; failed = false }
  pub same_object : c ≡ record csr { conditions = c.conditions }
  pub approves : (get_cert_approval_condition c.conditions).approved ≡ true

-- What an effect rests on in the trace before it. The other effects need nothing.
abbrev pub IsJustified : Effect → List Effect → Type 0
IsJustified (csr_create c r) past = Occurs (SavesKey c.request) past
IsJustified (binding_create b r) past = BindingGrounds b past
IsJustified (csr_approval_update c r) past = ApprovalGrounds c past
IsJustified (kubeconfig_status_update k r) past =
    ((k.status.status == phase_done) ≡ false) ⊎ Occurs (Shows k) past ⊎ DoneGrounds k past
IsJustified _ past = Unit {0}

abbrev pub IsSafe : List Effect → Type 0
IsSafe [] = Unit {0}
IsSafe (e ∷ past) = IsJustified e past × IsSafe past

-- A run that began from a safe trace and ended by an exit left a safe trace.
abbrev pub SafeExit : {S : Type 0} → Exit → World S → Type 0
SafeExit x w = IsSafe w.effects
