-- ===== src/Controllers/Kubeconfig/Request.antt =====
-- controllers/kubeconfig_controller.go, the middle of `Reconcile`: the certificate signing request is
-- read, or made together with a key.
use kubeconfig_operator.Base.{String, none, some, ◌<>◌, if◌then◌else◌}
use kubeconfig_operator.K8s.{NamespacedName, Error, Secret, CsrObject, Reply, Fallible, ok, failed}
use kubeconfig_operator.Api.Types.{Kubeconfig}
use kubeconfig_operator.Api.Conditions.{
  condition_type_csr_created, condition_true, condition_false, phase_awaiting_approval,
  phase_failed,
}
use kubeconfig_operator.Platform.{Platform}
use kubeconfig_operator.Effects.{
  M, pure, return, deref, ◌>>=◌, ◌>>◌, record_event, get_csr, create_csr, update_secret,
  update_kubeconfig_status,
}
use kubeconfig_operator.Controllers.Keys
use kubeconfig_operator.Controllers.Keys.{CsrBuffers}
use kubeconfig_operator.Controllers.Resources.{
  certificate_secret_priv_key_key, certificate_secret_csr_key, create_csr_object,
}
use kubeconfig_operator.Controllers.Csr.{finished}
use kubeconfig_operator.Controllers.Kubeconfig.Objects.{Objects, mark, put_content, set_phase}

-- The request is named after the Kubeconfig.
abbrev pub csr_name : Kubeconfig → NamespacedName
csr_name k = record { namespace = ""; name = k.meta.name }

module _ (P : Platform) where
  -- The error of `createCSR` ends the run without an update of the status.
  unfoldable pub generation_failed : Kubeconfig → Error → M P.State CsrObject
  generation_failed k e = do
    k' ←
        mark P condition_type_csr_created condition_false "CsrCreateFailed"
          ("Failed to generate private key and certificate signing request, " <> e.message) k
    -- This object is dropped with the end of the run.
    _ ← pure (set_phase phase_failed k')
    record_event "Warning" "CsrFailed"
        ("Failed to generate private key and certificate signing request, " <> e.message)
    return finished none

  -- The API server's answer to the new request.
  unfoldable pub csr_submitted : Kubeconfig → Reply CsrObject → M P.State CsrObject
  csr_submitted k r = elim r.err [
    | some e ↦ do
      record_event "Warning" "CsrFailed" ("Failed to create CSR, " <> e.message)
      return finished (some e)
    | none ↦ do
      k' ←
          mark P condition_type_csr_created condition_true "CsrCreated"
            "Created CSR for kubeconfig request"
            (record k { status = record (k.status) { csr = record { name = r.object.meta.name } } })
      record_event "Normal" "Created" "Created user secret and CSR for kubeconfig"
      _ ← update_kubeconfig_status P (set_phase phase_awaiting_approval k')
      return finished none
  ]

  -- The API server's answer to the update of the secret.
  unfoldable pub key_saved : Kubeconfig → String → Reply Secret → M P.State CsrObject
  key_saved k csr_buffer r = elim r.err [
    | some e ↦ do
      record_event "Warning" "UserSecretUpdated"
          ("Failed to update user secret with private key and CSR, " <> e.message)
      return finished (some e)
    | none ↦ do
      record_event "Normal" "UserSecretUpdated" "Added private key and CSR to user secret"
      c ← create_csr P (create_csr_object P k csr_buffer)
      csr_submitted k c
  ]

  unfoldable pub save_key : Objects → CsrBuffers P → M P.State CsrObject
  save_key o b = do
    key ← deref b.key
    s ← put_content P certificate_secret_priv_key_key key o.secret
    s' ← put_content P certificate_secret_csr_key b.csr s
    r ← update_secret P s'
    key_saved o.kubeconfig b.csr r

  unfoldable pub generated : Objects → Fallible (CsrBuffers P) → M P.State CsrObject
  generated o (ok b) = save_key o b
  generated o (failed e) = generation_failed o.kubeconfig e

  unfoldable pub request_certificate : Objects → M P.State CsrObject
  request_certificate o = do
    record_event "Normal" "Generating" "Generating CSR for kubeconfig"
    buffers ← Keys.create_csr P o.kubeconfig
    generated o buffers

  -- The stored request. A run that has to make one ends there.
  unfoldable pub find_csr : Objects → M P.State CsrObject
  find_csr o = do
    r ← get_csr P (csr_name o.kubeconfig)
    if P.is_not_found r.err
        then request_certificate o
        else elim r.err [ some e ↦ return finished (some e) | none ↦ pure r.object ]
