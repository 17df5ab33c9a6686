-- ===== src/Controllers/Csr.antt =====
-- controllers/csr_controller.go: the controller that approves annotated requests.
pub mod Clock
pub mod Conditions
pub mod Answers
use kubeconfig_operator.Base.{
  ℕ, String, Bool, true, false, not, ◌&&◌, Option, none, some, List, [], ◌∷◌, ◌++◌, ◌<>◌, ◌==◌,
  if◌then◌else◌,
}
use kubeconfig_operator.Base.Dict.{lookup}
use kubeconfig_operator.K8s.{
  NamespacedName, Error, Reply, Result, OwnerReference, CsrObject, CsrCondition, new_error,
}
use kubeconfig_operator.Api.Conditions.{condition_true}
use kubeconfig_operator.Platform.{Platform}
use kubeconfig_operator.Effects.{
  M, pure, return, step, ◌>>=◌, ◌>>◌, record_event, get_csr, update_csr_status, update_approval,
}

abbrev pub csr_auto_approve_annotation_key : String
csr_auto_approve_annotation_key = "kubeconfig.k8s.zoomoid.dev/auto-approve"

abbrev pub x509_type_certificate_request : String
x509_type_certificate_request = "CERTIFICATE REQUEST"

abbrev pub kubeconfig_operator_api_version : String
kubeconfig_operator_api_version = "kubeconfig.k8s.zoomoid.dev/v1alpha1"

-- `certificatesv1.CertificateApproved`, `CertificateDenied` and `CertificateFailed`.
abbrev pub certificate_approved : String
certificate_approved = "Approved"

abbrev pub certificate_denied : String
certificate_denied = "Denied"

abbrev pub certificate_failed : String
certificate_failed = "Failed"

-- `ctrl.Result{}`.
abbrev pub finished : Result
finished = record { requeue = false; requeue_after = 0 }

pub record Approval : Type 0 where
  pub approved : Bool
  pub denied : Bool
  pub failed : Bool

-- The loop of `getCertApprovalCondition` (controllers/utils.go), which sets a flag for each type.
unfoldable pub approval_loop : Approval → List CsrCondition → Approval
approval_loop a [] = a
approval_loop a (c ∷ cs) =
    approval_loop
      (record {
        approved = if c.type == certificate_approved then true else a.approved;
        denied = if c.type == certificate_denied then true else a.denied;
        failed = if c.type == certificate_failed then true else a.failed;
      })
      cs

unfoldable pub get_cert_approval_condition : List CsrCondition → Approval
unfolding approval_loop
get_cert_approval_condition =
    approval_loop (record { approved = false; denied = false; failed = false })

unfoldable pub has_auto_approve_annotation : CsrObject → Bool
has_auto_approve_annotation csr =
    elim (lookup csr_auto_approve_annotation_key csr.meta.annotations) [
      | none ↦ false
      | some v ↦ v == "true"
    ]

unfoldable pub has_kubeconfig_owner : List OwnerReference → Bool
has_kubeconfig_owner [] = false
has_kubeconfig_owner (o ∷ os) =
    let rest = has_kubeconfig_owner os in
    if o.kind == "Kubeconfig" && o.api_version == kubeconfig_operator_api_version
    then true
    else rest

unfoldable pub is_kubeconfig_v1alpha1_csr : CsrObject → Bool
unfolding has_kubeconfig_owner
is_kubeconfig_v1alpha1_csr csr = has_kubeconfig_owner csr.meta.owner_references

unfoldable pub find_status_condition : List CsrCondition → String → Option CsrCondition
find_status_condition [] t = none
find_status_condition (c ∷ cs) t =
    let rest = find_status_condition cs t in if c.type == t then some c else rest

-- A write through the pointer that `find_status_condition` gives: to the first of its type.
replace_condition : CsrCondition → List CsrCondition → List CsrCondition
replace_condition n [] = []
replace_condition n (c ∷ cs) =
    let rest = replace_condition n cs in if c.type == n.type then n ∷ cs else c ∷ rest

-- The two conditions that `ApproveCSR` sets.
abbrev pub failed_condition : Error → CsrCondition
failed_condition e = record {
  type = certificate_failed;
  status = condition_true;
  reason = "Failed";
  message = e.message;
  last_transition_time = none;
}

abbrev pub approved_condition : CsrCondition
approved_condition = record {
  type = certificate_approved;
  status = condition_true;
  reason = "KubeconfigControllerApprove";
  message = "The CSR was auto-approved by the kubeconfig operator";
  last_transition_time = none;
}

module _ (P : Platform) where
  or_now : Option ℕ → M P.State (Option ℕ)
  or_now (some t) = pure (some t)
  or_now none = do now ← step P.now; pure (some now)

  -- The time of an existing condition moves only with its status.
  transition_time : CsrCondition → CsrCondition → M P.State (Option ℕ)
  unfolding or_now
  transition_time old new =
      if old.status == new.status
      then pure old.last_transition_time
      else or_now new.last_transition_time

  -- With the condition of the new one's type that the list has, if any.
  upsert : Option CsrCondition → List CsrCondition → CsrCondition → M P.State (List CsrCondition)
  unfolding or_now transition_time replace_condition
  upsert none conditions new = do
    t ← or_now new.last_transition_time
    pure (conditions ++ (record new { last_transition_time = t } ∷ []))
  upsert (some existing) conditions new = do
    t ← transition_time existing new
    pure (
        replace_condition
          (record existing {
            status = new.status;
            last_transition_time = t;
            reason = new.reason;
            message = new.message;
          })
          conditions)

  -- A nil list pointer does not occur: every caller passes the address of a field.
  unfoldable pub set_status_condition :
      List CsrCondition → CsrCondition → M P.State (List CsrCondition)
  unfolding upsert
  set_status_condition conditions new =
      upsert (find_status_condition conditions new.type) conditions new

  -- The error of `parseCSR`; its callers drop the parsed request.
  unfoldable pub parse_csr : String → Option Error
  parse_csr pem_bytes = elim (P.pem_decode pem_bytes) [
    | none ↦ some (new_error "PEM block type must be CERTIFICATE REQUEST")
    | some block ↦
        if block.type == x509_type_certificate_request
        then (P.parse_certificate_request block.bytes).err
        else some (new_error "PEM block type must be CERTIFICATE REQUEST")
  ]

  -- `ApproveCSR` behind the parsing, whose error it is given.
  unfoldable pub decide_csr : Option Error → CsrObject → M P.State (Reply CsrObject)
  decide_csr (some e) csr = do
    conditions ← set_status_condition csr.conditions (failed_condition e)
    pure (record { object = record csr { conditions = conditions }; err = some e })
  decide_csr none csr = do
    conditions ← set_status_condition csr.conditions approved_condition
    r ← update_approval P (record csr { conditions = conditions })
    pure (record { object = record csr { conditions = conditions }; err = r.err })

  -- `ApproveCSR`: the object as the caller's pointer shows it afterwards, and the error.
  unfoldable pub approve_csr : CsrObject → M P.State (Reply CsrObject)
  unfolding decide_csr
  approve_csr csr = decide_csr (parse_csr csr.request) csr

  unfoldable pub report_failure : Reply CsrObject → M P.State ⊥
  report_failure r = elim r.err [
    | none ↦ return finished none
    | some e ↦ do
      record_event "Warning" "Failed" ("Failed to approve CSR, " <> e.message)
      _ ← update_csr_status P r.object
      return finished (some e)
  ]

  unfoldable pub reconcile_csr : CsrObject → M P.State ⊥
  unfolding report_failure
  reconcile_csr csr =
      let a : Approval = get_cert_approval_condition csr.conditions in
      let is_pending : Bool = not a.approved && not a.denied && not a.failed in
      if not (is_kubeconfig_v1alpha1_csr csr)
      then return finished none
      else if has_auto_approve_annotation csr && is_pending
      then (do r ← approve_csr csr; report_failure r)
      else return finished none

  -- `Reconcile`; both of its last two statements return the empty result.
  unfoldable pub reconcile : NamespacedName → M P.State ⊥
  unfolding reconcile_csr
  reconcile name = do
    r ← get_csr P name
    elim r.err [
      | some e ↦ if P.is_not_found (some e) then return finished none else return finished (some e)
      | none ↦ reconcile_csr r.object
    ]
