-- ===== src/Controllers/Safety/Approval.antt =====
-- Every run of the CSR controller keeps the trace safe.
use kubeconfig_operator.Base.{true, false, Option, none, some, ◌≡◌, refl, sym, subst, arith}
use kubeconfig_operator.K8s.{NamespacedName, Error, CsrObject, CsrCondition, Reply}
use kubeconfig_operator.Platform.{Platform}
use kubeconfig_operator.Effects.{World, answered, csr_get, ◌>>=◌}
use kubeconfig_operator.Effects.Ends.{Ends, Ends-bind_run, Ends-total, Occurs}
use kubeconfig_operator.Controllers.Csr.{
  get_cert_approval_condition, has_auto_approve_annotation, is_kubeconfig_v1alpha1_csr,
  certificate_approved, failed_condition, approved_condition, set_status_condition, decide_csr,
  approve_csr, report_failure, reconcile_csr, reconcile, parse_csr,
}
use kubeconfig_operator.Controllers.Csr.Conditions.{
  Upserted, set_status_condition-Upserted, approved_of_found,
}
use kubeconfig_operator.Controllers.Safety.{ShowsCsr, IsSafe, SafeExit}

module _ (P : Platform) (csr : CsrObject) where
  -- The trace is safe and has shown the request.
  abbrev HasRead : World P.State → Type 0
  HasRead w = IsSafe w.effects × Occurs (ShowsCsr csr) w.effects

  abbrev IsDue : Type 0
  IsDue =
      (is_kubeconfig_v1alpha1_csr csr ≡ true)
      × (has_auto_approve_annotation csr ≡ true)
      × (get_cert_approval_condition csr.conditions
          ≡ record { approved = false; denied = false; failed = false })

  setting :
      (new : CsrCondition) (w : World P.State)
      → Ends (Upserted csr.conditions new w) SafeExit (set_status_condition P csr.conditions new w)
  setting new w =
      Ends-total (Upserted csr.conditions new w) SafeExit
        (set_status_condition P csr.conditions new w)
        (set_status_condition-Upserted P csr.conditions new w)

  decide_csr-IsSafe :
      (e : Option Error) (w : World P.State)
      → HasRead w
      → IsDue
      → Ends (λ _ v. IsSafe v.effects) SafeExit (decide_csr P e csr w)
  unfolding decide_csr
  decide_csr-IsSafe (some e) w h due =
      Ends-bind_run (Upserted csr.conditions (failed_condition e) w) (λ _ v. IsSafe v.effects)
        SafeExit (set_status_condition P csr.conditions (failed_condition e) w) _
        (setting (failed_condition e) w) λ conditions v up. subst IsSafe (sym up.quiet) h.0
  decide_csr-IsSafe none w h due =
      Ends-bind_run (Upserted csr.conditions approved_condition w) (λ _ v. IsSafe v.effects)
        SafeExit (set_status_condition P csr.conditions approved_condition w) _
        (setting approved_condition w)
        λ conditions v up. (
          record {
            csr = csr;
            read = subst (Occurs (ShowsCsr csr)) (sym up.quiet) h.1;
            owned = due.0;
            annotated = due.1;
            undecided = due.2;
            same_object = refl;
            approves = approved_of_found conditions _ (up.found certificate_approved);
          },
          subst IsSafe (sym up.quiet) h.0,
        )

  report_failure-IsSafe :
      (r : Reply CsrObject) (w : World P.State)
      → IsSafe w.effects
      → Ends (λ _ _. Unit {0}) SafeExit (report_failure P r w)
  unfolding report_failure
  report_failure-IsSafe r w h = ground arith

  approval-IsSafe :
      (w : World P.State)
      → HasRead w
      → IsDue
      → Ends (λ _ _. Unit {0}) SafeExit ((approve_csr P csr >>= report_failure P) w)
  unfolding approve_csr
  approval-IsSafe w h due =
      Ends-bind_run (λ _ v. IsSafe v.effects) (λ _ _. Unit {0}) SafeExit (approve_csr P csr w)
        (report_failure P) (decide_csr-IsSafe (parse_csr P csr.request) w h due)
        report_failure-IsSafe

  reconcile_csr-IsSafe :
      (w : World P.State) → HasRead w → Ends (λ _ _. Unit {0}) SafeExit (reconcile_csr P csr w)
  unfolding reconcile_csr
  reconcile_csr-IsSafe w h = ground (arith, approval-IsSafe w h)

module _ (P : Platform) where
  -- A run of the CSR controller from a safe trace ends, by a return or a panic, in a safe trace: an
  -- approval that it sends is of a request that it has read, that is owned by a Kubeconfig,
  -- annotated and undecided, and differs from it in the conditions only, which now approve it.
  pub csr_reconcile-IsSafe :
      (name : NamespacedName) (w : World P.State)
      → IsSafe w.effects
      → Ends (λ _ _. Unit {0}) SafeExit (reconcile P name w)
  unfolding reconcile
  csr_reconcile-IsSafe name w h = ground (
    arith,
    reconcile_csr-IsSafe P (P.get_csr name w.server).0.object
        (answered (csr_get name) (P.get_csr name) w),
  )
