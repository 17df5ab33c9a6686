-- ===== src/Lifecycle/Progress/Approval.antt =====
-- A run of the CSR controller that nothing hinders.
use kubeconfig_operator.Base.{
  String, Bool, true, false, none, some, ◌≡◌, refl, sym, ◌∙◌, ap, inl, inr, ◌==◌, arith,
  if◌then◌else◌,
}
use kubeconfig_operator.K8s.{CsrObject, NamespacedName, Reply}
use kubeconfig_operator.Platform.{Platform}
use kubeconfig_operator.Platform.Laws.{HasConditionLaws}
use kubeconfig_operator.Effects.{World, ◌>>=◌, end_world, answered, csr_get}
use kubeconfig_operator.Effects.Ends.{Ends, Ends-bind_run, Ends-total}
use kubeconfig_operator.Controllers.Csr.{
  Approval, get_cert_approval_condition, parse_csr, decide_csr, approve_csr, report_failure,
  reconcile_csr, reconcile, set_status_condition, approved_condition, certificate_approved,
  is_kubeconfig_v1alpha1_csr, has_auto_approve_annotation,
}
use kubeconfig_operator.Lifecycle.Stages.{
  Snapshot, Stage, waiting, granted, issued, with_request, stage, open_stage, csr_stage,
  decision_stage,
}
use kubeconfig_operator.Lifecycle.Server.{Server, CsrDecided, cluster_name}
use kubeconfig_operator.Lifecycle.Copies.{seen, IsOpen, stage-open}
use kubeconfig_operator.Lifecycle.Flags.{upserted_flags}
use kubeconfig_operator.Lifecycle.Approvals.{Set, setting}
use kubeconfig_operator.Lifecycle.Progress.Cooperation.{Cooperates}
use kubeconfig_operator.Lifecycle.Progress.Submission.{Reaches}
use kubeconfig_operator.Lifecycle.Progress.Next.{reached}
use kubeconfig_operator.Lifecycle.Progress.Closed.{IsOpen-unless}

-- A request that is to be approved: it belongs to a Kubeconfig, asks for approval, and parses.
pub record IsAuto (P : Platform) (c : CsrObject) : Type 0 where
  pub owned : is_kubeconfig_v1alpha1_csr c ≡ true
  pub annotated : has_auto_approve_annotation c ≡ true
  pub parses : parse_csr P c.request ≡ none

waiting-pending :
    (a : Approval) (is_empty : Bool)
    → decision_stage a is_empty ≡ waiting
    → a ≡ record { approved = false; denied = false; failed = false }
waiting-pending a is_empty h = ground (arith, h)

module _ (P : Platform) (name : String) (V : Server P name) (L : HasConditionLaws P)
    (C : Cooperates P name V) where
  abbrev pub granted_stage : CsrObject → Stage
  granted_stage c = if c.certificate == "" then granted else issued

  -- The approval of a waiting request, once it is kept.
  decided_stage :
      (σ τ : Snapshot) (csr c : CsrObject)
      → IsOpen P name V σ
      → σ.request ≡ some csr
      → get_cert_approval_condition c.conditions
        ≡ record { approved = true; denied = false; failed = false }
      → CsrDecided c σ τ
      → stage P τ ≡ granted_stage csr
  unfolding open_stage csr_stage
  decided_stage σ τ csr c opened there flags d =
      let still : IsOpen P name V (with_request d.stored σ) = record {
        stored = opened.stored;
        kept = opened.kept;
        unfinished = opened.unfinished;
      } in
      let had : some d.old ≡ some csr = sym d.had ∙ there in
      let same : d.stored.certificate ≡ csr.certificate = cc (d.certificate, had) in
      ap (stage P) d.becomes
      ∙ stage-open P name V _ still
      ∙ rw (ap get_cert_approval_condition d.conditions ∙ flags, same) refl

  module _ (σ : Snapshot) (csr : CsrObject) (opened : IsOpen P name V σ)
      (there : σ.request ≡ some csr) (named : csr.meta.name ≡ name)
      (pending : get_cert_approval_condition csr.conditions
        ≡ record { approved = false; denied = false; failed = false })
      (parses : parse_csr P csr.request ≡ none) where
    approve_csr-granted :
        (w : World P.State)
        → seen P name V w ≡ σ
        → Ends
            (λ r v. (r.err ≡ none) × (stage P (seen P name V v) ≡ granted_stage csr))
            (λ _ _. ⊥)
            (approve_csr P csr w)
    unfolding approve_csr decide_csr
    approve_csr-granted w same = rw parses (
        Ends-bind_run (Set P name V certificate_approved csr w) _ (λ _ _. ⊥)
          (set_status_condition P csr.conditions approved_condition w) _
          (setting P name V csr approved_condition w)
          λ cs v set.
            let c : CsrObject = record csr { conditions = cs } in
            let at : seen P name V v ≡ σ = set.kept ∙ same in
            let taken : (P.update_approval c v.server).0.err ≡ none =
              C.approval_taken c v.server named (rw (at, there) refl) in
            (
              taken,
              elim (V.approval_write c v.server named) [
                | inl lost ↦ cc (rw taken at lost.1)
                | inr d ↦
                    decided_stage _ _ csr c (rw at opened) (ap (λ τ. τ.request) at ∙ there)
                      (set.flags ∙ ap (upserted_flags certificate_approved) pending) d
              ],
            ))

    approval-Reaches :
        (w : World P.State)
        → seen P name V w ≡ σ
        → Ends
            (λ _ _. ⊥)
            (Reaches P name V (granted_stage csr))
            ((approve_csr P csr >>= report_failure P) w)
    unfolding report_failure
    approval-Reaches w same =
        let U : Reply CsrObject → World P.State → Type 0 =
          λ r v. (r.err ≡ none) × (stage P (seen P name V v) ≡ granted_stage csr) in
        Ends-bind_run U (λ _ _. ⊥) (Reaches P name V (granted_stage csr)) (approve_csr P csr w)
          (report_failure P)
          (Ends-total U (Reaches P name V (granted_stage csr)) (approve_csr P csr w)
            (approve_csr-granted w same))
          (λ r v h. rw h.0 h.1)

  -- A waiting stage comes from an open Kubeconfig and a request without a decision.
  waiting-IsOpen :
      (σ : Snapshot) (csr : CsrObject)
      → stage P σ ≡ waiting
      → σ.request ≡ some csr
      → IsOpen P name V σ
        × (get_cert_approval_condition csr.conditions
            ≡ record { approved = false; denied = false; failed = false })
  unfolding open_stage csr_stage
  waiting-IsOpen σ csr at there =
      let opened : IsOpen P name V σ =
        IsOpen-unless P name V σ waiting at (λ closed. ground (arith, closed)) in
      (
        opened,
        waiting-pending _ (csr.certificate == "")
            (ap open_stage (sym there) ∙ sym (stage-open P name V σ opened) ∙ at),
      )

  abbrev pub after_csr_run : World P.State → World P.State
  after_csr_run w = end_world (reconcile P (cluster_name name) w)

  reconcile_csr-Reaches :
      (σ : Snapshot) (csr : CsrObject) (w : World P.State)
      → stage P σ ≡ waiting
      → σ.request ≡ some csr
      → csr.meta.name ≡ name
      → IsAuto P csr
      → seen P name V w ≡ σ
      → Ends (λ _ _. ⊥) (Reaches P name V (granted_stage csr)) (reconcile_csr P csr w)
  unfolding reconcile_csr
  reconcile_csr-Reaches σ csr w at there named auto same =
      let opened = waiting-IsOpen σ csr at there in
      rw (auto.owned, auto.annotated, opened.1)
        (approval-Reaches σ csr opened.0 there named opened.1 auto.parses w same)

  read-Reaches :
      (w : World P.State) (csr : CsrObject)
      → (seen P name V w).request ≡ some csr
      → stage P (seen P name V w) ≡ waiting
      → IsAuto P csr
      → Ends (λ _ _. ⊥) (Reaches P name V (granted_stage csr)) (reconcile P (cluster_name name) w)
  unfolding reconcile
  read-Reaches w csr there at auto =
      let n : NamespacedName = cluster_name name in
      let v : World P.State = answered (csr_get n) (P.get_csr n) w in
      let fine : (P.get_csr n w.server).0.err ≡ none = C.csr_served w.server (rw there refl) in
      let read : some csr ≡ some (P.get_csr n w.server).0.object =
        sym there ∙ V.csr_read w.server fine in
      let own : csr.meta.name ≡ name = cc (read, V.csr_name n w.server fine) in
      let run : Ends (λ _ _. ⊥) (Reaches P name V (granted_stage csr)) (reconcile_csr P csr v) =
        reconcile_csr-Reaches (seen P name V w) csr v at there own auto (V.get_csr n w.server) in
      ground (arith, fine, read, run)

  -- Where the API server serves and takes what it should, a run of the CSR controller on a waiting
  -- request that belongs to a Kubeconfig, is annotated for automatic approval and parses leaves the
  -- Kubeconfig granted, or issued if the request carries a certificate already.
  pub csr_reconcile-granted :
      (w : World P.State) (csr : CsrObject)
      → (seen P name V w).request ≡ some csr
      → stage P (seen P name V w) ≡ waiting
      → IsAuto P csr
      → stage P (seen P name V (after_csr_run w)) ≡ granted_stage csr
  csr_reconcile-granted w csr there at auto =
      reached P name V L C (granted_stage csr) (reconcile P (cluster_name name) w)
        (read-Reaches w csr there at auto)
