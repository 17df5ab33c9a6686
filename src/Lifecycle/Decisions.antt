-- ===== src/Lifecycle/Decisions.antt =====
-- A run of the CSR controller: it decides on a waiting request or leaves the stage alone.
use kubeconfig_operator.Base.{
  String, Bool, true, false, none, some, ◌≡◌, refl, sym, ◌∙◌, ap, ◌⊎◌, inl, inr, ◌==◌, ◌<>◌,
  is_some, arith, Bool-cases, eq_iff, Option-cases,
}
use kubeconfig_operator.K8s.{CsrObject, Reply}
use kubeconfig_operator.Platform.{Platform}
use kubeconfig_operator.Effects.{World, announced, answered, csr_get, ◌>>=◌}
use kubeconfig_operator.Effects.Ends.{Ends, Ends-bind_run, Ends-total}
use kubeconfig_operator.Controllers.Csr.{
  Approval, get_cert_approval_condition, approve_csr, report_failure, reconcile_csr, reconcile,
}
use kubeconfig_operator.Lifecycle.Stages.{
  Snapshot, with_request, Moves, waiting, grant, grant_issued, reject, csr_stage, decision_stage,
}
use kubeconfig_operator.Lifecycle.Server.{Server, cluster_name}
use kubeconfig_operator.Lifecycle.Copies.{seen, Steps}
use kubeconfig_operator.Lifecycle.Creation.{ExitSteps}
use kubeconfig_operator.Lifecycle.Flags.{request-Moves}
use kubeconfig_operator.Lifecycle.Approvals.{Approved, Unparsed, approve_csr-Outcome}

module _ (P : Platform) where
  module _ (name : String) (V : Server P name) where
    module _ (m : String) (σ : Snapshot) (csr : CsrObject) (named : csr.meta.name ≡ m)
        (holds : m ≡ name → σ.request ≡ some csr)
        (pending : get_cert_approval_condition csr.conditions
          ≡ record { approved = false; denied = false; failed = false }) where
      -- A request that comes to carry these flags.
      settled :
          (d : CsrObject) (a : Approval) (τ : Snapshot)
          → m ≡ name
          → τ ≡ with_request d σ
          → get_cert_approval_condition d.conditions ≡ a
          → d.certificate ≡ csr.certificate
          → Moves waiting (decision_stage a (csr.certificate == ""))
          → Steps P name V m σ τ
      unfolding csr_stage
      settled d a τ own becomes flags certificate moves = inr (
        own,
        rw becomes (request-Moves P σ csr d (holds own) (rw (pending, flags, certificate) moves)),
      )

      grants :
          (is_empty : Bool)
          → Moves waiting
              (decision_stage (record { approved = true; denied = false; failed = false }) is_empty)
      grants true = inr grant
      grants false = inr grant_issued

      approved-Steps :
          (r : Reply CsrObject) (w : World P.State)
          → Approved P name V m σ csr r w
          → Steps P name V m σ (seen P name V w)
      approved-Steps r w h = elim h.outcome [
        | inl same ↦ inl same
        | inr (own, (c, becomes, conditions, certificate)) ↦
            settled c _ _ own becomes (ap get_cert_approval_condition conditions ∙ h.flags)
              certificate (grants (csr.certificate == ""))
      ]

      -- The report of a failure after an approval.
      reported_approval :
          (r : Reply CsrObject) (w : World P.State)
          → Approved P name V m σ csr r w
          → Steps P name V m σ (V.view (P.update_csr_status r.object w.server).1)
      reported_approval r w h = elim (Bool-cases (m == name)) [
        | inr other ↦
            rw (V.other_csr_status_write r.object w.server (rw h.named other))
              (approved-Steps r w h)
        | inl equal ↦
            elim (V.csr_status_write r.object w.server (h.named ∙ (eq_iff m name).0 equal)) [
              | inl lost ↦ rw lost (approved-Steps r w h)
              | inr d ↦ elim h.outcome [
                | inl same ↦
                    let own : m ≡ name = (eq_iff m name).0 equal in
                    let had : some d.old ≡ some csr =
                      sym d.had ∙ ap (λ τ. τ.request) same ∙ holds own in
                    settled d.stored (record { approved = false; denied = false; failed = false }) _
                      own (d.becomes ∙ ap (with_request d.stored) same)
                      (cc (d.approved, d.denied, d.failed, had, pending, h.flags))
                      (d.certificate ∙ h.certificate) (inl refl)
                | inr (own, (c, becomes, conditions, certificate)) ↦
                    let had : some d.old ≡ some c = sym d.had ∙ ap (λ τ. τ.request) becomes in
                    settled d.stored (record { approved = true; denied = false; failed = false }) _
                      own (d.becomes ∙ ap (with_request d.stored) becomes)
                      (cc (d.approved, d.denied, d.failed, had, conditions, h.flags))
                      (d.certificate ∙ h.certificate) (grants (csr.certificate == ""))
              ]
            ]
      ]

      reported_parsing :
          (r : Reply CsrObject) (w : World P.State)
          → Unparsed P name V m σ csr r w
          → Steps P name V m σ (V.view (P.update_csr_status r.object w.server).1)
      reported_parsing r w h = elim (Bool-cases (m == name)) [
        | inr other ↦ inl (V.other_csr_status_write r.object w.server (rw h.named other) ∙ h.same)
        | inl equal ↦
            elim (V.csr_status_write r.object w.server (h.named ∙ (eq_iff m name).0 equal)) [
              | inl lost ↦ inl (lost ∙ h.same)
              | inr d ↦
                  let own : m ≡ name = (eq_iff m name).0 equal in
                  let had : some d.old ≡ some csr =
                    sym d.had ∙ ap (λ τ. τ.request) h.same ∙ holds own in
                  settled d.stored (record { approved = false; denied = false; failed = true }) _
                    own (d.becomes ∙ ap (with_request d.stored) h.same)
                    (cc (d.approved, d.denied, d.failed, had, pending, h.flags))
                    (d.certificate ∙ h.certificate) (inr reject)
            ]
      ]

      report_failure-Steps :
          (r : Reply CsrObject) (w : World P.State)
          → Approved P name V m σ csr r w ⊎ (Unparsed P name V m σ csr r w × (is_some r.err ≡ true))
          → Ends (λ _ _. ⊥) (ExitSteps P name V m σ) (report_failure P r w)
      unfolding report_failure
      report_failure-Steps r w (inl h) = elim (Option-cases r.err) [
        | inl fine ↦ rw fine (approved-Steps r w h)
        | inr (e, bad) ↦ rw bad (
            reported_approval r
              (announced "Warning" "Failed" ("Failed to approve CSR, " <> e.message) w)
              (record {
                named = h.named;
                certificate = h.certificate;
                flags = h.flags;
                outcome = h.outcome;
              }))
      ]
      report_failure-Steps r w (inr (h, failing)) = elim (Option-cases r.err) [
        | inl fine ↦ cc (rw fine at failing)
        | inr (e, bad) ↦ rw bad (
            reported_parsing r
              (announced "Warning" "Failed" ("Failed to approve CSR, " <> e.message) w)
              (record {
                named = h.named;
                certificate = h.certificate;
                flags = h.flags;
                same = h.same;
              }))
      ]

      approval-Steps :
          (w : World P.State)
          → seen P name V w ≡ σ
          → Ends (λ _ _. ⊥) (ExitSteps P name V m σ) ((approve_csr P csr >>= report_failure P) w)
      approval-Steps w same =
          let U : Reply CsrObject → World P.State → Type 0 = λ r v.
            Approved P name V m σ csr r v
            ⊎ (Unparsed P name V m σ csr r v × (is_some r.err ≡ true)) in
          Ends-bind_run U (λ _ _. ⊥) (ExitSteps P name V m σ) (approve_csr P csr w)
            (report_failure P)
            (Ends-total U (ExitSteps P name V m σ) (approve_csr P csr w)
              (approve_csr-Outcome P name V m σ csr named holds pending w same))
            report_failure-Steps

    reconcile_csr-Steps :
        (m : String) (σ : Snapshot) (csr : CsrObject) (w : World P.State)
        → csr.meta.name ≡ m
        → (m ≡ name → σ.request ≡ some csr)
        → seen P name V w ≡ σ
        → Ends (λ _ _. ⊥) (ExitSteps P name V m σ) (reconcile_csr P csr w)
    unfolding reconcile_csr
    reconcile_csr-Steps m σ csr w named holds same =
        let run : (get_cert_approval_condition csr.conditions
              ≡ record { approved = false; denied = false; failed = false })
            → Ends (λ _ _. ⊥) (ExitSteps P name V m σ)
                ((approve_csr P csr >>= report_failure P) w) =
          λ pending. approval-Steps m σ csr named holds pending w same in
        ground (arith, run)

    read-Steps :
        (m : String) (w : World P.State)
        → (P.get_csr (cluster_name m) w.server).0.err ≡ none
        → Ends
            (λ _ _. ⊥)
            (ExitSteps P name V m (seen P name V w))
            (reconcile_csr P
              (P.get_csr (cluster_name m) w.server).0.object
              (answered (csr_get (cluster_name m)) (P.get_csr (cluster_name m)) w))
    read-Steps m w fine =
        reconcile_csr-Steps m (seen P name V w) (P.get_csr (cluster_name m) w.server).0.object _
          (V.csr_name (cluster_name m) w.server fine)
          (λ own. rw own (V.csr_read w.server (rw (← own) fine)))
          (V.get_csr (cluster_name m) w.server)

    -- A run for the name `m` moves the stage by a move of the machine, or leaves all as it was.
    pub csr_reconcile-Steps :
        (m : String) (w : World P.State)
        → Ends (λ _ _. ⊥) (ExitSteps P name V m (seen P name V w)) (reconcile P (cluster_name m) w)
    unfolding reconcile
    csr_reconcile-Steps m w = ground (arith, V.get_csr (cluster_name m) w.server, read-Steps m w)
