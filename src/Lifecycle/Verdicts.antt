-- ===== src/Lifecycle/Verdicts.antt =====
-- The two ends of a Kubeconfig, and the decision on its request.
use kubeconfig_operator.Base.{
  String, Bool, true, false, ◌||◌, none, some, ◌≡◌, refl, ◌∙◌, ap, inl, inr, ◌==◌, Bool-cases,
  if◌then◌else◌,
}
use kubeconfig_operator.K8s.{Condition, CsrObject}
use kubeconfig_operator.Api.Types.{Kubeconfig}
use kubeconfig_operator.Api.Conditions.{
  condition_type_csr_approved, condition_type_kubeconfig_finished, condition_true, condition_false,
  condition_unknown, phase_done, phase_failed,
}
use kubeconfig_operator.Platform.{Platform}
use kubeconfig_operator.Platform.Laws.{HasConditionLaws}
use kubeconfig_operator.Effects.{World, return, ◌>>=◌, update_kubeconfig_status}
use kubeconfig_operator.Effects.Ends.{Ends, Ends-mono}
use kubeconfig_operator.Controllers.Csr.{Approval, finished}
use kubeconfig_operator.Controllers.Kubeconfig.Objects.{set_phase, mark}
use kubeconfig_operator.Controllers.Kubeconfig.Finish.{complete, refused, check_approval}
use kubeconfig_operator.Lifecycle.Stages.{
  Snapshot, Stage, ◌⟶◌, Moves, rejected, issued, done, broken, give_up, stage, csr_stage,
  decision_stage, open_stage,
}
use kubeconfig_operator.Lifecycle.Stages
use kubeconfig_operator.Lifecycle.Server.{Server}
use kubeconfig_operator.Lifecycle.Copies.{stage-open, Copy, mark-Copy, mark-then, write-ends}
use kubeconfig_operator.Lifecycle.Creation.{ExitSteps, move_of}

module _ (P : Platform) (name : String) (V : Server P name) (L : HasConditionLaws P) where
  -- The last condition is set and the Kubeconfig written back.
  finish-Steps :
      (A : Type 0) (m status reason message phase : String) (σ : Snapshot) (k : Kubeconfig)
      (w : World P.State)
      → Copy P name V m σ k w
      → (status == condition_unknown) ≡ false
      → (m ≡ name → stage P σ ⟶ (if status == condition_true then done else broken))
      → Ends {A = A}
          (λ _ _. ⊥)
          (ExitSteps P name V m σ)
          ((mark P condition_type_kubeconfig_finished status reason message k >>= λ k'.
              update_kubeconfig_status P (set_phase phase k') >>= λ _. return finished none)
            w)
  unfolding mark
  finish-Steps A m status reason message phase σ k w h known moves =
      let c : Condition = record {
        type = condition_type_kubeconfig_finished;
        status = status;
        last_transition_time = none;
        reason = reason;
        message = message;
      } in
      let set = L.set_self k.status.conditions c w.server in
      elim (write-ends P name V m σ _ set.0 _
        (V.set_status_condition k.status.conditions c w.server ∙ h.same) h.named (set.1)
        (rw set.2 known)) [
          | inl lost ↦ inl lost
          | inr (own, ends) ↦ inr (
            own,
            inr (
                move_of P name V (moves own) refl
                  (ends ∙ ap (λ x. if x == condition_true then done else broken) (set.2))),
          )
        ]

  -- A rejected, and an issued request of the unfinished Kubeconfig.
  pub request_stage :
      (m : String) (σ : Snapshot) (k : Kubeconfig) (csr : CsrObject) (w : World P.State)
      → Copy P name V m σ k w
      → (m ≡ name → σ.request ≡ some csr)
      → m ≡ name
      → stage P σ ≡ csr_stage csr
  unfolding open_stage
  request_stage m σ k csr w h holds own =
      stage-open P name V σ (h.mine own) ∙ ap open_stage (holds own)

  refused-Steps :
      (m : String) (σ : Snapshot) (k : Kubeconfig) (w : World P.State)
      → Copy P name V m σ k w
      → (m ≡ name → stage P σ ≡ rejected)
      → Ends (λ _ _. ⊥) (ExitSteps P name V m σ) (refused P k w)
  unfolding refused
  refused-Steps m σ k w h at_rejected =
      mark-then P name V (λ _ _. ⊥) (ExitSteps P name V m σ) L m condition_type_csr_approved
        condition_false "CsrApproved" "CSR for the kubeconfig was denied or failed" σ k _ w refl h
        (λ k' v copy.
          finish-Steps _ m condition_false "Failed" "Kubeconfig creation failed in CSR stage"
            phase_failed σ k' v copy refl (λ own. move_of P name V give_up (at_rejected own) refl))

  pub complete-Steps :
      (m : String) (σ : Snapshot) (k : Kubeconfig) (w : World P.State)
      → Copy P name V m σ k w
      → (m ≡ name → stage P σ ≡ issued)
      → Ends (λ _ _. ⊥) (ExitSteps P name V m σ) (complete P k w)
  unfolding complete
  complete-Steps m σ k w h at_issued =
      finish-Steps _ m condition_true "Finished" "Finished kubeconfig creation" phase_done σ k w h
        refl (λ own. move_of P name V Stages.complete (at_issued own) refl)

  -- What the decision on the request lets through.
  abbrev Passes : Approval → Type 0
  Passes a = ((a.denied || a.failed) ≡ false) × (a.approved ≡ true)

  pub check_approval-Steps :
      (m : String) (σ : Snapshot) (k : Kubeconfig) (a : Approval) (is_empty : Bool)
      (w : World P.State)
      → Copy P name V m σ k w
      → (m ≡ name → stage P σ ≡ decision_stage a is_empty)
      → Ends
          (λ k' v. Copy P name V m σ k' v × Passes a)
          (ExitSteps P name V m σ)
          (check_approval P k a w)
  unfolding check_approval
  check_approval-Steps m σ k a is_empty w h at = elim (Bool-cases (a.denied || a.failed)) [
    | inl bad ↦ rw bad (
        Ends-mono (λ _ _. ⊥) _ (ExitSteps P name V m σ) (ExitSteps P name V m σ) _
          (refused-Steps m σ k w h (λ own. at own ∙ rw bad refl)) (λ _ _ e. absurd e) (λ _ _ e. e))
    | inr fine ↦ elim (Bool-cases a.approved) [
      | inr waits ↦ rw (fine, waits) (inl h.same)
      | inl granted ↦
          rw (fine, granted)
            (Ends-mono (Copy P name V m σ)
              (λ k' v. Copy P name V m σ k' v × ((false ≡ false) × (true ≡ true))) (λ _ _. ⊥)
              (ExitSteps P name V m σ) _
              (mark-Copy P name V L m condition_type_csr_approved condition_true "CsrApproved"
                "CSR for the kubeconfig was approved" σ k w refl h)
              (λ _ _ copy. (copy, (refl, refl))) (λ _ _ e. absurd e))
    ]
  ]
