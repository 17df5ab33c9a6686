-- ===== src/Lifecycle/Refinement.antt =====
-- The two controllers implement the machine of stages.
use kubeconfig_operator.Base.{String, refl, sym, ◌∙◌, ap, inl, inr, ◌==◌}
use kubeconfig_operator.Api.Types.{Kubeconfig}
use kubeconfig_operator.Platform.{Platform}
use kubeconfig_operator.Platform.Laws.{HasConditionLaws}
use kubeconfig_operator.Effects.{World, Run, value, returned, panicked, end_world, ◌>>=◌}
use kubeconfig_operator.Effects.Ends.{Ends, Ends-bind_run, Ends-mono}
use kubeconfig_operator.Controllers.Csr
use kubeconfig_operator.Controllers.Csr.{get_cert_approval_condition}
use kubeconfig_operator.Controllers.Kubeconfig
use kubeconfig_operator.Controllers.Kubeconfig.Objects.{Objects, load, user_secret}
use kubeconfig_operator.Controllers.Kubeconfig.Request.{find_csr}
use kubeconfig_operator.Controllers.Kubeconfig.Finish.{check_approval, issue}
use kubeconfig_operator.Lifecycle.Stages.{Snapshot, Moves, stage, csr_stage}
use kubeconfig_operator.Lifecycle.Server.{Server, cluster_name}
use kubeconfig_operator.Lifecycle.Copies.{seen, Copy, Keeps, Steps}
use kubeconfig_operator.Lifecycle.Secrets.{ExitKeeps, Holds, load-Copy, user_secret-Copy}
use kubeconfig_operator.Lifecycle.Creation.{ExitSteps}
use kubeconfig_operator.Lifecycle.Requests.{find_csr-Steps}
use kubeconfig_operator.Lifecycle.Verdicts.{check_approval-Steps, request_stage}
use kubeconfig_operator.Lifecycle.Endings.{issue-Steps}
use kubeconfig_operator.Lifecycle.Decisions.{csr_reconcile-Steps}
use kubeconfig_operator.Lifecycle.Admission.{default_same}
use kubeconfig_operator.Api.Webhook.{default}

-- One run of a handler, for an object of any name.
pub data OperatorStep (P : Platform) : World P.State → World P.State → Type 0 where
  kubeconfig_run :
      (m : String) (w : World P.State)
      → OperatorStep P w (end_world (Kubeconfig.reconcile P (cluster_name m) w))
  csr_run :
      (m : String) (w : World P.State)
      → OperatorStep P w (end_world (Csr.reconcile P (cluster_name m) w))
  admission : (k : Kubeconfig) (w : World P.State) → OperatorStep P w (end_world (default P k w))

module _ (P : Platform) (name : String) (V : Server P name) where
  Keeps-Steps : (m : String) (σ τ : Snapshot) → Keeps P name V m σ τ → Steps P name V m σ τ
  Keeps-Steps m σ τ (inl same) = inl same
  Keeps-Steps m σ τ (inr (own, kept)) = inr (own, inl (sym kept))

  keeping :
      {A : Type 0} (U : A → World P.State → Type 0) (m : String) (σ : Snapshot) (r : Run P.State A)
      → Ends U (ExitKeeps P name V m σ) r
      → Ends U (ExitSteps P name V m σ) r
  keeping U m σ r h =
      Ends-mono U U (ExitKeeps P name V m σ) (ExitSteps P name V m σ) r h (λ _ _ u. u)
        (λ x v k. Keeps-Steps m σ (seen P name V v) k)

  module _ (L : HasConditionLaws P) where
    after_request :
        (m : String) (σ : Snapshot) (o : Objects) (w : World P.State)
        → Copy P name V m σ o.kubeconfig w
        → Ends
            (λ _ _. ⊥)
            (ExitSteps P name V m σ)
            ((find_csr P o >>= λ csr.
                check_approval P o.kubeconfig (get_cert_approval_condition csr.conditions) >>= λ k.
                issue P k o.secret csr.certificate)
              w)
    unfolding csr_stage
    after_request m σ o w h =
        Ends-bind_run _ (λ _ _. ⊥) (ExitSteps P name V m σ) (find_csr P o w) _
          (find_csr-Steps P name V L m σ o w h)
          λ csr v found.
            Ends-bind_run _ (λ _ _. ⊥) (ExitSteps P name V m σ) _ _
              (check_approval-Steps P name V L m σ o.kubeconfig
                (get_cert_approval_condition csr.conditions) (csr.certificate == "") v found.0
                (request_stage P name V L m σ o.kubeconfig csr v found.0 found.1))
              λ k u passed.
                issue-Steps P name V L m σ k o.secret csr.certificate u passed.0 (λ own full.
                  request_stage P name V L m σ o.kubeconfig csr v found.0 found.1 own
                  ∙ rw (passed.1.0, passed.1.1, full) refl)

    reconcile-Steps :
        (m : String) (w : World P.State)
        → Ends
            (λ _ _. ⊥)
            (ExitSteps P name V m (seen P name V w))
            (Kubeconfig.reconcile P (cluster_name m) w)
    unfolding Kubeconfig.reconcile
    reconcile-Steps m w =
        let σ : Snapshot = seen P name V w in
        Ends-bind_run (Copy P name V m σ) (λ _ _. ⊥) (ExitSteps P name V m σ)
          (load P (cluster_name m) w) _ (keeping (Copy P name V m σ) m σ _ (load-Copy P name V m w))
          λ k v copy.
            Ends-bind_run (Holds P name V m σ) (λ _ _. ⊥) (ExitSteps P name V m σ)
              (user_secret P k v) _
              (keeping (Holds P name V m σ) m σ _ (user_secret-Copy P name V L m σ k v copy))
              λ o u held. after_request m σ o u held

    ending :
        {A : Type 0} (U : A → World P.State → Type 0) (m : String) (σ : Snapshot)
        (r : Run P.State A)
        → ((a : A) (w : World P.State) → U a w → Steps P name V m σ (seen P name V w))
        → Ends U (ExitSteps P name V m σ) r
        → Steps P name V m σ (seen P name V (end_world r))
    ending U m σ (value a w) f h = f a w h
    ending U m σ (returned r e w) f h = h
    ending U m σ (panicked w) f h = h

    Steps-Moves :
        (m : String) (σ τ : Snapshot) → Steps P name V m σ τ → Moves (stage P σ) (stage P τ)
    Steps-Moves m σ τ (inl same) = inl (ap (stage P) (sym same))
    Steps-Moves m σ τ (inr (own, moved)) = moved

    -- Let the API server serve the objects under a name as documented, and the helpers for conditions
    -- work as documented. Then a run of either controller, for any name, and of the defaulting webhook,
    -- leaves the Kubeconfig of the name at its stage or makes one move of the machine: it submits a
    -- request, decides an open request, completes an issued one or gives up a rejected one.
    pub operator-Moves :
        (v w : World P.State)
        → OperatorStep P v w
        → Moves (stage P (seen P name V v)) (stage P (seen P name V w))
    operator-Moves v w (kubeconfig_run m _) =
        Steps-Moves m _ _ (ending (λ _ _. ⊥) m _ _ (λ a _ _. absurd a) (reconcile-Steps m v))
    operator-Moves v w (csr_run m _) =
        Steps-Moves m _ _
          (ending (λ _ _. ⊥) m _ _ (λ a _ _. absurd a) (csr_reconcile-Steps P name V m v))
    operator-Moves v w (admission k _) = inl (ap (stage P) (sym (default_same P name V k v)))
