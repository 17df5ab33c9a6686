-- ===== src/Lifecycle/Progress/Next.antt =====
-- A run of the Kubeconfig controller that nothing hinders.
use kubeconfig_operator.Base.{
  none, String, ◌||◌, ◌≡◌, refl, sym, ◌∙◌, ap, inl, inr, ◌==◌, Bool-cases, Option-cases,
  if◌then◌else◌,
}
use kubeconfig_operator.Api.Types.{Kubeconfig}
use kubeconfig_operator.Api.Conditions.{condition_type_csr_approved, condition_true}
use kubeconfig_operator.Platform.{Platform}
use kubeconfig_operator.Platform.Laws.{HasConditionLaws}
use kubeconfig_operator.Effects.{World, ◌>>=◌, end_world, Run, value, returned, panicked}
use kubeconfig_operator.Effects.Ends.{Exit, Ends, Ends-bind_run, Ends-mono, Ends-total}
use kubeconfig_operator.Controllers.Csr.{Approval, get_cert_approval_condition}
use kubeconfig_operator.Controllers.Kubeconfig.{reconcile}
use kubeconfig_operator.Controllers.Kubeconfig.Objects.{Objects, load, mark, user_secret}
use kubeconfig_operator.Controllers.Kubeconfig.Request.{find_csr}
use kubeconfig_operator.Controllers.Kubeconfig.Finish.{check_approval, issue, refused}
use kubeconfig_operator.Lifecycle.Stages.{
  Snapshot, Stage, fresh, waiting, granted, issued, broken, Moves, stage, open_stage, csr_stage,
  decision_stage,
}
use kubeconfig_operator.Lifecycle.Server.{Server, cluster_name}
use kubeconfig_operator.Lifecycle.Copies.{seen, IsOpen, Copy, mark-Copy, write-Keeps, stage-open}
use kubeconfig_operator.Lifecycle.Refinement.{kubeconfig_run, operator-Moves}
use kubeconfig_operator.Lifecycle.Progress.Cooperation.{next, Cooperates}
use kubeconfig_operator.Lifecycle.Progress.Preparation.{
  Loaded, Ready, load-Loaded, user_secret-Ready,
}
use kubeconfig_operator.Lifecycle.Progress.Submission.{
  Reaches, Requests, Keeps-stage, find_csr-Requests, find_csr-Ready,
}
use kubeconfig_operator.Lifecycle.Progress.Closed.{IsClosed, closed_next, IsOpen-cases}
use kubeconfig_operator.Lifecycle.Progress.Completion.{refused-Reaches, issue-Reaches}

module _ (P : Platform) (name : String) (V : Server P name) (L : HasConditionLaws P)
    (C : Cooperates P name V) where
  -- An approved request.
  approved-Reaches :
      (σ : Snapshot) (o : Objects) (k : Kubeconfig) (cert : String) (w v : World P.State)
      → Ready P name V L C σ o w
      → Copy P name V name σ k v
      → k.spec ≡ o.kubeconfig.spec
      → stage P σ ≡ (if cert == "" then granted else issued)
      → Ends
          (λ _ _. ⊥)
          (Reaches P name V (next (if cert == "" then granted else issued)))
          (issue P k o.secret cert v)
  unfolding issue
  approved-Reaches σ o k cert w v h copy same at = elim (Bool-cases (cert == "")) [
    | inl empty ↦
        let now : stage P σ ≡ granted = at ∙ rw empty refl in
        rw empty (Keeps-stage P name V σ _ granted (write-Keeps P name V name σ k v copy) now)
    | inr full ↦
        let done_now =
          issue-Reaches P name V L C σ k o.secret cert v copy (rw same h.fit.role_ref)
            (rw same h.fit.cluster) h.content full in
        rw full (rw full at done_now)
  ]

  decided-Reaches :
      (σ : Snapshot) (o : Objects) (a : Approval) (cert : String) (w : World P.State)
      → Ready P name V L C σ o w
      → stage P σ ≡ decision_stage a (cert == "")
      → Ends
          (λ _ _. ⊥)
          (Reaches P name V (next (decision_stage a (cert == ""))))
          ((check_approval P o.kubeconfig a >>= λ k. issue P k o.secret cert) w)
  unfolding check_approval mark
  decided-Reaches σ o a cert w h at = elim (Bool-cases (a.denied || a.failed)) [
    | inl bad ↦ rw bad (
        Ends-bind_run (λ _ _. ⊥) (λ _ _. ⊥) (Reaches P name V broken) (refused P o.kubeconfig w) _
          (refused-Reaches P name V L C σ o.kubeconfig w h.copy) (λ _ _ x. absurd x))
    | inr fine ↦ elim (Bool-cases a.approved) [
      | inr waits ↦
          let now : stage P σ ≡ waiting = at ∙ rw (fine, waits) refl in
          rw (fine, waits) (ap (stage P) h.copy.same ∙ now)
      | inl grants ↦
          let now : stage P σ ≡ (if cert == "" then granted else issued) =
            at ∙ rw (fine, grants) refl in
          rw (fine, grants)
            (approved-Reaches σ o _ cert w _ h
              (mark-Copy P name V L name condition_type_csr_approved condition_true "CsrApproved"
                "CSR for the kubeconfig was approved" σ o.kubeconfig w refl h.copy)
              refl now)
    ]
  ]

  pub missing-Requests :
      (σ : Snapshot) (o : Objects) (w : World P.State)
      → Ready P name V L C σ o w
      → σ.request ≡ none
      → Ends
          (λ _ _. ⊥)
          (Requests P name V o.kubeconfig)
          ((find_csr P o >>= λ csr.
              check_approval P o.kubeconfig (get_cert_approval_condition csr.conditions) >>= λ k.
              issue P k o.secret csr.certificate)
            w)
  missing-Requests σ o w h missing =
      Ends-bind_run (λ _ _. ⊥) (λ _ _. ⊥) (Requests P name V o.kubeconfig) (find_csr P o w) _
        (find_csr-Requests P name V L C σ o w h missing) (λ _ _ x. absurd x)

  -- After the first part of a run.
  prepared-Reaches :
      (σ : Snapshot) (o : Objects) (w : World P.State)
      → Ready P name V L C σ o w
      → Ends
          (λ _ _. ⊥)
          (Reaches P name V (next (stage P σ)))
          ((find_csr P o >>= λ csr.
              check_approval P o.kubeconfig (get_cert_approval_condition csr.conditions) >>= λ k.
              issue P k o.secret csr.certificate)
            w)
  unfolding open_stage csr_stage
  prepared-Reaches σ o w h = elim (Option-cases σ.request) [
    | inl missing ↦
        let now : stage P σ ≡ fresh =
          stage-open P name V σ (h.copy.mine refl) ∙ ap open_stage missing in
        rw now (
          Ends-mono (λ _ _. ⊥) (λ _ _. ⊥) (Requests P name V o.kubeconfig)
            (Reaches P name V waiting) _ (missing-Requests σ o w h missing) (λ _ _ x. x)
            (λ _ _ made. made.waits))
    | inr (c, there) ↦
        let now : stage P σ ≡ csr_stage c =
          stage-open P name V σ (h.copy.mine refl) ∙ ap open_stage there in
        rw now (
          Ends-bind_run (λ d v. (d ≡ c) × Ready P name V L C σ o v) (λ _ _. ⊥)
            (Reaches P name V (next (csr_stage c))) (find_csr P o w) _
            (Ends-total (λ d v. (d ≡ c) × Ready P name V L C σ o v)
              (Reaches P name V (next (csr_stage c))) _
              (find_csr-Ready P name V L C σ o c w h there))
            (λ d v found. rw found.0 (
              decided-Reaches σ o (get_cert_approval_condition c.conditions) c.certificate v found.1
                now)))
  ]

  open-Reaches :
      (w : World P.State)
      → IsOpen P name V (seen P name V w)
      → Ends
          (λ _ _. ⊥)
          (Reaches P name V (next (stage P (seen P name V w))))
          (reconcile P (cluster_name name) w)
  unfolding reconcile
  open-Reaches w h =
      let σ : Snapshot = seen P name V w in
      let E : Exit → World P.State → Type 0 = Reaches P name V (next (stage P σ)) in
      Ends-bind_run (Loaded P name V L C σ) (λ _ _. ⊥) E (load P (cluster_name name) w) _
        (Ends-total (Loaded P name V L C σ) E _ (load-Loaded P name V L C w h))
        λ k v loaded.
          Ends-bind_run (Ready P name V L C σ) (λ _ _. ⊥) E (user_secret P k v) _
            (Ends-total (Ready P name V L C σ) E _ (user_secret-Ready P name V L C σ k v loaded))
            (prepared-Reaches σ)

  closed-Moves : (s t : Stage) → IsClosed s → Moves s t → t ≡ next s
  closed-Moves s t closed (inl same) = sym same ∙ closed_next s closed
  closed-Moves s t (inl here) (inr move) = elim (rw here at move) [ ]
  closed-Moves s t (inr (inl here)) (inr move) = elim (rw here at move) [ ]
  closed-Moves s t (inr (inr here)) (inr move) = elim (rw here at move) [ ]

  pub reached :
      (t : Stage) (r : Run P.State ⊥)
      → Ends (λ _ _. ⊥) (Reaches P name V t) r
      → stage P (seen P name V (end_world r)) ≡ t
  reached t (value a w) h = absurd h
  reached t (returned r e w) h = h
  reached t (panicked w) h = h

  abbrev pub after_run : World P.State → World P.State
  after_run w = end_world (reconcile P (cluster_name name) w)

  -- Where the API server serves the objects under the name, takes the writes of a run and has, or
  -- creates, its secrets, where keys and the signing of requests work and the Kubeconfig asks for an
  -- algorithm that has keys, a run of the Kubeconfig controller leads from each stage to the next one
  -- exactly: a fresh Kubeconfig waits for its request, an issued one is done, a rejected one is
  -- broken, and all others keep their stage.
  pub reconcile-next :
      (w : World P.State) → stage P (seen P name V (after_run w)) ≡ next (stage P (seen P name V w))
  reconcile-next w = elim (IsOpen-cases P name V (seen P name V w)) [
    | inl opened ↦ reached _ _ (open-Reaches w opened)
    | inr closed ↦
        closed-Moves _ _ closed (operator-Moves P name V L w (after_run w) (kubeconfig_run name w))
  ]
