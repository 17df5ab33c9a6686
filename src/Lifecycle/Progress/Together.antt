-- ===== src/Lifecycle/Progress/Together.antt =====
-- Both controllers together, on a Kubeconfig with automatic approval.
use kubeconfig_operator.Base.{
  false, Bool, Option, ◌==◌, ◌⊎◌, String, true, none, some, ◌≡◌, refl, sym, ◌∙◌, ap, arith,
}
use kubeconfig_operator.K8s.{CsrObject}
use kubeconfig_operator.Api.Types.{Kubeconfig}
use kubeconfig_operator.Platform.{Platform}
use kubeconfig_operator.Platform.Laws.{HasConditionLaws, HasOwnerLaws}
use kubeconfig_operator.Effects.{World, end_world, Run, value, returned, panicked}
use kubeconfig_operator.Effects.Ends.{Exit, Ends, Ends-bind_run, Ends-mono, Ends-total}
use kubeconfig_operator.Controllers.Csr.{
  Approval, get_cert_approval_condition, parse_csr, is_kubeconfig_v1alpha1_csr,
  has_auto_approve_annotation, has_kubeconfig_owner,
}
use kubeconfig_operator.Controllers.Outcomes.AutoApprove.{created_is_owned, created_is_annotated}
use kubeconfig_operator.Controllers.Resources.{create_csr_object}
use kubeconfig_operator.Controllers.Kubeconfig.{reconcile}
use kubeconfig_operator.Controllers.Kubeconfig.Objects.{load, user_secret}
use kubeconfig_operator.Lifecycle.Stages.{
  Snapshot, done, with_request, Stage, fresh, granted, issued, stage, open_stage, csr_stage,
  decision_stage,
}
use kubeconfig_operator.Lifecycle.Server.{Server, cluster_name}
use kubeconfig_operator.Lifecycle.Copies.{seen, IsOpen, stage-open}
use kubeconfig_operator.Lifecycle.Progress.Cooperation.{next, Cooperates}
use kubeconfig_operator.Lifecycle.Progress.Preparation.{
  Loaded, Ready, load-Loaded, user_secret-Ready,
}
use kubeconfig_operator.Lifecycle.Progress.Submission.{IsRequested, Requests}
use kubeconfig_operator.Lifecycle.Progress.Next.{reconcile-next, missing-Requests, after_run}
use kubeconfig_operator.Lifecycle.Progress.Closed.{IsOpen-unless, granted-IsOpen}
use kubeconfig_operator.Lifecycle.Progress.Approval.{
  IsAuto, granted_stage, after_csr_run, csr_reconcile-granted,
}

decided_late : {A : Type 0} (a : Approval) (is_empty : Bool) → decision_stage a is_empty ≡ fresh → A
decided_late a is_empty at = absurd (ground (arith, at))

signed_late :
    (a : Approval) (is_empty : Bool)
    → (decision_stage a is_empty ≡ granted) ⊎ (decision_stage a is_empty ≡ issued)
    → decision_stage a false ≡ issued
signed_late a is_empty h = ground (arith, h)

-- The signer of the cluster adds a certificate to the request.
pub record IsSigned (before after : Snapshot) : Type 0 where
  pub request : CsrObject
  pub had : before.request ≡ some request
  pub certificate : String
  pub full : (certificate == "") ≡ false
  pub becomes : after ≡ with_request (record request { certificate = certificate }) before

module _ (P : Platform) (name : String) (V : Server P name) (L : HasConditionLaws P)
    (C : Cooperates P name V) (O : HasOwnerLaws P) where
  -- A request that waits was made for a Kubeconfig with this specification.
  abbrev Made : Kubeconfig → Snapshot → Type 0
  Made j τ = (k : Kubeconfig) × (k.spec ≡ j.spec) × IsRequested P name V k τ

  open-Made :
      (w : World P.State) (j : Kubeconfig)
      → IsOpen P name V (seen P name V w)
      → (seen P name V w).kubeconfig ≡ some j
      → (seen P name V w).request ≡ none
      → Ends (λ _ _. ⊥) (λ _ v. Made j (seen P name V v)) (reconcile P (cluster_name name) w)
  unfolding reconcile
  open-Made w j h kept missing =
      let σ : Snapshot = seen P name V w in
      let E : Exit → World P.State → Type 0 = λ _ v. Made j (seen P name V v) in
      Ends-bind_run (Loaded P name V L C σ) (λ _ _. ⊥) E (load P (cluster_name name) w) _
        (Ends-total (Loaded P name V L C σ) E _ (load-Loaded P name V L C w h))
        λ k v loaded.
          Ends-bind_run (Ready P name V L C σ) (λ _ _. ⊥) E (user_secret P k v) _
            (Ends-total (Ready P name V L C σ) E _ (user_secret-Ready P name V L C σ k v loaded))
            λ o u ready.
              Ends-mono (λ _ _. ⊥) (λ _ _. ⊥) (Requests P name V o.kubeconfig) E _
                (missing-Requests P name V L C σ o u ready missing) (λ _ _ x. x)
                (λ _ _ made. (o.kubeconfig, ready.spec j kept, made))

  Made-ended :
      (j : Kubeconfig) (r : Run P.State ⊥)
      → Ends (λ _ _. ⊥) (λ _ v. Made j (seen P name V v)) r
      → Made j (seen P name V (end_world r))
  Made-ended j (value a w) h = absurd h
  Made-ended j (returned r e w) h = h
  Made-ended j (panicked w) h = h

  -- What the second controller looks for is in the metadata.
  same_annotation :
      (c d : CsrObject)
      → c.meta.annotations ≡ d.meta.annotations
      → has_auto_approve_annotation c ≡ has_auto_approve_annotation d
  unfolding has_auto_approve_annotation
  same_annotation c d h = ground (arith, h)

  same_owner :
      (c d : CsrObject)
      → c.meta.owner_references ≡ d.meta.owner_references
      → is_kubeconfig_v1alpha1_csr c ≡ is_kubeconfig_v1alpha1_csr d
  unfolding is_kubeconfig_v1alpha1_csr
  same_owner c d h = ap has_kubeconfig_owner h

  fresh_request : (o : Option CsrObject) → open_stage o ≡ fresh → o ≡ none
  unfolding open_stage csr_stage
  fresh_request none at = refl
  fresh_request (some c) at =
      decided_late (get_cert_approval_condition c.conditions) (c.certificate == "") at

  fresh-IsOpen : (σ : Snapshot) → stage P σ ≡ fresh → IsOpen P name V σ × (σ.request ≡ none)
  fresh-IsOpen σ at =
      let opened : IsOpen P name V σ =
        IsOpen-unless P name V σ fresh at (λ closed. ground (arith, closed)) in
      (opened, fresh_request σ.request (sym (stage-open P name V σ opened) ∙ at))

  IsRequested-IsAuto :
      (j k : Kubeconfig) (τ : Snapshot) (made : IsRequested P name V k τ)
      → k.spec ≡ j.spec
      → j.spec.auto_approve_csr ≡ true
      → parse_csr P made.stored.request ≡ none
      → IsAuto P made.stored
  IsRequested-IsAuto j k τ made spec auto parses =
      let c : CsrObject = create_csr_object P k made.text in
      record {
        owned = same_owner made.stored c made.owner_references ∙ created_is_owned P O k made.text;
        annotated =
            same_annotation made.stored c made.annotations
            ∙ created_is_annotated P O k made.text
            ∙ ap (λ s. s.auto_approve_csr) spec
            ∙ auto;
        parses = parses;
      }

  granted_cases :
      (c : CsrObject) (s : Stage) → s ≡ granted_stage P name V L C c → (s ≡ granted) ⊎ (s ≡ issued)
  granted_cases c s at = ground (arith, at)

  Made-granted :
      (w : World P.State) (j : Kubeconfig)
      → j.spec.auto_approve_csr ≡ true
      → ((c : CsrObject) → (seen P name V w).request ≡ some c → parse_csr P c.request ≡ none)
      → Made j (seen P name V w)
      → (stage P (seen P name V (after_csr_run P name V L C w)) ≡ granted)
        ⊎ (stage P (seen P name V (after_csr_run P name V L C w)) ≡ issued)
  Made-granted w j auto parses (k, spec, made) = granted_cases made.stored _ (
      csr_reconcile-granted P name V L C w made.stored made.kept made.waits
        (IsRequested-IsAuto j k _ made spec auto (parses made.stored made.kept)))

  -- A run of the Kubeconfig controller, then one of the CSR controller.
  abbrev pub both : World P.State → World P.State
  both w = after_csr_run P name V L C (after_run P name V L C w)

  -- Where nothing outside fails and `SetControllerReference` works as documented, a fresh Kubeconfig with
  -- automatic approval is granted, or issued, after a run of the Kubeconfig controller and then one
  -- of the CSR controller, if the request that the first run left parses.
  pub reconcile-granted :
      (w : World P.State) (j : Kubeconfig)
      → (seen P name V w).kubeconfig ≡ some j
      → j.spec.auto_approve_csr ≡ true
      → stage P (seen P name V w) ≡ fresh
      → ((c : CsrObject)
          → (seen P name V (after_run P name V L C w)).request ≡ some c
          → parse_csr P c.request ≡ none)
      → (stage P (seen P name V (both w)) ≡ granted) ⊎ (stage P (seen P name V (both w)) ≡ issued)
  reconcile-granted w j kept auto at parses =
      let opened = fresh-IsOpen (seen P name V w) at in
      Made-granted (after_run P name V L C w) j auto parses
        (Made-ended j (reconcile P (cluster_name name) w) (open-Made w j opened.0 kept opened.1))

  signed_stage :
      (σ τ : Snapshot)
      → (stage P σ ≡ granted) ⊎ (stage P σ ≡ issued)
      → IsSigned σ τ
      → stage P τ ≡ issued
  unfolding open_stage csr_stage
  signed_stage σ τ at signed =
      let opened : IsOpen P name V σ = granted-IsOpen P name V σ at in
      let c : CsrObject = record (signed.request) { certificate = signed.certificate } in
      let still : IsOpen P name V (with_request c σ) = record {
        stored = opened.stored;
        kept = opened.kept;
        unfinished = opened.unfinished;
      } in
      let now : stage P σ ≡ csr_stage signed.request =
        stage-open P name V σ opened ∙ ap open_stage signed.had in
      ap (stage P) signed.becomes
      ∙ stage-open P name V _ still
      ∙ rw signed.full (
          signed_late (get_cert_approval_condition signed.request.conditions)
            (signed.request.certificate == "") (rw now at at))

  -- Where nothing outside fails and `SetControllerReference` works as documented, take a fresh
  -- Kubeconfig with automatic approval, a run of the Kubeconfig controller that leaves a request that
  -- parses, and then a run of the CSR controller. If the signer of the cluster now adds a
  -- certificate to the request, the next run of the Kubeconfig controller makes the Kubeconfig done.
  pub reconcile-done :
      (w : World P.State) (j : Kubeconfig) (s : P.State)
      → (seen P name V w).kubeconfig ≡ some j
      → j.spec.auto_approve_csr ≡ true
      → stage P (seen P name V w) ≡ fresh
      → ((c : CsrObject)
          → (seen P name V (after_run P name V L C w)).request ≡ some c
          → parse_csr P c.request ≡ none)
      → IsSigned (seen P name V (both w)) (V.view s)
      → stage P (seen P name V (after_run P name V L C (record (both w) { server = s }))) ≡ done
  reconcile-done w j s kept auto at parses signed =
      reconcile-next P name V L C (record (both w) { server = s })
      ∙ ap next (signed_stage _ _ (reconcile-granted w j kept auto at parses) signed)
