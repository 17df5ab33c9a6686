-- ===== src/Lifecycle/Requests.antt =====
-- The middle of a run: the request is read, or made together with its key.
use kubeconfig_operator.Base.{
  String, true, none, some, ◌≡◌, refl, sym, subst, ◌∙◌, ap, inl, inr, ◌<>◌, arith, Bool-cases,
  Option-cases,
}
use kubeconfig_operator.K8s.{NamespacedName, Secret, CsrObject, Reply, Fallible, ok, failed}
use kubeconfig_operator.Api.Types.{Kubeconfig}
use kubeconfig_operator.Api.Conditions.{
  condition_type_csr_created, condition_true, condition_false, phase_awaiting_approval,
}
use kubeconfig_operator.Platform.{Platform}
use kubeconfig_operator.Platform.Laws.{HasConditionLaws}
use kubeconfig_operator.Effects.{World, announced, answered, csr_get}
use kubeconfig_operator.Effects.Ends.{Ends, Ends-bind_run, Ends-mono}
use kubeconfig_operator.Controllers.Keys
use kubeconfig_operator.Controllers.Keys.{
  KeyCase, rsa_case, ecdsa_case, ed25519_case, unsupported_case, no_case, key_and_request,
  certificate_request, CsrBuffers, is_in_terminal_condition,
}
use kubeconfig_operator.Controllers.Resources.{create_csr_object}
use kubeconfig_operator.Controllers.Kubeconfig.Objects.{Objects, set_phase, put_content}
use kubeconfig_operator.Controllers.Kubeconfig.Request.{
  csr_name, generation_failed, csr_submitted, key_saved, save_key, generated, request_certificate,
  find_csr,
}
use kubeconfig_operator.Lifecycle.Stages.{Snapshot}
use kubeconfig_operator.Lifecycle.Server.{Server, cluster_name}
use kubeconfig_operator.Lifecycle.Copies.{seen, Copy, Copy-again, Steps, mark-then, write-Keeps}
use kubeconfig_operator.Lifecycle.Creation.{ExitSteps, Steps-Keeps, created-Steps, create_csr-Quiet}

module _ (P : Platform) (name : String) (V : Server P name) where
  module _ (L : HasConditionLaws P) where
    -- In the world where the request has been sent to the API server.
    csr_submitted-Steps :
        (m : String) (σ τ : Snapshot) (k : Kubeconfig) (r : Reply CsrObject) (w : World P.State)
        → Copy P name V m τ k w
        → Steps P name V m σ τ
        → Ends (λ _ _. ⊥) (ExitSteps P name V m σ) (csr_submitted P k r w)
    unfolding csr_submitted
    csr_submitted-Steps m σ τ k r w h made = elim (Option-cases r.err) [
      | inr (e, bad) ↦ rw bad (rw (h.same) made)
      | inl fine ↦ rw fine (
          mark-then P name V (λ _ _. ⊥) (ExitSteps P name V m σ) L m condition_type_csr_created
            condition_true "CsrCreated" "Created CSR for kubeconfig request" τ _ _ w refl
            (Copy-again P name V m τ k _ w w h refl refl refl)
            (λ k' v copy. Steps-Keeps P name V m σ τ _ made (
              write-Keeps P name V m τ (set_phase phase_awaiting_approval k')
                (announced "Normal" "Created" "Created user secret and CSR for kubeconfig" v)
                (Copy-again P name V m τ k' _ v _ copy refl refl refl))))
    ]

    key_saved-Steps :
        (m : String) (σ : Snapshot) (k : Kubeconfig) (text : String) (r : Reply Secret)
        (w : World P.State)
        → Copy P name V m σ k w
        → (m ≡ name → σ.request ≡ none)
        → Ends (λ _ _. ⊥) (ExitSteps P name V m σ) (key_saved P k text r w)
    unfolding key_saved create_csr_object
    key_saved-Steps m σ k text r w h missing = elim (Option-cases r.err) [
      | inr (e, bad) ↦ rw bad (inl h.same)
      | inl fine ↦
          let c : CsrObject = create_csr_object P k text in
          let made =
            created-Steps P name V m σ k c w h (V.owner_keeps_name k.meta _ ∙ h.named) refl
              missing in
          rw fine (
            csr_submitted-Steps m σ (V.view (P.create_csr c w.server).1) k _ _
              (record { same = refl; named = h.named; unfinished = h.unfinished; mine = made.1 })
              made.0)
    ]

    save_key-Steps :
        (m : String) (σ : Snapshot) (o : Objects) (b : CsrBuffers P) (w : World P.State)
        → Copy P name V m σ o.kubeconfig w
        → (m ≡ name → σ.request ≡ none)
        → Ends (λ _ _. ⊥) (ExitSteps P name V m σ) (save_key P o b w)
    unfolding save_key put_content
    save_key-Steps m σ o b w h missing = elim (Option-cases b.key) [
      | inl nil ↦ rw nil (inl h.same)
      | inr (key, made) ↦ elim (Option-cases o.secret.content) [
        | inl empty ↦ rw (made, empty) (inl h.same)
        | inr (content, given) ↦
            rw (made, given)
              (key_saved-Steps m σ o.kubeconfig b.csr _ _
                (Copy-again P name V m σ o.kubeconfig _ w _ h refl refl
                  (V.update_secret _ w.server))
                missing)
      ]
    ]

    generated-Steps :
        (m : String) (σ : Snapshot) (o : Objects) (b : Fallible (CsrBuffers P)) (w : World P.State)
        → Copy P name V m σ o.kubeconfig w
        → (m ≡ name → σ.request ≡ none)
        → Ends (λ _ _. ⊥) (ExitSteps P name V m σ) (generated P o b w)
    unfolding generated generation_failed
    generated-Steps m σ o (ok b) w h missing = save_key-Steps m σ o b w h missing
    generated-Steps m σ o (failed e) w h missing =
        mark-then P name V (λ _ _. ⊥) (ExitSteps P name V m σ) L m condition_type_csr_created
          condition_false "CsrCreateFailed"
          ("Failed to generate private key and certificate signing request, " <> e.message) σ
          o.kubeconfig _ w refl h (λ k' v copy. inl copy.same)

    request_certificate-Steps :
        (m : String) (σ : Snapshot) (o : Objects) (w : World P.State)
        → Copy P name V m σ o.kubeconfig w
        → (m ≡ name → σ.request ≡ none)
        → Ends (λ _ _. ⊥) (ExitSteps P name V m σ) (request_certificate P o w)
    unfolding request_certificate Keys.create_csr
    request_certificate-Steps m σ o w h missing =
        let v : World P.State = announced "Normal" "Generating" "Generating CSR for kubeconfig" w in
        elim (Option-cases o.kubeconfig.spec.csr) [
          | inl nil ↦ rw nil (inl h.same)
          | inr (csr, given) ↦
              Ends-bind_run (λ _ u. seen P name V u ≡ seen P name V v) (λ _ _. ⊥)
                (ExitSteps P name V m σ) _ (generated P o)
                (rw given (
                  Ends-mono _ (λ _ u. seen P name V u ≡ seen P name V v) _ (ExitSteps P name V m σ)
                    _ (create_csr-Quiet P name V o.kubeconfig csr _ v) (λ _ _ e. e)
                    (λ _ _ e. inl (e ∙ h.same))))
                (λ b u same.
                  generated-Steps m σ o b u
                    (Copy-again P name V m σ o.kubeconfig _ w u h refl refl same) missing)
        ]

    pub missing_here :
        (m : String) (σ : Snapshot) (k : Kubeconfig) (w : World P.State)
        → Copy P name V m σ k w
        → P.is_not_found (P.get_csr (csr_name k) w.server).0.err ≡ true
        → m ≡ name
        → σ.request ≡ none
    missing_here m σ k w h gone own =
        let e : k.meta.name ≡ name = h.named ∙ own in
        ap (λ τ. τ.request) (sym h.same)
        ∙ V.csr_missing w.server
            (subst (λ n. P.is_not_found (P.get_csr (cluster_name n) w.server).0.err ≡ true) e gone)

    found_here :
        (m : String) (σ : Snapshot) (k : Kubeconfig) (w : World P.State)
        → Copy P name V m σ k w
        → (P.get_csr (csr_name k) w.server).0.err ≡ none
        → m ≡ name
        → σ.request ≡ some (P.get_csr (csr_name k) w.server).0.object
    found_here m σ k w h fine own =
        let e : k.meta.name ≡ name = h.named ∙ own in
        ap (λ τ. τ.request) (sym h.same)
        ∙ V.csr_read w.server
            (subst (λ n. (P.get_csr (cluster_name n) w.server).0.err ≡ none) e fine)
        ∙ ap (λ n. some (P.get_csr (cluster_name n) w.server).0.object) (sym e)

    -- The request that a run goes on with is the one that is kept.
    pub find_csr-Steps :
        (m : String) (σ : Snapshot) (o : Objects) (w : World P.State)
        → Copy P name V m σ o.kubeconfig w
        → Ends
            (λ csr v. Copy P name V m σ o.kubeconfig v × (m ≡ name → σ.request ≡ some csr))
            (ExitSteps P name V m σ)
            (find_csr P o w)
    unfolding find_csr
    find_csr-Steps m σ o w h =
        let n : NamespacedName = csr_name o.kubeconfig in
        let v : World P.State = answered (csr_get n) (P.get_csr n) w in
        let read : Copy P name V m σ o.kubeconfig v =
          Copy-again P name V m σ o.kubeconfig _ w v h refl refl (V.get_csr n w.server) in
        elim (Bool-cases (P.is_not_found (P.get_csr n w.server).0.err)) [
          | inl gone ↦ rw gone (
              Ends-mono (λ _ _. ⊥) _ (ExitSteps P name V m σ) (ExitSteps P name V m σ) _
                (request_certificate-Steps m σ o v read (missing_here m σ o.kubeconfig w h gone))
                (λ _ _ e. absurd e) (λ _ _ e. e))
          | inr there ↦ rw there (elim (Option-cases (P.get_csr n w.server).0.err) [
            | inr (e, bad) ↦ rw bad (inl read.same)
            | inl fine ↦ ground (arith, read, found_here m σ o.kubeconfig w h fine)
          ])
        ]
