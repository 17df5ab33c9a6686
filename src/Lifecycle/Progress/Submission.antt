-- ===== src/Lifecycle/Progress/Submission.antt =====
-- A fresh Kubeconfig gets its request.
use kubeconfig_operator.Base.{
  String, true, none, some, ◌≡◌, refl, ◌∙◌, ap, inl, inr, is_some, arith, Option-cases,
}
use kubeconfig_operator.K8s.{NamespacedName, Secret, CsrObject, Reply, Fallible, ok, failed}
use kubeconfig_operator.Api.Types.{Kubeconfig}
use kubeconfig_operator.Api.Conditions.{
  condition_type_csr_created, condition_true, phase_awaiting_approval,
}
use kubeconfig_operator.Platform.{Platform}
use kubeconfig_operator.Platform.Laws.{HasConditionLaws}
use kubeconfig_operator.Effects.{World, announced, answered, csr_get}
use kubeconfig_operator.Effects.Ends.{Exit, Ends, Ends-and, Ends-bind_run, Ends-total}
use kubeconfig_operator.Controllers.Keys
use kubeconfig_operator.Controllers.Keys.{CsrBuffers, key_case}
use kubeconfig_operator.Controllers.Outcomes.Submission.{Made, create_csr-Made}
use kubeconfig_operator.Controllers.Resources.{create_csr_object}
use kubeconfig_operator.Controllers.Kubeconfig.Objects.{Objects, set_phase, put_content}
use kubeconfig_operator.Controllers.Kubeconfig.Request.{
  csr_name, csr_submitted, key_saved, save_key, generated, request_certificate, find_csr,
}
use kubeconfig_operator.Lifecycle.Stages.{Snapshot, Stage, waiting, stage}
use kubeconfig_operator.Lifecycle.Server.{Server, cluster_name}
use kubeconfig_operator.Lifecycle.Copies.{seen, Copy, Copy-again, Keeps, mark-then, write-Keeps}
use kubeconfig_operator.Lifecycle.Creation.{created-IsOpen, create_csr-Quiet}
use kubeconfig_operator.Lifecycle.Progress.Cooperation.{Cooperates}
use kubeconfig_operator.Lifecycle.Progress.Preparation.{Ready}

module _ (P : Platform) (name : String) (V : Server P name) where
  -- The Kubeconfig has reached the stage.
  abbrev pub Reaches : Stage → Exit → World P.State → Type 0
  Reaches t x v = stage P (seen P name V v) ≡ t

  pub Keeps-stage :
      (σ τ : Snapshot) (t : Stage) → Keeps P name V name σ τ → stage P σ ≡ t → stage P τ ≡ t
  Keeps-stage σ τ t (inl same) at = ap (stage P) same ∙ at
  Keeps-stage σ τ t (inr (_, kept)) at = kept ∙ at

  -- A request that was made for the Kubeconfig is kept, and waits.
  pub record IsRequested (k : Kubeconfig) (τ : Snapshot) : Type 0 where
    pub waits : stage P τ ≡ waiting
    pub stored : CsrObject
    pub kept : τ.request ≡ some stored
    pub text : String
    pub annotations : stored.meta.annotations ≡ (create_csr_object P k text).meta.annotations
    pub owner_references :
        stored.meta.owner_references ≡ (create_csr_object P k text).meta.owner_references

  abbrev pub Requests : Kubeconfig → Exit → World P.State → Type 0
  Requests k x v = IsRequested k (seen P name V v)

  -- A write of the status keeps the request.
  write_request :
      (j : Kubeconfig) (s : P.State)
      → j.meta.name ≡ name
      → (V.view (P.update_kubeconfig_status j s).1).request ≡ (V.view s).request
  write_request j s named = elim (V.status_write j s named) [
    | inl lost ↦ ap (λ τ. τ.request) lost.0
    | inr written ↦ ap (λ τ. τ.request) written.becomes
  ]

  write-IsRequested :
      (k : Kubeconfig) (τ : Snapshot) (j : Kubeconfig) (w : World P.State)
      → Copy P name V name τ j w
      → IsRequested k τ
      → IsRequested k (V.view (P.update_kubeconfig_status j w.server).1)
  write-IsRequested k τ j w h made = record {
    waits = Keeps-stage τ _ waiting (write-Keeps P name V name τ j w h) made.waits;
    stored = made.stored;
    kept = write_request j w.server h.named ∙ ap (λ υ. υ.request) h.same ∙ made.kept;
    text = made.text;
    annotations = made.annotations;
    owner_references = made.owner_references;
  }

  module _ (L : HasConditionLaws P) (C : Cooperates P name V) where
    csr_submitted-Requests :
        (τ : Snapshot) (k : Kubeconfig) (r : Reply CsrObject) (w : World P.State)
        → Copy P name V name τ k w
        → IsRequested k τ
        → r.err ≡ none
        → Ends (λ _ _. ⊥) (Requests k) (csr_submitted P k r w)
    unfolding csr_submitted
    csr_submitted-Requests τ k r w h made fine = rw fine (
        mark-then P name V (λ _ _. ⊥) (Requests k) L name condition_type_csr_created condition_true
          "CsrCreated" "Created CSR for kubeconfig request" τ _ _ w refl
          (Copy-again P name V name τ k _ w w h refl refl refl)
          (λ k' v copy.
            (write-IsRequested k τ (set_phase phase_awaiting_approval k')
              (announced "Normal" "Created" "Created user secret and CSR for kubeconfig" v)
              (Copy-again P name V name τ k' _ v _ copy refl refl refl) made)))

    key_saved-Requests :
        (σ : Snapshot) (k : Kubeconfig) (text : String) (r : Reply Secret) (w : World P.State)
        → Copy P name V name σ k w
        → r.err ≡ none
        → Ends (λ _ _. ⊥) (Requests k) (key_saved P k text r w)
    unfolding key_saved create_csr_object
    key_saved-Requests σ k text r w h fine =
        let c : CsrObject = create_csr_object P k text in
        let taken : (P.create_csr c w.server).0.err ≡ none = C.submits.request c w.server in
        rw fine (elim (V.csr_create c w.server (V.owner_keeps_name k.meta _ ∙ h.named)) [
          | inl lost ↦ cc (rw taken at lost.1)
          | inr made ↦
              let opened = created-IsOpen P name V c _ _ (rw h.same (h.mine refl)) refl made in
              csr_submitted-Requests (V.view (P.create_csr c w.server).1) k _ _
                (record {
                  same = refl;
                  named = h.named;
                  unfinished = h.unfinished;
                  mine = λ _. opened.0;
                })
                (record {
                  waits = opened.1;
                  stored = made.stored;
                  kept = ap (λ τ. τ.request) made.becomes;
                  text = text;
                  annotations = made.annotations;
                  owner_references = made.owner_references;
                })
                taken
        ])

    save_key-Requests :
        (σ : Snapshot) (o : Objects) (b : CsrBuffers P) (w : World P.State)
        → Ready P name V L C σ o w
        → is_some b.key ≡ true
        → Ends (λ _ _. ⊥) (Requests o.kubeconfig) (save_key P o b w)
    unfolding save_key put_content
    save_key-Requests σ o b w h key = elim (Option-cases b.key) [
      | inl nil ↦ cc (rw nil at key)
      | inr (t, made) ↦ elim (Option-cases o.secret.content) [
        | inl missing ↦ cc (rw missing at h.content)
        | inr (content, given) ↦
            rw (made, given)
              (key_saved-Requests σ o.kubeconfig b.csr _ _
                (Copy-again P name V name σ o.kubeconfig _ w _ h.copy refl refl
                  (V.update_secret _ w.server))
                (C.submits.secret _ _))
      ]
    ]

    generated-Requests :
        (σ : Snapshot) (o : Objects) (b : Fallible (CsrBuffers P)) (w : World P.State)
        → Ready P name V L C σ o w
        → Made P C.submits b w
        → Ends (λ _ _. ⊥) (Requests o.kubeconfig) (generated P o b w)
    unfolding generated
    generated-Requests σ o (ok b) w h key = save_key-Requests σ o b w h key
    generated-Requests σ o (failed e) w h made = absurd made

    request_certificate-Requests :
        (σ : Snapshot) (o : Objects) (w : World P.State)
        → Ready P name V L C σ o w
        → Ends (λ _ _. ⊥) (Requests o.kubeconfig) (request_certificate P o w)
    unfolding request_certificate Keys.create_csr
    request_certificate-Requests σ o w h =
        let v : World P.State = announced "Normal" "Generating" "Generating CSR for kubeconfig" w in
        elim (Option-cases o.kubeconfig.spec.csr) [
          | inl nil ↦ cc (rw nil at h.fit.csr)
          | inr (csr, given) ↦
              let Same : World P.State → Type 0 = λ u. seen P name V u ≡ seen P name V v in
              Ends-bind_run (λ b u. Made P C.submits b u × Same u) (λ _ _. ⊥)
                (Requests o.kubeconfig) (Keys.create_csr P o.kubeconfig v) (generated P o)
                (Ends-total (λ b u. Made P C.submits b u × Same u) (Requests o.kubeconfig) _
                  (Ends-and (Made P C.submits) (λ _ u. Same u) (λ _ u. Same u) _
                    (create_csr-Made P C.submits o.kubeconfig csr v given
                      (h.fit.algorithm csr given))
                    (rw given (create_csr-Quiet P name V o.kubeconfig csr _ v))))
                (λ b u made.
                  generated-Requests σ o b u
                    (record {
                      copy = Copy-again P name V name σ o.kubeconfig _ w u h.copy refl refl made.1;
                      fit = h.fit;
                      spec = h.spec;
                      content = h.content;
                    })
                    made.0)
        ]

    -- The read of the request, for the copy of the run.
    pub csr_named :
        (σ : Snapshot) (k : Kubeconfig) (w : World P.State)
        → Copy P name V name σ k w
        → csr_name k ≡ cluster_name name
    csr_named σ k w h = ap cluster_name h.named

    pub find_csr-Requests :
        (σ : Snapshot) (o : Objects) (w : World P.State)
        → Ready P name V L C σ o w
        → σ.request ≡ none
        → Ends (λ _ _. ⊥) (Requests o.kubeconfig) (find_csr P o w)
    unfolding find_csr
    find_csr-Requests σ o w h missing =
        let n : NamespacedName = csr_name o.kubeconfig in
        let v : World P.State = answered (csr_get n) (P.get_csr n) w in
        let gone : P.is_not_found (P.get_csr n w.server).0.err ≡ true =
          rw (csr_named σ o.kubeconfig w h.copy)
            (C.csr_refused w.server (ap (λ τ. τ.request) h.copy.same ∙ missing)) in
        rw gone (
          request_certificate-Requests σ o v (record {
            copy =
                Copy-again P name V name σ o.kubeconfig _ w v h.copy refl refl
                  (V.get_csr n w.server);
            fit = h.fit;
            spec = h.spec;
            content = h.content;
          }))

    -- A request that is there is read, and the run goes on with it.
    pub find_csr-Ready :
        (σ : Snapshot) (o : Objects) (c : CsrObject) (w : World P.State)
        → Ready P name V L C σ o w
        → σ.request ≡ some c
        → Ends (λ d v. (d ≡ c) × Ready P name V L C σ o v) (λ _ _. ⊥) (find_csr P o w)
    unfolding find_csr
    find_csr-Ready σ o c w h there =
        let n : NamespacedName = csr_name o.kubeconfig in
        let v : World P.State = answered (csr_get n) (P.get_csr n) w in
        let kept : (V.view w.server).request ≡ some c = ap (λ τ. τ.request) h.copy.same ∙ there in
        let own = csr_named σ o.kubeconfig w h.copy in
        let fine : (P.get_csr n w.server).0.err ≡ none =
          rw own (C.csr_served w.server (rw kept refl)) in
        let same : (P.get_csr n w.server).0.object ≡ c =
          rw own (cc (kept, V.csr_read w.server (rw (← own) fine))) in
        let ready : Ready P name V L C σ o v = record {
          copy =
              Copy-again P name V name σ o.kubeconfig _ w v h.copy refl refl (V.get_csr n w.server);
          fit = h.fit;
          spec = h.spec;
          content = h.content;
        } in
        ground (arith, fine, C.errors.nil_is_found, same, ready)
