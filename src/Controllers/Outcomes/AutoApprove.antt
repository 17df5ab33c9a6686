-- ===== src/Controllers/Outcomes/AutoApprove.antt =====
-- From the request that the Kubeconfig controller creates to the decision of the CSR controller.
use kubeconfig_operator.Base.{
  String, true, false, ◌≡◌, none, some, [], ◌∷◌, ◌++◌, ap, List, refl, arith, Option, ◌∙◌,
  if◌then◌else◌, eq_refl, Option-cases, inl, inr,
}
use kubeconfig_operator.K8s.{NamespacedName, Error, ObjectMeta, Reply, CsrObject}
use kubeconfig_operator.Api.Types.{Kubeconfig}
use kubeconfig_operator.Controllers.Keys.{labels_for_subresources}
use kubeconfig_operator.Base.Dict.{lookup}
use kubeconfig_operator.Platform.{Platform}
use kubeconfig_operator.Platform.Laws.{HasOwnerLaws}
use kubeconfig_operator.Effects.{Effect, World, csr_get, csr_approval_update}
use kubeconfig_operator.Effects.Ends.{Exit, returns, Ends, Ends-bind_run, Ends-total, Occurs}
use kubeconfig_operator.Controllers.Csr.{
  finished, get_cert_approval_condition, approval_loop, has_auto_approve_annotation,
  has_kubeconfig_owner, csr_auto_approve_annotation_key, is_kubeconfig_v1alpha1_csr, parse_csr,
  decide_csr, approve_csr, report_failure, reconcile_csr, reconcile, approved_condition,
  set_status_condition, certificate_approved,
}
use kubeconfig_operator.Controllers.Csr.Conditions.{
  Upserted, set_status_condition-Upserted, approved_of_found,
}
use kubeconfig_operator.Controllers.Resources.{create_csr_object}

module _ (P : Platform) where
  -- The newest requests: an approval of this object's request, whatever the answer, perhaps with
  -- the report of its failure above it.
  abbrev pub SendsApproval : CsrObject → Effect → Type 0
  SendsApproval csr (csr_approval_update c r) =
      (c ≡ record csr { conditions = c.conditions })
      × ((get_cert_approval_condition c.conditions).approved ≡ true)
  SendsApproval csr _ = ⊥

  -- The metadata of a new request before its owner is set.
  abbrev bare_csr_meta : Kubeconfig → ObjectMeta
  bare_csr_meta k = record {
    name = k.meta.name;
    namespace = "";
    labels = labels_for_subresources k;
    annotations =
        if k.spec.auto_approve_csr then (csr_auto_approve_annotation_key, "true") ∷ [] else [];
    owner_references = [];
  }

  pub created_is_owned :
      HasOwnerLaws P
      → (k : Kubeconfig) (request : String)
      → is_kubeconfig_v1alpha1_csr (create_csr_object P k request) ≡ true
  unfolding is_kubeconfig_v1alpha1_csr has_kubeconfig_owner create_csr_object
  created_is_owned L k request = ground (arith, L.owner_references k.meta (bare_csr_meta k))

  pub created_is_annotated :
      HasOwnerLaws P
      → (k : Kubeconfig) (request : String)
      → has_auto_approve_annotation (create_csr_object P k request) ≡ k.spec.auto_approve_csr
  unfolding lookup has_auto_approve_annotation create_csr_object
  created_is_annotated L k request =
      ground
        (arith, L.annotations k.meta (bare_csr_meta k), eq_refl csr_auto_approve_annotation_key)

  created_is_pending :
      (k : Kubeconfig) (request : String)
      → get_cert_approval_condition (create_csr_object P k request).conditions
        ≡ record { approved = false; denied = false; failed = false }
  unfolding get_cert_approval_condition approval_loop create_csr_object
  created_is_pending k request = refl

  -- The trace extends `past` by effects among which is an approval of this request.
  abbrev pub Sent : CsrObject → List Effect → List Effect → Type 0
  Sent csr past effects =
      (es : List Effect) × (effects ≡ es ++ past) × Occurs (SendsApproval csr) es

  Sent-now :
      (csr : CsrObject) (e : Effect) (past u v : List Effect)
      → SendsApproval csr e
      → u ≡ past
      → v ≡ e ∷ u
      → Sent csr past v
  Sent-now csr e past u v sends same adds = (e ∷ [], adds ∙ ap (λ es. e ∷ es) same, inl sends)

  Sent-before :
      (csr : CsrObject) (e : Effect) (past u v : List Effect)
      → Sent csr past u
      → v ≡ e ∷ u
      → Sent csr past v
  Sent-before csr e past u v (es, extends, sent) adds =
      (e ∷ es, adds ∙ ap (λ l. e ∷ l) extends, inr sent)

  approve_csr-Sent :
      (csr : CsrObject) (w : World P.State)
      → parse_csr P csr.request ≡ none
      → Ends (λ _ v. Sent csr w.effects v.effects) (λ _ _. ⊥) (approve_csr P csr w)
  unfolding approve_csr decide_csr
  approve_csr-Sent csr w parses = rw parses (
      Ends-bind_run (Upserted csr.conditions approved_condition w)
        (λ _ v. Sent csr w.effects v.effects) (λ _ _. ⊥)
        (set_status_condition P csr.conditions approved_condition w) _
        (set_status_condition-Upserted P csr.conditions approved_condition w)
        λ conditions v up.
          Sent-now csr _ w.effects v.effects _
            (refl, approved_of_found conditions _ (up.found certificate_approved)) up.quiet refl)

  -- The run returned, and since `past` it has sent an approval of this request.
  abbrev pub Approves : CsrObject → List Effect → Exit → World P.State → Type 0
  Approves csr past x v = ((e : Option Error) × (x ≡ returns finished e)) × Sent csr past v.effects

  report_failure-Approves :
      (csr : CsrObject) (past : List Effect) (r : Reply CsrObject) (w : World P.State)
      → Sent csr past w.effects
      → Ends (λ _ _. ⊥) (Approves csr past) (report_failure P r w)
  unfolding report_failure
  report_failure-Approves csr past r w sent = elim (Option-cases r.err) [
    | inl fine ↦ rw fine ((none, refl), sent)
    | inr (e, bad) ↦
        rw bad
          ((some e, refl), Sent-before csr _ past _ _ (Sent-before csr _ past _ _ sent refl) refl)
  ]

  reconcile_csr-Approves :
      (csr : CsrObject) (w : World P.State)
      → is_kubeconfig_v1alpha1_csr csr ≡ true
      → has_auto_approve_annotation csr ≡ true
      → get_cert_approval_condition csr.conditions
        ≡ record { approved = false; denied = false; failed = false }
      → parse_csr P csr.request ≡ none
      → Ends (λ _ _. ⊥) (Approves csr w.effects) (reconcile_csr P csr w)
  unfolding reconcile_csr
  reconcile_csr-Approves csr w owned annotated pending parses =
      rw (owned, annotated, pending)
        (Ends-bind_run (λ _ v. Sent csr w.effects v.effects) (λ _ _. ⊥) (Approves csr w.effects)
          (approve_csr P csr w) (report_failure P)
          (Ends-total (λ _ v. Sent csr w.effects v.effects) (Approves csr w.effects)
            (approve_csr P csr w) (approve_csr-Sent csr w parses))
          (report_failure-Approves csr w.effects))

  -- If the CSR controller reads the request that the Kubeconfig controller created for a Kubeconfig with
  -- automatic approval, and the request parses, then the run returns and, after its read, has sent an
  -- approval of exactly this request. `SetControllerReference` is taken to add the owner and keep annotations.
  pub create_csr_object-Approves :
      HasOwnerLaws P
      → (k : Kubeconfig) (request : String) (name : NamespacedName) (w : World P.State)
      → (P.get_csr name w.server).0.err ≡ none
      → (P.get_csr name w.server).0.object ≡ create_csr_object P k request
      → parse_csr P request ≡ none
      → k.spec.auto_approve_csr ≡ true
      → Ends
          (λ _ _. ⊥)
          (Approves
            (create_csr_object P k request)
            (csr_get name (P.get_csr name w.server).0 ∷ w.effects))
          (reconcile P name w)
  unfolding reconcile create_csr_object
  create_csr_object-Approves L k request name w fine read parses auto =
      rw (fine, read)
        (reconcile_csr-Approves (create_csr_object P k request) _ (created_is_owned L k request)
          (created_is_annotated L k request ∙ auto) (created_is_pending k request) parses)

  -- If the Kubeconfig does not ask for automatic approval, the run of the CSR controller on the request
  -- that was created for it returns without error and sends nothing but its read.
  pub create_csr_object-waits :
      HasOwnerLaws P
      → (k : Kubeconfig) (request : String) (name : NamespacedName) (w : World P.State)
      → (P.get_csr name w.server).0.err ≡ none
      → (P.get_csr name w.server).0.object ≡ create_csr_object P k request
      → k.spec.auto_approve_csr ≡ false
      → Ends
          (λ _ _. ⊥)
          (λ x v.
            (x ≡ returns finished none)
            × (v.effects ≡ csr_get name (P.get_csr name w.server).0 ∷ w.effects))
          (reconcile P name w)
  unfolding reconcile reconcile_csr
  create_csr_object-waits L k request name w fine read manual =
      ground (arith, created_is_annotated L k request)
