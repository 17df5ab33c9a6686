-- ===== src/Api/Webhook/Immutable.antt =====
-- The validating webhook accepts an update exactly if the two immutable fields stay.
use kubeconfig_operator.Base.{
  is_some, ◌==◌, String, false, Option, none, some, List, ◌≡◌, refl, sym, ◌∙◌, subst, ◌↔◌, inl, inr,
  Bool-cases, arith,
}
use kubeconfig_operator.Api.Types.{Kubeconfig, Cluster}
use kubeconfig_operator.Api.Equality.{csr_beq_iff, secret_ref_beq_iff}
use kubeconfig_operator.Platform.{Platform}
use kubeconfig_operator.Effects.{M, ◌>>=◌, World, value}
use kubeconfig_operator.Effects.Ends.{Ends, Ends-bind_run, Ends-mono}
use kubeconfig_operator.Api.Webhook.Defaults.{default_cluster-name}
use kubeconfig_operator.K8s.{Condition}
use kubeconfig_operator.Api.Conditions.{
  condition_type_csr_created, condition_type_csr_approved, condition_type_user_secret_created,
  condition_type_user_secret_finished, condition_type_kubeconfig_finished,
}
use kubeconfig_operator.Api.Webhook.{
  default, default_csr, default_cluster, default_conditions, append_unknown, validate_update,
}

module _ (P : Platform) where
  -- An update is accepted exactly if it changes neither the reference to an existing secret nor the
  -- parameters of the signing request.
  pub validate_update_iff :
      (old new : Kubeconfig)
      → (validate_update P old new ≡ none)
        ↔ ((old.spec.existing_csr ≡ new.spec.existing_csr) × (old.spec.csr ≡ new.spec.csr))
  unfolding validate_update
  validate_update_iff old new = ground (
    arith,
    csr_beq_iff old.spec.csr new.spec.csr,
    secret_ref_beq_iff old.spec.existing_csr new.spec.existing_csr,
  )

  abbrev KeepsFields : Kubeconfig → Kubeconfig → World P.State → Type 0
  KeepsFields k k' v =
      (k'.spec.csr ≡ some (default_csr k.spec.csr)) × (k'.spec.existing_csr ≡ k.spec.existing_csr)

  -- No block of the webhook ends the run.
  abbrev Goes : {A : Type 0} → M P.State A → Type 0
  Goes m = (w : World P.State) → Ends (λ _ _. Unit {0}) (λ _ _. ⊥) (m w)

  >>=-Goes :
      {A B : Type 0} (m : M P.State A) (f : A → M P.State B)
      → Goes m
      → ((a : A) → Goes (f a))
      → Goes (m >>= f)
  >>=-Goes m f h k w =
      Ends-bind_run (λ _ _. Unit {0}) (λ _ _. Unit {0}) (λ _ _. ⊥) (m w) f (h w) (λ a v _. k a v)

  append_unknown-Goes : (t : String) (cs : List Condition) → Goes (append_unknown P t cs)
  unfolding append_unknown
  append_unknown-Goes t cs w = elim (Bool-cases (is_some (P.find_status_condition cs t))) [
    | inl e ↦ rw e tt
    | inr e ↦ rw e tt
  ]

  default_conditions-Goes : (cs : List Condition) → Goes (default_conditions P cs)
  unfolding default_conditions
  default_conditions-Goes c₀ =
      let block = append_unknown-Goes in
      >>=-Goes _ _ (block condition_type_csr_created c₀) λ c₁.
        >>=-Goes _ _ (block condition_type_csr_approved c₁) λ c₂.
          >>=-Goes _ _ (block condition_type_user_secret_created c₂) λ c₃.
            >>=-Goes _ _ (block condition_type_user_secret_finished c₃)
              λ c₄. block condition_type_kubeconfig_finished c₄

  default_cluster-Goes : (o : Option Cluster) → Goes (default_cluster P o)
  default_cluster-Goes o w =
      Ends-mono (λ (c : Cluster) v. (c.name == "") ≡ false) (λ _ _. Unit {0}) (λ _ _. ⊥) (λ _ _. ⊥)
        (default_cluster P o w) (default_cluster-name P o w) (λ _ _ _. tt) (λ _ _ h. h)

  default-KeepsFields :
      (k : Kubeconfig) (w : World P.State) → Ends (KeepsFields k) (λ _ _. ⊥) (default P k w)
  unfolding default
  default-KeepsFields k w =
      Ends-bind_run (λ _ _. Unit {0}) (KeepsFields k) (λ _ _. ⊥)
        (default_cluster P k.spec.cluster w) _ (default_cluster-Goes k.spec.cluster w)
        λ c v _.
          Ends-bind_run (λ _ _. Unit {0}) (KeepsFields k) (λ _ _. ⊥)
            (default_conditions P k.status.conditions v) _
            (default_conditions-Goes k.status.conditions v) λ cs u _. (refl, refl)

  -- Two submissions of one object differ in no immutable field once the defaulting webhook has
  -- completed each of them, in whatever worlds it ran: the update from one to the other is accepted.
  pub validate_update-default :
      (k a b : Kubeconfig) (w v w' v' : World P.State)
      → default P k w ≡ value a v
      → default P k w' ≡ value b v'
      → validate_update P a b ≡ none
  validate_update-default k a b w v w' v' first second =
      let p = subst (Ends (KeepsFields k) (λ _ _. ⊥)) first (default-KeepsFields k w) in
      let q = subst (Ends (KeepsFields k) (λ _ _. ⊥)) second (default-KeepsFields k w') in
      (validate_update_iff a b).1 (p.1 ∙ sym q.1, p.0 ∙ sym q.0)
