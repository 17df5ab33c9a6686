-- ===== src/Lifecycle/Admission.antt =====
-- An admission leaves the two objects alone: the webhook reads one config map and the clock.
use kubeconfig_operator.Base.{String, Option, List, ◌≡◌, refl, arith}
use kubeconfig_operator.K8s.{Condition}
use kubeconfig_operator.Api.Types.{Kubeconfig, Cluster}
use kubeconfig_operator.Api.Conditions.{
  condition_type_csr_created, condition_type_csr_approved, condition_type_user_secret_created,
  condition_type_user_secret_finished, condition_type_kubeconfig_finished,
}
use kubeconfig_operator.Api.Webhook.{default, default_cluster, default_conditions, append_unknown}
use kubeconfig_operator.Utils.{cluster_endpoint}
use kubeconfig_operator.Platform.{Platform}
use kubeconfig_operator.Effects.{World, M, Run, value, returned, panicked, end_world, ◌>>=◌}
use kubeconfig_operator.Effects.Ends.{Ends, Ends-bind_run}
use kubeconfig_operator.Lifecycle.Server.{Server}
use kubeconfig_operator.Lifecycle.Copies.{seen}

module _ (P : Platform) (name : String) (V : Server P name) where
  abbrev Quiet : {A : Type 0} → M P.State A → Type 0
  Quiet m = (w : World P.State) → Ends (λ _ v. seen P name V v ≡ seen P name V w) (λ _ _. ⊥) (m w)

  >>=-Quiet :
      {A B : Type 0} (m : M P.State A) (f : A → M P.State B)
      → Quiet m
      → ((a : A) → Quiet (f a))
      → Quiet (m >>= f)
  >>=-Quiet m f h k w =
      Ends-bind_run (λ _ v. seen P name V v ≡ seen P name V w)
        (λ _ v. seen P name V v ≡ seen P name V w) (λ _ _. ⊥) (m w) f (h w)
        (λ a v same. rw (← same) (k a v))

  default_cluster-Quiet : (o : Option Cluster) → Quiet (default_cluster P o)
  unfolding default_cluster cluster_endpoint
  default_cluster-Quiet o w = ground (
    arith,
    V.get_config_map (record { namespace = "kube-public"; name = "cluster-info" }) w.server,
  )

  append_unknown-Quiet : (t : String) (cs : List Condition) → Quiet (append_unknown P t cs)
  unfolding append_unknown
  append_unknown-Quiet t cs w = ground (arith, V.now w.server)

  default_conditions-Quiet : (cs : List Condition) → Quiet (default_conditions P cs)
  unfolding default_conditions
  default_conditions-Quiet c₀ =
      let block = append_unknown-Quiet in
      >>=-Quiet _ _ (block condition_type_csr_created c₀) λ c₁.
        >>=-Quiet _ _ (block condition_type_csr_approved c₁) λ c₂.
          >>=-Quiet _ _ (block condition_type_user_secret_created c₂) λ c₃.
            >>=-Quiet _ _ (block condition_type_user_secret_finished c₃)
              λ c₄. block condition_type_kubeconfig_finished c₄

  default-Quiet : (k : Kubeconfig) → Quiet (default P k)
  unfolding default
  default-Quiet k =
      >>=-Quiet _ _ (default_cluster-Quiet k.spec.cluster)
        λ cluster. >>=-Quiet _ _ (default_conditions-Quiet k.status.conditions) λ conditions w. refl

  end_world_same :
      {A : Type 0} (σ : _) (r : Run P.State A)
      → Ends (λ _ v. seen P name V v ≡ σ) (λ _ _. ⊥) r
      → seen P name V (end_world r) ≡ σ
  end_world_same σ (value a w) h = h
  end_world_same σ (returned r e w) h = absurd h
  end_world_same σ (panicked w) h = absurd h

  pub default_same :
      (k : Kubeconfig) (w : World P.State)
      → seen P name V (end_world (default P k w)) ≡ seen P name V w
  default_same k w = end_world_same (seen P name V w) (default P k w) (default-Quiet k w)
