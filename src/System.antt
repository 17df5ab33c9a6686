-- ===== src/System.antt =====
-- The steps of the operator: a run of either controller or of the defaulting webhook; or a change of the
-- state outside by others.
pub mod Interleaving
use kubeconfig_operator.Base.{String, List, Option, arith}
use kubeconfig_operator.K8s.{NamespacedName, Condition}
use kubeconfig_operator.Api.Types.{Kubeconfig, Cluster}
use kubeconfig_operator.Api.Conditions.{
  condition_type_csr_created, condition_type_csr_approved, condition_type_user_secret_created,
  condition_type_user_secret_finished, condition_type_kubeconfig_finished,
}
use kubeconfig_operator.Api.Webhook.{default, default_cluster, default_conditions, append_unknown}
use kubeconfig_operator.Utils.{cluster_endpoint}
use kubeconfig_operator.Platform.{Platform}
use kubeconfig_operator.Effects.{World, M, Run, value, returned, panicked, end_world, ◌>>=◌}
use kubeconfig_operator.Effects.Ends.{Ends, Ends-bind_run}
use kubeconfig_operator.Controllers.Csr
use kubeconfig_operator.Controllers.Kubeconfig
use kubeconfig_operator.Controllers.Safety.{IsSafe, SafeExit}
use kubeconfig_operator.Controllers.Safety.Traces.{reconcile-IsSafe}
use kubeconfig_operator.Controllers.Safety.Approval.{csr_reconcile-IsSafe}

module _ (P : Platform) where
  pub data Step : World P.State → World P.State → Type 0 where
    kubeconfig_run :
        (name : NamespacedName) (w : World P.State)
        → Step w (end_world (Kubeconfig.reconcile P name w))
    csr_run :
        (name : NamespacedName) (w : World P.State) → Step w (end_world (Csr.reconcile P name w))
    admission : (k : Kubeconfig) (w : World P.State) → Step w (end_world (default P k w))
    others : (s : P.State) (w : World P.State) → Step w (record w { server = s })

  abbrev Keeps : {A : Type 0} → M P.State A → Type 0
  Keeps m = (w : World P.State) → IsSafe w.effects → Ends (λ _ v. IsSafe v.effects) SafeExit (m w)

  >>=-Keeps :
      {A B : Type 0} (m : M P.State A) (f : A → M P.State B)
      → Keeps m
      → ((a : A) → Keeps (f a))
      → Keeps (m >>= f)
  >>=-Keeps m f h k w safe =
      Ends-bind_run (λ _ v. IsSafe v.effects) (λ _ v. IsSafe v.effects) SafeExit (m w) f (h w safe)
        (λ a v s. k a v s)

  default_cluster-Keeps : (o : Option Cluster) → Keeps (default_cluster P o)
  unfolding default_cluster cluster_endpoint
  default_cluster-Keeps o w safe = ground arith

  append_unknown-Keeps : (t : String) (cs : List Condition) → Keeps (append_unknown P t cs)
  unfolding append_unknown
  append_unknown-Keeps t cs w safe = ground arith

  default_conditions-Keeps : (cs : List Condition) → Keeps (default_conditions P cs)
  unfolding default_conditions
  default_conditions-Keeps c₀ =
      let block = append_unknown-Keeps in
      >>=-Keeps _ _ (block condition_type_csr_created c₀) λ c₁.
        >>=-Keeps _ _ (block condition_type_csr_approved c₁) λ c₂.
          >>=-Keeps _ _ (block condition_type_user_secret_created c₂) λ c₃.
            >>=-Keeps _ _ (block condition_type_user_secret_finished c₃)
              λ c₄. block condition_type_kubeconfig_finished c₄

  default-Keeps : (k : Kubeconfig) → Keeps (default P k)
  unfolding default
  default-Keeps k = >>=-Keeps _ _ (default_cluster-Keeps k.spec.cluster) λ cluster.
      >>=-Keeps _ _ (default_conditions-Keeps k.status.conditions) λ conditions w safe. safe

  end_world-Keeps :
      {A : Type 0} (V : A → World P.State → Type 0) (r : Run P.State A)
      → ((a : A) (w : World P.State) → V a w → IsSafe w.effects)
      → Ends V SafeExit r
      → IsSafe (end_world r).effects
  end_world-Keeps V (value a w) f h = f a w h
  end_world-Keeps V (returned r e w) f h = h
  end_world-Keeps V (panicked w) f h = h

  pub Step-IsSafe : (v w : World P.State) → IsSafe v.effects → Step v w → IsSafe w.effects
  Step-IsSafe v w h (kubeconfig_run name _) = reconcile-IsSafe P name v h
  Step-IsSafe v w h (csr_run name _) =
      end_world-Keeps (λ _ _. Unit {0}) (Csr.reconcile P name v) (λ a _ _. absurd a)
        (csr_reconcile-IsSafe P name v h)
  Step-IsSafe v w h (admission k _) =
      end_world-Keeps (λ _ u. IsSafe u.effects) (default P k v) (λ _ _ s. s) (default-Keeps k v h)
  Step-IsSafe v w h (others s _) = h
