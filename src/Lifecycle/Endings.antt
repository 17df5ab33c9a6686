-- ===== src/Lifecycle/Endings.antt =====
-- The end of a run: the certificate, the file and the binding.
use kubeconfig_operator.Base.{
  String, false, ◌≡◌, refl, ◌∙◌, inl, inr, ◌==◌, arith, Bool-cases, Option-cases,
}
use kubeconfig_operator.K8s.{
  NamespacedName, Secret, ClusterRoleBinding, Reply, Fallible, ok, failed,
}
use kubeconfig_operator.Api.Types.{Kubeconfig}
use kubeconfig_operator.Api.Conditions.{condition_type_user_secret_finished, condition_true}
use kubeconfig_operator.Platform.{Platform}
use kubeconfig_operator.Platform.Laws.{HasConditionLaws}
use kubeconfig_operator.Effects.{World, answered, binding_get}
use kubeconfig_operator.Effects.Ends.{Ends, Ends-bind_run, Ends-mono}
use kubeconfig_operator.Controllers.Resources
use kubeconfig_operator.Controllers.Resources.{create_kubeconfig, cluster_ca, ca_of}
use kubeconfig_operator.Controllers.Kubeconfig.Objects.{put_content, binding_name}
use kubeconfig_operator.Controllers.Kubeconfig.Finish.{
  binding_created, create_binding, bind_user, certificate_saved, save_config, issue,
}
use kubeconfig_operator.Lifecycle.Stages.{Snapshot, issued, stage}
use kubeconfig_operator.Lifecycle.Server.{Server}
use kubeconfig_operator.Lifecycle.Copies.{seen, Copy, Copy-again, mark-then, write-Keeps}
use kubeconfig_operator.Lifecycle.Creation.{ExitSteps, Steps-Keeps}
use kubeconfig_operator.Lifecycle.Verdicts.{complete-Steps}

module _ (P : Platform) (name : String) (V : Server P name) (L : HasConditionLaws P) where
  binding_created-Steps :
      (m : String) (σ : Snapshot) (k : Kubeconfig) (r : Reply ClusterRoleBinding)
      (w : World P.State)
      → Copy P name V m σ k w
      → (m ≡ name → stage P σ ≡ issued)
      → Ends (λ _ _. ⊥) (ExitSteps P name V m σ) (binding_created P k r w)
  unfolding binding_created
  binding_created-Steps m σ k r w h at_issued = elim (Option-cases r.err) [
    | inl fine ↦ rw fine (complete-Steps P name V L m σ k w h at_issued)
    | inr (e, bad) ↦ rw bad (inl h.same)
  ]

  create_binding-Steps :
      (m : String) (σ : Snapshot) (k : Kubeconfig) (w : World P.State)
      → Copy P name V m σ k w
      → (m ≡ name → stage P σ ≡ issued)
      → Ends (λ _ _. ⊥) (ExitSteps P name V m σ) (create_binding P k w)
  unfolding create_binding Resources.create_cluster_role_binding
  create_binding-Steps m σ k w h at_issued = elim (Option-cases k.spec.role_ref) [
    | inl nil ↦ rw nil (inl h.same)
    | inr (role, given) ↦ rw given (
        binding_created-Steps m σ _ _ _
          (Copy-again P name V m σ k _ w _ h refl refl (V.create_binding _ w.server)) at_issued)
  ]

  bind_user-Steps :
      (m : String) (σ : Snapshot) (k : Kubeconfig) (w : World P.State)
      → Copy P name V m σ k w
      → (m ≡ name → stage P σ ≡ issued)
      → Ends (λ _ _. ⊥) (ExitSteps P name V m σ) (bind_user P k w)
  unfolding bind_user
  bind_user-Steps m σ k w h at_issued =
      let n : NamespacedName = binding_name k in
      let v : World P.State = answered (binding_get n) (P.get_cluster_role_binding n) w in
      let read : Copy P name V m σ k v =
        Copy-again P name V m σ k _ w v h refl refl (V.get_binding n w.server) in
      ground (
        arith,
        read,
        read.same,
        create_binding-Steps m σ k v read at_issued,
        complete-Steps P name V L m σ k v read at_issued,
      )

  certificate_saved-Steps :
      (m : String) (σ : Snapshot) (k : Kubeconfig) (r : Reply Secret) (w : World P.State)
      → Copy P name V m σ k w
      → (m ≡ name → stage P σ ≡ issued)
      → Ends (λ _ _. ⊥) (ExitSteps P name V m σ) (certificate_saved P k r w)
  unfolding certificate_saved
  certificate_saved-Steps m σ k r w h at_issued = elim (Option-cases r.err) [
    | inr (e, bad) ↦ rw bad (inl h.same)
    | inl fine ↦ rw fine (
        mark-then P name V (λ _ _. ⊥) (ExitSteps P name V m σ) L m
          condition_type_user_secret_finished condition_true "Upserted"
          "Upserted user secret with certificate from approved CSR" σ k _ w refl h
          (λ k' v copy. bind_user-Steps m σ k' v copy at_issued))
  ]

  save_config-Steps :
      (m : String) (σ : Snapshot) (k : Kubeconfig) (s : Secret) (cfg : Fallible String)
      (w : World P.State)
      → Copy P name V m σ k w
      → (m ≡ name → stage P σ ≡ issued)
      → Ends (λ _ _. ⊥) (ExitSteps P name V m σ) (save_config P k s cfg w)
  unfolding save_config put_content
  save_config-Steps m σ k s (failed e) w h at_issued = inl h.same
  save_config-Steps m σ k s (ok cfg) w h at_issued = elim (Option-cases s.content) [
    | inl empty ↦ rw empty (inl h.same)
    | inr (content, given) ↦ rw given (
        certificate_saved-Steps m σ _ _ _
          (Copy-again P name V m σ k _ w _ h refl refl (V.update_secret _ w.server)) at_issued)
  ]

  pub create_kubeconfig-Quiet :
      (k : Kubeconfig) (s : Secret) (w : World P.State)
      → Ends
          (λ _ v. seen P name V v ≡ seen P name V w)
          (λ _ v. seen P name V v ≡ seen P name V w)
          (create_kubeconfig P k s w)
  unfolding create_kubeconfig cluster_ca ca_of
  create_kubeconfig-Quiet k s w = ground (
    arith,
    V.get_config_map (record { namespace = "kube-public"; name = "kube-root-ca.crt" }) w.server,
  )

  pub issue-Steps :
      (m : String) (σ : Snapshot) (k : Kubeconfig) (s : Secret) (cert : String) (w : World P.State)
      → Copy P name V m σ k w
      → (m ≡ name → (cert == "") ≡ false → stage P σ ≡ issued)
      → Ends (λ _ _. ⊥) (ExitSteps P name V m σ) (issue P k s cert w)
  unfolding issue put_content
  issue-Steps m σ k s cert w h at = elim (Bool-cases (cert == "")) [
    | inl empty ↦
        rw empty (Steps-Keeps P name V m σ σ _ (inl refl) (write-Keeps P name V m σ k w h))
    | inr full ↦ rw full (elim (Option-cases s.content) [
      | inl nil ↦ rw nil (inl h.same)
      | inr (content, given) ↦ rw given (
          Ends-bind_run (λ _ v. seen P name V v ≡ seen P name V w) (λ _ _. ⊥)
            (ExitSteps P name V m σ) _ _
            (Ends-mono (λ _ v. seen P name V v ≡ seen P name V w) _ _ (ExitSteps P name V m σ) _
              (create_kubeconfig-Quiet k _ w) (λ _ _ e. e) (λ _ _ e. inl (e ∙ h.same)))
            (λ cfg v same.
              save_config-Steps m σ k _ cfg v (Copy-again P name V m σ k _ w v h refl refl same)
                (λ own. at own full)))
    ])
  ]
