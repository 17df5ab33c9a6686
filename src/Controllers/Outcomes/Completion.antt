-- ===== src/Controllers/Outcomes/Completion.antt =====
-- An issued certificate leads to a finished Kubeconfig if the API server takes the writes.
use kubeconfig_operator.Base.{
  String, true, false, ◌≡◌, ◌⊎◌, inl, inr, none, refl, is_some, ◌==◌, arith, Option-cases,
}
use kubeconfig_operator.K8s.{
  NamespacedName, Secret, ClusterRoleBinding, Reply, Fallible, ok, failed,
}
use kubeconfig_operator.Api.Types.{Kubeconfig}
use kubeconfig_operator.Api.Conditions.{phase_done}
use kubeconfig_operator.Platform.{Platform}
use kubeconfig_operator.Platform.Laws.{HasConditionLaws, HasErrorLaws}
use kubeconfig_operator.Effects.{World, answered, binding_get}
use kubeconfig_operator.Effects.Ends.{Exit, Ends, Ends-bind_run, Ends-mono}
use kubeconfig_operator.Controllers.Panics.{HasPointers, HasContent}
use kubeconfig_operator.Controllers.Resources
use kubeconfig_operator.Controllers.Resources.{create_kubeconfig, cluster_ca, ca_of}
use kubeconfig_operator.Controllers.Kubeconfig.Objects.{binding_name, mark, put_content}
use kubeconfig_operator.Controllers.Kubeconfig.Finish.{
  complete, binding_created, create_binding, bind_user, certificate_saved, save_config, issue,
}
use kubeconfig_operator.Controllers.Outcomes.Terminal.{WritesTerminal, complete-WritesTerminal}

-- The API server gives the certificate authority, takes updates of secrets and new bindings, and
-- answers a read of a binding with the binding or with "not found".
pub record Accepts (P : Platform) : Type 0 where
  pub config_map : (n : NamespacedName) (s : P.State) → (P.get_config_map n s).0.err ≡ none
  pub secret : (x : Secret) (s : P.State) → (P.update_secret x s).0.err ≡ none
  pub binding_read :
      (n : NamespacedName) (s : P.State)
      → (P.is_not_found (P.get_cluster_role_binding n s).0.err ≡ true)
        ⊎ ((P.get_cluster_role_binding n s).0.err ≡ none)
  pub binding_created :
      (b : ClusterRoleBinding) (s : P.State) → (P.create_cluster_role_binding b s).0.err ≡ none

module _ (P : Platform) (conditions : HasConditionLaws P) (errors : HasErrorLaws P)
    (accepts : Accepts P) where
  -- The run returned without error, and its last request wrote this Kubeconfig, finished.
  abbrev pub IsDone : Kubeconfig → Exit → World P.State → Type 0
  IsDone k x v = (w : World P.State) × WritesTerminal P phase_done k w x v

  complete-IsDone :
      (k : Kubeconfig) (w : World P.State) → Ends (λ _ _. ⊥) (IsDone k) (complete P k w)
  complete-IsDone k w =
      Ends-mono (λ _ _. ⊥) (λ _ _. ⊥) (WritesTerminal P phase_done k w) (IsDone k) (complete P k w)
        (complete-WritesTerminal P conditions k w) (λ _ _ h. h) (λ x v h. (w, h))

  binding_created-IsDone :
      (k : Kubeconfig) (r : Reply ClusterRoleBinding) (w : World P.State)
      → r.err ≡ none
      → Ends (λ _ _. ⊥) (IsDone k) (binding_created P k r w)
  unfolding binding_created
  binding_created-IsDone k r w fine = rw fine (complete-IsDone k w)

  create_binding-IsDone :
      (k : Kubeconfig) (w : World P.State)
      → is_some k.spec.role_ref ≡ true
      → Ends (λ _ _. ⊥) (IsDone k) (create_binding P k w)
  unfolding create_binding Resources.create_cluster_role_binding
  create_binding-IsDone k w h = elim (Option-cases k.spec.role_ref) [
    | inl missing ↦ cc (rw missing at h)
    | inr (r, given) ↦ rw given (binding_created-IsDone _ _ _ (accepts.binding_created _ w.server))
  ]

  bind_user-IsDone :
      (k : Kubeconfig) (w : World P.State)
      → is_some k.spec.role_ref ≡ true
      → Ends (λ _ _. ⊥) (IsDone k) (bind_user P k w)
  unfolding bind_user
  bind_user-IsDone k w h =
      let v : World P.State =
        answered (binding_get (binding_name k)) (P.get_cluster_role_binding (binding_name k)) w in
      ground (
        arith,
        errors.nil_is_found,
        accepts.binding_read (binding_name k) w.server,
        create_binding-IsDone k v h,
        complete-IsDone k v,
      )

  certificate_saved-IsDone :
      (k : Kubeconfig) (r : Reply Secret) (w : World P.State)
      → r.err ≡ none
      → is_some k.spec.role_ref ≡ true
      → Ends (λ _ _. ⊥) (IsDone k) (certificate_saved P k r w)
  unfolding certificate_saved mark
  certificate_saved-IsDone k r w fine h = rw fine (bind_user-IsDone _ _ h)

  save_config-IsDone :
      (k : Kubeconfig) (s : Secret) (text : String) (w : World P.State)
      → HasContent s
      → is_some k.spec.role_ref ≡ true
      → Ends (λ _ _. ⊥) (IsDone k) (save_config P k s (ok text) w)
  unfolding save_config put_content
  save_config-IsDone k s text w there h = elim (Option-cases s.content) [
    | inl missing ↦ cc (rw missing at there)
    | inr (m, given) ↦ rw given (certificate_saved-IsDone _ _ _ (accepts.secret _ _) h)
  ]

  abbrev pub IsOk : Fallible String → World P.State → Type 0
  IsOk (ok text) w = Unit {0}
  IsOk (failed e) w = ⊥

  pub create_kubeconfig-IsOk :
      (k : Kubeconfig) (s : Secret) (w : World P.State)
      → is_some k.spec.cluster ≡ true
      → Ends IsOk (λ _ _. ⊥) (create_kubeconfig P k s w)
  unfolding create_kubeconfig cluster_ca ca_of
  create_kubeconfig-IsOk k s w h = elim (Option-cases k.spec.cluster) [
    | inl missing ↦ cc (rw missing at h)
    | inr (c, given) ↦ ground (
      arith,
      accepts.config_map (record { namespace = "kube-public"; name = "kube-root-ca.crt" }) w.server,
    )
  ]

  saved_config-IsDone :
      (k : Kubeconfig) (s : Secret) (cfg : Fallible String) (w : World P.State)
      → HasContent s
      → is_some k.spec.role_ref ≡ true
      → IsOk cfg w
      → Ends (λ _ _. ⊥) (IsDone k) (save_config P k s cfg w)
  saved_config-IsDone k s (ok text) w there h fine = save_config-IsDone k s text w there h
  saved_config-IsDone k s (failed e) w there h fine = absurd fine

  -- With a certificate at hand, pointers and a data map set, lawful helpers for conditions and errors,
  -- and an API server that gives the certificate authority, accepts the writes, and answers the
  -- read of the binding with the binding or "not found", the run from there returns without
  -- error, and its last request writes this Kubeconfig in phase "Done" and its terminal condition.
  pub issue-IsDone :
      (k : Kubeconfig) (s : Secret) (cert : String) (w : World P.State)
      → HasPointers k
      → HasContent s
      → (cert == "") ≡ false
      → Ends (λ _ _. ⊥) (IsDone k) (issue P k s cert w)
  unfolding issue put_content
  issue-IsDone k s cert w h there full = elim (Option-cases s.content) [
    | inl missing ↦ cc (rw missing at there)
    | inr (m, given) ↦
        rw (full, given)
          (Ends-bind_run IsOk (λ _ _. ⊥) (IsDone k) _ _
            (Ends-mono IsOk IsOk (λ _ _. ⊥) (IsDone k) _ (create_kubeconfig-IsOk k _ w h.cluster)
              (λ _ _ x. x) (λ _ _ x. absurd x))
            (λ cfg v fine. saved_config-IsDone k _ cfg v refl h.role_ref fine))
  ]
