-- ===== src/Controllers/Errors/Endings.antt =====
-- The last parts of a run report the failures that they meet.
use kubeconfig_operator.Base.{
  String, none, some, ◌≡◌, ◌==◌, refl, inl, inr, Bool-cases, Option-cases, arith,
}
use kubeconfig_operator.K8s.{NamespacedName, Reply, Secret, Fallible, ok, failed, Error}
use kubeconfig_operator.Api.Types.{Kubeconfig}
use kubeconfig_operator.Platform.{Platform}
use kubeconfig_operator.Effects.{World, answered, binding_get}
use kubeconfig_operator.Effects.Ends.{Ends, Ends-bind_run, Occurs}
use kubeconfig_operator.Controllers.Resources
use kubeconfig_operator.Controllers.Resources.{create_kubeconfig}
use kubeconfig_operator.Controllers.Csr.{Approval}
use kubeconfig_operator.Controllers.Kubeconfig.Objects.{mark, put_content, binding_name}
use kubeconfig_operator.Controllers.Kubeconfig.Finish.{
  refused, check_approval, complete, binding_created, create_binding, bind_user, certificate_saved,
  save_config, issue,
}
use kubeconfig_operator.Controllers.Errors.{IsClean, Reports, error_of}
use kubeconfig_operator.Controllers.Errors.Steps.{Clean, Never, nothing_missing}

module _ (P : Platform) where
  pub check_approval-Reports :
      (k : Kubeconfig) (a : Approval) (w : World P.State)
      → IsClean P w.effects
      → Ends (Clean P) (Reports P) (check_approval P k a w)
  unfolding check_approval refused mark
  check_approval-Reports k a w h = ground arith

  complete-Reports :
      (k : Kubeconfig) (w : World P.State)
      → IsClean P w.effects
      → Ends (Never P) (Reports P) (complete P k w)
  unfolding complete mark
  complete-Reports k w h = (refl, h)

  create_binding-Reports :
      (k : Kubeconfig) (w : World P.State)
      → IsClean P w.effects
      → Ends (Never P) (Reports P) (create_binding P k w)
  unfolding create_binding binding_created Resources.create_cluster_role_binding complete mark
  create_binding-Reports k w h = ground arith

  bind_user-Reports :
      (k : Kubeconfig) (w : World P.State)
      → IsClean P w.effects
      → Ends (Never P) (Reports P) (bind_user P k w)
  unfolding bind_user
  bind_user-Reports k w h =
      let n : NamespacedName = binding_name k in
      let v : World P.State = answered (binding_get n) (P.get_cluster_role_binding n) w in
      elim (Bool-cases (P.is_not_found (P.get_cluster_role_binding n w.server).0.err)) [
        | inl missing ↦ rw missing (create_binding-Reports k v (rw missing refl, h))
        | inr there ↦ rw there (elim (Option-cases (P.get_cluster_role_binding n w.server).0.err) [
          | inl fine ↦ rw fine (complete-Reports k _ (nothing_missing P, h))
          | inr (e, bad) ↦ rw bad (inr (inl refl))
        ])
      ]

  certificate_saved-Reports :
      (k : Kubeconfig) (r : Reply Secret) (w : World P.State)
      → (r.err ≡ none → IsClean P w.effects)
      → ((e : Error) → r.err ≡ some e → Occurs (λ f. error_of f ≡ some e) w.effects)
      → Ends (Never P) (Reports P) (certificate_saved P k r w)
  unfolding certificate_saved mark
  certificate_saved-Reports k r w clean failing = elim (Option-cases r.err) [
    | inl fine ↦ rw fine (bind_user-Reports _ _ (clean fine))
    | inr (e, bad) ↦ rw bad (failing e bad)
  ]

  -- The file is there, or the error that stands in its place is the API server's.
  abbrev Made : Fallible String → World P.State → Type 0
  Made (ok cfg) w = IsClean P w.effects
  Made (failed e) w = Occurs (λ f. error_of f ≡ some e) w.effects

  save_config-Reports :
      (k : Kubeconfig) (s : Secret) (cfg : Fallible String) (w : World P.State)
      → Made cfg w
      → Ends (Never P) (Reports P) (save_config P k s cfg w)
  unfolding save_config put_content
  save_config-Reports k s (failed e) w h = inr h
  save_config-Reports k s (ok cfg) w h = elim (Option-cases s.content) [
    | inl missing ↦ rw missing h
    | inr (m, there) ↦
        rw there (certificate_saved-Reports _ _ _ (λ fine. (fine, h)) (λ e bad. inl bad))
  ]

  create_kubeconfig-Made :
      (k : Kubeconfig) (s : Secret) (w : World P.State)
      → IsClean P w.effects
      → Ends Made (Reports P) (create_kubeconfig P k s w)
  unfolding create_kubeconfig Resources.cluster_ca Resources.ca_of
  create_kubeconfig-Made k s w h = ground arith

  pub issue-Reports :
      (k : Kubeconfig) (s : Secret) (cert : String) (w : World P.State)
      → IsClean P w.effects
      → Ends (Never P) (Reports P) (issue P k s cert w)
  unfolding issue put_content
  issue-Reports k s cert w h = elim (Bool-cases (cert == "")) [
    | inl empty ↦ rw empty (refl, h)
    | inr full ↦ rw full (elim (Option-cases s.content) [
      | inl missing ↦ rw missing h
      | inr (m, there) ↦ rw there (
          Ends-bind_run Made (Never P) (Reports P) _ _ (create_kubeconfig-Made k _ w h)
            (λ cfg v made. save_config-Reports k _ cfg v made))
    ])
  ]
