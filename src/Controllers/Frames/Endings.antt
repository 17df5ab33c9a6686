-- ===== src/Controllers/Frames/Endings.antt =====
-- The end of a run adds the certificate and the file to the secret, and creates the binding where there is
-- none.
use kubeconfig_operator.Base.{
  String, some, ◌≡◌, ◌==◌, refl, inl, inr, Option-cases, Bool-cases, arith,
}
use kubeconfig_operator.Base.Dict.{Dict, insert}
use kubeconfig_operator.K8s.{
  NamespacedName, Secret, ClusterRoleBinding, Reply, Fallible, ok, failed,
}
use kubeconfig_operator.Api.Types.{Kubeconfig}
use kubeconfig_operator.Platform.{Platform}
use kubeconfig_operator.Effects.{World, answered, binding_get}
use kubeconfig_operator.Effects.Ends.{Ends, Ends-bind_run, Occurs}
use kubeconfig_operator.Controllers.Resources
use kubeconfig_operator.Controllers.Resources.{
  certificate_secret_cert_key, kubeconfig_key, create_kubeconfig,
}
use kubeconfig_operator.Controllers.Csr.{Approval}
use kubeconfig_operator.Controllers.Kubeconfig.Objects.{Objects, put_content, mark, binding_name}
use kubeconfig_operator.Controllers.Kubeconfig.Finish.{
  refused, check_approval, complete, binding_created, create_binding, bind_user, certificate_saved,
  save_config, issue,
}
use kubeconfig_operator.Controllers.Frames.{FramedExit, Framed, MissesBinding}
use kubeconfig_operator.Controllers.Frames.Secrets.{Held}
use kubeconfig_operator.Controllers.Frames.Requests.{put_twice-Changed}

module _ (P : Platform) where
  pub check_approval-Held :
      (o : Objects) (a : Approval) (w : World P.State)
      → Held P o w
      → Ends
          (λ k v. Held P (record o { kubeconfig = k }) v)
          (FramedExit P)
          (check_approval P o.kubeconfig a w)
  unfolding check_approval refused mark
  check_approval-Held o a w h = ground arith

  -- The run ends here.
  abbrev pub Never : ⊥ → World P.State → Type 0
  Never a w = ⊥

  complete-Framed :
      (k : Kubeconfig) (w : World P.State)
      → Framed P k w
      → Ends Never (FramedExit P) (complete P k w)
  unfolding complete mark
  complete-Framed k w h = (h.1, h.0)

  binding_created-Framed :
      (k : Kubeconfig) (r : Reply ClusterRoleBinding) (w : World P.State)
      → Framed P k w
      → Ends Never (FramedExit P) (binding_created P k r w)
  unfolding binding_created
  binding_created-Framed k r w h = elim (Option-cases r.err) [
    | inl fine ↦ rw fine (complete-Framed k w h)
    | inr (e, bad) ↦ rw bad h.0
  ]

  create_binding-Framed :
      (k : Kubeconfig) (w : World P.State)
      → Framed P k w
      → Occurs (MissesBinding P (binding_name k)) w.effects
      → Ends Never (FramedExit P) (create_binding P k w)
  unfolding create_binding Resources.create_cluster_role_binding
  create_binding-Framed k w h missing = elim (Option-cases k.spec.role_ref) [
    | inl nil ↦ rw nil h.0
    | inr (role, given) ↦ simp given (binding_created-Framed k _ _ ((missing, h.0), inr h.1))
  ]

  bind_user-Framed :
      (k : Kubeconfig) (w : World P.State)
      → Framed P k w
      → Ends Never (FramedExit P) (bind_user P k w)
  unfolding bind_user
  bind_user-Framed k w h =
      let n : NamespacedName = binding_name k in
      let v : World P.State = answered (binding_get n) (P.get_cluster_role_binding n) w in
      elim (Bool-cases (P.is_not_found (P.get_cluster_role_binding n w.server).0.err)) [
        | inl missing ↦
            rw missing (create_binding-Framed k v ((tt, h.0), inr h.1) (inl (refl, missing)))
        | inr there ↦ rw there (elim (Option-cases (P.get_cluster_role_binding n w.server).0.err) [
          | inl fine ↦ rw fine (complete-Framed k _ ((tt, h.0), inr h.1))
          | inr (e, bad) ↦ rw bad (tt, (tt, h.0))
        ])
      ]

  certificate_saved-Framed :
      (k : Kubeconfig) (r : Reply Secret) (w : World P.State)
      → Framed P k w
      → Ends Never (FramedExit P) (certificate_saved P k r w)
  unfolding certificate_saved mark
  certificate_saved-Framed k r w h = elim (Option-cases r.err) [
    | inl fine ↦ rw fine (bind_user-Framed _ _ h)
    | inr (e, bad) ↦ rw bad h.0
  ]

  -- The certificate was added to the secret of the run.
  save_config-Framed :
      (o : Objects) (cert : String) (m : Dict String) (cfg : Fallible String) (w : World P.State)
      → o.secret.content ≡ some m
      → Held P o w
      → Ends Never (FramedExit P) (
          save_config P o.kubeconfig
            (record (o.secret) { content = some (insert certificate_secret_cert_key cert m) })
            cfg
            w)
  unfolding save_config put_content
  save_config-Framed o cert m (failed e) w there h = (tt, h.0.0)
  save_config-Framed o cert m (ok cfg) w there h = certificate_saved-Framed _ _ _ (
    (
      record {
        kubeconfig = o.kubeconfig;
        read = h.0.1;
        before = o.secret;
        held = h.1;
        changed = inr (put_twice-Changed _ _ cert cfg m o.secret there);
      },
      h.0.0,
    ),
    inr h.0.1,
  )

  create_kubeconfig-Held :
      (o : Objects) (s : Secret) (w : World P.State)
      → Held P o w
      → Ends (λ _ v. Held P o v) (FramedExit P) (create_kubeconfig P o.kubeconfig s w)
  unfolding create_kubeconfig Resources.cluster_ca
  create_kubeconfig-Held o s w h = ground arith

  pub issue-Framed :
      (o : Objects) (cert : String) (w : World P.State)
      → Held P o w
      → Ends Never (FramedExit P) (issue P o.kubeconfig o.secret cert w)
  unfolding issue put_content
  issue-Framed o cert w h = elim (Bool-cases (cert == "")) [
    | inl empty ↦ rw empty (h.0.1, h.0.0)
    | inr full ↦ rw full (elim (Option-cases o.secret.content) [
      | inl missing ↦ rw missing h.0.0
      | inr (m, there) ↦ rw there (
          Ends-bind_run (λ _ v. Held P o v) Never (FramedExit P) _ _
            (create_kubeconfig-Held o _ w h)
            (λ cfg v h'. save_config-Framed o cert m cfg v there h'))
    ])
  ]
