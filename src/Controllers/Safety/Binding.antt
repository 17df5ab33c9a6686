-- ===== src/Controllers/Safety/Binding.antt =====
-- The end of a run: a role binding is created, and the phase set to "Done", on sufficient grounds.
use kubeconfig_operator.Base.{
  String, sym, refl, true, false, none, some, ◌≡◌, ◌==◌, inl, inr, Option-cases, Bool-cases, arith,
  ◌∷◌,
}
use kubeconfig_operator.Base.Dict.{lookup-insert}
use kubeconfig_operator.K8s.{
  NamespacedName, Secret, CsrObject, ClusterRoleBinding, Reply, Fallible, ok, failed,
}
use kubeconfig_operator.Api.Types.{Kubeconfig}
use kubeconfig_operator.Platform.{Platform}
use kubeconfig_operator.Effects.{World, binding_get}
use kubeconfig_operator.Effects.Ends.{Ends, Ends-bind_run, Occurs}
use kubeconfig_operator.Controllers.Resources
use kubeconfig_operator.Controllers.Resources.{
  read_content, certificate_secret_cert_key, create_kubeconfig,
}
use kubeconfig_operator.Controllers.Csr.{Approval, get_cert_approval_condition}
use kubeconfig_operator.Controllers.Kubeconfig.Objects.{put_content, mark, binding_name}
use kubeconfig_operator.Controllers.Kubeconfig.Finish.{
  refused, check_approval, complete, binding_created, create_binding, bind_user, certificate_saved,
  save_config, issue,
}
use kubeconfig_operator.Controllers.Safety.{
  Shows, ShowsRequestOf, ShowsBinding, DoneGrounds, SavesCertificate, IsIssued, IsSafe, SafeExit,
}

module _ (P : Platform) where
  -- The run has read the Kubeconfig and the request.
  pub record HasRead (k : Kubeconfig) (csr : CsrObject) (w : World P.State) : Type 0 where
    pub safe : IsSafe w.effects
    pub read : Occurs (Shows k) w.effects
    pub read_csr : Occurs (ShowsRequestOf k.meta.name csr) w.effects

  pub check_approval-HasRead :
      (k : Kubeconfig) (csr : CsrObject) (a : Approval) (w : World P.State)
      → HasRead k csr w
      → Ends
          (λ k' v. HasRead k' csr v × (a.approved ≡ true) × (a.denied ≡ false) × (a.failed ≡ false))
          SafeExit
          (check_approval P k a w)
  unfolding check_approval refused mark
  check_approval-HasRead k csr a w h = ground arith

  abbrev pub Never : ⊥ → World P.State → Type 0
  Never a w = Unit {0}

  complete-IsSafe :
      (k : Kubeconfig) (w : World P.State)
      → IsSafe w.effects
      → DoneGrounds k w.effects
      → Ends Never SafeExit (complete P k w)
  unfolding complete mark
  complete-IsSafe k w h g = (
    inr (
        inr (record {
          kubeconfig = g.kubeconfig;
          same_meta = g.same_meta;
          same_spec = g.same_spec;
          csr = g.csr;
          read = g.read;
          read_csr = g.read_csr;
          issued = g.issued;
          saved = g.saved;
          bound = g.bound;
        })),
    h,
  )

  module _ (k : Kubeconfig) (csr : CsrObject) (issued : IsIssued csr) where
    -- The grounds for the end of the run, once the binding is shown.
    grounds :
        (w : World P.State)
        → HasRead k csr w
        → Occurs (SavesCertificate csr.certificate) w.effects
        → Occurs (ShowsBinding k) w.effects
        → DoneGrounds k w.effects
    grounds w h saved bound = record {
      kubeconfig = k;
      same_meta = refl;
      same_spec = refl;
      csr = csr;
      read = h.read;
      read_csr = h.read_csr;
      issued = issued;
      saved = saved;
      bound = bound;
    }

    binding_created-IsSafe :
        (r : Reply ClusterRoleBinding) (w : World P.State)
        → HasRead k csr w
        → Occurs (SavesCertificate csr.certificate) w.effects
        → (r.err ≡ none → Occurs (ShowsBinding k) w.effects)
        → Ends Never SafeExit (binding_created P k r w)
    unfolding binding_created
    binding_created-IsSafe r w h saved b = elim (Option-cases r.err) [
      | inl fine ↦ rw fine (complete-IsSafe k w h.safe (grounds w h saved (b fine)))
      | inr (e, bad) ↦ rw bad h.safe
    ]

    create_binding-IsSafe :
        (w : World P.State)
        → HasRead k csr w
        → Occurs (SavesCertificate csr.certificate) w.effects
        → Ends Never SafeExit (create_binding P k w)
    unfolding create_binding Resources.create_cluster_role_binding
    create_binding-IsSafe w h saved = elim (Option-cases k.spec.role_ref) [
      | inl missing ↦ rw missing h.safe
      | inr (role, given) ↦ simp given (
          binding_created-IsSafe _ _
            (record {
              safe = (
                record {
                  kubeconfig = k;
                  csr = csr;
                  read = h.read;
                  binds = record { binding_name = refl; subject = refl; role = sym given };
                  read_csr = h.read_csr;
                  issued = issued;
                  saved = saved;
                },
                h.safe,
              );
              read = inr h.read;
              read_csr = inr h.read_csr;
            })
            (inr saved)
            (λ e. inl (record { binding_name = refl; subject = refl; role = sym given }, e)))
    ]

    bind_user-IsSafe :
        (w : World P.State)
        → HasRead k csr w
        → Occurs (SavesCertificate csr.certificate) w.effects
        → Ends Never SafeExit (bind_user P k w)
    unfolding bind_user
    bind_user-IsSafe w h saved =
        let n : NamespacedName = binding_name k in
        let h' : (r : Reply ClusterRoleBinding) (s : P.State)
            → HasRead k csr (record { server = s; effects = binding_get n r ∷ w.effects }) =
          λ r s. record { safe = (tt, h.safe); read = inr h.read; read_csr = inr h.read_csr } in
        elim (Bool-cases (P.is_not_found (P.get_cluster_role_binding n w.server).0.err)) [
          | inl missing ↦ rw missing (create_binding-IsSafe _ (h' _ _) (inr saved))
          | inr there ↦
              rw there (elim (Option-cases (P.get_cluster_role_binding n w.server).0.err) [
                | inl fine ↦ rw fine (
                    complete-IsSafe k _ (tt, h.safe)
                      (grounds _ (h' _ (P.get_cluster_role_binding n w.server).1) (inr saved)
                        (inl (refl, refl))))
                | inr (e, bad) ↦ rw bad (tt, (tt, h.safe))
              ])
        ]

  certificate_saved-IsSafe :
      (k : Kubeconfig) (csr : CsrObject)
      → IsIssued csr
      → (r : Reply Secret) (w : World P.State) → HasRead k csr w
      → (r.err ≡ none → Occurs (SavesCertificate csr.certificate) w.effects)
      → Ends Never SafeExit (certificate_saved P k r w)
  unfolding certificate_saved mark
  certificate_saved-IsSafe k csr issued r w h saved = elim (Option-cases r.err) [
    | inl fine ↦ rw fine (
        bind_user-IsSafe _ csr issued _
          (record { safe = h.safe; read = h.read; read_csr = h.read_csr }) (saved fine))
    | inr (e, bad) ↦ rw bad h.safe
  ]

  -- The secret to be saved holds the certificate.
  abbrev HoldsCertificate : CsrObject → Secret → Type 0
  HoldsCertificate csr s = read_content certificate_secret_cert_key s.content ≡ some csr.certificate

  save_config-IsSafe :
      (k : Kubeconfig) (csr : CsrObject)
      → IsIssued csr
      → (s : Secret) (cfg : Fallible String) (w : World P.State) → HasRead k csr w
      → HoldsCertificate csr s
      → Ends Never SafeExit (save_config P k s cfg w)
  unfolding save_config put_content
  save_config-IsSafe k csr issued s (failed e) w h holds = (tt, h.safe)
  save_config-IsSafe k csr issued s (ok cfg) w h holds = elim (Option-cases s.content) [
    | inl missing ↦ rw missing h.safe
    | inr (m, there) ↦ rw there (
        certificate_saved-IsSafe _ csr issued _ _
          (record { safe = (tt, h.safe); read = inr h.read; read_csr = inr h.read_csr })
          (λ fine. inl (fine, simp lookup-insert (rw there at holds))))
  ]

  create_kubeconfig-HasRead :
      (k : Kubeconfig) (csr : CsrObject) (s : Secret) (w : World P.State)
      → HasRead k csr w
      → Ends (λ _ v. HasRead k csr v) SafeExit (create_kubeconfig P k s w)
  unfolding create_kubeconfig Resources.cluster_ca
  create_kubeconfig-HasRead k csr s w h = ground arith

  pub issue-IsSafe :
      (k : Kubeconfig) (csr : CsrObject) (s : Secret) (w : World P.State)
      → HasRead k csr w
      → (get_cert_approval_condition csr.conditions).approved ≡ true
      → (get_cert_approval_condition csr.conditions).denied ≡ false
      → (get_cert_approval_condition csr.conditions).failed ≡ false
      → Ends Never SafeExit (issue P k s csr.certificate w)
  unfolding issue put_content
  issue-IsSafe k csr s w h a d f = elim (Bool-cases (csr.certificate == "")) [
    | inl empty ↦ rw empty (inr (inl h.read), h.safe)
    | inr full ↦ rw full (elim (Option-cases s.content) [
      | inl missing ↦ rw missing h.safe
      | inr (m, there) ↦ rw there (
          Ends-bind_run (λ _ v. HasRead k csr v) Never SafeExit _ _
            (create_kubeconfig-HasRead k csr _ w h)
            (λ cfg v h'.
              save_config-IsSafe k csr
                (record { approved = a; not_denied = d; not_failed = f; has_certificate = full }) _
                cfg v h' (simp lookup-insert)))
    ])
  ]
