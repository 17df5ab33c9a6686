-- ===== src/Lifecycle/Progress/Preparation.antt =====
-- The first part of a run gets through: it reads the Kubeconfig and has its secret.
use kubeconfig_operator.Base.{
  String, true, false, Option, none, some, ◌≡◌, refl, sym, ◌∙◌, inl, inr, is_some, arith,
}
use kubeconfig_operator.K8s.{NamespacedName, Secret, Reply}
use kubeconfig_operator.Api.Types.{Kubeconfig, SecretRef, KubeconfigSpec, CertificateSigningRequest}
use kubeconfig_operator.Api.Conditions.{condition_type_user_secret_created, condition_true}
use kubeconfig_operator.Platform.{Platform}
use kubeconfig_operator.Platform.Laws.{HasConditionLaws}
use kubeconfig_operator.Effects.{World, answered, kubeconfig_get, secret_get, secret_create}
use kubeconfig_operator.Effects.Ends.{Ends}
use kubeconfig_operator.Controllers.Keys.{key_case, is_in_terminal_condition}
use kubeconfig_operator.Controllers.Panics.{HasContent}
use kubeconfig_operator.Controllers.Outcomes.Submission.{HasKeyType}
use kubeconfig_operator.Controllers.Kubeconfig.Objects.{
  Objects, load, mark, existing_secret, created_secret, own_secret, secret_for, user_secret,
  user_secret_name, set_user_secret,
}
use kubeconfig_operator.Controllers.Resources.{create_user_secret}
use kubeconfig_operator.Lifecycle.Stages.{Snapshot}
use kubeconfig_operator.Lifecycle.Server.{Server, cluster_name}
use kubeconfig_operator.Lifecycle.Copies.{seen, IsOpen, Copy, Copy-again, mark-Copy}
use kubeconfig_operator.Lifecycle.Progress.Cooperation.{Cooperates}

module _ (P : Platform) (name : String) (V : Server P name) (L : HasConditionLaws P)
    (C : Cooperates P name V) where
  -- What the specification has to give.
  pub record IsFit (s : KubeconfigSpec) : Type 0 where
    pub csr : is_some s.csr ≡ true
    pub cluster : is_some s.cluster ≡ true
    pub role_ref : is_some s.role_ref ≡ true
    pub algorithm :
        (c : CertificateSigningRequest)
        → s.csr ≡ some c
        → HasKeyType (key_case c.signature_algorithm)
    pub existing :
        (ref : SecretRef) (t : P.State)
        → s.existing_csr ≡ some ref
        → P.is_not_found
            (P.get_secret (record { namespace = ref.namespace; name = ref.name }) t).0.err
          ≡ false

  -- The copy of the run is the one that is kept, and can be worked on.
  pub record Loaded (σ : Snapshot) (k : Kubeconfig) (w : World P.State) : Type 0 where
    pub copy : Copy P name V name σ k w
    pub fit : IsFit k.spec
    pub spec : (j : Kubeconfig) → σ.kubeconfig ≡ some j → k.spec ≡ j.spec

  pub record Ready (σ : Snapshot) (o : Objects) (w : World P.State) : Type 0 where
    pub copy : Copy P name V name σ o.kubeconfig w
    pub fit : IsFit o.kubeconfig.spec
    pub spec : (j : Kubeconfig) → σ.kubeconfig ≡ some j → o.kubeconfig.spec ≡ j.spec
    pub content : HasContent o.secret

  read-IsFit :
      (s : P.State)
      → (P.get_kubeconfig (cluster_name name) s).0.err ≡ none
      → IsFit (P.get_kubeconfig (cluster_name name) s).0.object.spec
  read-IsFit s fine = elim (C.sound.stored (cluster_name name) s) [
    | inl bad ↦ cc (rw fine at bad)
    | inr pointers ↦ record {
      csr = pointers.csr;
      cluster = pointers.cluster;
      role_ref = pointers.role_ref;
      algorithm = C.algorithm s;
      existing = λ ref t. C.existing s t ref;
    }
  ]

  pub load-Loaded :
      (w : World P.State)
      → IsOpen P name V (seen P name V w)
      → Ends (Loaded (seen P name V w)) (λ _ _. ⊥) (load P (cluster_name name) w)
  unfolding load
  load-Loaded w h =
      let n : NamespacedName = cluster_name name in
      let fine : (P.get_kubeconfig n w.server).0.err ≡ none =
        C.kubeconfig_served w.server (rw h.kept refl) in
      let read : some h.stored ≡ some (P.get_kubeconfig n w.server).0.object =
        sym h.kept ∙ V.kubeconfig_read w.server fine in
      let open_one : is_in_terminal_condition P (P.get_kubeconfig n w.server).0.object ≡ false =
        cc (read, h.unfinished) in
      let loaded : Loaded (seen P name V w) (P.get_kubeconfig n w.server).0.object
          (answered (kubeconfig_get n) (P.get_kubeconfig n) w) =
        record {
          copy = record {
            same = V.get_kubeconfig n w.server;
            named = V.kubeconfig_name n w.server fine;
            unfinished = open_one;
            mine = λ _. h;
          };
          fit = read-IsFit w.server fine;
          spec = λ j kept. cc (read, h.kept, kept);
        } in
      ground (arith, fine, open_one, loaded)

  created_secret-Ready :
      (σ : Snapshot) (k : Kubeconfig) (r : Reply Secret) (w : World P.State)
      → Loaded σ k w
      → r.err ≡ none
      → HasContent r.object
      → Ends (Ready σ) (λ _ _. ⊥) (created_secret P k r w)
  unfolding created_secret mark
  created_secret-Ready σ k r w h fine there = rw fine (record {
    copy =
        mark-Copy P name V L name condition_type_user_secret_created condition_true
          "UserSecretCreated" "Created user secret" σ (set_user_secret r.object k) w refl
          (Copy-again P name V name σ k _ w w h.copy refl refl refl);
    fit = h.fit;
    spec = h.spec;
    content = there;
  })

  own_secret-Ready :
      (σ : Snapshot) (k : Kubeconfig) (w : World P.State)
      → Loaded σ k w
      → Ends (Ready σ) (λ _ _. ⊥) (own_secret P k w)
  unfolding own_secret
  own_secret-Ready σ k w h =
      let n : NamespacedName = user_secret_name k in
      let x : Secret = create_user_secret P k n in
      let u : World P.State = answered (secret_get n) (P.get_secret n) w in
      let v : World P.State = answered (secret_create x) (P.create_secret x) u in
      let read : Copy P name V name σ k u =
        Copy-again P name V name σ k k w u h.copy refl refl (V.get_secret n w.server) in
      let made : Loaded σ k v = record {
        copy = Copy-again P name V name σ k k u v read refl refl (V.create_secret x u.server);
        fit = h.fit;
        spec = h.spec;
      } in
      elim (C.secret_answers n w.server) [
        | inl gone ↦ rw gone (
            created_secret-Ready σ k _ v made (C.secret_created x u.server)
              (C.sound.secret_created x u.server))
        | inr fine ↦
            let there : HasContent (P.get_secret n w.server).0.object =
              elim (C.sound.secret_read n w.server) [
                | inl gone ↦ cc (rw (fine, C.errors.nil_is_found) at gone)
                | inr content ↦ content
              ] in
            let ready : Ready σ
                (record { kubeconfig = k; secret = (P.get_secret n w.server).0.object }) u =
              record { copy = read; fit = h.fit; spec = h.spec; content = there } in
            ground (arith, fine, C.errors.nil_is_found, ready)
      ]

  secret_for-Ready :
      (o : Option SecretRef) (σ : Snapshot) (k : Kubeconfig) (w : World P.State)
      → Loaded σ k w
      → k.spec.existing_csr ≡ o
      → Ends (Ready σ) (λ _ _. ⊥) (secret_for P o k w)
  unfolding secret_for existing_secret
  secret_for-Ready none σ k w h e = own_secret-Ready σ k w h
  secret_for-Ready (some ref) σ k w h e =
      let n : NamespacedName = record { namespace = ref.namespace; name = ref.name } in
      let u : World P.State = answered (secret_get n) (P.get_secret n) w in
      let there : P.is_not_found (P.get_secret n w.server).0.err ≡ false =
        h.fit.existing ref w.server e in
      let content : HasContent (P.get_secret n w.server).0.object =
        elim (C.sound.secret_read n w.server) [
          | inl gone ↦ cc (rw there at gone)
          | inr content ↦ content
        ] in
      rw there (record {
        copy = Copy-again P name V name σ k _ w u h.copy refl refl (V.get_secret n w.server);
        fit = h.fit;
        spec = h.spec;
        content = content;
      })

  pub user_secret-Ready :
      (σ : Snapshot) (k : Kubeconfig) (w : World P.State)
      → Loaded σ k w
      → Ends (Ready σ) (λ _ _. ⊥) (user_secret P k w)
  unfolding user_secret
  user_secret-Ready σ k w h = secret_for-Ready k.spec.existing_csr σ k w h refl
