-- ===== src/Controllers/Panics.antt =====
-- When a run of the Kubeconfig controller may panic: on a nil pointer or a nil map.
use kubeconfig_operator.Base.{
  String, true, Option, none, some, ◌≡◌, ◌⊎◌, refl, is_some, ◌==◌, inl, inr, Option-cases,
  Bool-cases, arith,
}
use kubeconfig_operator.K8s.{NamespacedName, Secret, Reply, Fallible, ok, failed}
use kubeconfig_operator.Api.Types.{Kubeconfig, SecretRef}
use kubeconfig_operator.Platform.{Platform}
use kubeconfig_operator.Effects.{World, announced, answered, csr_get}
use kubeconfig_operator.Effects.Ends.{Ends, Ends-bind_run}
use kubeconfig_operator.Controllers.Csr.{Approval, get_cert_approval_condition}
use kubeconfig_operator.Controllers.Keys.{CsrBuffers}
use kubeconfig_operator.Controllers.Keys.Total.{KeysWork, HasKey, Returns, create_csr-HasKey}
use kubeconfig_operator.Controllers.Keys
use kubeconfig_operator.Controllers.Resources
use kubeconfig_operator.Controllers.Resources.{create_kubeconfig, create_user_secret}
use kubeconfig_operator.Controllers.Kubeconfig.{reconcile}
use kubeconfig_operator.Controllers.Kubeconfig.Objects.{
  Objects, user_secret_name, load, existing_secret, created_secret, own_secret, secret_for,
  user_secret, mark, put_content,
}
use kubeconfig_operator.Controllers.Kubeconfig.Request.{
  csr_name, find_csr, request_certificate, generated, generation_failed, save_key, key_saved,
  csr_submitted,
}
use kubeconfig_operator.Controllers.Kubeconfig.Finish.{
  refused, check_approval, complete, binding_created, create_binding, bind_user, certificate_saved,
  save_config, issue,
}

-- The pointers of the specification that `Reconcile` follows are not nil.
pub record HasPointers (k : Kubeconfig) : Type 0 where
  pub csr : is_some k.spec.csr ≡ true
  pub cluster : is_some k.spec.cluster ≡ true
  pub role_ref : is_some k.spec.role_ref ≡ true

-- The data map of a secret is not nil.
abbrev pub HasContent : Secret → Type 0
HasContent s = is_some s.content ≡ true

-- What a run without panics needs from outside: a Kubeconfig that is read has passed the defaulting
-- webhook; a read of a secret gives one with a data map, or fails with "not found"; a secret comes
-- back from its creation with a data map; and keys work.
pub record IsSound (P : Platform) : Type 0 where
  pub stored :
      (name : NamespacedName) (s : P.State)
      → (is_some (P.get_kubeconfig name s).0.err ≡ true)
        ⊎ HasPointers (P.get_kubeconfig name s).0.object
  pub secret_read :
      (name : NamespacedName) (s : P.State)
      → (P.is_not_found (P.get_secret name s).0.err ≡ true)
        ⊎ HasContent (P.get_secret name s).0.object
  pub secret_created : (x : Secret) (s : P.State) → HasContent (P.create_secret x s).0.object
  pub keys : KeysWork P

module _ (P : Platform) (sound : IsSound P) where
  load-Returns :
      (name : NamespacedName) (w : World P.State)
      → Ends (λ k _. HasPointers k) Returns (load P name w)
  unfolding load
  load-Returns name w = ground (arith, sound.stored name w.server)

  abbrev Usable : Objects → World P.State → Type 0
  Usable o w = HasPointers o.kubeconfig × HasContent o.secret

  secret_for-Returns :
      (o : Option SecretRef) (k : Kubeconfig) (w : World P.State)
      → HasPointers k
      → Ends Usable Returns (secret_for P o k w)
  unfolding secret_for existing_secret own_secret created_secret mark
  secret_for-Returns (some ref) k w h =
      ground
        (arith, sound.secret_read (record { namespace = ref.namespace; name = ref.name }) w.server)
  secret_for-Returns none k w h =
      let n : NamespacedName = user_secret_name k in
      ground (
        arith,
        sound.secret_read n w.server,
        sound.secret_created (create_user_secret P k n) (P.get_secret n w.server).1,
      )

  save_key-Returns :
      (o : Objects) (b : CsrBuffers P) (w : World P.State)
      → HasContent o.secret
      → is_some b.key ≡ true
      → Ends (λ _ _. Unit {0}) Returns (save_key P o b w)
  unfolding save_key put_content key_saved csr_submitted mark
  save_key-Returns o b w there key = ground arith

  generated-Returns :
      (o : Objects) (b : Fallible (CsrBuffers P)) (w : World P.State)
      → HasContent o.secret
      → HasKey P b w
      → Ends (λ _ _. Unit {0}) Returns (generated P o b w)
  unfolding generated generation_failed mark
  generated-Returns o (ok b) w there key = save_key-Returns o b w there key
  generated-Returns o (failed e) w there key = tt

  request_certificate-Returns :
      (o : Objects) (w : World P.State)
      → Usable o w
      → Ends (λ _ _. Unit {0}) Returns (request_certificate P o w)
  unfolding request_certificate
  request_certificate-Returns o w h =
      let v : World P.State = announced "Normal" "Generating" "Generating CSR for kubeconfig" w in
      Ends-bind_run (HasKey P) (λ _ _. Unit {0}) Returns (Keys.create_csr P o.kubeconfig v)
        (generated P o) (create_csr-HasKey P sound.keys o.kubeconfig v h.0.csr)
        (λ b u key. generated-Returns o b u h.1 key)

  find_csr-Returns :
      (o : Objects) (w : World P.State)
      → Usable o w
      → Ends (λ _ _. Unit {0}) Returns (find_csr P o w)
  unfolding find_csr
  find_csr-Returns o w h =
      let n : NamespacedName = csr_name o.kubeconfig in
      ground (arith, request_certificate-Returns o (answered (csr_get n) (P.get_csr n) w) h)

  check_approval-Returns :
      (k : Kubeconfig) (a : Approval) (w : World P.State)
      → HasPointers k
      → Ends (λ k' _. HasPointers k') Returns (check_approval P k a w)
  unfolding check_approval refused mark
  check_approval-Returns k a w h = ground arith

  bind_user-Returns :
      (k : Kubeconfig) (w : World P.State)
      → HasPointers k
      → Ends (λ _ _. Unit {0}) Returns (bind_user P k w)
  unfolding bind_user create_binding Resources.create_cluster_role_binding binding_created complete
      mark
  bind_user-Returns k w h = ground arith

  certificate_saved-Returns :
      (k : Kubeconfig) (r : Reply Secret) (w : World P.State)
      → HasPointers k
      → Ends (λ _ _. Unit {0}) Returns (certificate_saved P k r w)
  unfolding certificate_saved mark
  certificate_saved-Returns k r w h = elim (Option-cases r.err) [
    | inl fine ↦
        rw fine (
          bind_user-Returns _ _
            (record { csr = h.csr; cluster = h.cluster; role_ref = h.role_ref }))
    | inr (e, bad) ↦ rw bad tt
  ]

  save_config-Returns :
      (k : Kubeconfig) (s : Secret) (cfg : Fallible String) (w : World P.State)
      → HasPointers k
      → HasContent s
      → Ends (λ _ _. Unit {0}) Returns (save_config P k s cfg w)
  unfolding save_config put_content
  save_config-Returns k s (failed e) w h there = tt
  save_config-Returns k s (ok cfg) w h there = elim (Option-cases s.content) [
    | inl missing ↦ cc (rw missing at there)
    | inr (m, given) ↦ rw given (
        certificate_saved-Returns (record k { status = record (k.status) { kubeconfig = cfg } }) _ _
          (record { csr = h.csr; cluster = h.cluster; role_ref = h.role_ref }))
  ]

  create_kubeconfig-Returns :
      (k : Kubeconfig) (s : Secret) (w : World P.State)
      → HasPointers k
      → Ends (λ _ _. Unit {0}) Returns (create_kubeconfig P k s w)
  unfolding create_kubeconfig Resources.cluster_ca
  create_kubeconfig-Returns k s w h = ground arith

  issue-Returns :
      (k : Kubeconfig) (s : Secret) (cert : String) (w : World P.State)
      → HasPointers k
      → HasContent s
      → Ends (λ _ _. Unit {0}) Returns (issue P k s cert w)
  unfolding issue put_content
  issue-Returns k s cert w h there = elim (Bool-cases (cert == "")) [
    | inl empty ↦ rw empty tt
    | inr full ↦ rw full (elim (Option-cases s.content) [
      | inl missing ↦ cc (rw missing at there)
      | inr (m, given) ↦ rw given (
          Ends-bind_run (λ _ _. Unit {0}) (λ _ _. Unit {0}) Returns _ _
            (create_kubeconfig-Returns k _ w h) (λ cfg v _. save_config-Returns k _ cfg v h refl))
    ])
  ]

  -- If every Kubeconfig that is read has its pointers set, a secret that is read or created has a data
  -- map (or is not found), and keys can be generated and marshalled, then every run of the
  -- Kubeconfig controller returns: it never panics, on any branch.
  pub reconcile-Returns :
      (name : NamespacedName) (w : World P.State)
      → Ends (λ _ _. Unit {0}) Returns (reconcile P name w)
  unfolding reconcile user_secret
  reconcile-Returns name w =
      Ends-bind_run (λ k _. HasPointers k) (λ _ _. Unit {0}) Returns (load P name w) _
        (load-Returns name w)
        λ k w₁ h.
          Ends-bind_run Usable (λ _ _. Unit {0}) Returns (secret_for P k.spec.existing_csr k w₁) _
            (secret_for-Returns k.spec.existing_csr k w₁ h)
            λ o w₂ u.
              Ends-bind_run (λ _ _. Unit {0}) (λ _ _. Unit {0}) Returns (find_csr P o w₂) _
                (find_csr-Returns o w₂ u)
                λ csr w₃ _.
                  Ends-bind_run (λ k' _. HasPointers k') (λ _ _. Unit {0}) Returns
                    (check_approval P o.kubeconfig (get_cert_approval_condition csr.conditions) w₃)
                    _ (check_approval-Returns o.kubeconfig _ w₃ u.0)
                    λ k' w₄ h'. issue-Returns k' o.secret csr.certificate w₄ h' u.1
