-- ===== src/Lifecycle/Secrets.antt =====
-- The first part of a run: it reads the Kubeconfig and its secret and keeps the stage.
use kubeconfig_operator.Base.{
  String, false, Option, none, some, ◌≡◌, refl, inl, inr, ◌<>◌, arith, Option-cases,
}
use kubeconfig_operator.K8s.{NamespacedName, Secret, Reply}
use kubeconfig_operator.Api.Types.{Kubeconfig, SecretRef}
use kubeconfig_operator.Api.Conditions.{
  condition_type_user_secret_created, condition_true, condition_false, phase_failed,
}
use kubeconfig_operator.Platform.{Platform}
use kubeconfig_operator.Platform.Laws.{HasConditionLaws}
use kubeconfig_operator.Effects.{
  World, announced, answered, kubeconfig_get, secret_get, secret_create,
}
use kubeconfig_operator.Effects.Ends.{Exit, Ends}
use kubeconfig_operator.Controllers.Keys.{is_in_terminal_condition}
use kubeconfig_operator.Controllers.Kubeconfig.Objects.{
  Objects, load, existing_secret, created_secret, own_secret, secret_for, user_secret,
  user_secret_name, set_user_secret, set_phase,
}
use kubeconfig_operator.Controllers.Resources.{create_user_secret}
use kubeconfig_operator.Lifecycle.Stages.{Snapshot}
use kubeconfig_operator.Lifecycle.Server.{Server, cluster_name}
use kubeconfig_operator.Lifecycle.Copies.{seen, Copy, Copy-again, Keeps, mark-then, write-Keeps}

module _ (P : Platform) (name : String) (V : Server P name) where
  -- What a part of a run leaves if the run ends in it.
  abbrev pub ExitKeeps : String → Snapshot → Exit → World P.State → Type 0
  ExitKeeps m σ x v = Keeps P name V m σ (seen P name V v)

  abbrev pub Holds : String → Snapshot → Objects → World P.State → Type 0
  Holds m σ o w = Copy P name V m σ o.kubeconfig w

  read-Copy :
      (m : String) (w : World P.State)
      → (P.get_kubeconfig (cluster_name m) w.server).0.err ≡ none
      → is_in_terminal_condition P (P.get_kubeconfig (cluster_name m) w.server).0.object ≡ false
      → Copy P name V m
          (seen P name V w)
          (P.get_kubeconfig (cluster_name m) w.server).0.object
          (answered (kubeconfig_get (cluster_name m)) (P.get_kubeconfig (cluster_name m)) w)
  read-Copy m w fine open_one = record {
    same = V.get_kubeconfig (cluster_name m) w.server;
    named = V.kubeconfig_name (cluster_name m) w.server fine;
    unfinished = open_one;
    mine = λ own. record {
      stored = (P.get_kubeconfig (cluster_name m) w.server).0.object;
      kept = rw own (V.kubeconfig_read w.server (rw (← own) fine));
      unfinished = open_one;
    };
  }

  pub load-Copy :
      (m : String) (w : World P.State)
      → Ends
          (Copy P name V m (seen P name V w))
          (ExitKeeps m (seen P name V w))
          (load P (cluster_name m) w)
  unfolding load
  load-Copy m w = ground (arith, V.get_kubeconfig (cluster_name m) w.server, read-Copy m w)

  module _ (L : HasConditionLaws P) where
    created_secret-Copy :
        (m : String) (σ : Snapshot) (k : Kubeconfig) (r : Reply Secret) (w : World P.State)
        → Copy P name V m σ k w
        → Ends (Holds m σ) (ExitKeeps m σ) (created_secret P k r w)
    unfolding created_secret
    created_secret-Copy m σ k r w h = elim (Option-cases r.err) [
      | inl fine ↦ rw fine (
          mark-then P name V (Holds m σ) (ExitKeeps m σ) L m condition_type_user_secret_created
            condition_true "UserSecretCreated" "Created user secret" σ (set_user_secret r.object k)
            _ w refl (Copy-again P name V m σ k _ w w h refl refl refl) (λ k' v copy. copy))
      | inr (e, bad) ↦ rw bad (
          mark-then P name V (Holds m σ) (ExitKeeps m σ) L m condition_type_user_secret_created
            condition_false "UserSecretCreateFailed" ("Failed to create user secret, " <> e.message)
            σ k _
            (announced "Warning" "UserSecretFailed" ("Failed to create user secret, " <> e.message)
              w)
            refl (Copy-again P name V m σ k k w _ h refl refl refl)
            (λ k' v copy.
              write-Keeps P name V m σ (set_phase phase_failed k') v
                (Copy-again P name V m σ k' _ v v copy refl refl refl)))
    ]

    own_secret-Copy :
        (m : String) (σ : Snapshot) (k : Kubeconfig) (w : World P.State)
        → Copy P name V m σ k w
        → Ends (Holds m σ) (ExitKeeps m σ) (own_secret P k w)
    unfolding own_secret
    own_secret-Copy m σ k w h =
        let n : NamespacedName = user_secret_name k in
        let x : Secret = create_user_secret P k n in
        let u : World P.State = answered (secret_get n) (P.get_secret n) w in
        let v : World P.State = answered (secret_create x) (P.create_secret x) u in
        let read : Copy P name V m σ k u =
          Copy-again P name V m σ k k w u h refl refl (V.get_secret n w.server) in
        ground (
          arith,
          read,
          read.same,
          created_secret-Copy m σ k (P.create_secret x u.server).0 v
              (Copy-again P name V m σ k k u v read refl refl (V.create_secret x u.server)),
        )

    secret_for-Copy :
        (o : Option SecretRef) (m : String) (σ : Snapshot) (k : Kubeconfig) (w : World P.State)
        → Copy P name V m σ k w
        → Ends (Holds m σ) (ExitKeeps m σ) (secret_for P o k w)
    unfolding secret_for existing_secret
    secret_for-Copy none m σ k w h = own_secret-Copy m σ k w h
    secret_for-Copy (some ref) m σ k w h =
        let n : NamespacedName = record { namespace = ref.namespace; name = ref.name } in
        let u : World P.State = answered (secret_get n) (P.get_secret n) w in
        let s : Secret = (P.get_secret n w.server).0.object in
        let read : Copy P name V m σ (set_user_secret s k) u =
          Copy-again P name V m σ k _ w u h refl refl (V.get_secret n w.server) in
        ground (arith, read, read.same)

    pub user_secret-Copy :
        (m : String) (σ : Snapshot) (k : Kubeconfig) (w : World P.State)
        → Copy P name V m σ k w
        → Ends (Holds m σ) (ExitKeeps m σ) (user_secret P k w)
    unfolding user_secret
    user_secret-Copy m σ k w h = secret_for-Copy k.spec.existing_csr m σ k w h
