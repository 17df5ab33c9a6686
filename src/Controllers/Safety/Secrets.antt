-- ===== src/Controllers/Safety/Secrets.antt =====
-- The first half of a run keeps the trace safe, and goes on only with a Kubeconfig that it has read.
use kubeconfig_operator.Base.{Option, none, some, arith}
use kubeconfig_operator.K8s.{NamespacedName}
use kubeconfig_operator.Api.Types.{Kubeconfig, SecretRef}
use kubeconfig_operator.Platform.{Platform}
use kubeconfig_operator.Effects.{World}
use kubeconfig_operator.Effects.Ends.{Ends, Occurs}
use kubeconfig_operator.Controllers.Kubeconfig.Objects.{
  Objects, load, own_secret, existing_secret, created_secret, secret_for, user_secret, mark,
}
use kubeconfig_operator.Controllers.Safety.{Shows, IsSafe, SafeExit}

module _ (P : Platform) where
  abbrev pub Loaded : Kubeconfig → World P.State → Type 0
  Loaded k w = IsSafe w.effects × Occurs (Shows k) w.effects

  pub load-IsSafe :
      (name : NamespacedName) (w : World P.State)
      → IsSafe w.effects
      → Ends Loaded SafeExit (load P name w)
  unfolding load
  load-IsSafe name w h = ground arith

  abbrev pub Ready : Objects → World P.State → Type 0
  Ready o w = Loaded o.kubeconfig w

  existing_secret-IsSafe :
      (ref : SecretRef) (k : Kubeconfig) (w : World P.State)
      → Loaded k w
      → Ends Ready SafeExit (existing_secret P ref k w)
  unfolding existing_secret
  existing_secret-IsSafe ref k w h = ground arith

  own_secret-IsSafe :
      (k : Kubeconfig) (w : World P.State) → Loaded k w → Ends Ready SafeExit (own_secret P k w)
  unfolding own_secret created_secret mark
  own_secret-IsSafe k w h = ground arith

  secret_for-IsSafe :
      (o : Option SecretRef) (k : Kubeconfig) (w : World P.State)
      → Loaded k w
      → Ends Ready SafeExit (secret_for P o k w)
  unfolding secret_for
  secret_for-IsSafe (some ref) k w h = existing_secret-IsSafe ref k w h
  secret_for-IsSafe none k w h = own_secret-IsSafe k w h

  pub user_secret-IsSafe :
      (k : Kubeconfig) (w : World P.State) → Loaded k w → Ends Ready SafeExit (user_secret P k w)
  unfolding user_secret
  user_secret-IsSafe k w h = secret_for-IsSafe k.spec.existing_csr k w h
