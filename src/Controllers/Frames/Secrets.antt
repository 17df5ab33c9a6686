-- ===== src/Controllers/Frames/Secrets.antt =====
-- The first half of a run reads the secret, or creates it where there is none.
use kubeconfig_operator.Base.{
  Option, none, some, ◌≡◌, refl, inl, inr, arith, Bool-cases, Option-cases,
}
use kubeconfig_operator.K8s.{ObjectMeta, NamespacedName, Reply, Secret}
use kubeconfig_operator.Api.Types.{Kubeconfig, SecretRef}
use kubeconfig_operator.Platform.{Platform}
use kubeconfig_operator.Effects.{World, answered, secret_get, secret_create}
use kubeconfig_operator.Effects.Ends.{Ends, Occurs}
use kubeconfig_operator.Controllers.Resources.{create_user_secret}
use kubeconfig_operator.Controllers.Kubeconfig.Objects.{
  Objects, load, own_secret, existing_secret, created_secret, secret_for, user_secret, mark,
  user_secret_name,
}
use kubeconfig_operator.Controllers.Frames.{IsFramed, FramedExit, Framed, HoldsSecret, Resembles}

module _ (P : Platform) where
  Resembles-refl : (owner : ObjectMeta) (s : Secret) → Resembles P owner s s
  Resembles-refl owner s = record {
    meta = inl refl;
    type = refl;
    content = refl;
    string_content = refl;
  }

  pub load-Framed :
      (name : NamespacedName) (w : World P.State)
      → IsFramed P w.effects
      → Ends (Framed P) (FramedExit P) (load P name w)
  unfolding load
  load-Framed name w h = ground arith

  -- Its secret is at hand, too.
  abbrev pub Held : Objects → World P.State → Type 0
  Held o w = Framed P o.kubeconfig w × Occurs (HoldsSecret P o.kubeconfig.meta o.secret) w.effects

  existing_secret-Held :
      (ref : SecretRef) (k : Kubeconfig) (w : World P.State)
      → Framed P k w
      → Ends Held (FramedExit P) (existing_secret P ref k w)
  unfolding existing_secret
  existing_secret-Held ref k w h = ground arith

  created_secret-Held :
      (k : Kubeconfig) (r : Reply Secret) (w : World P.State)
      → Framed P k w
      → (r.err ≡ none → Occurs (HoldsSecret P k.meta r.object) w.effects)
      → Ends Held (FramedExit P) (created_secret P k r w)
  unfolding created_secret mark
  created_secret-Held k r w h held = elim (Option-cases r.err) [
    | inl fine ↦ rw fine (h, held fine)
    | inr (e, bad) ↦ rw bad (inr h.1, (tt, h.0))
  ]

  own_secret-Held :
      (k : Kubeconfig) (w : World P.State)
      → Framed P k w
      → Ends Held (FramedExit P) (own_secret P k w)
  unfolding own_secret create_user_secret
  own_secret-Held k w h =
      let n : NamespacedName = user_secret_name k in
      let v : World P.State = answered (secret_get n) (P.get_secret n) w in
      elim (Bool-cases (P.is_not_found (P.get_secret n w.server).0.err)) [
        | inl missing ↦ rw missing (
            created_secret-Held k _
              (answered (secret_create (create_user_secret P k n))
                (P.create_secret (create_user_secret P k n)) v)
              (
                (
                  record {
                    kubeconfig = k;
                    read = inr h.1;
                    name = n;
                    missing = inl (refl, missing);
                    unowned = _;
                    owned = refl;
                    same_name = refl;
                    same_namespace = refl;
                  },
                  (tt, h.0),
                ),
                inr (inr h.1),
              )
              (λ fine. inl (fine, Resembles-refl k.meta _)))
        | inr there ↦ rw there (elim (Option-cases (P.get_secret n w.server).0.err) [
          | inl fine ↦ rw fine (((tt, h.0), inr h.1), inl (Resembles-refl k.meta _))
          | inr (e, bad) ↦ rw bad (tt, h.0)
        ])
      ]

  secret_for-Held :
      (o : Option SecretRef) (k : Kubeconfig) (w : World P.State)
      → Framed P k w
      → Ends Held (FramedExit P) (secret_for P o k w)
  unfolding secret_for
  secret_for-Held (some ref) k w h = existing_secret-Held ref k w h
  secret_for-Held none k w h = own_secret-Held k w h

  pub user_secret-Held :
      (k : Kubeconfig) (w : World P.State)
      → Framed P k w
      → Ends Held (FramedExit P) (user_secret P k w)
  unfolding user_secret
  user_secret-Held k w h = secret_for-Held k.spec.existing_csr k w h
