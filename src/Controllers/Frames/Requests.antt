-- ===== src/Controllers/Frames/Requests.antt =====
-- The middle of a run adds the key and the request to the secret, and creates the request where there is none.
use kubeconfig_operator.Base.{List, String, some, ◌≡◌, refl, inl, inr, Option-cases, Bool-cases}
use kubeconfig_operator.Base.Dict.{Dict, insert, lookup-insert}
use kubeconfig_operator.K8s.{NamespacedName, Secret, CsrObject, Reply, Fallible, ok, failed}
use kubeconfig_operator.Api.Types.{Kubeconfig}
use kubeconfig_operator.Platform.{Platform}
use kubeconfig_operator.Effects.{Effect, World, csr_get, announced, answered}
use kubeconfig_operator.Effects.Ends.{Ends, Ends-bind_run, Ends-mono, Occurs}
use kubeconfig_operator.Controllers.Keys
use kubeconfig_operator.Controllers.Keys.{CsrBuffers}
use kubeconfig_operator.Controllers.Keys.Quiet.{create_csr_keeps}
use kubeconfig_operator.Controllers.Resources.{create_csr_object}
use kubeconfig_operator.Controllers.Kubeconfig.Objects.{Objects, put_content, mark}
use kubeconfig_operator.Controllers.Kubeconfig.Request.{
  csr_name, find_csr, generated, request_certificate, save_key, key_saved, csr_submitted,
  generation_failed,
}
use kubeconfig_operator.Controllers.Frames.{
  IsFramed, FramedExit, Framed, HoldsSecret, MissesCsr, Changed, ReadAs,
}
use kubeconfig_operator.Controllers.Frames.Secrets.{Held}

-- Two entries are written.
pub put_twice-Changed :
    (a b x y : String) (m : Dict String) (s : Secret)
    → s.content ≡ some m
    → Changed a b s (record s { content = some (insert b y (insert a x m)) })
put_twice-Changed a b x y m s there = record {
  meta = refl;
  type = refl;
  string_content = refl;
  rest = λ key na nb. rw there (simp (lookup-insert, na, nb));
}

module _ (P : Platform) where
  -- No request of the name was found.
  abbrev IsReady : Objects → List Effect → Type 0
  IsReady o es =
      ((IsFramed P es × Occurs (ReadAs o.kubeconfig.meta o.kubeconfig.spec) es)
        × Occurs (HoldsSecret P o.kubeconfig.meta o.secret) es)
      × Occurs (MissesCsr P (csr_name o.kubeconfig)) es

  abbrev Ready : Objects → World P.State → Type 0
  Ready o w = IsReady o w.effects

  -- The run does not go on.
  abbrev Never : CsrObject → World P.State → Type 0
  Never csr w = ⊥

  csr_submitted-Framed :
      (k : Kubeconfig) (r : Reply CsrObject) (w : World P.State)
      → Framed P k w
      → Ends Never (FramedExit P) (csr_submitted P k r w)
  unfolding csr_submitted mark
  csr_submitted-Framed k r w h = elim (Option-cases r.err) [
    | inl fine ↦ rw fine (inr h.1, (tt, h.0))
    | inr (e, bad) ↦ rw bad (tt, h.0)
  ]

  key_saved-Framed :
      (k : Kubeconfig) (request : String) (r : Reply Secret) (w : World P.State)
      → Framed P k w
      → Occurs (MissesCsr P (csr_name k)) w.effects
      → Ends Never (FramedExit P) (key_saved P k request r w)
  unfolding key_saved create_csr_object
  key_saved-Framed k request r w h missing = elim (Option-cases r.err) [
    | inl fine ↦ rw fine (
        csr_submitted-Framed k _ _ (
          (
            record {
              kubeconfig = k;
              read = inr h.1;
              name = csr_name k;
              missing = inr missing;
              unowned = _;
              owned = refl;
              same_name = refl;
              same_namespace = refl;
            },
            (tt, h.0),
          ),
          inr (inr h.1),
        ))
    | inr (e, bad) ↦ rw bad (tt, h.0)
  ]

  save_key-Framed :
      (o : Objects) (b : CsrBuffers P) (w : World P.State)
      → Ready o w
      → Ends Never (FramedExit P) (save_key P o b w)
  unfolding save_key put_content
  save_key-Framed o b w h = elim (Option-cases b.key) [
    | inl missing ↦ rw missing h.0.0.0
    | inr (key, made) ↦ rw made (elim (Option-cases o.secret.content) [
      | inl missing ↦ rw missing h.0.0.0
      | inr (m, there) ↦ rw there (
          key_saved-Framed o.kubeconfig b.csr _ _
            (
              (
                record {
                  kubeconfig = o.kubeconfig;
                  read = h.0.0.1;
                  before = o.secret;
                  held = h.0.1;
                  changed = inl (put_twice-Changed _ _ key b.csr m o.secret there);
                },
                h.0.0.0,
              ),
              inr h.0.0.1,
            )
            (inr h.1))
    ])
  ]

  generated-Framed :
      (o : Objects) (b : Fallible (CsrBuffers P)) (w : World P.State)
      → Ready o w
      → Ends Never (FramedExit P) (generated P o b w)
  unfolding generated generation_failed mark
  generated-Framed o (ok b) w h = save_key-Framed o b w h
  generated-Framed o (failed e) w h = (tt, h.0.0.0)

  request_certificate-Framed :
      (o : Objects) (w : World P.State)
      → Ready o w
      → Ends Never (FramedExit P) (request_certificate P o w)
  unfolding request_certificate
  request_certificate-Framed o w h =
      let v : World P.State = announced "Normal" "Generating" "Generating CSR for kubeconfig" w in
      Ends-bind_run (λ _ v. Ready o v) Never (FramedExit P) (Keys.create_csr P o.kubeconfig v)
        (generated P o)
        (Ends-mono (λ _ v. Ready o v) (λ _ v. Ready o v) (λ _ v. Ready o v) (FramedExit P)
          (Keys.create_csr P o.kubeconfig v)
          (create_csr_keeps P (IsReady o) o.kubeconfig v
            ((((tt, h.0.0.0), inr h.0.0.1), inr h.0.1), inr h.1))
          (λ _ _ x. x) (λ _ _ x. x.0.0.0))
        (generated-Framed o)

  -- A request that is there is used as it is.
  pub find_csr-Held :
      (o : Objects) (w : World P.State)
      → Held P o w
      → Ends (λ _ v. Held P o v) (FramedExit P) (find_csr P o w)
  unfolding find_csr
  find_csr-Held o w h =
      let n : NamespacedName = csr_name o.kubeconfig in
      let v : World P.State = answered (csr_get n) (P.get_csr n) w in
      elim (Bool-cases (P.is_not_found (P.get_csr n w.server).0.err)) [
        | inl missing ↦ rw missing (
            Ends-mono Never (λ _ u. Held P o u) (FramedExit P) (FramedExit P)
              (request_certificate P o v)
              (request_certificate-Framed o v
                ((((tt, h.0.0), inr h.0.1), inr h.1), inl (refl, missing)))
              (λ _ _ x. absurd x) (λ _ _ x. x))
        | inr there ↦ rw there (elim (Option-cases (P.get_csr n w.server).0.err) [
          | inl fine ↦ rw fine (((tt, h.0.0), inr h.0.1), inr h.1)
          | inr (e, bad) ↦ rw bad (tt, h.0.0)
        ])
      ]
