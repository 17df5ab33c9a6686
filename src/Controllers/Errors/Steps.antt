-- ===== src/Controllers/Errors/Steps.antt =====
-- The first parts of a run report the failures that they meet.
use kubeconfig_operator.Base.{
  String, none, some, ◌≡◌, refl, sym, subst, inl, inr, Bool-cases, Option-cases, arith,
}
use kubeconfig_operator.K8s.{NamespacedName, Reply, Secret, CsrObject, Fallible, ok, failed, Error}
use kubeconfig_operator.Api.Types.{Kubeconfig, CertificateSigningRequest}
use kubeconfig_operator.Platform.{Platform}
use kubeconfig_operator.Effects.{World, answered, announced, csr_get}
use kubeconfig_operator.Effects.Ends.{Ends, Ends-bind_run, Ends-mono, Occurs}
use kubeconfig_operator.Controllers.Keys
use kubeconfig_operator.Controllers.Keys.{
  CsrBuffers, KeyCase, rsa_case, ecdsa_case, ed25519_case, unsupported_case, no_case,
  key_and_request,
}
use kubeconfig_operator.Controllers.Kubeconfig.Objects.{
  Objects, load, own_secret, created_secret, secret_for, user_secret, mark, user_secret_name,
  put_content,
}
use kubeconfig_operator.Controllers.Kubeconfig.Request.{
  csr_name, find_csr, generated, request_certificate, save_key, key_saved, csr_submitted,
  generation_failed,
}
use kubeconfig_operator.Controllers.Errors.{IsClean, Reports, error_of, unless_missing}

module _ (P : Platform) where
  abbrev pub Clean : {A : Type 0} → A → World P.State → Type 0
  Clean a w = IsClean P w.effects

  pub nothing_missing : unless_missing P none ≡ none
  nothing_missing = ground arith

  pub load-Reports :
      (name : NamespacedName) (w : World P.State)
      → (P.get_kubeconfig name w.server).0.object.spec.existing_csr ≡ none
      → IsClean P w.effects
      → Ends (λ k v. Clean k v × (k.spec.existing_csr ≡ none)) (Reports P) (load P name w)
  unfolding load
  load-Reports name w own h = ground (arith, own)

  created_secret-Reports :
      (k : Kubeconfig) (r : Reply Secret) (w : World P.State)
      → (r.err ≡ none → IsClean P w.effects)
      → ((e : Error) → r.err ≡ some e → Occurs (λ f. error_of f ≡ some e) w.effects)
      → Ends Clean (Reports P) (created_secret P k r w)
  unfolding created_secret mark
  created_secret-Reports k r w fine bad = elim (Option-cases r.err) [
    | inl ended ↦ rw ended (fine ended)
    | inr (e, err) ↦ rw err (inr (inr (bad e err)))
  ]

  own_secret-Reports :
      (k : Kubeconfig) (w : World P.State)
      → IsClean P w.effects
      → Ends Clean (Reports P) (own_secret P k w)
  unfolding own_secret
  own_secret-Reports k w h =
      let n : NamespacedName = user_secret_name k in
      elim (Bool-cases (P.is_not_found (P.get_secret n w.server).0.err)) [
        | inl missing ↦
            rw missing (
              created_secret-Reports k _ _ (λ fine. (fine, (rw missing refl, h)))
                (λ e err. inl err))
        | inr there ↦ rw there (elim (Option-cases (P.get_secret n w.server).0.err) [
          | inl fine ↦ rw fine (nothing_missing, h)
          | inr (e, bad) ↦ rw bad (inl refl)
        ])
      ]

  pub user_secret-Reports :
      (k : Kubeconfig) (w : World P.State)
      → k.spec.existing_csr ≡ none
      → IsClean P w.effects
      → Ends Clean (Reports P) (user_secret P k w)
  unfolding user_secret secret_for
  user_secret-Reports k w own h =
      subst (λ o. Ends Clean (Reports P) (secret_for P o k w)) (sym own) (own_secret-Reports k w h)

  -- The run does not go on.
  abbrev pub Never : {A : Type 0} → A → World P.State → Type 0
  Never a w = ⊥

  csr_submitted-Reports :
      (k : Kubeconfig) (r : Reply CsrObject) (w : World P.State)
      → (r.err ≡ none → IsClean P w.effects)
      → ((e : Error) → r.err ≡ some e → Occurs (λ f. error_of f ≡ some e) w.effects)
      → Ends Never (Reports P) (csr_submitted P k r w)
  unfolding csr_submitted mark
  csr_submitted-Reports k r w clean failing = elim (Option-cases r.err) [
    | inl fine ↦ rw fine (refl, (refl, clean fine))
    | inr (e, bad) ↦ rw bad (inr (failing e bad))
  ]

  key_saved-Reports :
      (k : Kubeconfig) (request : String) (r : Reply Secret) (w : World P.State)
      → (r.err ≡ none → IsClean P w.effects)
      → ((e : Error) → r.err ≡ some e → Occurs (λ f. error_of f ≡ some e) w.effects)
      → Ends Never (Reports P) (key_saved P k request r w)
  unfolding key_saved
  key_saved-Reports k request r w clean failing = elim (Option-cases r.err) [
    | inl fine ↦
        rw fine
          (csr_submitted-Reports k _ _ (λ sent. (sent, (refl, clean fine))) (λ e bad. inl bad))
    | inr (e, bad) ↦ rw bad (inr (failing e bad))
  ]

  save_key-Reports :
      (o : Objects) (b : CsrBuffers P) (w : World P.State)
      → IsClean P w.effects
      → Ends Never (Reports P) (save_key P o b w)
  unfolding save_key put_content
  save_key-Reports o b w h = elim (Option-cases b.key) [
    | inl missing ↦ rw missing h
    | inr (key, made) ↦ rw made (elim (Option-cases o.secret.content) [
      | inl missing ↦ rw missing h
      | inr (m, there) ↦
          rw there (key_saved-Reports o.kubeconfig b.csr _ _ (λ fine. (fine, h)) (λ e bad. inl bad))
    ])
  ]

  generated-Reports :
      (o : Objects) (b : Fallible (CsrBuffers P)) (w : World P.State)
      → IsClean P w.effects
      → Ends Never (Reports P) (generated P o b w)
  unfolding generated generation_failed mark
  generated-Reports o (ok b) w h = save_key-Reports o b w h
  generated-Reports o (failed e) w h = (refl, h)

  key_and_request-Reports :
      (k : Kubeconfig) (csr : CertificateSigningRequest) (c : KeyCase) (w : World P.State)
      → IsClean P w.effects
      → Ends Clean (Reports P) (key_and_request P k csr c w)
  unfolding key_and_request
  key_and_request-Reports k csr rsa_case w h = ground arith
  key_and_request-Reports k csr ecdsa_case w h = ground arith
  key_and_request-Reports k csr ed25519_case w h = ground arith
  key_and_request-Reports k csr unsupported_case w h = ground arith
  key_and_request-Reports k csr no_case w h = ground arith

  create_csr-Reports :
      (k : Kubeconfig) (w : World P.State)
      → IsClean P w.effects
      → Ends Clean (Reports P) (Keys.create_csr P k w)
  unfolding Keys.create_csr
  create_csr-Reports k w h = elim (Option-cases k.spec.csr) [
    | inl missing ↦ rw missing h
    | inr (csr, given) ↦ rw given (key_and_request-Reports k csr _ w h)
  ]

  request_certificate-Reports :
      (o : Objects) (w : World P.State)
      → IsClean P w.effects
      → Ends Never (Reports P) (request_certificate P o w)
  unfolding request_certificate
  request_certificate-Reports o w h =
      let v : World P.State = announced "Normal" "Generating" "Generating CSR for kubeconfig" w in
      Ends-bind_run Clean Never (Reports P) (Keys.create_csr P o.kubeconfig v) (generated P o)
        (create_csr-Reports o.kubeconfig v (refl, h)) (generated-Reports o)

  pub find_csr-Reports :
      (o : Objects) (w : World P.State)
      → IsClean P w.effects
      → Ends Clean (Reports P) (find_csr P o w)
  unfolding find_csr
  find_csr-Reports o w h =
      let n : NamespacedName = csr_name o.kubeconfig in
      let v : World P.State = answered (csr_get n) (P.get_csr n) w in
      elim (Bool-cases (P.is_not_found (P.get_csr n w.server).0.err)) [
        | inl missing ↦ rw missing (
            Ends-mono Never Clean (Reports P) (Reports P) (request_certificate P o v)
              (request_certificate-Reports o v (rw missing refl, h)) (λ _ _ x. absurd x)
              (λ _ _ x. x))
        | inr there ↦ rw there (elim (Option-cases (P.get_csr n w.server).0.err) [
          | inl fine ↦ rw fine (nothing_missing, h)
          | inr (e, bad) ↦ rw bad (inl refl)
        ])
      ]
