-- ===== src/Controllers/Keys/Quiet.antt =====
-- Making the key and the request sends nothing to the API server and records no event.
use kubeconfig_operator.Base.{◌≡◌, sym, subst, List, inl, inr, Option-cases, arith}
use kubeconfig_operator.Api.Types.{Kubeconfig, CertificateSigningRequest}
use kubeconfig_operator.Platform.{Platform}
use kubeconfig_operator.Effects.{Effect, World}
use kubeconfig_operator.Effects.Ends.{Ends, Ends-mono}
use kubeconfig_operator.Controllers.Keys.{
  KeyCase, rsa_case, ecdsa_case, ed25519_case, unsupported_case, no_case, key_and_request,
  create_csr,
}

module _ (P : Platform) where
  abbrev pub Quiet : {A : Type 0} → World P.State → A → World P.State → Type 0
  Quiet w a v = v.effects ≡ w.effects

  key_and_request-Quiet :
      (k : Kubeconfig) (csr : CertificateSigningRequest) (c : KeyCase) (w : World P.State)
      → Ends (Quiet w) (Quiet w) (key_and_request P k csr c w)
  unfolding key_and_request
  key_and_request-Quiet k csr rsa_case w = ground arith
  key_and_request-Quiet k csr ecdsa_case w = ground arith
  key_and_request-Quiet k csr ed25519_case w = ground arith
  key_and_request-Quiet k csr unsupported_case w = ground arith
  key_and_request-Quiet k csr no_case w = ground arith

  pub create_csr-Quiet :
      (k : Kubeconfig) (w : World P.State) → Ends (Quiet w) (Quiet w) (create_csr P k w)
  unfolding create_csr
  create_csr-Quiet k w = elim (Option-cases k.spec.csr) [
    | inl missing ↦ rw missing
    | inr (csr, given) ↦ rw given (key_and_request-Quiet k csr _ w)
  ]

  -- So what holds of the trace before holds of it afterwards.
  pub create_csr_keeps :
      (Q : List Effect → Type 0) (k : Kubeconfig) (w : World P.State)
      → Q w.effects
      → Ends (λ _ v. Q v.effects) (λ _ v. Q v.effects) (create_csr P k w)
  create_csr_keeps Q k w h =
      Ends-mono (Quiet w) _ (Quiet w) _ (create_csr P k w) (create_csr-Quiet k w)
        (λ _ v e. subst Q (sym e) h) (λ _ v e. subst Q (sym e) h)
