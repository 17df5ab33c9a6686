-- ===== src/Controllers/Keys/Total.antt =====
-- `createCSR` without a panic, and with a key whenever it gives a request.
use kubeconfig_operator.Base.{true, none, is_some, ◌≡◌, inl, inr, Option-cases, arith}
use kubeconfig_operator.K8s.{Fallible, ok, failed}
use kubeconfig_operator.Api.Types.{Kubeconfig, CertificateSigningRequest}
use kubeconfig_operator.Platform.{Platform, CertificateRequest}
use kubeconfig_operator.Effects.{World}
use kubeconfig_operator.Effects.Ends.{Exit, returns, panics, Ends}
use kubeconfig_operator.Controllers.Keys.{
  KeyCase, rsa_case, ecdsa_case, ed25519_case, unsupported_case, no_case, CsrBuffers,
  certificate_request, key_and_request, create_csr,
}

-- Every generated key can be marshalled, and X.509 signs no request without a key.
pub record KeysWork (P : Platform) : Type 0 where
  pub pkcs1 : (key : P.Signer) → is_some (P.marshal_pkcs1_private_key key) ≡ true
  pub ec : (key : P.Signer) → is_some (P.marshal_ec_private_key key) ≡ true
  pub pkcs8 : (key : P.Signer) → is_some (P.marshal_pkcs8_private_key key) ≡ true
  pub no_key :
      (r : CertificateRequest) (s : P.State)
      → is_some (P.create_certificate_request r none s).0.err ≡ true

-- The run ended by a `return`.
abbrev pub Returns : {S : Type 0} → Exit → World S → Type 0
Returns (returns r e) w = Unit {0}
Returns panics w = ⊥

abbrev pub HasKey : (P : Platform) → Fallible (CsrBuffers P) → World P.State → Type 0
HasKey P (ok b) w = is_some b.key ≡ true
HasKey P (failed e) w = Unit {0}

module _ (P : Platform) (works : KeysWork P) where
  key_and_request-HasKey :
      (k : Kubeconfig) (csr : CertificateSigningRequest) (c : KeyCase) (w : World P.State)
      → Ends (HasKey P) Returns (key_and_request P k csr c w)
  unfolding key_and_request
  key_and_request-HasKey k csr rsa_case w =
      ground (arith, works.pkcs1 (P.rsa_generate_key 4096 w.server).0)
  key_and_request-HasKey k csr ecdsa_case w =
      ground (arith, works.ec (P.ecdsa_generate_key "P-521" w.server).0)
  key_and_request-HasKey k csr ed25519_case w =
      ground (arith, works.pkcs8 (P.ed25519_generate_key w.server).0)
  key_and_request-HasKey k csr unsupported_case w = tt
  key_and_request-HasKey k csr no_case w =
      ground (arith, works.no_key (certificate_request P k csr) w.server)

  pub create_csr-HasKey :
      (k : Kubeconfig) (w : World P.State)
      → is_some k.spec.csr ≡ true
      → Ends (HasKey P) Returns (create_csr P k w)
  unfolding create_csr
  create_csr-HasKey k w h = elim (Option-cases k.spec.csr) [
    | inl missing ↦ cc (rw missing at h)
    | inr (csr, given) ↦ rw given (key_and_request-HasKey k csr _ w)
  ]
