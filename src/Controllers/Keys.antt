-- ===== src/Controllers/Keys.antt =====
-- controllers/utils.go: keys and certificate requests, labels, and the test for a final state. What
-- the random source and X.509 do is the platform's. A buffer is its contents.
pub mod Quiet
pub mod Families
pub mod Total
use kubeconfig_operator.Base.{
  ℕ, String, Bool, false, not, ◌||◌, Option, none, some, [], ◌∷◌, ◌==◌, if◌then◌else◌,
}
use kubeconfig_operator.Base.Dict.{Dict}
use kubeconfig_operator.K8s.{Fallible, ok, failed, new_error}
use kubeconfig_operator.Api.Types.{
  Kubeconfig, SignatureAlgorithm, CertificateSigningRequest, unknown_signature_algorithm,
  sha256_with_rsa, sha384_with_rsa, sha512_with_rsa, ecdsa_with_sha256, ecdsa_with_sha384,
  ecdsa_with_sha512, sha256_with_rsapss, sha384_with_rsapss, sha512_with_rsapss, pure_ed25519,
}
use kubeconfig_operator.Api.Conditions.{condition_type_kubeconfig_finished, condition_unknown}
use kubeconfig_operator.Platform.{Platform, X509Algorithm, CertificateRequest}
use kubeconfig_operator.Effects.{M, pure, deref, step, ◌>>=◌}

abbrev pub rsa_key_length : ℕ
rsa_key_length = 4096

unfoldable pub labels_for_subresources : Kubeconfig → Dict String
labels_for_subresources k =
    ("kubeconfig-operator.k8s.zoomoid.dev/for", k.meta.name)
    ∷ ("kubeconfig-operator.k8s.zoomoid.dev/username", k.spec.username)
    ∷ []

unfoldable pub parse_signature_algorithm : SignatureAlgorithm → X509Algorithm
parse_signature_algorithm s =
    if s == sha256_with_rsa
    then X509Algorithm.sha256_with_rsa
    else if s == sha384_with_rsa
    then X509Algorithm.sha384_with_rsa
    else if s == sha512_with_rsa
    then X509Algorithm.sha512_with_rsa
    else if s == pure_ed25519
    then X509Algorithm.pure_ed25519
    else if s == ecdsa_with_sha512
    then X509Algorithm.ecdsa_with_sha512
    else if s == ecdsa_with_sha384
    then X509Algorithm.ecdsa_with_sha384
    else if s == ecdsa_with_sha256
    then X509Algorithm.ecdsa_with_sha256
    else if s == sha256_with_rsapss
    then X509Algorithm.sha256_with_rsapss
    else if s == sha384_with_rsapss
    then X509Algorithm.sha384_with_rsapss
    else if s == sha512_with_rsapss
    then X509Algorithm.sha512_with_rsapss
    else X509Algorithm.unknown

-- The four cases of the switch in `createCSR`, and the algorithms that have none.
pub data KeyCase : Type 0 where
  rsa_case ecdsa_case ed25519_case unsupported_case no_case : KeyCase

unfoldable pub key_case : SignatureAlgorithm → KeyCase
key_case s =
    if s == sha256_with_rsa
      || s == sha384_with_rsa
      || s == sha512_with_rsa
      || s == sha256_with_rsapss
      || s == sha384_with_rsapss
      || s == sha512_with_rsapss
    then rsa_case
    else if s == ecdsa_with_sha256 || s == ecdsa_with_sha384 || s == ecdsa_with_sha512
    then ecdsa_case
    else if s == pure_ed25519
    then ed25519_case
    else if s == unknown_signature_algorithm
    then unsupported_case
    else no_case

module _ (P : Platform) where
  -- The signer (none for a nil interface) and the PEM text of the key (none for a nil buffer).
  pub record KeyPair : Type 0 where
    pub signer : Option P.Signer
    pub encoded : Option String

  -- A marshaller gives the bytes, or panics.
  encode_key : String → P.Signer → Option String → M P.State KeyPair
  encode_key type signer marshalled = do
    bytes ← deref marshalled
    pure (record {
      signer = some signer;
      encoded = some (P.pem_encode (record { type = type; bytes = bytes }));
    })

  create_rsa_key : M P.State KeyPair
  unfolding encode_key
  create_rsa_key = do
    priv ← step (P.rsa_generate_key rsa_key_length)
    encode_key "RSA PRIVATE KEY" priv (P.marshal_pkcs1_private_key priv)

  create_ecdsa_key : M P.State KeyPair
  unfolding encode_key
  create_ecdsa_key = do
    priv ← step (P.ecdsa_generate_key "P-521")
    encode_key "EC PRIVATE KEY" priv (P.marshal_ec_private_key priv)

  create_ed25519_key : M P.State KeyPair
  unfolding encode_key
  create_ed25519_key = do
    priv ← step P.ed25519_generate_key
    encode_key "PRIVATE KEY" priv (P.marshal_pkcs8_private_key priv)

  pub certificate_request : Kubeconfig → CertificateSigningRequest → CertificateRequest
  certificate_request k csr = record {
    subject = record {
      common_name = k.spec.username;
      country = csr.additional_fields.country;
      province = csr.additional_fields.province;
      locality = csr.additional_fields.locality;
      organization = csr.additional_fields.organization;
      organizational_unit = csr.additional_fields.organizational_unit;
    };
    signature_algorithm = parse_signature_algorithm csr.signature_algorithm;
  }

  -- The buffers of the key and of the request.
  pub record CsrBuffers : Type 0 where
    pub key : Option String
    pub csr : String

  -- The part of `createCSR` behind the switch.
  sign_request : Kubeconfig → CertificateSigningRequest → KeyPair → M P.State (Fallible CsrBuffers)
  unfolding certificate_request
  sign_request k csr keys = do
    r ← step (P.create_certificate_request (certificate_request k csr) keys.signer)
    elim r.err [
      | some e ↦ pure (failed (P.new_internal_error (new_error "failed to create CSR")))
      | none ↦ pure (
          ok (record {
            key = keys.encoded;
            csr = P.pem_encode (record { type = "CERTIFICATE REQUEST"; bytes = r.object });
          }))
    ]

  unfoldable pub key_and_request :
      Kubeconfig → CertificateSigningRequest → KeyCase → M P.State (Fallible CsrBuffers)
  unfolding create_rsa_key create_ecdsa_key create_ed25519_key sign_request
  key_and_request k csr rsa_case = do keys ← create_rsa_key; sign_request k csr keys
  key_and_request k csr ecdsa_case = do keys ← create_ecdsa_key; sign_request k csr keys
  key_and_request k csr ed25519_case = do keys ← create_ed25519_key; sign_request k csr keys
  key_and_request k csr unsupported_case =
      pure (failed (new_error "unsupported signature scheme for key generation"))
  key_and_request k csr no_case = sign_request k csr (record { signer = none; encoded = none })

  -- `createCSR`, which reads `Spec.CSR` through its pointer.
  unfoldable pub create_csr : Kubeconfig → M P.State (Fallible CsrBuffers)
  unfolding key_case key_and_request
  create_csr k = do csr ← deref k.spec.csr; key_and_request k csr (key_case csr.signature_algorithm)

  unfoldable pub is_in_terminal_condition : Kubeconfig → Bool
  is_in_terminal_condition k =
      elim (P.find_status_condition k.status.conditions condition_type_kubeconfig_finished) [
        | none ↦ false
        | some f ↦ not (f.status == condition_unknown)
      ]
