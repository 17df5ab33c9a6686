-- ===== src/Controllers/Keys/Families.antt =====
-- The key and the request that `createCSR` makes, and the algorithm that the Kubeconfig names.
use kubeconfig_operator.Base.{
  Option, String, subst, ◌⊎◌, none, some, refl, sym, true, Option-cases, is_some, ◌≡◌, ◌==◌, inl,
  inr, Bool-cases, arith, eq_iff,
}
use kubeconfig_operator.Api.Types.{
  Kubeconfig, CertificateSigningRequest, SignatureAlgorithm, sha256_with_rsapss, sha384_with_rsapss,
  sha512_with_rsapss, pure_ed25519,
}
use kubeconfig_operator.Platform.{Platform, X509Algorithm, Block, CertificateRequest}
use kubeconfig_operator.Controllers.Keys.{
  KeyCase, rsa_case, ecdsa_case, ed25519_case, unsupported_case, no_case, key_case,
  parse_signature_algorithm, CsrBuffers, key_and_request, create_rsa_key, create_ecdsa_key,
  create_ed25519_key, encode_key, sign_request, create_csr, certificate_request,
}
use kubeconfig_operator.Controllers.Keys.Total.{KeysWork}
use kubeconfig_operator.K8s.{Fallible, ok, failed}
use kubeconfig_operator.Effects.{World}
use kubeconfig_operator.Effects.Ends.{Ends}

-- The key types of the X.509 signature algorithms.
pub data Family : Type 0 where
  rsa ecdsa ed25519 no_family : Family

abbrev pub family : X509Algorithm → Family
family X509Algorithm.unknown = no_family
family X509Algorithm.sha256_with_rsa = rsa
family X509Algorithm.sha384_with_rsa = rsa
family X509Algorithm.sha512_with_rsa = rsa
family X509Algorithm.sha256_with_rsapss = rsa
family X509Algorithm.sha384_with_rsapss = rsa
family X509Algorithm.sha512_with_rsapss = rsa
family X509Algorithm.ecdsa_with_sha256 = ecdsa
family X509Algorithm.ecdsa_with_sha384 = ecdsa
family X509Algorithm.ecdsa_with_sha512 = ecdsa
family X509Algorithm.pure_ed25519 = ed25519

abbrev key_family : KeyCase → Family
key_family rsa_case = rsa
key_family ecdsa_case = ecdsa
key_family ed25519_case = ed25519
key_family unsupported_case = no_family
key_family no_case = no_family

family-key_case :
    (s : SignatureAlgorithm) → family (parse_signature_algorithm s) ≡ key_family (key_case s)
unfolding parse_signature_algorithm key_case
family-key_case s = elim (Bool-cases (s == sha256_with_rsapss)) [
  | inl e ↦ rw ((eq_iff s sha256_with_rsapss).0 e)
  | inr n₁ ↦ elim (Bool-cases (s == sha384_with_rsapss)) [
    | inl e ↦ rw ((eq_iff s sha384_with_rsapss).0 e)
    | inr n₂ ↦ elim (Bool-cases (s == sha512_with_rsapss)) [
      | inl e ↦ rw ((eq_iff s sha512_with_rsapss).0 e)
      | inr n₃ ↦ elim (Bool-cases (s == pure_ed25519)) [
        | inl e ↦ rw ((eq_iff s pure_ed25519).0 e)
        | inr n₄ ↦ rw (n₁, n₂, n₃, n₄) (ground arith)
      ]
    ]
  ]
]

module _ (P : Platform) where
  -- A fresh key of the family: of 4096 bits for RSA, on the curve P-521 for ECDSA.
  abbrev pub Draws : Family → P.State → P.Signer → P.State → Type 0
  Draws rsa s key t = P.rsa_generate_key 4096 s ≡ (key, t)
  Draws ecdsa s key t = P.ecdsa_generate_key "P-521" s ≡ (key, t)
  Draws ed25519 s key t = P.ed25519_generate_key s ≡ (key, t)
  Draws no_family s key t = ⊥

  -- The PEM block of a private key of the family.
  abbrev pub IsBlock : Family → P.Signer → Block → Type 0
  IsBlock rsa key b =
      (b.type ≡ "RSA PRIVATE KEY") × (P.marshal_pkcs1_private_key key ≡ some b.bytes)
  IsBlock ecdsa key b = (b.type ≡ "EC PRIVATE KEY") × (P.marshal_ec_private_key key ≡ some b.bytes)
  IsBlock ed25519 key b =
      (b.type ≡ "PRIVATE KEY") × (P.marshal_pkcs8_private_key key ≡ some b.bytes)
  IsBlock no_family key b = ⊥

  -- The buffers hold a fresh key that fits the algorithm, and a request for the user that names the
  -- algorithm and was signed with this key.
  pub record Matches (k : Kubeconfig) (a : X509Algorithm) (s : P.State) (b : CsrBuffers P)
      : Type 0 where
    pub key : P.Signer
    pub after : P.State
    pub drawn : Draws (family a) s key after
    pub block : Block
    pub encoded : IsBlock (family a) key block
    pub stored : b.key ≡ some (P.pem_encode block)
    pub template : CertificateRequest
    pub common_name : template.subject.common_name ≡ k.spec.username
    pub algorithm : template.signature_algorithm ≡ a
    pub taken : (P.create_certificate_request template (some key) after).0.err ≡ none
    pub signed :
        b.csr
        ≡ P.pem_encode (record {
          type = "CERTIFICATE REQUEST";
          bytes = (P.create_certificate_request template (some key) after).0.object;
        })

  -- X.509 did not sign such a request with a fresh key that fits the algorithm.
  abbrev pub IsRefused : Kubeconfig → X509Algorithm → P.State → Type 0
  IsRefused k a s =
      (key : P.Signer) × (t : P.State) × (r : CertificateRequest) × Draws (family a) s key t
      × (r.subject.common_name ≡ k.spec.username)
      × (r.signature_algorithm ≡ a)
      × (is_some (P.create_certificate_request r (some key) t).0.err ≡ true)

  abbrev pub Fits :
      Kubeconfig → X509Algorithm → P.State → Fallible (CsrBuffers P) → World P.State → Type 0
  Fits k a s (ok b) w = Matches k a s b
  Fits k a s (failed e) w = (family a ≡ no_family) ⊎ IsRefused k a s

  sign_request-Fits :
      (k : Kubeconfig) (csr : CertificateSigningRequest) (f : Family) (key : P.Signer)
      (block : Block) (s : P.State) (w : World P.State)
      → family (parse_signature_algorithm csr.signature_algorithm) ≡ f
      → Draws f s key w.server
      → IsBlock f key block
      → Ends
          (Fits k (parse_signature_algorithm csr.signature_algorithm) s)
          (λ _ _. ⊥)
          (sign_request P k csr
            (record { signer = some key; encoded = some (P.pem_encode block) })
            w)
  unfolding sign_request certificate_request
  sign_request-Fits k csr f key block s w same drawn encoded =
      let r = certificate_request P k csr in
      elim (Option-cases (P.create_certificate_request r (some key) w.server).0.err) [
        | inr (e, bad) ↦ rw bad (
            inr (
              key,
              w.server,
              r,
              subst (λ g. Draws g s key w.server) (sym same) drawn,
              refl,
              refl,
              rw bad refl,
            ))
        | inl fine ↦ rw fine (record {
          key = key;
          after = w.server;
          drawn = subst (λ g. Draws g s key w.server) (sym same) drawn;
          block = block;
          encoded = subst (λ g. IsBlock g key block) (sym same) encoded;
          stored = refl;
          template = r;
          common_name = refl;
          algorithm = refl;
          taken = fine;
          signed = refl;
        })
      ]

  marshalled : (o : Option String) → is_some o ≡ true → (t : String) × (o ≡ some t)
  marshalled none h = cc
  marshalled (some t) h = (t, refl)

  module _ (works : KeysWork P) where
    key_and_request-Fits :
        (k : Kubeconfig) (csr : CertificateSigningRequest) (c : KeyCase) (w : World P.State)
        → family (parse_signature_algorithm csr.signature_algorithm) ≡ key_family c
        → Ends
            (Fits k (parse_signature_algorithm csr.signature_algorithm) w.server)
            (λ _ _. ⊥)
            (key_and_request P k csr c w)
    unfolding key_and_request create_rsa_key create_ecdsa_key create_ed25519_key encode_key
        sign_request certificate_request
    key_and_request-Fits k csr rsa_case w same =
        let m = marshalled _ (works.pkcs1 (P.rsa_generate_key 4096 w.server).0) in
        rw m.1 (
          sign_request-Fits k csr rsa _ (record { type = "RSA PRIVATE KEY"; bytes = m.0 }) w.server
            _ same refl (refl, m.1))
    key_and_request-Fits k csr ecdsa_case w same =
        let m = marshalled _ (works.ec (P.ecdsa_generate_key "P-521" w.server).0) in
        rw m.1 (
          sign_request-Fits k csr ecdsa _ (record { type = "EC PRIVATE KEY"; bytes = m.0 }) w.server
            _ same refl (refl, m.1))
    key_and_request-Fits k csr ed25519_case w same =
        let m = marshalled _ (works.pkcs8 (P.ed25519_generate_key w.server).0) in
        rw m.1 (
          sign_request-Fits k csr ed25519 _ (record { type = "PRIVATE KEY"; bytes = m.0 }) w.server
            _ same refl (refl, m.1))
    key_and_request-Fits k csr unsupported_case w same = inl same
    key_and_request-Fits k csr no_case w same =
        let r = certificate_request P k csr in
        elim (Option-cases (P.create_certificate_request r none w.server).0.err) [
          | inr (e, bad) ↦ rw bad (inl same)
          | inl fine ↦ cc (rw fine at (works.no_key r w.server))
        ]

    -- Let generated keys be marshalled without a panic, and X.509 sign no request without a key. For a
    -- Kubeconfig with request parameters of any algorithm, known or not, `createCSR` gives buffers or an
    -- error. The buffers hold a PEM block of a freshly drawn private key of the type that the X.509 algorithm
    -- needs, and of a request for the user, naming this algorithm, that X.509 has signed with this very key.
    -- An error is given only if the algorithm is unknown to X.509, or X.509 did not sign that request.
    pub create_csr-Fits :
        (k : Kubeconfig) (csr : CertificateSigningRequest) (w : World P.State)
        → k.spec.csr ≡ some csr
        → Ends
            (Fits k (parse_signature_algorithm csr.signature_algorithm) w.server)
            (λ _ _. ⊥)
            (create_csr P k w)
    unfolding create_csr
    create_csr-Fits k csr w given = rw given (
        key_and_request-Fits _ csr (key_case csr.signature_algorithm) w
          (family-key_case csr.signature_algorithm))
