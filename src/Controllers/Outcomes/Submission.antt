-- ===== src/Controllers/Outcomes/Submission.antt =====
-- A Kubeconfig without a request gets one if the API server takes the writes.
use kubeconfig_operator.Base.{String, true, ◌≡◌, none, some, List, ◌∷◌, is_some, arith}
use kubeconfig_operator.K8s.{Secret, CsrObject, Reply, Fallible, ok, failed}
use kubeconfig_operator.Api.Types.{Kubeconfig, CertificateSigningRequest}
use kubeconfig_operator.Api.Conditions.{phase_awaiting_approval}
use kubeconfig_operator.Platform.{Platform, CertificateRequest}
use kubeconfig_operator.Effects.{Effect, World, event, csr_create, kubeconfig_status_update}
use kubeconfig_operator.Effects.Ends.{Exit, returns, Ends}
use kubeconfig_operator.Controllers.Csr.{finished}
use kubeconfig_operator.Controllers.Keys
use kubeconfig_operator.Controllers.Keys.{
  KeyCase, rsa_case, ecdsa_case, ed25519_case, unsupported_case, no_case, key_case, key_and_request,
  certificate_request, CsrBuffers,
}
use kubeconfig_operator.Controllers.Keys.Total.{KeysWork}
use kubeconfig_operator.Controllers.Resources.{create_csr_object}
use kubeconfig_operator.Controllers.Kubeconfig.Objects.{Objects}

-- X.509 signs with every key, and the API server takes updates of secrets and new requests.
pub record Submits (P : Platform) : Type 0 where
  pub keys : KeysWork P
  pub signs :
      (r : CertificateRequest) (key : P.Signer) (s : P.State)
      → (P.create_certificate_request r (some key) s).0.err ≡ none
  pub secret : (x : Secret) (s : P.State) → (P.update_secret x s).0.err ≡ none
  pub request : (c : CsrObject) (s : P.State) → (P.create_csr c s).0.err ≡ none

-- The switch has a key for the algorithm.
abbrev pub HasKeyType : KeyCase → Type 0
HasKeyType rsa_case = Unit {0}
HasKeyType ecdsa_case = Unit {0}
HasKeyType ed25519_case = Unit {0}
HasKeyType unsupported_case = ⊥
HasKeyType no_case = ⊥

module _ (P : Platform) (submits : Submits P) where
  -- The run returned without error. Its last requests created the request of the Kubeconfig, for
  -- some PEM text, and wrote the phase "Awaiting Approval" with the name of the request.
  pub record IsSubmitted (k : Kubeconfig) (x : Exit) (v : World P.State) : Type 0 where
    pub exit : x ≡ returns finished none
    pub text : String
    pub answer : Reply CsrObject
    pub written : Kubeconfig
    pub reply : Reply Kubeconfig
    pub past : List Effect
    pub effects :
        v.effects
        ≡ kubeconfig_status_update written reply
          ∷ event "Normal" "Created" "Created user secret and CSR for kubeconfig"
          ∷ csr_create (create_csr_object P k text) answer
          ∷ past
    pub phase : written.status.status ≡ phase_awaiting_approval
    pub name : written.status.csr.name ≡ answer.object.meta.name

  abbrev pub Made : Fallible (CsrBuffers P) → World P.State → Type 0
  Made (ok b) w = is_some b.key ≡ true
  Made (failed e) w = ⊥

  key_and_request-Made :
      (k : Kubeconfig) (csr : CertificateSigningRequest) (c : KeyCase) (w : World P.State)
      → HasKeyType c
      → Ends Made (λ _ _. ⊥) (key_and_request P k csr c w)
  unfolding key_and_request
  key_and_request-Made k csr rsa_case w h =
      let key = P.rsa_generate_key 4096 w.server in
      ground
        (arith, submits.keys.pkcs1 key.0, submits.signs (certificate_request P k csr) key.0 key.1)
  key_and_request-Made k csr ecdsa_case w h =
      let key = P.ecdsa_generate_key "P-521" w.server in
      ground (arith, submits.keys.ec key.0, submits.signs (certificate_request P k csr) key.0 key.1)
  key_and_request-Made k csr ed25519_case w h =
      let key = P.ed25519_generate_key w.server in
      ground
        (arith, submits.keys.pkcs8 key.0, submits.signs (certificate_request P k csr) key.0 key.1)
  key_and_request-Made k csr unsupported_case w h = absurd h
  key_and_request-Made k csr no_case w h = absurd h

  abbrev accepted : CsrObject → Reply CsrObject
  accepted c = record { object = c; err = none }

  pub create_csr-Made :
      (k : Kubeconfig) (csr : CertificateSigningRequest) (w : World P.State)
      → k.spec.csr ≡ some csr
      → HasKeyType (key_case csr.signature_algorithm)
      → Ends Made (λ _ _. ⊥) (Keys.create_csr P k w)
  unfolding Keys.create_csr
  create_csr-Made k csr w given h = rw given (key_and_request-Made k csr _ w h)
