-- ===== src/Platform.antt =====
-- What the operator calls and does not implement: the API server behind the controller-runtime
-- client, the clock, the random source, the condition and ownership helpers of the API machinery,
-- PEM, base64, X.509 and YAML. Every call that depends on or changes the outside is a function of
-- its `State`.
pub mod Laws
use kubeconfig_operator.Base.{String, ℕ, Bool, Option, List}
use kubeconfig_operator.K8s.{
  NamespacedName, Error, ObjectMeta, Condition, Secret, ConfigMap, CsrObject, ClusterRoleBinding,
  Reply,
}
use kubeconfig_operator.Api.Types.{Kubeconfig}
use kubeconfig_operator.Config.{Codec}

-- `x509.SignatureAlgorithm`, as far as the operator names its values.
pub data X509Algorithm : Type 0 where
  unknown : X509Algorithm
  sha256_with_rsa sha384_with_rsa sha512_with_rsa : X509Algorithm
  ecdsa_with_sha256 ecdsa_with_sha384 ecdsa_with_sha512 : X509Algorithm
  sha256_with_rsapss sha384_with_rsapss sha512_with_rsapss : X509Algorithm
  pure_ed25519 : X509Algorithm

-- `pkix.Name` without its extra names, which are always empty.
pub record Name : Type 0 where
  pub common_name : String
  pub country : Option (List String)
  pub province : Option (List String)
  pub locality : Option (List String)
  pub organization : Option (List String)
  pub organizational_unit : Option (List String)

pub record CertificateRequest : Type 0 where
  pub subject : Name
  pub signature_algorithm : X509Algorithm

pub record Block : Type 0 where
  pub type : String
  pub bytes : String

-- `field.Forbidden(path, detail)`.
pub record Forbidden : Type 0 where
  pub path : List String
  pub detail : String

pub record Platform : Type 1 where
  pub State : Type 0
  -- The API server. An object comes back as the call leaves it, also where the call fails.
  pub get_kubeconfig : NamespacedName → State → Reply Kubeconfig × State
  pub get_secret : NamespacedName → State → Reply Secret × State
  pub get_csr : NamespacedName → State → Reply CsrObject × State
  pub get_cluster_role_binding : NamespacedName → State → Reply ClusterRoleBinding × State
  pub get_config_map : NamespacedName → State → Reply ConfigMap × State
  pub create_secret : Secret → State → Reply Secret × State
  pub create_csr : CsrObject → State → Reply CsrObject × State
  pub create_cluster_role_binding : ClusterRoleBinding → State → Reply ClusterRoleBinding × State
  pub update_secret : Secret → State → Reply Secret × State
  pub update_kubeconfig_status : Kubeconfig → State → Reply Kubeconfig × State
  pub update_csr_status : CsrObject → State → Reply CsrObject × State
  pub update_approval : CsrObject → State → Reply CsrObject × State
  -- The clock.
  pub now : State → ℕ × State
  -- k8s.io/apimachinery: `meta.SetStatusCondition` reads the clock, the others are pure.
  pub set_status_condition : List Condition → Condition → State → List Condition × State
  pub find_status_condition : List Condition → String → Option Condition
  pub is_not_found : Option Error → Bool
  pub new_internal_error : Error → Error
  pub new_forbidden : String → String → String → Option Error → Error
  pub to_aggregate : List Forbidden → Option Error
  -- `controllerutil.SetControllerReference`: the metadata of the owner and of the object.
  pub set_controller_reference : ObjectMeta → ObjectMeta → ObjectMeta
  -- Key generation draws from the random source. A marshaller that panics gives `none`.
  pub Signer : Type 0
  pub rsa_generate_key : ℕ → State → Signer × State
  pub ecdsa_generate_key : String → State → Signer × State
  pub ed25519_generate_key : State → Signer × State
  pub marshal_pkcs1_private_key : Signer → Option String
  pub marshal_ec_private_key : Signer → Option String
  pub marshal_pkcs8_private_key : Signer → Option String
  -- The signer is `none` for a nil interface.
  pub create_certificate_request : CertificateRequest → Option Signer → State → Reply String × State
  pub parse_certificate_request : String → Reply CertificateRequest
  pub pem_encode : Block → String
  pub pem_decode : String → Option Block
  pub base64_encode : String → String
  pub codec : Codec
