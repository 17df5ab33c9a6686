-- ===== src/Api/Types.antt =====
-- api/v1alpha1/kubeconfig_types.go: the custom resource. A pointer is an `Option`, and a slice
-- that may be nil an `Option` of a list.
use kubeconfig_operator.Base.{String, Bool, Option, none, List}
use kubeconfig_operator.K8s.{ObjectMeta, Condition, RoleRef}

pub record SecretRef : Type 0 where
  pub name : String
  pub namespace : String

pub record CsrRef : Type 0 where
  pub name : String

pub record Cluster : Type 0 where
  pub name : String
  pub server : String

-- A text type in the source, whose values are the constants below.
abbrev pub SignatureAlgorithm : Type 0
SignatureAlgorithm = String

abbrev pub unknown_signature_algorithm : SignatureAlgorithm
unknown_signature_algorithm = "Unknown"

abbrev pub sha256_with_rsa : SignatureAlgorithm
sha256_with_rsa = "SHA256WithRSA"

abbrev pub sha384_with_rsa : SignatureAlgorithm
sha384_with_rsa = "SHA384WithRSA"

abbrev pub sha512_with_rsa : SignatureAlgorithm
sha512_with_rsa = "SHA512WithRSA"

abbrev pub ecdsa_with_sha256 : SignatureAlgorithm
ecdsa_with_sha256 = "ECDSAWithSHA256"

abbrev pub ecdsa_with_sha384 : SignatureAlgorithm
ecdsa_with_sha384 = "ECDSAWithSHA384"

abbrev pub ecdsa_with_sha512 : SignatureAlgorithm
ecdsa_with_sha512 = "ECDSAWithSHA512"

abbrev pub sha256_with_rsapss : SignatureAlgorithm
sha256_with_rsapss = "SHA256WithRSAPSS"

abbrev pub sha384_with_rsapss : SignatureAlgorithm
sha384_with_rsapss = "SHA384WithRSAPSS"

abbrev pub sha512_with_rsapss : SignatureAlgorithm
sha512_with_rsapss = "SHA512WithRSAPSS"

abbrev pub pure_ed25519 : SignatureAlgorithm
pure_ed25519 = "PureEd25519"

pub record CertificateSigningRequestAdditionalFields : Type 0 where
  pub country : Option (List String)
  pub province : Option (List String)
  pub locality : Option (List String)
  pub organization : Option (List String)
  pub organizational_unit : Option (List String)

-- The zero value: every slice is nil.
abbrev pub no_additional_fields : CertificateSigningRequestAdditionalFields
no_additional_fields = record {
  country = none;
  province = none;
  locality = none;
  organization = none;
  organizational_unit = none;
}

pub record CertificateSigningRequest : Type 0 where
  pub signature_algorithm : SignatureAlgorithm
  pub additional_fields : CertificateSigningRequestAdditionalFields

pub record KubeconfigSpec : Type 0 where
  pub username : String
  pub existing_csr : Option SecretRef
  pub auto_approve_csr : Bool
  pub csr : Option CertificateSigningRequest
  pub cluster : Option Cluster
  pub role_ref : Option RoleRef

pub record KubeconfigStatus : Type 0 where
  pub user_secret : SecretRef
  pub csr : CsrRef
  pub conditions : List Condition
  pub kubeconfig : String
  pub status : String

pub record Kubeconfig : Type 0 where
  pub meta : ObjectMeta
  pub spec : KubeconfigSpec
  pub status : KubeconfigStatus

-- api/v1alpha1/object_reference_types.go: a reference that no other code of the repository uses.
pub record SecretObjectReference : Type 0 where
  pub group : Option String
  pub kind : Option String
  pub name : String
  pub namespace : Option String
