-- ===== src/K8s.antt =====
-- The Kubernetes object types that the operator's Go code uses, with the fields that it uses: a
-- vocabulary without behaviour. Texts and byte slices are `String`; a slice or a map that the code
-- tells apart from nil is an `Option`.
use kubeconfig_operator.Base.{ℕ, String, Bool, Option, List}
use kubeconfig_operator.Base.Dict.{Dict}

pub record NamespacedName : Type 0 where
  pub namespace : String
  pub name : String

-- A Go error: what `Error()` prints, and the reason that the API machinery attaches ("" if none).
pub record Error : Type 0 where
  pub message : String
  pub reason : String

pub record OwnerReference : Type 0 where
  pub api_version : String
  pub kind : String
  pub name : String

pub record ObjectMeta : Type 0 where
  pub name : String
  pub namespace : String
  pub labels : Dict String
  pub annotations : Dict String
  pub owner_references : List OwnerReference

-- `metav1.Condition`; the zero time is `none`.
pub record Condition : Type 0 where
  pub type : String
  pub status : String
  pub last_transition_time : Option ℕ
  pub reason : String
  pub message : String

pub record Secret : Type 0 where
  pub meta : ObjectMeta
  pub type : String
  pub content : Option (Dict String)
  pub string_content : Dict String

pub record ConfigMap : Type 0 where
  pub meta : ObjectMeta
  pub content : Dict String

-- `certificatesv1.CertificateSigningRequestCondition`.
pub record CsrCondition : Type 0 where
  pub type : String
  pub status : String
  pub reason : String
  pub message : String
  pub last_transition_time : Option ℕ

-- `certificatesv1.CertificateSigningRequest`, its spec and its status.
pub record CsrObject : Type 0 where
  pub meta : ObjectMeta
  pub request : String
  pub signer_name : String
  pub usages : List String
  pub conditions : List CsrCondition
  pub certificate : String

pub record RoleRef : Type 0 where
  pub api_group : String
  pub kind : String
  pub name : String

pub record Subject : Type 0 where
  pub kind : String
  pub api_group : String
  pub name : String

pub record ClusterRoleBinding : Type 0 where
  pub meta : ObjectMeta
  pub subjects : List Subject
  pub role_ref : RoleRef

-- `ctrl.Result`, with the delay in seconds.
pub record Result : Type 0 where
  pub requeue : Bool
  pub requeue_after : ℕ

-- What a call that fills an object leaves behind: the object, and the error (nil is `none`).
pub record Reply (A : Type 0) : Type 0 where
  pub object : A
  pub err : Option Error

-- The pair of a result and an error that a Go function returns: one of the two counts.
pub data Fallible (A : Type 0) : Type 0 where
  ok : A → Fallible A
  failed : Error → Fallible A

-- `errors.New`.
abbrev pub new_error : String → Error
new_error m = record { message = m; reason = "" }
