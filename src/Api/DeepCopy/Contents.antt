-- ===== src/Api/DeepCopy/Contents.antt =====
-- What the structs of api/v1alpha1 hold, as values without pointers.
use kubeconfig_operator.Base.{List, ◌≡◌}
use kubeconfig_operator.K8s.{ObjectMeta, Condition}
use kubeconfig_operator.Api.Types.{
  CertificateSigningRequestAdditionalFields, CertificateSigningRequest, KubeconfigSpec,
  KubeconfigStatus, Kubeconfig, SecretObjectReference,
}
use kubeconfig_operator.Api.Memory.{
  Foreign, TypeMeta, FieldsStruct, CsrStruct, SpecStruct, StatusStruct, KubeconfigStruct,
  ListStruct, ReferenceStruct, Memory,
}
use kubeconfig_operator.Api.DeepCopy.{Library}
use kubeconfig_operator.Api.DeepCopy.Shapes.{
  text_shape, secret_ref_shape, cluster_shape, role_ref_shape, csr_shape, texts_shape,
  conditions_shape, kubeconfigs_shape,
}
use kubeconfig_operator.Api.DeepCopy.Rules.{IsDeep, Equals}
use kubeconfig_operator.Api.DeepCopy.Pointers.{PointsTo, SliceHas}

-- A Kubeconfig with its kind and version.
pub record TypedKubeconfig : Type 0 where
  pub type_meta : TypeMeta
  pub kubeconfig : Kubeconfig

-- `KubeconfigList`, with any content for the metadata of lists.
pub record KubeconfigList (N : Type 0) : Type 0 where
  pub type_meta : TypeMeta
  pub list_meta : N
  pub items : List TypedKubeconfig

module _ {F : Foreign} where
  pub record FieldsHas (s : FieldsStruct) (m : Memory F)
      (v : CertificateSigningRequestAdditionalFields) : Type 0 where
    pub country : PointsTo texts_shape Equals s.country m v.country
    pub province : PointsTo texts_shape Equals s.province m v.province
    pub locality : PointsTo texts_shape Equals s.locality m v.locality
    pub organization : PointsTo texts_shape Equals s.organization m v.organization
    pub organizational_unit :
        PointsTo texts_shape Equals s.organizational_unit m v.organizational_unit

  pub record CsrHas (s : CsrStruct) (m : Memory F) (v : CertificateSigningRequest) : Type 0 where
    pub signature_algorithm : s.signature_algorithm ≡ v.signature_algorithm
    pub additional_fields : FieldsHas s.additional_fields m v.additional_fields

  pub record SpecHas (s : SpecStruct) (m : Memory F) (v : KubeconfigSpec) : Type 0 where
    pub username : s.username ≡ v.username
    pub existing_csr : PointsTo secret_ref_shape Equals s.existing_csr m v.existing_csr
    pub auto_approve_csr : s.auto_approve_csr ≡ v.auto_approve_csr
    pub csr : PointsTo csr_shape CsrHas s.csr m v.csr
    pub cluster : PointsTo cluster_shape Equals s.cluster m v.cluster
    pub role_ref : PointsTo role_ref_shape Equals s.role_ref m v.role_ref

  pub record ReferenceHas (s : ReferenceStruct) (m : Memory F) (v : SecretObjectReference)
      : Type 0 where
    pub group : PointsTo text_shape Equals s.group m v.group
    pub kind : PointsTo text_shape Equals s.kind m v.kind
    pub name : s.name ≡ v.name
    pub namespace : PointsTo text_shape Equals s.namespace m v.namespace

-- The copies of apimachinery are deep: of the contents that `ObjectMetaHas` and the others name.
pub record LibraryLaws {F : Foreign} (L : Library F) : Type 1 where
  pub ListMeta : Type 0
  pub ObjectMetaHas : F.ObjectMeta → Memory F → ObjectMeta → Type 0
  pub ListMetaHas : F.ListMeta → Memory F → ListMeta → Type 0
  pub ConditionHas : F.Condition → Memory F → Condition → Type 0
  pub object_meta : IsDeep ObjectMetaHas L.object_meta_into
  pub list_meta : IsDeep ListMetaHas L.list_meta_into
  pub condition : IsDeep ConditionHas L.condition_into

module _ {F : Foreign} {L : Library F} (W : LibraryLaws L) where
  pub record StatusHas (s : StatusStruct) (m : Memory F) (v : KubeconfigStatus) : Type 0 where
    pub user_secret : s.user_secret ≡ v.user_secret
    pub csr : s.csr ≡ v.csr
    pub conditions : SliceHas conditions_shape W.ConditionHas s.conditions m v.conditions
    pub kubeconfig : s.kubeconfig ≡ v.kubeconfig
    pub status : s.status ≡ v.status

  pub record KubeconfigHas (s : KubeconfigStruct F) (m : Memory F) (v : TypedKubeconfig)
      : Type 0 where
    pub type_meta : s.type_meta ≡ v.type_meta
    pub object_meta : W.ObjectMetaHas s.object_meta m v.kubeconfig.meta
    pub spec : SpecHas s.spec m v.kubeconfig.spec
    pub status : StatusHas s.status m v.kubeconfig.status

  pub record ListHas (s : ListStruct F) (m : Memory F) (v : KubeconfigList W.ListMeta)
      : Type 0 where
    pub type_meta : s.type_meta ≡ v.type_meta
    pub list_meta : W.ListMetaHas s.list_meta m v.list_meta
    pub items : SliceHas kubeconfigs_shape KubeconfigHas s.items m v.items
