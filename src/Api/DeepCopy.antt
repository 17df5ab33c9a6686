-- ===== src/Api/DeepCopy.antt =====
-- api/v1alpha1/zz_generated.deepcopy.go: `DeepCopyInto` gives the struct that is written to `out`;
-- `DeepCopy` follows a pointer and gives one to a new object.
pub mod Shapes
pub mod Rules
pub mod Pointers
pub mod Contents
mod Structs
mod Resources
pub mod Independence
use kubeconfig_operator.Base.{ℕ, Option, none, some, List, [], ◌∷◌, String}
use kubeconfig_operator.Api.Types.{SecretRef, CsrRef, Cluster}
use kubeconfig_operator.Api.Memory.{
  Foreign, FieldsStruct, CsrStruct, SpecStruct, StatusStruct, KubeconfigStruct, ListStruct,
  ReferenceStruct, Pointer, Shape, M, pure, ◌>>=◌, ◌>>◌, load, alloc, store,
}
use Shapes.*

-- The functions of apimachinery that the generated ones call.
pub record Library (F : Foreign) : Type 0 where
  pub object_meta_into : F.ObjectMeta → M F F.ObjectMeta
  pub list_meta_into : F.ListMeta → M F F.ListMeta
  pub condition_into : F.Condition → M F F.Condition

-- `runtime.Object`: a pointer with its type, or nil.
pub data Object : Type 0 where
  kubeconfig_object list_object : ℕ → Object

abbrev pub as_object : (ℕ → Object) → Pointer → Option Object
as_object f none = none
as_object f (some p) = some (f p)

module _ {F : Foreign} where
  -- `out := new(T); in.DeepCopyInto(out)`, unless `in` is nil. `DeepCopyInto` begins with `*out = *in`.
  unfoldable pub copy_pointer : {A : Type 0} → Shape F A → (A → M F A) → Pointer → M F Pointer
  copy_pointer S into none = pure none
  copy_pointer S into (some p) = do
    a ← load S p
    q ← alloc S a
    b ← into a
    store S q b
    pure (some q)

  -- `for i := range *in { (*in)[i].DeepCopyInto(&(*out)[i]) }`.
  unfoldable pub copy_each : {A : Type 0} → (A → M F A) → List A → M F (List A)
  copy_each into [] = pure []
  copy_each into (a ∷ rest) = do b ← into a; bs ← copy_each into rest; pure (b ∷ bs)

  -- `make` and `copy` for a slice of texts that is not nil.
  abbrev pub copy_texts : Pointer → M F Pointer
  copy_texts = copy_pointer texts_shape pure

  abbrev pub secret_ref_into : SecretRef → M F SecretRef
  secret_ref_into = pure

  abbrev pub csr_ref_into : CsrRef → M F CsrRef
  csr_ref_into = pure

  abbrev pub cluster_into : Cluster → M F Cluster
  cluster_into = pure

  unfoldable pub fields_into : FieldsStruct → M F FieldsStruct
  fields_into f = do
    country ← copy_texts f.country
    province ← copy_texts f.province
    locality ← copy_texts f.locality
    organization ← copy_texts f.organization
    organizational_unit ← copy_texts f.organizational_unit
    pure (record f {
      country = country;
      province = province;
      locality = locality;
      organization = organization;
      organizational_unit = organizational_unit;
    })

  unfoldable pub csr_into : CsrStruct → M F CsrStruct
  csr_into c = do
    additional_fields ← fields_into c.additional_fields
    pure (record c { additional_fields = additional_fields })

  unfoldable pub spec_into : SpecStruct → M F SpecStruct
  spec_into s = do
    existing_csr ← copy_pointer secret_ref_shape pure s.existing_csr
    csr ← copy_pointer csr_shape csr_into s.csr
    cluster ← copy_pointer cluster_shape pure s.cluster
    role_ref ← copy_pointer role_ref_shape pure s.role_ref
    pure (record s {
      existing_csr = existing_csr;
      csr = csr;
      cluster = cluster;
      role_ref = role_ref;
    })

  unfoldable pub reference_into : ReferenceStruct → M F ReferenceStruct
  reference_into r = do
    group ← copy_pointer text_shape pure r.group
    kind ← copy_pointer text_shape pure r.kind
    namespace ← copy_pointer text_shape pure r.namespace
    pure (record r { group = group; kind = kind; namespace = namespace })

  abbrev pub secret_ref_copy : Pointer → M F Pointer
  secret_ref_copy = copy_pointer secret_ref_shape secret_ref_into

  abbrev pub csr_ref_copy : Pointer → M F Pointer
  csr_ref_copy = copy_pointer csr_ref_shape csr_ref_into

  abbrev pub cluster_copy : Pointer → M F Pointer
  cluster_copy = copy_pointer cluster_shape cluster_into

  abbrev pub fields_copy : Pointer → M F Pointer
  fields_copy = copy_pointer fields_shape fields_into

  abbrev pub csr_copy : Pointer → M F Pointer
  csr_copy = copy_pointer csr_shape csr_into

  abbrev pub spec_copy : Pointer → M F Pointer
  spec_copy = copy_pointer spec_shape spec_into

  abbrev pub reference_copy : Pointer → M F Pointer
  reference_copy = copy_pointer reference_shape reference_into

  module _ (L : Library F) where
    unfoldable pub status_into : StatusStruct → M F StatusStruct
    status_into s = do
      conditions ← copy_pointer conditions_shape (copy_each L.condition_into) s.conditions
      pure (record s { conditions = conditions })

    unfoldable pub kubeconfig_into : KubeconfigStruct F → M F (KubeconfigStruct F)
    kubeconfig_into k = do
      object_meta ← L.object_meta_into k.object_meta
      spec ← spec_into k.spec
      status ← status_into k.status
      pure (record k { object_meta = object_meta; spec = spec; status = status })

    unfoldable pub list_into : ListStruct F → M F (ListStruct F)
    list_into l = do
      list_meta ← L.list_meta_into l.list_meta
      items ← copy_pointer kubeconfigs_shape (copy_each kubeconfig_into) l.items
      pure (record l { list_meta = list_meta; items = items })

    abbrev pub status_copy : Pointer → M F Pointer
    status_copy = copy_pointer status_shape status_into

    unfoldable pub kubeconfig_copy : Pointer → M F Pointer
    kubeconfig_copy = copy_pointer kubeconfig_shape kubeconfig_into

    unfoldable pub list_copy : Pointer → M F Pointer
    list_copy = copy_pointer kubeconfig_list_shape list_into

    -- `DeepCopyObject`: a nil copy becomes a nil interface.
    unfoldable pub kubeconfig_copy_object : Pointer → M F (Option Object)
    kubeconfig_copy_object p = do c ← kubeconfig_copy p; pure (as_object kubeconfig_object c)

    unfoldable pub list_copy_object : Pointer → M F (Option Object)
    list_copy_object p = do c ← list_copy p; pure (as_object list_object c)
