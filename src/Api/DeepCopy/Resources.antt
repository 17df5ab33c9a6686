-- ===== src/Api/DeepCopy/Resources.antt =====
-- The status, a Kubeconfig and a list of them are copied deeply.
use kubeconfig_operator.Base.{refl}
use kubeconfig_operator.Api.Types.{KubeconfigStatus}
use kubeconfig_operator.Api.Memory.{Foreign, StatusStruct, KubeconfigStruct, ListStruct, Memory}
use kubeconfig_operator.Api.DeepCopy.{
  copy_pointer, copy_each, Library, status_into, kubeconfig_into, list_into,
}
use kubeconfig_operator.Api.DeepCopy.Shapes.{conditions_shape, kubeconfigs_shape}
use kubeconfig_operator.Api.DeepCopy.Rules.{Keeps, Keeps-refl, Deep, Yields, IsDeep, field}
use kubeconfig_operator.Api.DeepCopy.Pointers.{SliceHas, SliceHas-IsDeep}
use kubeconfig_operator.Api.DeepCopy.Contents.{
  TypedKubeconfig, KubeconfigList, LibraryLaws, StatusHas, KubeconfigHas, ListHas,
}
use kubeconfig_operator.Api.DeepCopy.Structs.{SpecHas-IsDeep}

module _ {F : Foreign} {L : Library F} (W : LibraryLaws L) where
  conditions-IsDeep :
      IsDeep
        (SliceHas conditions_shape W.ConditionHas)
        (copy_pointer conditions_shape (copy_each L.condition_into))
  conditions-IsDeep =
      SliceHas-IsDeep conditions_shape (λ _. refl) W.ConditionHas L.condition_into W.condition

  StatusHas-frame :
      (s : StatusStruct) (v : KubeconfigStatus) (m n : Memory F)
      → StatusHas W s m v
      → Keeps m n
      → StatusHas W s n v
  StatusHas-frame s v m n h k = record {
    user_secret = h.user_secret;
    csr = h.csr;
    conditions = conditions-IsDeep.frame s.conditions v.conditions m n h.conditions k;
    kubeconfig = h.kubeconfig;
    status = h.status;
  }

  StatusHas-Deep :
      (s : StatusStruct) (v : KubeconfigStatus) (m : Memory F)
      → StatusHas W s m v
      → Yields m (λ t n. Deep m.next (StatusHas W) t n v) (status_into L s m)
  unfolding status_into
  StatusHas-Deep s v m h =
      field conditions-IsDeep s.conditions v.conditions m m _ _ (Keeps-refl m) h.conditions
        λ b0 m0 k0. (
          Keeps-refl m0,
          λ d0 n g. record {
            user_secret = h.user_secret;
            csr = h.csr;
            conditions = d0 n g;
            kubeconfig = h.kubeconfig;
            status = h.status;
          },
        )

  pub StatusHas-IsDeep : IsDeep (StatusHas W) (status_into L)
  StatusHas-IsDeep = record { frame = StatusHas-frame; deep = StatusHas-Deep }

  KubeconfigHas-frame :
      (s : KubeconfigStruct F) (v : TypedKubeconfig) (m n : Memory F)
      → KubeconfigHas W s m v
      → Keeps m n
      → KubeconfigHas W s n v
  KubeconfigHas-frame s v m n h k = record {
    type_meta = h.type_meta;
    object_meta = W.object_meta.frame s.object_meta v.kubeconfig.meta m n h.object_meta k;
    spec = SpecHas-IsDeep.frame s.spec v.kubeconfig.spec m n h.spec k;
    status = StatusHas-IsDeep.frame s.status v.kubeconfig.status m n h.status k;
  }

  KubeconfigHas-Deep :
      (s : KubeconfigStruct F) (v : TypedKubeconfig) (m : Memory F)
      → KubeconfigHas W s m v
      → Yields m (λ t n. Deep m.next (KubeconfigHas W) t n v) (kubeconfig_into L s m)
  unfolding kubeconfig_into
  KubeconfigHas-Deep s v m h =
      field W.object_meta s.object_meta v.kubeconfig.meta m m _ _ (Keeps-refl m) h.object_meta
        λ b0 m0 k0. field SpecHas-IsDeep s.spec v.kubeconfig.spec m m0 _ _ k0 h.spec λ b1 m1 k1.
          field StatusHas-IsDeep s.status v.kubeconfig.status m m1 _ _ k1 h.status λ b2 m2 k2. (
            Keeps-refl m2,
            λ d2 d1 d0 n g. record {
              type_meta = h.type_meta;
              object_meta = d0 n g;
              spec = d1 n g;
              status = d2 n g;
            },
          )

  pub KubeconfigHas-IsDeep : IsDeep (KubeconfigHas W) (kubeconfig_into L)
  KubeconfigHas-IsDeep = record { frame = KubeconfigHas-frame; deep = KubeconfigHas-Deep }

  kubeconfigs-IsDeep :
      IsDeep
        (SliceHas kubeconfigs_shape (KubeconfigHas W))
        (copy_pointer kubeconfigs_shape (copy_each (kubeconfig_into L)))
  kubeconfigs-IsDeep =
      SliceHas-IsDeep kubeconfigs_shape (λ _. refl) (KubeconfigHas W) (kubeconfig_into L)
        KubeconfigHas-IsDeep

  ListHas-frame :
      (s : ListStruct F) (v : KubeconfigList W.ListMeta) (m n : Memory F)
      → ListHas W s m v
      → Keeps m n
      → ListHas W s n v
  ListHas-frame s v m n h k = record {
    type_meta = h.type_meta;
    list_meta = W.list_meta.frame s.list_meta v.list_meta m n h.list_meta k;
    items = kubeconfigs-IsDeep.frame s.items v.items m n h.items k;
  }

  ListHas-Deep :
      (s : ListStruct F) (v : KubeconfigList W.ListMeta) (m : Memory F)
      → ListHas W s m v
      → Yields m (λ t n. Deep m.next (ListHas W) t n v) (list_into L s m)
  unfolding list_into
  ListHas-Deep s v m h =
      field W.list_meta s.list_meta v.list_meta m m _ _ (Keeps-refl m) h.list_meta λ b0 m0 k0.
        field kubeconfigs-IsDeep s.items v.items m m0 _ _ k0 h.items λ b1 m1 k1. (
          Keeps-refl m1,
          λ d1 d0 n g. record { type_meta = h.type_meta; list_meta = d0 n g; items = d1 n g },
        )

  pub ListHas-IsDeep : IsDeep (ListHas W) (list_into L)
  ListHas-IsDeep = record { frame = ListHas-frame; deep = ListHas-Deep }
