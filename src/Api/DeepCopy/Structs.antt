-- ===== src/Api/DeepCopy/Structs.antt =====
-- The structs of the specification, and a reference, are copied deeply, one field after the other.
use kubeconfig_operator.Base.{refl}
use kubeconfig_operator.Api.Types.{
  CertificateSigningRequestAdditionalFields, CertificateSigningRequest, KubeconfigSpec,
  SecretObjectReference,
}
use kubeconfig_operator.Api.Memory.{
  Foreign, FieldsStruct, CsrStruct, SpecStruct, ReferenceStruct, Memory, pure,
}
use kubeconfig_operator.Api.DeepCopy.{
  copy_pointer, fields_into, csr_into, spec_into, reference_into,
}
use kubeconfig_operator.Api.DeepCopy.Shapes.{
  text_shape, secret_ref_shape, cluster_shape, role_ref_shape, csr_shape, texts_shape,
}
use kubeconfig_operator.Api.DeepCopy.Rules.{
  Keeps, Keeps-refl, Deep, Yields, IsDeep, Equals, field, pure-IsDeep,
}
use kubeconfig_operator.Api.DeepCopy.Pointers.{PointsTo, PointsTo-IsDeep}
use kubeconfig_operator.Api.DeepCopy.Contents.{FieldsHas, CsrHas, SpecHas, ReferenceHas}

module _ {F : Foreign} where
  text-IsDeep : IsDeep {F = F} (PointsTo text_shape Equals) (copy_pointer text_shape pure)
  text-IsDeep = PointsTo-IsDeep text_shape (λ _. refl) Equals pure pure-IsDeep

  texts-IsDeep : IsDeep {F = F} (PointsTo texts_shape Equals) (copy_pointer texts_shape pure)
  texts-IsDeep = PointsTo-IsDeep texts_shape (λ _. refl) Equals pure pure-IsDeep

  secret_ref-IsDeep :
      IsDeep {F = F} (PointsTo secret_ref_shape Equals) (copy_pointer secret_ref_shape pure)
  secret_ref-IsDeep = PointsTo-IsDeep secret_ref_shape (λ _. refl) Equals pure pure-IsDeep

  cluster-IsDeep : IsDeep {F = F} (PointsTo cluster_shape Equals) (copy_pointer cluster_shape pure)
  cluster-IsDeep = PointsTo-IsDeep cluster_shape (λ _. refl) Equals pure pure-IsDeep

  role_ref-IsDeep :
      IsDeep {F = F} (PointsTo role_ref_shape Equals) (copy_pointer role_ref_shape pure)
  role_ref-IsDeep = PointsTo-IsDeep role_ref_shape (λ _. refl) Equals pure pure-IsDeep

  FieldsHas-frame :
      (s : FieldsStruct) (v : CertificateSigningRequestAdditionalFields) (m n : Memory F)
      → FieldsHas s m v
      → Keeps m n
      → FieldsHas s n v
  FieldsHas-frame s v m n h k = record {
    country = texts-IsDeep.frame s.country v.country m n h.country k;
    province = texts-IsDeep.frame s.province v.province m n h.province k;
    locality = texts-IsDeep.frame s.locality v.locality m n h.locality k;
    organization = texts-IsDeep.frame s.organization v.organization m n h.organization k;
    organizational_unit =
        texts-IsDeep.frame s.organizational_unit v.organizational_unit m n h.organizational_unit k;
  }

  FieldsHas-Deep :
      (s : FieldsStruct) (v : CertificateSigningRequestAdditionalFields) (m : Memory F)
      → FieldsHas s m v
      → Yields m (λ t n. Deep m.next FieldsHas t n v) (fields_into s m)
  unfolding fields_into
  FieldsHas-Deep s v m h =
      field texts-IsDeep s.country v.country m m _ _ (Keeps-refl m) h.country λ b0 m0 k0.
        field texts-IsDeep s.province v.province m m0 _ _ k0 h.province λ b1 m1 k1.
          field texts-IsDeep s.locality v.locality m m1 _ _ k1 h.locality λ b2 m2 k2.
            field texts-IsDeep s.organization v.organization m m2 _ _ k2 h.organization λ b3 m3 k3.
              field texts-IsDeep s.organizational_unit v.organizational_unit m m3 _ _ k3
                h.organizational_unit
                λ b4 m4 k4. (
                  Keeps-refl m4,
                  λ d4 d3 d2 d1 d0 n g. record {
                    country = d0 n g;
                    province = d1 n g;
                    locality = d2 n g;
                    organization = d3 n g;
                    organizational_unit = d4 n g;
                  },
                )

  pub FieldsHas-IsDeep : IsDeep {F = F} FieldsHas (fields_into)
  FieldsHas-IsDeep = record { frame = FieldsHas-frame; deep = FieldsHas-Deep }

  CsrHas-frame :
      (s : CsrStruct) (v : CertificateSigningRequest) (m n : Memory F)
      → CsrHas s m v
      → Keeps m n
      → CsrHas s n v
  CsrHas-frame s v m n h k = record {
    signature_algorithm = h.signature_algorithm;
    additional_fields =
        FieldsHas-IsDeep.frame s.additional_fields v.additional_fields m n h.additional_fields k;
  }

  CsrHas-Deep :
      (s : CsrStruct) (v : CertificateSigningRequest) (m : Memory F)
      → CsrHas s m v
      → Yields m (λ t n. Deep m.next CsrHas t n v) (csr_into s m)
  unfolding csr_into
  CsrHas-Deep s v m h =
      field FieldsHas-IsDeep s.additional_fields v.additional_fields m m _ _ (Keeps-refl m)
        h.additional_fields
        λ b0 m0 k0. (
          Keeps-refl m0,
          λ d0 n g. record {
            signature_algorithm = h.signature_algorithm;
            additional_fields = d0 n g;
          },
        )

  pub CsrHas-IsDeep : IsDeep {F = F} CsrHas (csr_into)
  CsrHas-IsDeep = record { frame = CsrHas-frame; deep = CsrHas-Deep }

  csr-IsDeep : IsDeep {F = F} (PointsTo csr_shape CsrHas) (copy_pointer csr_shape csr_into)
  csr-IsDeep = PointsTo-IsDeep csr_shape (λ _. refl) CsrHas csr_into CsrHas-IsDeep

  SpecHas-frame :
      (s : SpecStruct) (v : KubeconfigSpec) (m n : Memory F)
      → SpecHas s m v
      → Keeps m n
      → SpecHas s n v
  SpecHas-frame s v m n h k = record {
    username = h.username;
    existing_csr = secret_ref-IsDeep.frame s.existing_csr v.existing_csr m n h.existing_csr k;
    auto_approve_csr = h.auto_approve_csr;
    csr = csr-IsDeep.frame s.csr v.csr m n h.csr k;
    cluster = cluster-IsDeep.frame s.cluster v.cluster m n h.cluster k;
    role_ref = role_ref-IsDeep.frame s.role_ref v.role_ref m n h.role_ref k;
  }

  SpecHas-Deep :
      (s : SpecStruct) (v : KubeconfigSpec) (m : Memory F)
      → SpecHas s m v
      → Yields m (λ t n. Deep m.next SpecHas t n v) (spec_into s m)
  unfolding spec_into
  SpecHas-Deep s v m h =
      field secret_ref-IsDeep s.existing_csr v.existing_csr m m _ _ (Keeps-refl m) h.existing_csr
        λ b0 m0 k0. field csr-IsDeep s.csr v.csr m m0 _ _ k0 h.csr λ b1 m1 k1.
          field cluster-IsDeep s.cluster v.cluster m m1 _ _ k1 h.cluster λ b2 m2 k2.
            field role_ref-IsDeep s.role_ref v.role_ref m m2 _ _ k2 h.role_ref λ b3 m3 k3. (
              Keeps-refl m3,
              λ d3 d2 d1 d0 n g. record {
                username = h.username;
                existing_csr = d0 n g;
                auto_approve_csr = h.auto_approve_csr;
                csr = d1 n g;
                cluster = d2 n g;
                role_ref = d3 n g;
              },
            )

  pub SpecHas-IsDeep : IsDeep {F = F} SpecHas (spec_into)
  SpecHas-IsDeep = record { frame = SpecHas-frame; deep = SpecHas-Deep }

  ReferenceHas-frame :
      (s : ReferenceStruct) (v : SecretObjectReference) (m n : Memory F)
      → ReferenceHas s m v
      → Keeps m n
      → ReferenceHas s n v
  ReferenceHas-frame s v m n h k = record {
    group = text-IsDeep.frame s.group v.group m n h.group k;
    kind = text-IsDeep.frame s.kind v.kind m n h.kind k;
    name = h.name;
    namespace = text-IsDeep.frame s.namespace v.namespace m n h.namespace k;
  }

  ReferenceHas-Deep :
      (s : ReferenceStruct) (v : SecretObjectReference) (m : Memory F)
      → ReferenceHas s m v
      → Yields m (λ t n. Deep m.next ReferenceHas t n v) (reference_into s m)
  unfolding reference_into
  ReferenceHas-Deep s v m h =
      field text-IsDeep s.group v.group m m _ _ (Keeps-refl m) h.group λ b0 m0 k0.
        field text-IsDeep s.kind v.kind m m0 _ _ k0 h.kind λ b1 m1 k1.
          field text-IsDeep s.namespace v.namespace m m1 _ _ k1 h.namespace λ b2 m2 k2. (
            Keeps-refl m2,
            λ d2 d1 d0 n g. record {
              group = d0 n g;
              kind = d1 n g;
              name = h.name;
              namespace = d2 n g;
            },
          )

  pub ReferenceHas-IsDeep : IsDeep {F = F} ReferenceHas (reference_into)
  ReferenceHas-IsDeep = record { frame = ReferenceHas-frame; deep = ReferenceHas-Deep }
