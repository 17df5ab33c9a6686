-- ===== src/Api/DeepCopy/Shapes.antt =====
-- What a cell has of each type.
use kubeconfig_operator.Base.{String, none, some, List}
use kubeconfig_operator.K8s.{RoleRef}
use kubeconfig_operator.Api.Types.{SecretRef, CsrRef, Cluster}
use kubeconfig_operator.Api.Memory.{
  Foreign, FieldsStruct, CsrStruct, SpecStruct, StatusStruct, KubeconfigStruct, ListStruct,
  ReferenceStruct, Shape, text, secret_ref, csr_ref, cluster, role_ref, fields, csr, spec, status,
  reference, kubeconfig, kubeconfig_list, texts, conditions, kubeconfigs,
}

module _ {F : Foreign} where
  abbrev pub text_shape : Shape F String
  text_shape = record { wrap = text; unwrap = λ c. elim c [ text a ↦ some a | _ ↦ none ] }

  abbrev pub secret_ref_shape : Shape F SecretRef
  secret_ref_shape = record {
    wrap = secret_ref;
    unwrap = λ c. elim c [ secret_ref a ↦ some a | _ ↦ none ];
  }

  abbrev pub csr_ref_shape : Shape F CsrRef
  csr_ref_shape = record { wrap = csr_ref; unwrap = λ c. elim c [ csr_ref a ↦ some a | _ ↦ none ] }

  abbrev pub cluster_shape : Shape F Cluster
  cluster_shape = record { wrap = cluster; unwrap = λ c. elim c [ cluster a ↦ some a | _ ↦ none ] }

  abbrev pub role_ref_shape : Shape F RoleRef
  role_ref_shape = record {
    wrap = role_ref;
    unwrap = λ c. elim c [ role_ref a ↦ some a | _ ↦ none ];
  }

  abbrev pub fields_shape : Shape F FieldsStruct
  fields_shape = record { wrap = fields; unwrap = λ c. elim c [ fields a ↦ some a | _ ↦ none ] }

  abbrev pub csr_shape : Shape F CsrStruct
  csr_shape = record { wrap = csr; unwrap = λ c. elim c [ csr a ↦ some a | _ ↦ none ] }

  abbrev pub spec_shape : Shape F SpecStruct
  spec_shape = record { wrap = spec; unwrap = λ c. elim c [ spec a ↦ some a | _ ↦ none ] }

  abbrev pub status_shape : Shape F StatusStruct
  status_shape = record { wrap = status; unwrap = λ c. elim c [ status a ↦ some a | _ ↦ none ] }

  abbrev pub reference_shape : Shape F ReferenceStruct
  reference_shape = record {
    wrap = reference;
    unwrap = λ c. elim c [ reference a ↦ some a | _ ↦ none ];
  }

  abbrev pub kubeconfig_shape : Shape F (KubeconfigStruct F)
  kubeconfig_shape = record {
    wrap = kubeconfig;
    unwrap = λ c. elim c [ kubeconfig a ↦ some a | _ ↦ none ];
  }

  abbrev pub kubeconfig_list_shape : Shape F (ListStruct F)
  kubeconfig_list_shape = record {
    wrap = kubeconfig_list;
    unwrap = λ c. elim c [ kubeconfig_list a ↦ some a | _ ↦ none ];
  }

  abbrev pub texts_shape : Shape F (List String)
  texts_shape = record { wrap = texts; unwrap = λ c. elim c [ texts a ↦ some a | _ ↦ none ] }

  abbrev pub conditions_shape : Shape F (List F.Condition)
  conditions_shape = record {
    wrap = conditions;
    unwrap = λ c. elim c [ conditions a ↦ some a | _ ↦ none ];
  }

  abbrev pub kubeconfigs_shape : Shape F (List (KubeconfigStruct F))
  kubeconfigs_shape = record {
    wrap = kubeconfigs;
    unwrap = λ c. elim c [ kubeconfigs a ↦ some a | _ ↦ none ];
  }
