-- ===== src/Tests/Admission.antt =====
-- The webhook, the configuration file and the condition lists on examples.
use kubeconfig_operator.Base.{String, none, some, true, ◌≡◌, ◌↔◌, refl, map, is_some, arith}
use kubeconfig_operator.K8s.{Condition}
use kubeconfig_operator.Api.Types.{
  Kubeconfig, CertificateSigningRequest, ecdsa_with_sha256, no_additional_fields,
}
use kubeconfig_operator.Api.Webhook.{default, default_role_ref, validate_update}
use kubeconfig_operator.Api.Webhook.Blocks.{defaulted_types, contains}
use kubeconfig_operator.Api.Webhook.Defaults.{HasDefaults, default_again}
use kubeconfig_operator.Api.Webhook.Immutable.{validate_update_iff, validate_update-default}
use kubeconfig_operator.Utils.{cluster_endpoint}
use kubeconfig_operator.Effects.{Run, value, returned, panicked, end_world}
use kubeconfig_operator.Effects.Ends.{Ends}
use kubeconfig_operator.Controllers.Csr.{
  certificate_approved, certificate_denied, certificate_failed, approved_condition,
  get_cert_approval_condition, set_status_condition,
}
use kubeconfig_operator.Controllers.Csr.Conditions.{
  Upserted, has_type, get_cert_approval_condition-has_type, set_status_condition-Upserted,
}
use kubeconfig_operator.Controllers.Keys.{parse_signature_algorithm, create_csr}
use kubeconfig_operator.Controllers.Keys.Families.{Fits, create_csr-Fits}
use kubeconfig_operator.Tests.Laws.{platform-KeysWork}
use kubeconfig_operator.Tests.Cluster.{platform, plain, sample, fresh, issued_csr, Store}

-- The object that the webhook leaves, and the world.
abbrev value_or : Kubeconfig → Run Store Kubeconfig → Kubeconfig
value_or d (value k w) = k
value_or d (returned r e w) = d
value_or d (panicked w) = d

-- A Kubeconfig that has been admitted before.
abbrev pending : String → Condition
pending t = record {
  type = t;
  status = "Unknown";
  last_transition_time = some 3;
  reason = "Unknown";
  message = "n/a";
}

abbrev settled : Kubeconfig
settled = record sample {
  status = record (sample.status) { status = "Pending"; conditions = map pending defaulted_types };
}

settled-HasDefaults : HasDefaults platform settled
settled-HasDefaults = record {
  cluster = record { name = "kubernetes"; server = "https://10.0.0.1:6443" };
  has_cluster = refl;
  name_set = refl;
  role_ref = default_role_ref;
  has_role_ref = refl;
  csr = record {
    signature_algorithm = ecdsa_with_sha256;
    additional_fields = no_additional_fields;
  };
  has_csr = refl;
  algorithm_set = refl;
  pending = refl;
}

settled_knows :
    (t : String)
    → contains defaulted_types t ≡ true
    → is_some (platform.find_status_condition settled.status.conditions t) ≡ true
settled_knows t h = ground arith

default_again_example : default platform settled fresh ≡ value settled fresh
unfolding settled-HasDefaults
default_again_example = default_again platform settled fresh settled-HasDefaults refl settled_knows

default-admitted :
    default platform plain fresh
    ≡ value
        (value_or plain (default platform plain fresh))
        (end_world (default platform plain fresh))
unfolding default cluster_endpoint
default-admitted = refl

validate_update-default_example :
    validate_update platform
      (value_or plain (default platform plain fresh))
      (value_or plain (default platform plain fresh))
    ≡ none
validate_update-default_example =
    validate_update-default platform plain (value_or plain (default platform plain fresh))
      (value_or plain (default platform plain fresh)) fresh
      (end_world (default platform plain fresh)) fresh (end_world (default platform plain fresh))
      default-admitted default-admitted

validate_update_iff_example :
    (validate_update platform plain sample ≡ none)
    ↔ ((plain.spec.existing_csr ≡ sample.spec.existing_csr) × (plain.spec.csr ≡ sample.spec.csr))
validate_update_iff_example = validate_update_iff platform plain sample

get_cert_approval_condition-has_type_example :
    get_cert_approval_condition issued_csr.conditions ≡ record {
      approved = has_type certificate_approved issued_csr.conditions;
      denied = has_type certificate_denied issued_csr.conditions;
      failed = has_type certificate_failed issued_csr.conditions;
    }
get_cert_approval_condition-has_type_example =
    get_cert_approval_condition-has_type issued_csr.conditions

set_status_condition-Upserted_example :
    Ends
      (Upserted issued_csr.conditions approved_condition fresh)
      (λ _ _. ⊥)
      (set_status_condition platform issued_csr.conditions approved_condition fresh)
set_status_condition-Upserted_example =
    set_status_condition-Upserted platform issued_csr.conditions approved_condition fresh

abbrev elliptic : CertificateSigningRequest
elliptic = record {
  signature_algorithm = ecdsa_with_sha256;
  additional_fields = no_additional_fields;
}

create_csr-Fits_example :
    Ends
      (Fits platform sample (parse_signature_algorithm elliptic.signature_algorithm) fresh.server)
      (λ _ _. ⊥)
      (create_csr platform sample fresh)
create_csr-Fits_example = create_csr-Fits platform platform-KeysWork sample elliptic fresh refl
