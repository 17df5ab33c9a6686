-- ===== src/Tests/Cluster.antt =====
-- A cluster in memory: one object of each kind that the operator reads. Writes of the status, of the
-- secret and of the binding are kept; the clock and the random source count up.
use kubeconfig_operator.Base.{
  ℕ, ◌+◌, String, Bool, true, false, get_or, Option, none, some, List, [], ◌∷◌, ◌==◌, ◌<>◌,
  if◌then◌else◌,
}
use kubeconfig_operator.K8s.{
  Error, ObjectMeta, Condition, Secret, CsrObject, ClusterRoleBinding, Reply,
}
use kubeconfig_operator.Api.Types.{Kubeconfig, no_additional_fields, ecdsa_with_sha256}
use kubeconfig_operator.Api.Webhook.{default_role_ref}
use kubeconfig_operator.Config.{SerializedConfig, Codec}
use kubeconfig_operator.Platform.{Platform, CertificateRequest, X509Algorithm}
use kubeconfig_operator.Effects.{World}

pub record Store : Type 0 where
  pub clock : ℕ
  pub kubeconfig : Kubeconfig
  pub secret : Option Secret
  pub csr : Option CsrObject
  pub binding : Option ClusterRoleBinding

abbrev pub not_found : Error
not_found = record { message = "not found"; reason = "NotFound" }

abbrev pub bare_meta : String → ObjectMeta
bare_meta n = record {
  name = n;
  namespace = "";
  labels = [];
  annotations = [];
  owner_references = [];
}

abbrev pub no_secret : Secret
no_secret = record { meta = bare_meta ""; type = ""; content = none; string_content = [] }

abbrev pub no_csr : CsrObject
no_csr = record {
  meta = bare_meta "";
  request = "";
  signer_name = "";
  usages = [];
  conditions = [];
  certificate = "";
}

abbrev pub no_binding : ClusterRoleBinding
no_binding = record { meta = bare_meta ""; subjects = []; role_ref = default_role_ref }

abbrev pub reply_or : {A : Type 0} → A → Option A → Reply A
reply_or d none = record { object = d; err = some not_found }
reply_or d (some a) = record { object = a; err = none }

abbrev fine : {A : Type 0} → A → Reply A
fine a = record { object = a; err = none }

-- A created secret comes back with a data map.
abbrev pub stored_secret : Secret → Secret
stored_secret s = record s { content = some (get_or s.content s.string_content) }

abbrev pub read_secret : Option Secret → Reply Secret
read_secret none = record { object = no_secret; err = some not_found }
read_secret (some s) = fine (stored_secret s)

abbrev tick : Store → Store
tick s = record s { clock = s.clock + 1 }

abbrev pub find_condition : List Condition → String → Option Condition
find_condition [] t = none
find_condition (c ∷ cs) t = if c.type == t then some c else find_condition cs t

abbrev pub set_condition : List Condition → Condition → List Condition
set_condition [] n = n ∷ []
set_condition (c ∷ cs) n = if c.type == n.type then n ∷ cs else c ∷ set_condition cs n

abbrev own : ObjectMeta → ObjectMeta → ObjectMeta
own owner m = record m {
  owner_references =
      record {
        api_version = "kubeconfig.k8s.zoomoid.dev/v1alpha1";
        kind = "Kubeconfig";
        name = owner.name;
      }
      ∷ m.owner_references;
}

abbrev is_missing : Option Error → Bool
is_missing none = false
is_missing (some e) = e.reason == "NotFound"

-- X.509 signs a request with any key and none without one.
abbrev sign : CertificateRequest → Option ℕ → Reply String
sign r none = record { object = ""; err = some (record { message = "no key"; reason = "" }) }
sign r (some k) = fine r.subject.common_name

abbrev empty_config : SerializedConfig (Unit {0})
empty_config = record {
  meta = record { api_version = "v1"; kind = "Config" };
  preferences = tt;
  current_context = "";
  clusters =
      record {
        name = "";
        cluster = record { certificate_authority = ""; server = "https://10.0.0.1:6443" };
      }
      ∷ [];
  contexts = [];
  users = [];
}

abbrev pub codec : Codec
codec = record {
  Any = Unit {0};
  empty_struct = tt;
  yaml_marshal = λ c. "context: " <> c.current_context;
  yaml_unmarshal = λ text. fine empty_config;
  range = λ V m. m;
}

-- A Kubeconfig as its author writes it, and as the webhook leaves it.
abbrev pub plain : Kubeconfig
plain = record {
  meta = bare_meta "alice";
  spec = record {
    username = "alice";
    existing_csr = none;
    auto_approve_csr = true;
    csr = none;
    cluster = none;
    role_ref = none;
  };
  status = record {
    user_secret = record { name = ""; namespace = "" };
    csr = record { name = "" };
    conditions = [];
    kubeconfig = "";
    status = "";
  };
}

abbrev pub sample : Kubeconfig
sample = record plain {
  spec = record (plain.spec) {
    csr = some (record {
      signature_algorithm = ecdsa_with_sha256;
      additional_fields = no_additional_fields;
    });
    cluster = some (record { name = "kubernetes"; server = "https://10.0.0.1:6443" });
    role_ref = some default_role_ref;
  };
}

abbrev pub platform : Platform
platform = record {
  State = Store;
  get_kubeconfig = λ n s. (fine (record (s.kubeconfig) { spec = sample.spec }), s);
  get_secret = λ n s. (read_secret s.secret, s);
  get_csr = λ n s. (reply_or no_csr s.csr, s);
  get_cluster_role_binding = λ n s. (reply_or no_binding s.binding, s);
  get_config_map = λ n s. (
    fine (record {
      meta = bare_meta "info";
      content = ("kubeconfig", "text") ∷ ("ca.crt", "ca") ∷ [];
    }),
    s,
  );
  create_secret = λ x s. (fine (stored_secret x), record s { secret = some (stored_secret x) });
  create_csr = λ x s. (fine x, record s { csr = some x });
  create_cluster_role_binding = λ x s. (fine x, record s { binding = some x });
  update_secret = λ x s. (fine x, record s { secret = some x });
  update_kubeconfig_status =
      λ x s. (fine x, record s { kubeconfig = record (s.kubeconfig) { status = x.status } });
  update_csr_status = λ x s. (fine x, record s { csr = some x });
  update_approval = λ x s. (fine x, record s { csr = some x });
  now = λ s. (s.clock, tick s);
  set_status_condition = λ cs c s. (set_condition cs c, s);
  find_status_condition = find_condition;
  is_not_found = is_missing;
  new_internal_error = λ e. e;
  new_forbidden = λ group kind name e. record { message = name; reason = "Forbidden" };
  to_aggregate = λ es. some (record { message = "immutable"; reason = "" });
  set_controller_reference = own;
  Signer = ℕ;
  rsa_generate_key = λ bits s. (s.clock, tick s);
  ecdsa_generate_key = λ curve s. (s.clock, tick s);
  ed25519_generate_key = λ s. (s.clock, tick s);
  marshal_pkcs1_private_key = λ k. some "rsa";
  marshal_ec_private_key = λ k. some "ec";
  marshal_pkcs8_private_key = λ k. some "ed25519";
  create_certificate_request = λ r k s. (sign r k, s);
  parse_certificate_request = λ b. fine (record {
    subject = record {
      common_name = b;
      country = none;
      province = none;
      locality = none;
      organization = none;
      organizational_unit = none;
    };
    signature_algorithm = X509Algorithm.ecdsa_with_sha256;
  });
  pem_encode = λ b. b.bytes;
  pem_decode = λ t. some (record { type = "CERTIFICATE REQUEST"; bytes = t });
  base64_encode = λ t. t;
  codec = codec;
}

-- A request of the operator, annotated; and the same one approved, with a certificate.
abbrev pub open_csr : CsrObject
open_csr = record no_csr {
  meta = own sample.meta (record (bare_meta "alice") {
    annotations = ("kubeconfig.k8s.zoomoid.dev/auto-approve", "true") ∷ [];
  });
  request = "alice";
}

abbrev pub issued_csr : CsrObject
issued_csr = record open_csr {
  conditions =
      record {
        type = "Approved";
        status = "True";
        reason = "";
        message = "";
        last_transition_time = none;
      }
      ∷ [];
  certificate = "cert";
}

-- The cluster before the first run, and one in which the request was approved.
abbrev pub fresh : World Store
fresh = record {
  server = record { clock = 0; kubeconfig = sample; secret = none; csr = none; binding = none };
  effects = [];
}

abbrev pub approved : World Store
approved = record {
  server = record {
    clock = 0;
    kubeconfig = sample;
    secret = some (stored_secret no_secret);
    csr = some issued_csr;
    binding = none;
  };
  effects = [];
}
