-- ===== src/Program.antt =====
-- main.go and api/v1alpha1/groupversion_info.go, with both `SetupWithManager` and `SetupWebhookWithManager`: the flags, the manager, and what is registered with it.
-- Every call into controller-runtime is kept with its error, oldest first.
pub mod Order
pub mod Readiness
use kubeconfig_operator.Base.{ℕ, String, Bool, false, Option, none, some, List, [], ◌∷◌, ◌++◌}
use kubeconfig_operator.K8s.{Error}

-- The kinds of object that are named at the start.
pub data Kind : Type 0 where
  kubeconfig_kind certificate_signing_request_kind : Kind

pub record GroupVersion : Type 0 where
  pub group : String
  pub version : String

-- `GroupVersion` of the API group.
abbrev pub group_version : GroupVersion
group_version = record { group = "kubeconfig.k8s.zoomoid.dev"; version = "v1alpha1" }

pub data GoType : Type 0 where
  kubeconfig_type kubeconfig_list_type : GoType

-- `SchemeBuilder` once the package's `init` has registered its types.
abbrev pub scheme_builder : List GoType
scheme_builder = kubeconfig_type ∷ kubeconfig_list_type ∷ []

pub record Flags : Type 0 where
  pub metrics_bind_address : String
  pub health_probe_bind_address : String
  pub leader_elect : Bool

-- The flags with their defaults.
abbrev pub default_flags : Flags
default_flags = record {
  metrics_bind_address = ":8080";
  health_probe_bind_address = ":8081";
  leader_elect = false;
}

-- `ctrl.Options`, without the scheme and the logger.
pub record Options : Type 0 where
  pub metrics_bind_address : String
  pub port : ℕ
  pub health_probe_bind_address : String
  pub leader_election : Bool
  pub leader_election_id : String
  pub client_disable_cache_for : List Kind

-- The calls that can fail. A controller is registered for a kind and the kinds that it owns.
pub data Call : Type 0 where
  add_client_go_scheme : Call
  add_to_scheme : GroupVersion → List GoType → Call
  get_config_or_die : Call
  new_manager : Options → Call
  controller : Kind → List Kind → Call
  new_for_config_or_die : Call
  webhook : Kind → Call
  add_healthz_check add_readyz_check : String → Call
  start : Call

-- The answers of controller-runtime.
pub record Host : Type 1 where
  pub State : Type 0
  pub answer : Call → State → Option Error × State

pub record Startup (S : Type 0) : Type 0 where
  pub host : S
  pub calls : List (Call × Option Error)

-- The process goes on, exits with a code, or panics.
pub data Process (S : Type 0) : Type 0 where
  going : Startup S → Process S
  exits : ℕ → Startup S → Process S
  panics : Startup S → Process S

-- What follows, if the process goes on.
abbrev pub after : {S : Type 0} → Process S → (Startup S → Process S) → Process S
after (going p) f = f p
after (exits n p) f = exits n p
after (panics p) f = panics p

infixr 5 ◌>=>◌
-- One statement, then the rest.
abbrev pub ◌>=>◌ :
    {S : Type 0} → (Startup S → Process S) → (Startup S → Process S) → Startup S → Process S
◌>=>◌ f g p = after (f p) g

abbrev pub exit_on : {S : Type 0} → Option Error → Startup S → Process S
exit_on none p = going p
exit_on (some e) p = exits 1 p

abbrev pub panic_on : {S : Type 0} → Option Error → Startup S → Process S
panic_on none p = going p
panic_on (some e) p = panics p

abbrev pub options : Flags → Options
options f = record {
  metrics_bind_address = f.metrics_bind_address;
  port = 9443;
  health_probe_bind_address = f.health_probe_bind_address;
  leader_election = f.leader_elect;
  leader_election_id = "856a5ca6.k8s.zoomoid.dev";
  client_disable_cache_for = kubeconfig_kind ∷ [];
}

module _ (H : Host) where
  abbrev pub called : Call → Startup H.State → Startup H.State
  called c p = record {
    host = (H.answer c p.host).1;
    calls = p.calls ++ ((c, (H.answer c p.host).0) ∷ []);
  }

  -- `if err := ...; err != nil { os.Exit(1) }`, which is also what `GetConfigOrDie` does.
  abbrev pub or_exit : Call → Startup H.State → Process H.State
  or_exit c p = exit_on (H.answer c p.host).0 (called c p)

  -- `NewForConfigOrDie` and `Must` panic.
  abbrev pub or_panic : Call → Startup H.State → Process H.State
  or_panic c p = panic_on (H.answer c p.host).0 (called c p)

  -- `KubeconfigReconciler.SetupWithManager`.
  abbrev pub setup_kubeconfig_controller : Startup H.State → Process H.State
  setup_kubeconfig_controller =
      or_exit (controller kubeconfig_kind (certificate_signing_request_kind ∷ []))

  -- `CertificateSigningRequestReconciler.SetupWithManager`.
  abbrev pub setup_csr_controller : Startup H.State → Process H.State
  setup_csr_controller = or_exit (controller certificate_signing_request_kind [])

  -- `Kubeconfig.SetupWebhookWithManager`.
  abbrev pub setup_webhook : Startup H.State → Process H.State
  setup_webhook = or_exit (webhook kubeconfig_kind)

  -- `main` after `flag.Parse`. At its end the process exits with code 0.
  unfoldable pub main : Flags → Startup H.State → Process H.State
  main f =
      or_exit get_config_or_die
      >=> or_exit (new_manager (options f))
      >=> setup_kubeconfig_controller
      >=> or_panic new_for_config_or_die
      >=> setup_csr_controller
      >=> setup_webhook
      >=> or_exit (add_healthz_check "healthz")
      >=> or_exit (add_readyz_check "readyz")
      >=> or_exit start
      >=> exits 0

  -- `init`, where `utilruntime.Must` panics, before the rest of the program.
  abbrev pub init : (Startup H.State → Process H.State) → Startup H.State → Process H.State
  init rest =
      or_panic add_client_go_scheme
      >=> or_panic (add_to_scheme group_version scheme_builder)
      >=> rest

  unfoldable pub program : Flags → Startup H.State → Process H.State
  program f = init (main f)
