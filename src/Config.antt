-- ===== src/Config.antt =====
-- Package kubeconfig (pkg/kubeconfig/types.go): the kubeconfig file, written and read as YAML.
-- The YAML library and the order in which Go walks a map are parameters.
pub mod RoundTrip
use kubeconfig_operator.Base.{String, none, some, List, [], ◌∷◌, map}
use kubeconfig_operator.Base.Dict.{Dict, insert}
use kubeconfig_operator.K8s.{Reply, Fallible, ok, failed}

pub record TypeMeta : Type 0 where
  pub api_version : String
  pub kind : String

pub record Cluster : Type 0 where
  pub certificate_authority : String
  pub server : String

pub record Context : Type 0 where
  pub cluster : String
  pub namespace : String
  pub user : String

pub record User : Type 0 where
  pub client_certificate : String
  pub client_key : String

-- `Any` is the type of the preferences, an `interface{}` that the code passes through.
pub record Config (Any : Type 0) : Type 0 where
  pub meta : TypeMeta
  pub preferences : Any
  pub current_context : String
  pub clusters : Dict Cluster
  pub contexts : Dict Context
  pub users : Dict User

pub record ClusterEntry : Type 0 where
  pub name : String
  pub cluster : Cluster

pub record ContextEntry : Type 0 where
  pub name : String
  pub context : Context

pub record UserEntry : Type 0 where
  pub name : String
  pub user : User

pub record SerializedConfig (Any : Type 0) : Type 0 where
  pub meta : TypeMeta
  pub preferences : Any
  pub current_context : String
  pub clusters : List ClusterEntry
  pub contexts : List ContextEntry
  pub users : List UserEntry

-- The YAML library over this type, `struct{}{}`, and the order of a walk over a map's entries.
-- `yaml_marshal` gives the bytes that remain after its error is dropped.
pub record Codec : Type 1 where
  pub Any : Type 0
  pub empty_struct : Any
  pub yaml_marshal : SerializedConfig Any → String
  pub yaml_unmarshal : String → Reply (SerializedConfig Any)
  pub range : (V : Type 0) → Dict V → List (String × V)

abbrev pub config_meta : TypeMeta
config_meta = record { api_version = "v1"; kind = "Config" }

unfoldable pub cluster_entries : List (String × Cluster) → List ClusterEntry
cluster_entries = map λ e. record { name = e.0; cluster = e.1 }

unfoldable pub context_entries : List (String × Context) → List ContextEntry
context_entries = map λ e. record { name = e.0; context = e.1 }

unfoldable pub user_entries : List (String × User) → List UserEntry
user_entries = map λ e. record { name = e.0; user = e.1 }

-- The loops of `Unmarshal`: a later entry of the same name replaces an earlier one.
collect_clusters : Dict Cluster → List ClusterEntry → Dict Cluster
collect_clusters m [] = m
collect_clusters m (e ∷ es) = collect_clusters (insert e.name e.cluster m) es

collect_contexts : Dict Context → List ContextEntry → Dict Context
collect_contexts m [] = m
collect_contexts m (e ∷ es) = collect_contexts (insert e.name e.context m) es

collect_users : Dict User → List UserEntry → Dict User
collect_users m [] = m
collect_users m (e ∷ es) = collect_users (insert e.name e.user m) es

module _ (C : Codec) where
  -- The record that `Marshal` hands to the YAML library.
  unfoldable pub serialize : Config C.Any → SerializedConfig C.Any
  unfolding cluster_entries context_entries user_entries
  serialize c = record {
    meta = config_meta;
    preferences = c.preferences;
    current_context = c.current_context;
    clusters = cluster_entries (C.range Cluster c.clusters);
    contexts = context_entries (C.range Context c.contexts);
    users = user_entries (C.range User c.users);
  }

  unfoldable pub marshal : Config C.Any → String
  unfolding serialize
  marshal c = C.yaml_marshal (serialize c)

  deserialize : SerializedConfig C.Any → Config C.Any
  unfolding collect_clusters collect_contexts collect_users
  deserialize sc = record {
    meta = config_meta;
    preferences = sc.preferences;
    current_context = sc.current_context;
    clusters = collect_clusters [] sc.clusters;
    contexts = collect_contexts [] sc.contexts;
    users = collect_users [] sc.users;
  }

  unfoldable pub unmarshal : String → Fallible (Config C.Any)
  unfolding deserialize
  unmarshal text = elim (C.yaml_unmarshal text).err [
    | none ↦ ok (deserialize (C.yaml_unmarshal text).object)
    | some e ↦ failed e
  ]

  -- The nil maps of a fresh configuration are empty ones here: the code only reads and replaces
  -- them.
  unfoldable pub new_bare_config : Config C.Any
  new_bare_config = record {
    meta = config_meta;
    preferences = C.empty_struct;
    current_context = "";
    clusters = [];
    contexts = [];
    users = [];
  }
