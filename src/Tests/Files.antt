-- ===== src/Tests/Files.antt =====
-- Writing and reading the configuration file on an example.
use kubeconfig_operator.Base.{String, none, List, [], ◌∷◌, ◌≡◌, refl}
use kubeconfig_operator.Base.Dict.{lookup}
use kubeconfig_operator.K8s.{ok}
use kubeconfig_operator.Config.{
  Codec, Config, new_bare_config, SerializedConfig, ClusterEntry, config_meta, serialize, marshal,
  unmarshal, cluster_entries, context_entries, user_entries,
}
use kubeconfig_operator.Config.RoundTrip.{HasRangeLaws, HasNodupKeys, Agrees, unmarshal-marshal}
use kubeconfig_operator.Platform.{Platform}
use kubeconfig_operator.Effects.Ends.{Ends}
use kubeconfig_operator.Controllers.Resources.{client_config, client_data, create_kubeconfig}
use kubeconfig_operator.Controllers.Outcomes.File.{IsUsable, create_kubeconfig-IsUsable}
use kubeconfig_operator.Effects.{config_map_get}
use kubeconfig_operator.Utils.{cluster_endpoint}
use kubeconfig_operator.Utils.Published.{info_name, IsEndpoint, cluster_endpoint-IsEndpoint}
use kubeconfig_operator.Tests.Cluster.{platform, sample, approved, no_secret, stored_secret, codec}

-- The file of the sample for a certificate authority, as `Marshal` hands it to the YAML library.
abbrev sample_file : String → SerializedConfig (Unit {0})
sample_file ca = record {
  meta = config_meta;
  preferences = tt;
  current_context = "alice@kubernetes";
  clusters =
      record {
        name = "kubernetes";
        cluster = record { certificate_authority = ca; server = "https://10.0.0.1:6443" };
      }
      ∷ [];
  contexts =
      record {
        name = "alice@kubernetes";
        context = record { cluster = "kubernetes"; namespace = "default"; user = "alice" };
      }
      ∷ [];
  users =
      record { name = "alice"; user = record { client_certificate = ""; client_key = "" } } ∷ [];
}

abbrev authority : List ClusterEntry → String
authority [] = ""
authority (e ∷ es) = e.cluster.certificate_authority

-- A notation for the sample's files: the certificate authority says it all.
abbrev file_codec : Codec
file_codec = record codec {
  yaml_marshal = λ c. authority c.clusters;
  yaml_unmarshal = λ text. record { object = sample_file text; err = none };
}

abbrev file_platform : Platform
file_platform = record platform { codec = file_codec }

file_codec-HasRangeLaws : HasRangeLaws file_codec
file_codec-HasRangeLaws = record { range_lookup = λ V m k h. refl; range_nodup = λ V m h. h }

abbrev sample_config : Config (Unit {0})
sample_config = record {
  meta = config_meta;
  preferences = tt;
  current_context = "alice@kubernetes";
  clusters =
      ("kubernetes", record { certificate_authority = "ca"; server = "https://10.0.0.1:6443" })
      ∷ [];
  contexts =
      ("alice@kubernetes", record { cluster = "kubernetes"; namespace = "default"; user = "alice" })
      ∷ [];
  users = ("alice", record { client_certificate = ""; client_key = "" }) ∷ [];
}

sample_config-HasNodupKeys : HasNodupKeys file_codec sample_config
unfolding lookup
sample_config-HasNodupKeys = record {
  clusters = (refl, tt);
  contexts = (refl, tt);
  users = (refl, tt);
}

unmarshal-marshal_example :
    (d : Config (Unit {0})) × (unmarshal file_codec (marshal file_codec sample_config) ≡ ok d)
    × Agrees file_codec sample_config d
unfolding serialize cluster_entries context_entries user_entries
unmarshal-marshal_example =
    unmarshal-marshal file_codec file_codec-HasRangeLaws sample_config sample_config-HasNodupKeys
      refl

create_kubeconfig-IsUsable_example :
    Ends
      (λ text _.
        IsUsable file_platform sample
          (record { name = "kubernetes"; server = "https://10.0.0.1:6443" })
          (stored_secret no_secret)
          approved
          text)
      (λ _ _. ⊥)
      (create_kubeconfig file_platform sample (stored_secret no_secret) approved)
unfolding serialize cluster_entries context_entries user_entries client_config client_data
    new_bare_config lookup
create_kubeconfig-IsUsable_example =
    create_kubeconfig-IsUsable file_platform file_codec-HasRangeLaws sample
      (stored_secret no_secret) approved
      (record { name = "kubernetes"; server = "https://10.0.0.1:6443" }) refl (λ ca. refl)

cluster_endpoint-IsEndpoint_example :
    Ends
      (λ server v.
        IsEndpoint platform (platform.get_config_map info_name approved.server).0 server
        × (v.effects
            ≡ config_map_get info_name (platform.get_config_map info_name approved.server).0 ∷ []))
      (λ _ _. ⊥)
      (cluster_endpoint platform approved)
cluster_endpoint-IsEndpoint_example = cluster_endpoint-IsEndpoint platform approved
