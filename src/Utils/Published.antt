-- ===== src/Utils/Published.antt =====
-- The endpoint is the server of the unnamed cluster that the cluster publishes, if it does.
use kubeconfig_operator.Base.{String, Option, ◌∷◌, none, some, ◌≡◌, refl}
use kubeconfig_operator.Base.Dict.{lookup}
use kubeconfig_operator.K8s.{
  ConfigMap, Error, NamespacedName, Reply, Fallible, ok, failed, new_error,
}
use kubeconfig_operator.Config.{Config, Cluster, unmarshal}
use kubeconfig_operator.Platform.{Platform}
use kubeconfig_operator.Effects.{World, config_map_get}
use kubeconfig_operator.Effects.Ends.{Ends}
use kubeconfig_operator.Utils.{server_of, endpoint_of, cluster_endpoint}

abbrev pub info_name : NamespacedName
info_name = record { namespace = "kube-public"; name = "cluster-info" }

module _ (P : Platform) where
  -- The answer holds a configuration with this cluster under the empty name.
  pub record Publishes (r : Reply ConfigMap) (c : Cluster) : Type 0 where
    pub read : r.err ≡ none
    pub text : String
    pub has_text : lookup "kubeconfig" r.object.content ≡ some text
    pub config : Config P.codec.Any
    pub parses : unmarshal P.codec text ≡ ok config
    pub named : lookup "" config.clusters ≡ some c

  -- The endpoint against what the answer publishes.
  abbrev pub IsEndpoint : Reply ConfigMap → Fallible String → Type 0
  IsEndpoint r (ok server) = (c : Cluster) × Publishes r c × (server ≡ c.server)
  IsEndpoint r (failed e) = (c : Cluster) → Publishes r c → ⊥

  named-IsEndpoint :
      (r : Reply ConfigMap) (text : String) (cfg : Config P.codec.Any) (o : Option Cluster)
      → r.err ≡ none
      → lookup "kubeconfig" r.object.content ≡ some text
      → unmarshal P.codec text ≡ ok cfg
      → lookup "" cfg.clusters ≡ o
      → IsEndpoint r (elim o [
        | none ↦
            failed (new_error "no cluster entry at default location clusters.cluster.name == ''")
        | some cluster ↦ ok cluster.server
      ])
  named-IsEndpoint r text cfg none read has parsed missing =
      λ c p. cc (p.has_text, has, p.parses, parsed, p.named, missing)
  named-IsEndpoint r text cfg (some c) read has parsed found = (
    c,
    record {
      read = read;
      text = text;
      has_text = has;
      config = cfg;
      parses = parsed;
      named = found;
    },
    refl,
  )

  server_of-IsEndpoint :
      (r : Reply ConfigMap) (text : String) (cfg : Fallible (Config P.codec.Any))
      → r.err ≡ none
      → lookup "kubeconfig" r.object.content ≡ some text
      → unmarshal P.codec text ≡ cfg
      → IsEndpoint r (server_of P cfg)
  unfolding server_of
  server_of-IsEndpoint r text (failed e) read has parsed =
      λ c p. cc (p.has_text, has, p.parses, parsed)
  server_of-IsEndpoint r text (ok cfg) read has parsed =
      named-IsEndpoint r text cfg (lookup "" cfg.clusters) read has parsed refl

  text-IsEndpoint :
      (r : Reply ConfigMap) (o : Option String)
      → r.err ≡ none
      → lookup "kubeconfig" r.object.content ≡ o
      → IsEndpoint r (elim o [
        | none ↦ failed (new_error "no kubeconfig key in cluster-info config map")
        | some text ↦ server_of P (unmarshal P.codec text)
      ])
  text-IsEndpoint r none read missing = λ c p. cc (p.has_text, missing)
  text-IsEndpoint r (some text) read has =
      server_of-IsEndpoint r text (unmarshal P.codec text) read has refl

  err-IsEndpoint :
      (r : Reply ConfigMap) (o : Option Error)
      → r.err ≡ o
      → IsEndpoint r (elim o [
        | some e ↦ failed e
        | none ↦ elim (lookup "kubeconfig" r.object.content) [
          | none ↦ failed (new_error "no kubeconfig key in cluster-info config map")
          | some text ↦ server_of P (unmarshal P.codec text)
        ]
      ])
  err-IsEndpoint r (some e) bad = λ c p. cc (p.read, bad)
  err-IsEndpoint r none fine = text-IsEndpoint r (lookup "kubeconfig" r.object.content) fine refl

  endpoint_of-IsEndpoint : (r : Reply ConfigMap) → IsEndpoint r (endpoint_of P r)
  unfolding endpoint_of
  endpoint_of-IsEndpoint r = err-IsEndpoint r r.err refl

  -- The endpoint is asked for with one read. It is the server of the cluster that the answer
  -- publishes under the empty name, and an error exactly if the answer publishes none.
  pub cluster_endpoint-IsEndpoint :
      (w : World P.State)
      → Ends
          (λ server v.
            IsEndpoint (P.get_config_map info_name w.server).0 server
            × (v.effects
                ≡ config_map_get info_name (P.get_config_map info_name w.server).0 ∷ w.effects))
          (λ _ _. ⊥)
          (cluster_endpoint P w)
  unfolding cluster_endpoint
  cluster_endpoint-IsEndpoint w = (endpoint_of-IsEndpoint _, refl)
