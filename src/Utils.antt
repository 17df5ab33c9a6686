-- ===== src/Utils.antt =====
-- pkg/utils/cluster_endpoint.go.
pub mod Published
use kubeconfig_operator.Base.{String, none, some}
use kubeconfig_operator.Base.Dict.{lookup}
use kubeconfig_operator.K8s.{ConfigMap, Reply, Fallible, ok, failed, new_error}
use kubeconfig_operator.Config.{Config, unmarshal}
use kubeconfig_operator.Platform.{Platform}
use kubeconfig_operator.Effects.{M, pure, ◌>>=◌, get_config_map}

module _ (P : Platform) where
  -- The server of the cluster with the empty name.
  server_of : Fallible (Config P.codec.Any) → Fallible String
  server_of (failed e) = failed e
  server_of (ok cfg) = elim (lookup "" cfg.clusters) [
    | none ↦ failed (new_error "no cluster entry at default location clusters.cluster.name == ''")
    | some cluster ↦ ok cluster.server
  ]

  endpoint_of : Reply ConfigMap → Fallible String
  unfolding server_of
  endpoint_of r = elim r.err [
    | some e ↦ failed e
    | none ↦ elim (lookup "kubeconfig" r.object.content) [
      | none ↦ failed (new_error "no kubeconfig key in cluster-info config map")
      | some text ↦ server_of (unmarshal P.codec text)
    ]
  ]

  unfoldable pub cluster_endpoint : M P.State (Fallible String)
  unfolding endpoint_of
  cluster_endpoint = do
    r ← get_config_map P (record { namespace = "kube-public"; name = "cluster-info" })
    pure (endpoint_of r)
