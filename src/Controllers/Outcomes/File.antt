-- ===== src/Controllers/Outcomes/File.antt =====
-- The kubeconfig file that is written leads a client to its cluster with its own certificate.
use kubeconfig_operator.Base.{
  String, some, ◌<>◌, ◌≡◌, refl, ap, get_or, eq_refl, ◌∙◌, Option-cases, inl, inr,
}
use kubeconfig_operator.Base.Dict.{lookup}
use kubeconfig_operator.K8s.{Secret, Fallible, ok, failed, Reply, ConfigMap}
use kubeconfig_operator.Api.Types.{Kubeconfig}
use kubeconfig_operator.Api.Types
use kubeconfig_operator.Config.{Config, Context, serialize, marshal, unmarshal}
use kubeconfig_operator.Config.RoundTrip.{
  HasRangeLaws, ReadsBack, HasNodupKeys, Agrees, unmarshal-marshal,
}
use kubeconfig_operator.Platform.{Platform}
use kubeconfig_operator.Effects.{World}
use kubeconfig_operator.Effects.Ends.{Ends}
use kubeconfig_operator.Controllers.Resources.{
  ClientData, client_data, client_config, cluster_ca, ca_of, create_kubeconfig,
}

module _ (P : Platform) where
  -- From its current context, the configuration resolves to this cluster and these credentials.
  pub record Resolves (username : String) (cluster : Types.Cluster) (ca : String) (d : ClientData)
      (c : Config P.codec.Any) : Type 0 where
    pub context : Context
    pub current : lookup c.current_context c.contexts ≡ some context
    pub to_cluster :
        lookup context.cluster c.clusters
        ≡ some (record { certificate_authority = P.base64_encode ca; server = cluster.server })
    pub to_user :
        lookup context.user c.users
        ≡ some (record {
          client_certificate = P.base64_encode d.client_cert;
          client_key = P.base64_encode d.client_key;
        })

  client_config-Resolves :
      (username : String) (cluster : Types.Cluster) (ca : String) (d : ClientData)
      → Resolves username cluster ca d (client_config P username cluster ca d)
  unfolding client_config lookup
  client_config-Resolves username cluster ca d = record {
    context = record { cluster = cluster.name; namespace = "default"; user = username };
    current = rw (eq_refl (username <> "@" <> cluster.name)) refl;
    to_cluster = rw (eq_refl cluster.name) refl;
    to_user = rw (eq_refl username) refl;
  }

  client_config-HasNodupKeys :
      (username : String) (cluster : Types.Cluster) (ca : String) (d : ClientData)
      → HasNodupKeys P.codec (client_config P username cluster ca d)
  unfolding client_config lookup
  client_config-HasNodupKeys username cluster ca d = record {
    clusters = (refl, tt);
    contexts = (refl, tt);
    users = (refl, tt);
  }

  resolving :
      (username : String) (cluster : Types.Cluster) (ca : String) (d : ClientData)
      (c : Config P.codec.Any)
      → Agrees P.codec (client_config P username cluster ca d) c
      → Resolves username cluster ca d c
  resolving username cluster ca d c same =
      let made = client_config-Resolves username cluster ca d in
      record {
        context = made.context;
        current =
            ap (λ x. lookup x c.contexts) same.current_context ∙ same.contexts _ ∙ made.current;
        to_cluster = same.clusters _ ∙ made.to_cluster;
        to_user = same.users _ ∙ made.to_user;
      }

  -- Where the run gets its certificate authority.
  abbrev ca_reply : World P.State → Reply ConfigMap
  ca_reply w =
      (P.get_config_map (record { namespace = "kube-public"; name = "kube-root-ca.crt" })
        w.server).0

  -- A text that is read back as a configuration that resolves, or the error of the certificate
  -- authority's read.
  abbrev pub IsUsable :
      Kubeconfig → Types.Cluster → Secret → World P.State → Fallible String → Type 0
  IsUsable k cluster s w (failed e) = (ca_reply w).err ≡ some e
  IsUsable k cluster s w (ok text) =
      (d : Config P.codec.Any) × (unmarshal P.codec text ≡ ok d)
      × Resolves k.spec.username cluster (get_or (lookup "ca.crt" (ca_reply w).object.content) "")
          (client_data s) d

  written :
      HasRangeLaws P.codec
      → (username : String) (cluster : Types.Cluster) (ca : String) (d : ClientData)
      → ReadsBack P.codec (serialize P.codec (client_config P username cluster ca d))
      → (c : Config P.codec.Any) × (unmarshal P.codec
            (marshal P.codec (client_config P username cluster ca d))
          ≡ ok c)
        × Resolves username cluster ca d c
  written L username cluster ca d reads =
      let c : Config P.codec.Any = client_config P username cluster ca d in
      let back =
        unmarshal-marshal P.codec L c (client_config-HasNodupKeys username cluster ca d) reads in
      (back.0, back.1, resolving username cluster ca d back.0 back.2)

  -- The file is written unless the read of the certificate authority fails, whose error is then given.
  -- Read back, its current context resolves to the server of the cluster with this authority, and to
  -- the certificate and the key of the secret, in base64. This needs a YAML library that reads back these files
  -- and map walks that visit each entry once.
  pub create_kubeconfig-IsUsable :
      HasRangeLaws P.codec
      → (k : Kubeconfig) (s : Secret) (w : World P.State) (cluster : Types.Cluster)
      → k.spec.cluster ≡ some cluster
      → ((ca : String)
          → ReadsBack P.codec
              (serialize P.codec (client_config P k.spec.username cluster ca (client_data s))))
      → Ends (λ text _. IsUsable k cluster s w text) (λ _ _. ⊥) (create_kubeconfig P k s w)
  unfolding create_kubeconfig cluster_ca ca_of
  create_kubeconfig-IsUsable L k s w cluster given reads = elim (Option-cases (ca_reply w).err) [
    | inl fine ↦ rw (fine, given) (written L k.spec.username cluster _ (client_data s) (reads _))
    | inr (e, bad) ↦ rw bad bad
  ]
