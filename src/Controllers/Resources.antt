-- ===== src/Controllers/Resources.antt =====
-- controllers/resources.go and controllers/client_cert.go: the objects that the first controller
-- creates, and the kubeconfig file.
use kubeconfig_operator.Base.{String, Option, none, some, [], ◌∷◌, ◌<>◌, if◌then◌else◌, get_or}
use kubeconfig_operator.Base.Dict.{Dict, lookup}
use kubeconfig_operator.K8s.{
  NamespacedName, Secret, ConfigMap, CsrObject, ClusterRoleBinding, Reply, Fallible, ok, failed,
}
use kubeconfig_operator.Api.Types.{Kubeconfig}
use kubeconfig_operator.Api.Types
use kubeconfig_operator.Config.{Config, marshal, new_bare_config}
use kubeconfig_operator.Platform.{Platform}
use kubeconfig_operator.Effects.{M, pure, deref, ◌>>=◌, get_config_map}
use kubeconfig_operator.Controllers.Keys.{labels_for_subresources}
use kubeconfig_operator.Controllers.Csr.{csr_auto_approve_annotation_key}

abbrev pub certificate_secret_priv_key_key : String
certificate_secret_priv_key_key = "tls.key"

abbrev pub certificate_secret_csr_key : String
certificate_secret_csr_key = "tls.csr"

abbrev pub certificate_secret_cert_key : String
certificate_secret_cert_key = "tls.crt"

abbrev pub kubeconfig_key : String
kubeconfig_key = "kubeconfig"

-- A read of a map that may be nil.
abbrev pub read_content : String → Option (Dict String) → Option String
read_content k none = none
read_content k (some m) = lookup k m

-- `ClientData`, whose error is always nil: the private key and the certificate. A missing
-- certificate is only logged.
pub record ClientData : Type 0 where
  pub client_key : String
  pub client_cert : String

unfoldable pub client_data : Secret → ClientData
client_data secret = record {
  client_key = get_or (read_content certificate_secret_priv_key_key secret.content) "";
  client_cert = get_or (read_content certificate_secret_cert_key secret.content) "";
}

module _ (P : Platform) where
  -- The role reference is read through its pointer.
  unfoldable pub create_cluster_role_binding :
      Kubeconfig → NamespacedName → M P.State ClusterRoleBinding
  create_cluster_role_binding k obj = do
    role_ref ← deref k.spec.role_ref
    pure (record {
      meta = record {
        name = obj.name;
        namespace = "";
        labels = labels_for_subresources k;
        annotations = [];
        owner_references = [];
      };
      subjects =
          record { kind = "User"; api_group = "rbac.authorization.k8s.io"; name = k.spec.username }
          ∷ [];
      role_ref = role_ref;
    })

  unfoldable pub create_user_secret : Kubeconfig → NamespacedName → Secret
  create_user_secret k obj = record {
    meta = P.set_controller_reference k.meta (record {
      name = obj.name;
      namespace = obj.namespace;
      labels = labels_for_subresources k;
      annotations = [];
      owner_references = [];
    });
    type = "kubernetes.io/tls";
    content = none;
    string_content =
        (certificate_secret_priv_key_key, "")
        ∷ (certificate_secret_csr_key, "")
        ∷ (certificate_secret_cert_key, "")
        ∷ [];
  }

  -- `createCsr`: the object for the API server. `createCSR`, the request in it, is in `Keys`.
  unfoldable pub create_csr_object : Kubeconfig → String → CsrObject
  create_csr_object k csr_buffer = record {
    meta = P.set_controller_reference k.meta (record {
      name = k.meta.name;
      namespace = "";
      labels = labels_for_subresources k;
      annotations =
          if k.spec.auto_approve_csr then (csr_auto_approve_annotation_key, "true") ∷ [] else [];
      owner_references = [];
    });
    request = csr_buffer;
    signer_name = "kubernetes.io/kube-apiserver-client";
    usages = "client auth" ∷ [];
    conditions = [];
    certificate = "";
  }

  unfoldable pub ca_of : Reply ConfigMap → Fallible String
  ca_of r = elim r.err [
    | some e ↦ failed e
    | none ↦ ok (get_or (lookup "ca.crt" r.object.content) "")
  ]

  unfoldable pub cluster_ca : M P.State (Fallible String)
  unfolding ca_of
  cluster_ca = do
    r ← get_config_map P (record { namespace = "kube-public"; name = "kube-root-ca.crt" })
    pure (ca_of r)

  -- The configuration that `createKubeconfig` fills in.
  unfoldable pub client_config : String → Types.Cluster → String → ClientData → Config P.codec.Any
  client_config username cluster cluster_ca d =
      let context_name : String = username <> "@" <> cluster.name in
      record (new_bare_config P.codec) {
        clusters =
            (
              cluster.name,
              record {
                certificate_authority = P.base64_encode cluster_ca;
                server = cluster.server;
              },
            )
            ∷ [];
        users =
            (
              username,
              record {
                client_certificate = P.base64_encode d.client_cert;
                client_key = P.base64_encode d.client_key;
              },
            )
            ∷ [];
        contexts =
            (
              context_name,
              record { cluster = cluster.name; namespace = "default"; user = username },
            )
            ∷ [];
        current_context = context_name;
      }

  -- `createKubeconfig`, which reads `Spec.Cluster` through its pointer.
  unfoldable pub create_kubeconfig : Kubeconfig → Secret → M P.State (Fallible String)
  create_kubeconfig k secret = do
    ca ← cluster_ca
    elim ca [
      | failed e ↦ pure (failed e)
      | ok ca ↦ do
        cluster ← deref k.spec.cluster
        pure (ok (marshal P.codec (client_config k.spec.username cluster ca (client_data secret))))
    ]
