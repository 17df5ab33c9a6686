-- ===== src/Lifecycle/Server.antt =====
-- What the documentation of the API server promises of the two objects under one name: reads show
-- them, a write replaces one of them or fails, and nothing else touches them. A write that is
-- reported as failed may still have happened. Kubeconfigs and requests are cluster-scoped.
use kubeconfig_operator.Base.{
  ℕ, String, true, false, Option, none, some, List, ◌≡◌, ◌⊎◌, ◌==◌, is_some,
}
use kubeconfig_operator.K8s.{
  NamespacedName, Condition, ObjectMeta, Secret, CsrObject, ClusterRoleBinding,
}
use kubeconfig_operator.Api.Types.{Kubeconfig}
use kubeconfig_operator.Platform.{Platform, CertificateRequest}
use kubeconfig_operator.Controllers.Csr.{get_cert_approval_condition}
use kubeconfig_operator.Lifecycle.Stages.{Snapshot}

abbrev pub cluster_name : String → NamespacedName
cluster_name n = record { namespace = ""; name = n }

-- The status of the Kubeconfig is the one that was sent.
pub record StatusWritten (k : Kubeconfig) (before after : Snapshot) : Type 0 where
  pub stored : Kubeconfig
  pub status : stored.status ≡ k.status
  pub becomes : after ≡ record before { kubeconfig = some stored }

-- There is a request with the metadata and the conditions that were sent.
pub record CsrCreated (c : CsrObject) (before after : Snapshot) : Type 0 where
  pub stored : CsrObject
  pub conditions : stored.conditions ≡ c.conditions
  pub annotations : stored.meta.annotations ≡ c.meta.annotations
  pub owner_references : stored.meta.owner_references ≡ c.meta.owner_references
  pub becomes : after ≡ record before { request = some stored }

-- The conditions of the request are those that were sent.
pub record CsrDecided (c : CsrObject) (before after : Snapshot) : Type 0 where
  pub old : CsrObject
  pub had : before.request ≡ some old
  pub stored : CsrObject
  pub conditions : stored.conditions ≡ c.conditions
  pub certificate : stored.certificate ≡ old.certificate
  pub becomes : after ≡ record before { request = some stored }

-- Through its status endpoint, a request is neither approved nor denied.
pub record CsrReported (c : CsrObject) (before after : Snapshot) : Type 0 where
  pub old : CsrObject
  pub had : before.request ≡ some old
  pub stored : CsrObject
  pub approved :
      (get_cert_approval_condition stored.conditions).approved
      ≡ (get_cert_approval_condition old.conditions).approved
  pub denied :
      (get_cert_approval_condition stored.conditions).denied
      ≡ (get_cert_approval_condition old.conditions).denied
  pub failed :
      (get_cert_approval_condition stored.conditions).failed
      ≡ (get_cert_approval_condition c.conditions).failed
  pub certificate : stored.certificate ≡ c.certificate
  pub becomes : after ≡ record before { request = some stored }

pub record Server (P : Platform) (name : String) : Type 0 where
  pub view : P.State → Snapshot
  pub kubeconfig_read :
      (s : P.State)
      → (P.get_kubeconfig (cluster_name name) s).0.err ≡ none
      → (view s).kubeconfig ≡ some (P.get_kubeconfig (cluster_name name) s).0.object
  pub csr_read :
      (s : P.State)
      → (P.get_csr (cluster_name name) s).0.err ≡ none
      → (view s).request ≡ some (P.get_csr (cluster_name name) s).0.object
  pub csr_missing :
      (s : P.State)
      → P.is_not_found (P.get_csr (cluster_name name) s).0.err ≡ true
      → (view s).request ≡ none
  pub kubeconfig_name :
      (n : NamespacedName) (s : P.State)
      → (P.get_kubeconfig n s).0.err ≡ none
      → (P.get_kubeconfig n s).0.object.meta.name ≡ n.name
  pub csr_name :
      (n : NamespacedName) (s : P.State)
      → (P.get_csr n s).0.err ≡ none
      → (P.get_csr n s).0.object.meta.name ≡ n.name
  pub owner_keeps_name : (owner m : ObjectMeta) → (P.set_controller_reference owner m).name ≡ m.name
  -- The writes under the name.
  pub status_write :
      (k : Kubeconfig) (s : P.State)
      → k.meta.name ≡ name
      → ((view (P.update_kubeconfig_status k s).1 ≡ view s)
          × (is_some (P.update_kubeconfig_status k s).0.err ≡ true))
        ⊎ StatusWritten k (view s) (view (P.update_kubeconfig_status k s).1)
  pub csr_create :
      (c : CsrObject) (s : P.State)
      → c.meta.name ≡ name
      → ((view (P.create_csr c s).1 ≡ view s) × (is_some (P.create_csr c s).0.err ≡ true))
        ⊎ CsrCreated c (view s) (view (P.create_csr c s).1)
  pub approval_write :
      (c : CsrObject) (s : P.State)
      → c.meta.name ≡ name
      → ((view (P.update_approval c s).1 ≡ view s) × (is_some (P.update_approval c s).0.err ≡ true))
        ⊎ CsrDecided c (view s) (view (P.update_approval c s).1)
  pub csr_status_write :
      (c : CsrObject) (s : P.State)
      → c.meta.name ≡ name
      → (view (P.update_csr_status c s).1 ≡ view s)
        ⊎ CsrReported c (view s) (view (P.update_csr_status c s).1)
  -- The writes under another name.
  pub other_status_write :
      (k : Kubeconfig) (s : P.State)
      → (k.meta.name == name) ≡ false
      → view (P.update_kubeconfig_status k s).1 ≡ view s
  pub other_csr_create :
      (c : CsrObject) (s : P.State)
      → (c.meta.name == name) ≡ false
      → view (P.create_csr c s).1 ≡ view s
  pub other_approval_write :
      (c : CsrObject) (s : P.State)
      → (c.meta.name == name) ≡ false
      → view (P.update_approval c s).1 ≡ view s
  pub other_csr_status_write :
      (c : CsrObject) (s : P.State)
      → (c.meta.name == name) ≡ false
      → view (P.update_csr_status c s).1 ≡ view s
  -- All the rest.
  pub get_kubeconfig : (n : NamespacedName) (s : P.State) → view (P.get_kubeconfig n s).1 ≡ view s
  pub get_secret : (n : NamespacedName) (s : P.State) → view (P.get_secret n s).1 ≡ view s
  pub get_csr : (n : NamespacedName) (s : P.State) → view (P.get_csr n s).1 ≡ view s
  pub get_binding :
      (n : NamespacedName) (s : P.State) → view (P.get_cluster_role_binding n s).1 ≡ view s
  pub get_config_map : (n : NamespacedName) (s : P.State) → view (P.get_config_map n s).1 ≡ view s
  pub create_secret : (x : Secret) (s : P.State) → view (P.create_secret x s).1 ≡ view s
  pub update_secret : (x : Secret) (s : P.State) → view (P.update_secret x s).1 ≡ view s
  pub create_binding :
      (b : ClusterRoleBinding) (s : P.State) → view (P.create_cluster_role_binding b s).1 ≡ view s
  pub now : (s : P.State) → view (P.now s).1 ≡ view s
  pub set_status_condition :
      (cs : List Condition) (c : Condition) (s : P.State)
      → view (P.set_status_condition cs c s).1 ≡ view s
  pub rsa_generate_key : (n : ℕ) (s : P.State) → view (P.rsa_generate_key n s).1 ≡ view s
  pub ecdsa_generate_key : (c : String) (s : P.State) → view (P.ecdsa_generate_key c s).1 ≡ view s
  pub ed25519_generate_key : (s : P.State) → view (P.ed25519_generate_key s).1 ≡ view s
  pub create_certificate_request :
      (r : CertificateRequest) (key : Option P.Signer) (s : P.State)
      → view (P.create_certificate_request r key s).1 ≡ view s
