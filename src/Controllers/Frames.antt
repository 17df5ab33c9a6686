-- ===== src/Controllers/Frames.antt =====
-- What the writes of the Kubeconfig controller leave as it was, and what they rest on: a second vocabulary for
-- traces, newest first.
mod Secrets
mod Requests
mod Endings
pub mod Traces
use kubeconfig_operator.Base.{String, true, false, none, List, [], ◌∷◌, ◌≡◌, ◌==◌, ◌⊎◌}
use kubeconfig_operator.K8s.{NamespacedName, ObjectMeta, Secret, CsrObject, ClusterRoleBinding}
use kubeconfig_operator.Api.Types.{Kubeconfig, KubeconfigSpec}
use kubeconfig_operator.Platform.{Platform}
use kubeconfig_operator.Effects.{
  Effect, World, kubeconfig_get, secret_get, csr_get, binding_get, secret_create, secret_update,
  csr_create, binding_create, kubeconfig_status_update,
}
use kubeconfig_operator.Effects.Ends.{Exit, Occurs}
use kubeconfig_operator.Controllers.Resources.{
  certificate_secret_priv_key_key, certificate_secret_csr_key, certificate_secret_cert_key,
  kubeconfig_key, read_content,
}

-- The effect is a read of a Kubeconfig with this metadata and specification.
abbrev pub ReadAs : ObjectMeta → KubeconfigSpec → Effect → Type 0
ReadAs m s (kubeconfig_get n r) = (r.err ≡ none) × (r.object.meta ≡ m) × (r.object.spec ≡ s)
ReadAs m s _ = ⊥

-- One secret becomes another, in which at most two entries differ.
pub record Changed (a b : String) (t s : Secret) : Type 0 where
  pub meta : s.meta ≡ t.meta
  pub type : s.type ≡ t.type
  pub string_content : s.string_content ≡ t.string_content
  pub rest :
      (key : String)
      → (a == key) ≡ false
      → (b == key) ≡ false
      → read_content key s.content ≡ read_content key t.content

module _ (P : Platform) where
  -- The same secret, but that the Kubeconfig may have become its owner.
  pub record Resembles (owner : ObjectMeta) (s t : Secret) : Type 0 where
    pub meta : (s.meta ≡ t.meta) ⊎ (s.meta ≡ P.set_controller_reference owner t.meta)
    pub type : s.type ≡ t.type
    pub content : s.content ≡ t.content
    pub string_content : s.string_content ≡ t.string_content

  -- The effect read the secret, or created it.
  abbrev pub HoldsSecret : ObjectMeta → Secret → Effect → Type 0
  HoldsSecret owner s (secret_get n r) = Resembles owner s r.object
  HoldsSecret owner s (secret_create x r) = (r.err ≡ none) × Resembles owner s r.object
  HoldsSecret owner s _ = ⊥

  -- Reads that did not find anything under the name.
  abbrev pub MissesSecret : NamespacedName → Effect → Type 0
  MissesSecret n (secret_get m r) = (m ≡ n) × (P.is_not_found r.err ≡ true)
  MissesSecret n _ = ⊥

  abbrev pub MissesCsr : NamespacedName → Effect → Type 0
  MissesCsr n (csr_get m r) = (m ≡ n) × (P.is_not_found r.err ≡ true)
  MissesCsr n _ = ⊥

  abbrev pub MissesBinding : NamespacedName → Effect → Type 0
  MissesBinding n (binding_get m r) = (m ≡ n) × (P.is_not_found r.err ≡ true)
  MissesBinding n _ = ⊥

  -- An object under a name at which nothing was found, owned by a Kubeconfig that was read.
  pub record CreationGrounds (Misses : NamespacedName → Effect → Type 0) (m : ObjectMeta)
      (past : List Effect) : Type 0 where
    pub kubeconfig : Kubeconfig
    pub read : Occurs (ReadAs kubeconfig.meta kubeconfig.spec) past
    pub name : NamespacedName
    pub missing : Occurs (Misses name) past
    pub unowned : ObjectMeta
    pub owned : m ≡ P.set_controller_reference kubeconfig.meta unowned
    pub same_name : unowned.name ≡ name.name
    pub same_namespace : unowned.namespace ≡ name.namespace

  -- The secret was read or created before, for a Kubeconfig that was read. Either its key and its request
  -- are replaced, or its certificate and its kubeconfig file.
  pub record UpdateGrounds (s : Secret) (past : List Effect) : Type 0 where
    pub kubeconfig : Kubeconfig
    pub read : Occurs (ReadAs kubeconfig.meta kubeconfig.spec) past
    pub before : Secret
    pub held : Occurs (HoldsSecret kubeconfig.meta before) past
    pub changed :
        Changed certificate_secret_priv_key_key certificate_secret_csr_key before s
        ⊎ Changed certificate_secret_cert_key kubeconfig_key before s

  abbrev pub HasFrame : Effect → List Effect → Type 0
  HasFrame (secret_create x r) past = CreationGrounds MissesSecret x.meta past
  HasFrame (csr_create c r) past = CreationGrounds MissesCsr c.meta past
  HasFrame (binding_create b r) past =
      Occurs (MissesBinding (record { namespace = ""; name = b.meta.name })) past
  HasFrame (secret_update s r) past = UpdateGrounds s past
  HasFrame (kubeconfig_status_update k r) past = Occurs (ReadAs k.meta k.spec) past
  HasFrame _ past = Unit {0}

  abbrev pub IsFramed : List Effect → Type 0
  IsFramed [] = Unit {0}
  IsFramed (e ∷ past) = HasFrame e past × IsFramed past

  abbrev pub FramedExit : Exit → World P.State → Type 0
  FramedExit x w = IsFramed w.effects

  -- The run has read the Kubeconfig.
  abbrev pub Framed : Kubeconfig → World P.State → Type 0
  Framed k w = IsFramed w.effects × Occurs (ReadAs k.meta k.spec) w.effects
