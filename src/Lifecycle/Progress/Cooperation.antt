-- ===== src/Lifecycle/Progress/Cooperation.antt =====
-- What a run of the Kubeconfig controller needs to get on, and how far it then gets.
use kubeconfig_operator.Base.{String, true, false, none, some, ◌≡◌, ◌⊎◌, is_some}
use kubeconfig_operator.K8s.{NamespacedName, Secret, CsrObject}
use kubeconfig_operator.Api.Types.{Kubeconfig, SecretRef, CertificateSigningRequest}
use kubeconfig_operator.Platform.{Platform}
use kubeconfig_operator.Platform.Laws.{HasErrorLaws}
use kubeconfig_operator.Controllers.Keys.{key_case}
use kubeconfig_operator.Controllers.Panics.{IsSound}
use kubeconfig_operator.Controllers.Outcomes.Submission.{Submits, HasKeyType}
use kubeconfig_operator.Controllers.Outcomes.Completion.{Accepts}
use kubeconfig_operator.Lifecycle.Stages.{
  Stage, absent, fresh, waiting, rejected, granted, issued, done, broken,
}
use kubeconfig_operator.Lifecycle.Server.{Server, cluster_name}

-- The stage after a run: it does what is up to the controller, and waits for all else.
abbrev pub next : Stage → Stage
next fresh = waiting
next issued = done
next rejected = broken
next absent = absent
next waiting = waiting
next granted = granted
next done = done
next broken = broken

-- The objects under the name are served and their writes are taken; secrets are found or can be
-- created; the Kubeconfig asks for an algorithm that the controller has keys for, and if it names
-- an existing secret, there is one.
pub record Cooperates (P : Platform) (name : String) (V : Server P name) : Type 0 where
  pub sound : IsSound P
  pub submits : Submits P
  pub accepts : Accepts P
  pub errors : HasErrorLaws P
  pub kubeconfig_served :
      (s : P.State)
      → is_some (V.view s).kubeconfig ≡ true
      → (P.get_kubeconfig (cluster_name name) s).0.err ≡ none
  pub csr_served :
      (s : P.State)
      → is_some (V.view s).request ≡ true
      → (P.get_csr (cluster_name name) s).0.err ≡ none
  pub csr_refused :
      (s : P.State)
      → (V.view s).request ≡ none
      → P.is_not_found (P.get_csr (cluster_name name) s).0.err ≡ true
  pub secret_answers :
      (n : NamespacedName) (s : P.State)
      → (P.is_not_found (P.get_secret n s).0.err ≡ true) ⊎ ((P.get_secret n s).0.err ≡ none)
  pub secret_created : (x : Secret) (s : P.State) → (P.create_secret x s).0.err ≡ none
  pub status_taken :
      (k : Kubeconfig) (s : P.State)
      → k.meta.name ≡ name
      → is_some (V.view s).kubeconfig ≡ true
      → (P.update_kubeconfig_status k s).0.err ≡ none
  pub approval_taken :
      (c : CsrObject) (s : P.State)
      → c.meta.name ≡ name
      → is_some (V.view s).request ≡ true
      → (P.update_approval c s).0.err ≡ none
  pub algorithm :
      (s : P.State) (c : CertificateSigningRequest)
      → (P.get_kubeconfig (cluster_name name) s).0.object.spec.csr ≡ some c
      → HasKeyType (key_case c.signature_algorithm)
  pub existing :
      (s t : P.State) (ref : SecretRef)
      → (P.get_kubeconfig (cluster_name name) s).0.object.spec.existing_csr ≡ some ref
      → P.is_not_found
          (P.get_secret (record { namespace = ref.namespace; name = ref.name }) t).0.err
        ≡ false
