-- ===== src/Controllers/Errors/Runs.antt =====
-- Every run of the Kubeconfig controller reports what failed.
use kubeconfig_operator.Controllers.Kubeconfig.Parts.{reconcile-Ends}
use kubeconfig_operator.Base.{none, ◌≡◌, []}
use kubeconfig_operator.K8s.{NamespacedName}
use kubeconfig_operator.Platform.{Platform}
use kubeconfig_operator.Effects.Ends.{Ends}
use kubeconfig_operator.Controllers.Csr.{get_cert_approval_condition}
use kubeconfig_operator.Controllers.Kubeconfig.{reconcile}
use kubeconfig_operator.Controllers.Errors.{Reports}
use kubeconfig_operator.Controllers.Errors.Steps.{
  Clean, load-Reports, user_secret-Reports, find_csr-Reports,
}
use kubeconfig_operator.Controllers.Errors.Endings.{check_approval-Reports, issue-Reports}

module _ (P : Platform) where
  -- A run of the Kubeconfig controller for a Kubeconfig that names no existing secret swallows no failure of
  -- the API server. If it returns no error, none of its requests has failed, apart from reads that found nothing and
  -- writes of the status; and an error that it returns is one with which the API server has answered it.
  pub reconcile-Reports :
      (name : NamespacedName) (s : P.State)
      → (P.get_kubeconfig name s).0.object.spec.existing_csr ≡ none
      → Ends (λ _ _. ⊥) (Reports P) (reconcile P name (record { server = s; effects = [] }))
  reconcile-Reports name s own =
      reconcile-Ends P (λ _ _. ⊥) (Reports P) (λ k v. Clean P k v × (k.spec.existing_csr ≡ none))
        (Clean P) (λ _. Clean P) (λ _ _. Clean P) name _ (load-Reports P name _ own tt)
        (λ k v fine. user_secret-Reports P k v fine.1 fine.0) (find_csr-Reports P)
        (λ o csr.
          check_approval-Reports P o.kubeconfig (get_cert_approval_condition csr.conditions))
        (λ o csr k. issue-Reports P k o.secret csr.certificate)
