-- ===== src/Tests/Failures.antt =====
-- Runs whose errors and cases are told.
use kubeconfig_operator.Base.{some, [], ◌∷◌, refl}
use kubeconfig_operator.K8s.{NamespacedName}
use kubeconfig_operator.Effects.{csr_get}
use kubeconfig_operator.Effects.Ends.{Ends}
use kubeconfig_operator.Controllers.Csr
use kubeconfig_operator.Controllers.Kubeconfig
use kubeconfig_operator.Controllers.Csr.Answers.{Answers}
use kubeconfig_operator.Controllers.Csr.Answers.Runs.{csr_reconcile-Answers}
use kubeconfig_operator.Controllers.Errors.{Reports}
use kubeconfig_operator.Controllers.Errors.Runs.{reconcile-Reports}
use kubeconfig_operator.Tests.Cluster.{platform, approved, open_csr, Store}

abbrev request : NamespacedName
request = record { namespace = ""; name = "alice" }

reconcile-Reports_example :
    Ends
      (λ _ _. ⊥)
      (Reports platform)
      (Kubeconfig.reconcile platform request (record { server = approved.server; effects = [] }))
reconcile-Reports_example = reconcile-Reports platform request (approved.server) refl

-- The cluster in which the request is open.
abbrev opened : Store
opened = record (approved.server) { csr = some open_csr }

csr_reconcile-Answers_example :
    Ends
      (λ _ _. ⊥)
      (Answers platform
        (platform.get_csr request opened).0
        (csr_get request (platform.get_csr request opened).0 ∷ []))
      (Csr.reconcile platform request (record { server = opened; effects = [] }))
csr_reconcile-Answers_example = csr_reconcile-Answers platform request opened
