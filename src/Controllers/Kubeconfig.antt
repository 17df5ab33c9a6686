-- ===== src/Controllers/Kubeconfig.antt =====
-- controllers/kubeconfig_controller.go: `Reconcile` of the Kubeconfig controller. Its sections are
-- functions of the modules below, which end the run by `return` where the code does.
pub mod Objects
pub mod Request
pub mod Finish
pub mod Parts
use kubeconfig_operator.K8s.{NamespacedName}
use kubeconfig_operator.Platform.{Platform}
use kubeconfig_operator.Effects.{M, ◌>>=◌}
use kubeconfig_operator.Controllers.Csr.{get_cert_approval_condition}
use Objects.{load, user_secret}
use Request.{find_csr}
use Finish.{check_approval, issue}

module _ (P : Platform) where
  unfoldable pub reconcile : NamespacedName → M P.State ⊥
  reconcile name = do
    kubeconfig ← load P name
    o ← user_secret P kubeconfig
    csr ← find_csr P o
    k ← check_approval P o.kubeconfig (get_cert_approval_condition csr.conditions)
    issue P k o.secret csr.certificate
