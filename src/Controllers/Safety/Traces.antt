-- ===== src/Controllers/Safety/Traces.antt =====
-- Every run of the Kubeconfig controller leaves a trace in which each request is justified.
use kubeconfig_operator.Base.{true, false, ◌≡◌}
use kubeconfig_operator.Controllers.Kubeconfig.Parts.{reconcile-Ends, end_world-Ends}
use kubeconfig_operator.K8s.{NamespacedName}
use kubeconfig_operator.Platform.{Platform}
use kubeconfig_operator.Effects.{World, end_world}
use kubeconfig_operator.Controllers.Csr.{get_cert_approval_condition}
use kubeconfig_operator.Controllers.Kubeconfig.{reconcile}
use kubeconfig_operator.Controllers.Safety.{IsSafe, SafeExit}
use kubeconfig_operator.Controllers.Safety.Secrets.{Loaded, Ready, load-IsSafe, user_secret-IsSafe}
use kubeconfig_operator.Controllers.Safety.Requests.{Found, find_csr-IsSafe}
use kubeconfig_operator.Controllers.Safety.Binding.{
  HasRead, Never, check_approval-HasRead, issue-IsSafe,
}

module _ (P : Platform) where
  pub reconcile-IsSafe :
      (name : NamespacedName) (w : World P.State)
      → IsSafe w.effects
      → IsSafe (end_world (reconcile P name w)).effects
  reconcile-IsSafe name w h =
      end_world-Ends (Never P) (λ v. IsSafe v.effects) (reconcile P name w)
        (reconcile-Ends P (Never P) SafeExit (Loaded P) (Ready P) (λ o. Found P o.kubeconfig)
          (λ o csr k v.
            HasRead P k csr v
            × ((get_cert_approval_condition csr.conditions).approved ≡ true)
            × ((get_cert_approval_condition csr.conditions).denied ≡ false)
            × ((get_cert_approval_condition csr.conditions).failed ≡ false))
          name w (load-IsSafe P name w h) (user_secret-IsSafe P)
          (λ o v r. find_csr-IsSafe P o v r.0 r.1)
          (λ o csr v found.
            check_approval-HasRead P o.kubeconfig csr _ v
              (record { safe = found.0; read = found.1; read_csr = found.2 }))
          (λ o csr k v r. issue-IsSafe P k csr o.secret v r.0 r.1 r.2 r.3))
