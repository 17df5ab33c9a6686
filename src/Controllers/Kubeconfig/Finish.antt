-- ===== src/Controllers/Kubeconfig/Finish.antt =====
-- controllers/kubeconfig_controller.go, the end of `Reconcile`: the decision on the request, the
-- certificate, the kubeconfig file and the cluster role binding.
use kubeconfig_operator.Base.{String, true, not, ◌||◌, none, some, ◌<>◌, ◌==◌, if◌then◌else◌}
use kubeconfig_operator.K8s.{Secret, ClusterRoleBinding, Reply, Result, Fallible, ok, failed}
use kubeconfig_operator.Api.Types.{Kubeconfig}
use kubeconfig_operator.Api.Conditions.{
  condition_type_csr_approved, condition_type_user_secret_finished,
  condition_type_kubeconfig_finished, condition_true, condition_false, phase_done, phase_failed,
}
use kubeconfig_operator.Platform.{Platform}
use kubeconfig_operator.Effects.{
  M, return, ◌>>=◌, ◌>>◌, record_event, get_cluster_role_binding, create_cluster_role_binding,
  update_secret, update_kubeconfig_status,
}
use kubeconfig_operator.Controllers.Resources
use kubeconfig_operator.Controllers.Resources.{
  certificate_secret_cert_key, kubeconfig_key, create_kubeconfig,
}
use kubeconfig_operator.Controllers.Csr.{Approval, finished}
use kubeconfig_operator.Controllers.Kubeconfig.Objects.{
  mark, put_content, set_phase, binding_name, requeue_after,
}

-- `ctrl.Result{Requeue: true}`.
abbrev pub requeue : Result
requeue = record { requeue = true; requeue_after = 0 }

module _ (P : Platform) where
  unfoldable pub refused : Kubeconfig → M P.State Kubeconfig
  refused k = do
    k' ←
        mark P condition_type_csr_approved condition_false "CsrApproved"
          "CSR for the kubeconfig was denied or failed" k
    k'' ←
        mark P condition_type_kubeconfig_finished condition_false "Failed"
          "Kubeconfig creation failed in CSR stage" k'
    _ ← update_kubeconfig_status P (set_phase phase_failed k'')
    return finished none

  -- A denied or failed request ends the Kubeconfig, and a pending one the run.
  unfoldable pub check_approval : Kubeconfig → Approval → M P.State Kubeconfig
  check_approval k a =
      if a.denied || a.failed
      then refused k
      else if not a.approved
      then return finished none
      else mark P condition_type_csr_approved condition_true "CsrApproved"
          "CSR for the kubeconfig was approved" k

  -- The finished Kubeconfig is written back.
  unfoldable pub complete : Kubeconfig → M P.State ⊥
  complete k = do
    k' ←
        mark P condition_type_kubeconfig_finished condition_true "Finished"
          "Finished kubeconfig creation" k
    _ ← update_kubeconfig_status P (set_phase phase_done k')
    return finished none

  -- The API server's answer to the new binding.
  unfoldable pub binding_created : Kubeconfig → Reply ClusterRoleBinding → M P.State ⊥
  binding_created k r = elim r.err [ some e ↦ return requeue (some e) | none ↦ complete k ]

  unfoldable pub create_binding : Kubeconfig → M P.State ⊥
  create_binding k = do
    binding ← Resources.create_cluster_role_binding P k (binding_name k)
    r ← create_cluster_role_binding P binding
    binding_created k r

  unfoldable pub bind_user : Kubeconfig → M P.State ⊥
  bind_user k = do
    r ← get_cluster_role_binding P (binding_name k)
    if P.is_not_found r.err then create_binding k else elim r.err [
      | some e ↦ do
        record_event "Warning" "ClusterRoleBindingFailed"
            ("Failed to get clusterrolebinding, " <> e.message)
        return finished (some e)
      | none ↦ complete k
    ]

  -- The API server's answer to the update of the secret.
  unfoldable pub certificate_saved : Kubeconfig → Reply Secret → M P.State ⊥
  certificate_saved k r = elim r.err [
    | some e ↦ return finished (some e)
    | none ↦ do
      k' ←
          mark P condition_type_user_secret_finished condition_true "Upserted"
            "Upserted user secret with certificate from approved CSR" k
      bind_user k'
  ]

  unfoldable pub save_config : Kubeconfig → Secret → Fallible String → M P.State ⊥
  save_config k s (failed e) = do
    record_event "Warning" "KubeconfigSecretFailed" ("Failed to template kubeconfig, " <> e.message)
    return finished (some e)
  save_config k s (ok cfg) = do
    s' ← put_content P kubeconfig_key cfg s
    r ← update_secret P s'
    certificate_saved (record k { status = record (k.status) { kubeconfig = cfg } }) r

  unfoldable pub issue : Kubeconfig → Secret → String → M P.State ⊥
  issue k s cert =
      if cert == ""
      then (do _ ← update_kubeconfig_status P k; return (requeue_after 15) none)
      else (do
        s' ← put_content P certificate_secret_cert_key cert s
        cfg ← create_kubeconfig P k s'
        save_config k s' cfg)
