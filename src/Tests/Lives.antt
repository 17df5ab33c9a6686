-- ===== src/Tests/Lives.antt =====
-- The life of "alice" on the cluster with names.
use kubeconfig_operator.Base.Dict
use kubeconfig_operator.Base.{
  ◌*◌, none, inl, true, is_some, String, ◌⊎◌, none, some, ℕ, ◌+◌, ◌≤◌, none, some, ◌≡◌, refl,
}
use kubeconfig_operator.Effects.{World, end_world}
use kubeconfig_operator.Controllers.Csr
use kubeconfig_operator.Controllers.Kubeconfig
use kubeconfig_operator.Controllers.Csr.{
  approval_loop, get_cert_approval_condition, has_auto_approve_annotation, has_kubeconfig_owner,
  is_kubeconfig_v1alpha1_csr, find_status_condition, set_status_condition, parse_csr, decide_csr,
  approve_csr, report_failure, reconcile_csr,
}
use kubeconfig_operator.Controllers.Kubeconfig.Objects.{
  mark, put_content, load, existing_secret, created_secret, own_secret, secret_for, user_secret,
}
use kubeconfig_operator.Controllers.Kubeconfig.Request.{
  generation_failed, csr_submitted, key_saved, save_key, generated, request_certificate, find_csr,
}
use kubeconfig_operator.Controllers.Kubeconfig.Finish.{
  refused, check_approval, complete, binding_created, create_binding, bind_user, certificate_saved,
  save_config, issue,
}
use kubeconfig_operator.Controllers.Keys.{
  labels_for_subresources, parse_signature_algorithm, key_case, key_and_request, create_csr,
  is_in_terminal_condition,
}
use kubeconfig_operator.Controllers.Resources.{
  client_data, create_cluster_role_binding, create_user_secret, create_csr_object, ca_of,
  cluster_ca, client_config, create_kubeconfig,
}
use kubeconfig_operator.Lifecycle.Stages.{
  Stage, Moves, stage, csr_stage, open_stage, stage_of, rank, done, fresh, waiting, granted, issued,
}
use kubeconfig_operator.Lifecycle.Server.{cluster_name}
use kubeconfig_operator.Lifecycle.Copies.{seen}
use kubeconfig_operator.Lifecycle.Refinement.{OperatorStep, kubeconfig_run, csr_run, operator-Moves}
use kubeconfig_operator.Lifecycle.Bounds.{
  Life, born, run, deleted, changes, Life-bounded, Life-ended,
}
use kubeconfig_operator.Lifecycle.Progress.Cooperation.{next}
use kubeconfig_operator.Lifecycle.Progress.Approval.{IsAuto, after_csr_run, csr_reconcile-granted}
use kubeconfig_operator.Lifecycle.Progress.Together.{reconcile-granted, reconcile-done}
use kubeconfig_operator.Effects.Ends.{Ends}
use kubeconfig_operator.Lifecycle.Progress.Polling.{Polls, reconcile-Polls}
use kubeconfig_operator.Lifecycle.Progress.Next.{reconcile-next}
use kubeconfig_operator.Tests.Cluster
use kubeconfig_operator.Tests.Cluster.{Store, open_csr}
use kubeconfig_operator.Tests.Names.{named, named_server, named-HasConditionLaws}
use kubeconfig_operator.Tests.Cooperation.{
  signed_store, signed_store-IsSigned, named-HasOwnerLaws, named-Cooperates,
}

abbrev alice_stage : World Store → Stage
alice_stage w = stage named (seen named "alice" named_server w)

-- The first run sends the request, the second controller approves it, the signer adds a
-- certificate, and the last run completes.
abbrev requested : World Store
requested = end_world (Kubeconfig.reconcile named (cluster_name "alice") Cluster.fresh)

abbrev approved : World Store
approved = end_world (Csr.reconcile named (cluster_name "alice") requested)

abbrev signed : World Store
signed = record approved { server = signed_store approved.server }

abbrev completed : World Store
completed = end_world (Kubeconfig.reconcile named (cluster_name "alice") signed)

-- The stages of this life.
stages :
    (alice_stage Cluster.fresh ≡ fresh)
    × (alice_stage requested ≡ waiting)
    × (alice_stage approved ≡ granted)
    × (alice_stage signed ≡ issued)
    × (alice_stage completed ≡ done)
    × (is_some approved.server.csr ≡ true)
unfolding named_server stage stage_of open_stage csr_stage Csr.reconcile Kubeconfig.reconcile
    approval_loop get_cert_approval_condition has_auto_approve_annotation has_kubeconfig_owner
    is_kubeconfig_v1alpha1_csr find_status_condition set_status_condition parse_csr decide_csr
    approve_csr report_failure reconcile_csr mark put_content load existing_secret created_secret
    own_secret secret_for user_secret generation_failed csr_submitted key_saved save_key generated
    request_certificate find_csr refused check_approval complete binding_created create_binding
    bind_user certificate_saved save_config issue labels_for_subresources parse_signature_algorithm
    key_case key_and_request create_csr is_in_terminal_condition client_data
    create_cluster_role_binding create_user_secret create_csr_object ca_of cluster_ca client_config
    create_kubeconfig Dict.lookup
stages = (refl, refl, refl, refl, refl, refl)

operator-Moves_example : Moves (alice_stage signed) (alice_stage completed)
operator-Moves_example =
    operator-Moves named "alice" named_server named-HasConditionLaws signed completed
      (kubeconfig_run "alice" signed)

abbrev AliceLife : ℕ → ℕ → World Store → Type 0
AliceLife n d w = Life named "alice" named_server n d Cluster.fresh w

abbrev changed : World Store → World Store → ℕ
changed v w = changes (alice_stage v) (alice_stage w)

-- Somebody deletes the request before the controller approves it, and the next run makes another one.
abbrev withdrawn : World Store
withdrawn = record requested { server = record (requested.server) { csr = none } }

abbrev repeated : World Store
repeated = end_world (Kubeconfig.reconcile named (cluster_name "alice") withdrawn)

repeated-AliceLife :
    AliceLife
      (0
        + changed Cluster.fresh requested
        + changed requested withdrawn
        + changed withdrawn repeated)
      1
      repeated
unfolding named_server
repeated-AliceLife =
    run (deleted withdrawn.server (run born (kubeconfig_run "alice" Cluster.fresh) refl) refl refl)
      (kubeconfig_run "alice" withdrawn) refl

Life-bounded_example :
    (0 + changed Cluster.fresh requested + changed requested withdrawn + changed withdrawn repeated)
      + rank (alice_stage Cluster.fresh)
    ≤ rank (alice_stage repeated) + 4 * 1
Life-bounded_example =
    Life-bounded named "alice" named_server named-HasConditionLaws repeated-AliceLife

-- A life that starts at the end.
settled :
    (w : World Store)
    → OperatorStep named completed w
    → Life named "alice" named_server (0 + changed completed w) 0 completed w
settled w step = run born step refl

Life-ended_example :
    alice_stage (end_world (Csr.reconcile named (cluster_name "alice") completed))
    ≡ alice_stage completed
Life-ended_example =
    Life-ended named "alice" named_server named-HasConditionLaws
      (settled (end_world (Csr.reconcile named (cluster_name "alice") completed))
        (csr_run "alice" completed))
      (inl stages.4)

reconcile-next_example : alice_stage completed ≡ next (alice_stage signed)
reconcile-next_example =
    reconcile-next named "alice" named_server named-HasConditionLaws named-Cooperates signed

read_csr : (t : String) → parse_csr named t ≡ none
unfolding parse_csr
read_csr t = refl

-- The cluster in which the request is open.
abbrev opened : World Store
opened = record (Cluster.fresh) { server = record (Cluster.fresh.server) { csr = some open_csr } }

opened_waits : alice_stage opened ≡ waiting
unfolding named_server stage stage_of open_stage csr_stage get_cert_approval_condition approval_loop
opened_waits = refl

opened-IsAuto : IsAuto named open_csr
unfolding is_kubeconfig_v1alpha1_csr has_kubeconfig_owner has_auto_approve_annotation Dict.lookup
opened-IsAuto = record { owned = refl; annotated = refl; parses = read_csr open_csr.request }

csr_reconcile-granted_example :
    alice_stage
      (after_csr_run named "alice" named_server named-HasConditionLaws named-Cooperates opened)
    ≡ granted
unfolding named_server
csr_reconcile-granted_example =
    csr_reconcile-granted named "alice" named_server named-HasConditionLaws named-Cooperates opened
      open_csr refl opened_waits opened-IsAuto

reconcile-granted_example : (alice_stage approved ≡ granted) ⊎ (alice_stage approved ≡ issued)
unfolding named_server
reconcile-granted_example =
    reconcile-granted named "alice" named_server named-HasConditionLaws named-Cooperates
      named-HasOwnerLaws Cluster.fresh Cluster.sample refl refl stages.0 (λ c h. read_csr c.request)

reconcile-done_example : alice_stage completed ≡ done
unfolding named_server
reconcile-done_example =
    reconcile-done named "alice" named_server named-HasConditionLaws named-Cooperates
      named-HasOwnerLaws Cluster.fresh Cluster.sample signed.server refl refl stages.0
      (λ c h. read_csr c.request) (signed_store-IsSigned approved.server stages.5)

reconcile-Polls_example :
    Ends (λ _ _. ⊥) Polls (Kubeconfig.reconcile named (cluster_name "alice") approved)
reconcile-Polls_example =
    reconcile-Polls named "alice" named_server named-HasConditionLaws named-Cooperates approved
      stages.2
