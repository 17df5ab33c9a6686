-- ===== src/Lifecycle/Stages.antt =====
-- The stages of a Kubeconfig, read off the two objects that the API server keeps under its name, and
-- the moves between them.
use kubeconfig_operator.Base.{ℕ, Bool, not, ◌||◌, ◌==◌, ◌≡◌, ◌⊎◌, Option, none, some, if◌then◌else◌}
use kubeconfig_operator.K8s.{Condition, CsrObject}
use kubeconfig_operator.Api.Types.{Kubeconfig}
use kubeconfig_operator.Api.Conditions.{
  condition_type_kubeconfig_finished, condition_true, condition_unknown,
}
use kubeconfig_operator.Platform.{Platform}
use kubeconfig_operator.Controllers.Csr.{Approval, get_cert_approval_condition}

-- A Kubeconfig without a request, with one that waits for a decision, that was rejected or
-- granted, that carries its certificate; and its two ends.
pub data Stage : Type 0 where
  absent fresh waiting rejected granted issued done broken : Stage

infix 40 ◌⟶◌
-- What the operator may do.
pub data ◌⟶◌ : Stage → Stage → Type 0 where
  submit : fresh ⟶ waiting
  grant : waiting ⟶ granted
  grant_issued : waiting ⟶ issued
  reject : waiting ⟶ rejected
  complete : issued ⟶ done
  give_up : rejected ⟶ broken

ruleset moves = (submit, grant, grant_issued, reject, complete, give_up)

abbrev pub Moves : Stage → Stage → Type 0
Moves s t = (s ≡ t) ⊎ (s ⟶ t)

-- What administrators and the signer of the cluster do to a request, short of deleting it.
pub data Outside : Stage → Stage → Type 0 where
  make : Outside fresh waiting
  approve : Outside waiting granted
  approve_issue : Outside waiting issued
  deny : Outside waiting rejected
  deny_late : Outside granted rejected
  sign : Outside granted issued

-- How far a stage is from the start.
abbrev pub rank : Stage → ℕ
rank absent = 0
rank fresh = 0
rank waiting = 1
rank granted = 2
rank rejected = 3
rank issued = 3
rank done = 4
rank broken = 4

-- Under one name the API server keeps a Kubeconfig and a signing request.
pub record Snapshot : Type 0 where
  pub kubeconfig : Option Kubeconfig
  pub request : Option CsrObject

-- The request was deleted, by hand or by decay.
abbrev pub without_request : Snapshot → Snapshot
without_request s = record s { request = none }

abbrev pub with_request : CsrObject → Snapshot → Snapshot
with_request c s = record s { request = some c }

abbrev pub decision_stage : Approval → Bool → Stage
decision_stage a is_empty =
    if a.denied || a.failed
    then rejected
    else if not a.approved
    then waiting
    else if is_empty
    then granted
    else issued

unfoldable pub csr_stage : CsrObject → Stage
csr_stage c = decision_stage (get_cert_approval_condition c.conditions) (c.certificate == "")

unfoldable pub open_stage : Option CsrObject → Stage
open_stage none = fresh
open_stage (some c) = csr_stage c

unfoldable pub stage_of : Option Condition → Option CsrObject → Stage
stage_of none r = open_stage r
stage_of (some f) r =
    if f.status == condition_unknown
    then open_stage r
    else if f.status == condition_true
    then done
    else broken

module _ (P : Platform) where
  abbrev pub finish : Kubeconfig → Option Condition
  finish k = P.find_status_condition k.status.conditions condition_type_kubeconfig_finished

  unfoldable pub stage : Snapshot → Stage
  stage s = elim s.kubeconfig [ none ↦ absent | some k ↦ stage_of (finish k) s.request ]
