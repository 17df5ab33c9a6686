-- ===== src/Controllers/Csr/Answers.antt =====
-- What a run of the CSR controller does, as a list of its cases.
pub mod Runs
use kubeconfig_operator.Base.{
  ℕ, String, Bool, true, false, not, ◌&&◌, Option, none, some, List, [], ◌∷◌, ◌<>◌, ◌==◌, ◌≡◌, refl,
  sym, ◌∙◌, inl, inr, Option-cases, Bool-cases, if◌then◌else◌, arith,
}
use kubeconfig_operator.K8s.{NamespacedName, Error, Reply, CsrObject, CsrCondition}
use kubeconfig_operator.Platform.{Platform}
use kubeconfig_operator.Effects.{
  Effect, World, M, return, csr_get, csr_approval_update, csr_status_update, event, ◌>>=◌,
}
use kubeconfig_operator.Effects.Ends.{Exit, returns, panics, Ends, Ends-bind_run, Ends-total}
use kubeconfig_operator.Controllers.Csr.{
  finished, get_cert_approval_condition, has_auto_approve_annotation, is_kubeconfig_v1alpha1_csr,
  failed_condition, approved_condition, find_status_condition, set_status_condition, decide_csr,
  approve_csr, report_failure, reconcile_csr, reconcile, parse_csr,
}
use kubeconfig_operator.Controllers.Csr.Conditions.{Upserted, set_status_condition-Upserted}

-- The request belongs to a Kubeconfig, asks for automatic approval, and is undecided.
abbrev pub is_due : CsrObject → Bool
is_due csr =
    let a = get_cert_approval_condition csr.conditions in
    is_kubeconfig_v1alpha1_csr csr
    && (has_auto_approve_annotation csr && (not a.approved && not a.denied && not a.failed))

-- The condition was set, at some time, and those of the other types are as they were.
abbrev pub Sets : List CsrCondition → CsrCondition → List CsrCondition → Type 0
Sets old new cs =
    (time : Option ℕ) × ((t : String)
      → find_status_condition cs t ≡ (
          if new.type == t
          then some (record new { last_transition_time = time })
          else find_status_condition old t))

abbrev pub failure_event : Error → Effect
failure_event e = event "Warning" "Failed" ("Failed to approve CSR, " <> e.message)

module _ (P : Platform) where
  -- The error that is returned and the effects, for the request as it was read: with `past` before.
  pub data Answer (q : Reply CsrObject) (past : List Effect)
      : Option Error → List Effect → Type 0 where
    -- The request is not there.
    missing :
        (e : Error) → q.err ≡ some e → P.is_not_found (some e) ≡ true → Answer q past none past
    -- The read failed.
    unread :
        (e : Error) → q.err ≡ some e → P.is_not_found (some e) ≡ false → Answer q past (some e) past
    left_alone : q.err ≡ none → is_due q.object ≡ false → Answer q past none past
    -- The request does not parse, and is reported as failed.
    unparsable :
        (e : Error) (cs : List CsrCondition) (b : Reply CsrObject)
        → q.err ≡ none
        → is_due q.object ≡ true
        → parse_csr P q.object.request ≡ some e
        → Sets q.object.conditions (failed_condition e) cs
        → Answer q past
            (some e)
            (csr_status_update (record (q.object) { conditions = cs }) b ∷ failure_event e ∷ past)
    approved :
        (cs : List CsrCondition) (a : Reply CsrObject)
        → q.err ≡ none
        → is_due q.object ≡ true
        → parse_csr P q.object.request ≡ none
        → Sets q.object.conditions approved_condition cs
        → a.err ≡ none
        → Answer q past none (csr_approval_update (record (q.object) { conditions = cs }) a ∷ past)
    -- The API server does not take the approval.
    refused :
        (e : Error) (cs : List CsrCondition) (a b : Reply CsrObject)
        → q.err ≡ none
        → is_due q.object ≡ true
        → parse_csr P q.object.request ≡ none
        → Sets q.object.conditions approved_condition cs
        → a.err ≡ some e
        → Answer q past (some e) (
            csr_status_update (record (q.object) { conditions = cs }) b
            ∷ failure_event e
            ∷ csr_approval_update (record (q.object) { conditions = cs }) a
            ∷ past)

  -- The run returns the empty result, without a panic.
  abbrev pub Answers : Reply CsrObject → List Effect → Exit → World P.State → Type 0
  Answers q past (returns r e) w = (r ≡ finished) × Answer q past e w.effects
  Answers q past panics w = ⊥

  -- The run does not go on.
  abbrev pub Never : {A : Type 0} → A → World P.State → Type 0
  Never a w = ⊥
