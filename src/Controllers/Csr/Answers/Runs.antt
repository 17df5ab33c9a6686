-- ===== src/Controllers/Csr/Answers/Runs.antt =====
-- Every run of the CSR controller is one of the cases.
use kubeconfig_operator.Base.{
  true, false, Option, none, some, List, [], ◌∷◌, ◌≡◌, refl, sym, ◌∙◌, inl, inr, Option-cases,
  Bool-cases, if◌then◌else◌, arith,
}
use kubeconfig_operator.K8s.{NamespacedName, Error, Reply, CsrObject, CsrCondition}
use kubeconfig_operator.Platform.{Platform}
use kubeconfig_operator.Effects.{World, M, return, csr_get, csr_approval_update, ◌>>=◌}
use kubeconfig_operator.Effects.Ends.{Ends, Ends-bind_run, Ends-total}
use kubeconfig_operator.Controllers.Csr.{
  finished, failed_condition, approved_condition, set_status_condition, decide_csr, approve_csr,
  report_failure, reconcile_csr, reconcile, parse_csr,
}
use kubeconfig_operator.Controllers.Csr.Conditions.{Upserted, set_status_condition-Upserted}
use kubeconfig_operator.Controllers.Csr.Answers.{
  is_due, Sets, Answer, missing, unread, left_alone, unparsable, approved, refused, Answers, Never,
}

module _ (P : Platform) where
  module _ (q : Reply CsrObject) (read : q.err ≡ none) (due : is_due q.object ≡ true) where
    setting :
        (new : CsrCondition) (w : World P.State)
        → Ends
            (Upserted q.object.conditions new w)
            (Answers P q w.effects)
            (set_status_condition P q.object.conditions new w)
    setting new w =
        Ends-total (Upserted q.object.conditions new w) (Answers P q w.effects)
          (set_status_condition P q.object.conditions new w)
          (set_status_condition-Upserted P q.object.conditions new w)

    -- The approval was sent.
    record IsSent (w : World P.State) (r : Reply CsrObject) (v : World P.State) : Type 0 where
      conditions : List CsrCondition
      answer : Reply CsrObject
      sets : Sets q.object.conditions approved_condition conditions
      object : r.object ≡ record (q.object) { conditions = conditions }
      err : r.err ≡ answer.err
      effects :
          v.effects
          ≡ csr_approval_update (record (q.object) { conditions = conditions }) answer ∷ w.effects

    sent :
        (w : World P.State)
        → parse_csr P q.object.request ≡ none
        → Ends (IsSent w) (Answers P q w.effects) (decide_csr P none q.object w)
    unfolding decide_csr
    sent w parse =
        Ends-bind_run (Upserted q.object.conditions approved_condition w) (IsSent w)
          (Answers P q w.effects) (set_status_condition P q.object.conditions approved_condition w)
          _ (setting approved_condition w)
          λ cs v up. record {
            conditions = cs;
            answer = (P.update_approval (record (q.object) { conditions = cs }) v.server).0;
            sets = (up.time, up.found);
            object = refl;
            err = refl;
            effects = rw up.quiet refl;
          }

    sent-Answers :
        parse_csr P q.object.request ≡ none
        → (w v : World P.State) (r : Reply CsrObject) → IsSent w r v
        → Ends (Never P) (Answers P q w.effects) (report_failure P r v)
    unfolding report_failure
    sent-Answers parse w v r h = elim (Option-cases r.err) [
      | inl fine ↦ rw fine (
        refl,
        rw h.effects (approved h.conditions h.answer read due parse h.sets (sym h.err ∙ fine)),
      )
      | inr (e, bad) ↦ rw bad (
        refl,
        rw (h.effects, h.object)
            (refused e h.conditions h.answer _ read due parse h.sets (sym h.err ∙ bad)),
      )
    ]

    -- The request was marked as failed.
    record IsMarked (e : Error) (w : World P.State) (r : Reply CsrObject) (v : World P.State)
        : Type 0 where
      conditions : List CsrCondition
      sets : Sets q.object.conditions (failed_condition e) conditions
      object : r ≡ record { object = record (q.object) { conditions = conditions }; err = some e }
      effects : v.effects ≡ w.effects

    marked :
        (e : Error) (w : World P.State)
        → Ends (IsMarked e w) (Answers P q w.effects) (decide_csr P (some e) q.object w)
    unfolding decide_csr
    marked e w =
        Ends-bind_run (Upserted q.object.conditions (failed_condition e) w) (IsMarked e w)
          (Answers P q w.effects)
          (set_status_condition P q.object.conditions (failed_condition e) w) _
          (setting (failed_condition e) w)
          λ cs v up. record {
            conditions = cs;
            sets = (up.time, up.found);
            object = refl;
            effects = up.quiet;
          }

    marked-Answers :
        (e : Error)
        → parse_csr P q.object.request ≡ some e
        → (w v : World P.State) (r : Reply CsrObject) → IsMarked e w r v
        → Ends (Never P) (Answers P q w.effects) (report_failure P r v)
    unfolding report_failure
    marked-Answers e parse w v r h =
        rw h.object (refl, rw h.effects (unparsable e h.conditions _ read due parse h.sets))

    decided :
        (o : Option Error) (w : World P.State)
        → parse_csr P q.object.request ≡ o
        → Ends (Never P) (Answers P q w.effects) ((decide_csr P o q.object >>= report_failure P) w)
    decided (some e) w parse =
        Ends-bind_run (IsMarked e w) (Never P) (Answers P q w.effects)
          (decide_csr P (some e) q.object w) (report_failure P) (marked e w)
          (λ r v h. marked-Answers e parse w v r h)
    decided none w parse =
        Ends-bind_run (IsSent w) (Never P) (Answers P q w.effects) (decide_csr P none q.object w)
          (report_failure P) (sent w parse) (λ r v h. sent-Answers parse w v r h)

  kept :
      (q : Reply CsrObject) (w : World P.State)
      → q.err ≡ none
      → is_due q.object ≡ false
      → Answer P q w.effects none w.effects
  kept q w read settled = left_alone read settled

  reconcile_csr-Answers :
      (q : Reply CsrObject) (w : World P.State)
      → q.err ≡ none
      → Ends (Never P) (Answers P q w.effects) (reconcile_csr P q.object w)
  unfolding reconcile_csr approve_csr
  reconcile_csr-Answers q w read = elim (Bool-cases (is_due q.object)) [
    | inl due ↦ ground (arith, due, decided q read due (parse_csr P q.object.request) w refl)
    | inr settled ↦ ground (arith, settled, kept q w read settled)
  ]

  -- The run after its read.
  abbrev after_read : CsrObject → Option Error → M P.State ⊥
  after_read csr (some e) =
      if P.is_not_found (some e) then return finished none else return finished (some e)
  after_read csr none = reconcile_csr P csr

  read-Answers :
      (q : Reply CsrObject) (o : Option Error) (w : World P.State)
      → q.err ≡ o
      → Ends (Never P) (Answers P q w.effects) (after_read q.object o w)
  read-Answers q none w read = reconcile_csr-Answers q w read
  read-Answers q (some e) w read = elim (Bool-cases (P.is_not_found (some e))) [
    | inl gone ↦ rw gone (refl, missing e read gone)
    | inr there ↦ rw there (refl, unread e read there)
  ]

  -- A run of the CSR controller returns the empty result without a panic, and does one of these. After a read
  -- that found nothing it returns no error, after one that failed its error, and sends nothing more, nor for a
  -- request that is not due: not a Kubeconfig's, not annotated, or decided. A due request that parses is sent
  -- back once with the condition "Approved" set and all others as they were, and no error is returned if
  -- this is taken. If it is not taken, or the request does not parse and "Failed" is set instead, a warning is recorded, the
  -- status is sent, and the error returned.
  pub csr_reconcile-Answers :
      (name : NamespacedName) (s : P.State)
      → Ends
          (λ _ _. ⊥)
          (Answers P (P.get_csr name s).0 (csr_get name (P.get_csr name s).0 ∷ []))
          (reconcile P name (record { server = s; effects = [] }))
  unfolding reconcile
  csr_reconcile-Answers name s = read-Answers (P.get_csr name s).0 (P.get_csr name s).0.err _ refl
