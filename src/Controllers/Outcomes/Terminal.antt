-- ===== src/Controllers/Outcomes/Terminal.antt =====
-- The last write of a run whose request is refused, and of one that completes.
use kubeconfig_operator.Base.{◌||◌, String, ◌==◌, true, false, ◌≡◌, none, some, ◌∷◌, refl, arith}
use kubeconfig_operator.K8s.{Condition, CsrObject, Reply}
use kubeconfig_operator.Api.Types.{Kubeconfig}
use kubeconfig_operator.Api.Conditions.{
  condition_type_kubeconfig_finished, condition_type_csr_approved, condition_true,
  condition_unknown, condition_false, phase_done, phase_failed,
}
use kubeconfig_operator.Platform.{Platform}
use kubeconfig_operator.Platform.Laws.{HasConditionLaws, HasErrorLaws}
use kubeconfig_operator.Effects.{World, answered, csr_get, ◌>>=◌, kubeconfig_status_update}
use kubeconfig_operator.Effects.Ends.{Exit, returns, Ends, Ends-bind_run}
use kubeconfig_operator.Controllers.Csr.{finished}
use kubeconfig_operator.Controllers.Keys.{is_in_terminal_condition}
use kubeconfig_operator.Controllers.Csr.{
  certificate_denied, certificate_failed, get_cert_approval_condition,
}
use kubeconfig_operator.Controllers.Csr.Conditions.{has_type, get_cert_approval_condition-has_type}
use kubeconfig_operator.Controllers.Kubeconfig.Objects.{Objects, mark}
use kubeconfig_operator.Controllers.Kubeconfig.Request.{csr_name, find_csr}
use kubeconfig_operator.Controllers.Kubeconfig.Finish.{refused, complete, check_approval, issue}

module _ (P : Platform) where
  -- The run returned without error, and the one request that it added wrote this Kubeconfig, in this
  -- phase and in its terminal condition.
  abbrev pub WritesTerminal : String → Kubeconfig → World P.State → Exit → World P.State → Type 0
  WritesTerminal phase own w x v =
      (x ≡ returns finished none)
      × ((k : Kubeconfig) × (r : Reply Kubeconfig) × (v.effects
            ≡ kubeconfig_status_update k r ∷ w.effects)
          × (k.meta ≡ own.meta)
          × (k.spec ≡ own.spec)
          × (k.status.status ≡ phase)
          × (is_in_terminal_condition P k ≡ true))

  finished_of_found :
      (k : Kubeconfig) (c : Condition)
      → P.find_status_condition k.status.conditions condition_type_kubeconfig_finished ≡ some c
      → (c.status == condition_unknown) ≡ false
      → is_in_terminal_condition P k ≡ true
  unfolding is_in_terminal_condition
  finished_of_found k c found known = ground arith

  -- The end of a successful run.
  pub complete-WritesTerminal :
      HasConditionLaws P
      → (k : Kubeconfig) (w : World P.State)
      → Ends (λ _ _. ⊥) (WritesTerminal phase_done k w) (complete P k w)
  unfolding complete mark
  complete-WritesTerminal L k w =
      let set =
        L.set_self k.status.conditions
          (record {
            type = condition_type_kubeconfig_finished;
            status = condition_true;
            last_transition_time = none;
            reason = "Finished";
            message = "Finished kubeconfig creation";
          })
          w.server in
      (refl, (_, _, refl, refl, refl, refl, finished_of_found _ set.0 (set.1) (rw (set.2) refl)))

  -- The end of a run for a rejected request.
  refused-WritesTerminal :
      HasConditionLaws P
      → (k : Kubeconfig) (w : World P.State)
      → Ends (λ _ _. ⊥) (WritesTerminal phase_failed k w) (refused P k w)
  unfolding refused mark
  refused-WritesTerminal L k w =
      let first =
        P.set_status_condition k.status.conditions
          (record {
            type = condition_type_csr_approved;
            status = condition_false;
            last_transition_time = none;
            reason = "CsrApproved";
            message = "CSR for the kubeconfig was denied or failed";
          })
          w.server in
      let set =
        L.set_self first.0
          (record {
            type = condition_type_kubeconfig_finished;
            status = condition_false;
            last_transition_time = none;
            reason = "Failed";
            message = "Kubeconfig creation failed in CSR stage";
          })
          first.1 in
      (refl, (_, _, refl, refl, refl, refl, finished_of_found _ set.0 (set.1) (rw (set.2) refl)))

  decided-WritesTerminal :
      HasConditionLaws P
      → (o : Objects) (csr : CsrObject) (w : World P.State)
      → (has_type certificate_denied csr.conditions || has_type certificate_failed csr.conditions)
        ≡ true
      → Ends
          (λ _ _. ⊥)
          (WritesTerminal phase_failed o.kubeconfig w)
          ((check_approval P o.kubeconfig (get_cert_approval_condition csr.conditions) >>= λ k.
              issue P k o.secret csr.certificate)
            w)
  unfolding check_approval
  decided-WritesTerminal L o csr w rejected =
      rw (get_cert_approval_condition-has_type csr.conditions) (
        rw rejected (
          Ends-bind_run (λ _ _. ⊥) (λ _ _. ⊥) (WritesTerminal phase_failed o.kubeconfig w)
            (refused P o.kubeconfig w) _ (refused-WritesTerminal L o.kubeconfig w)
            (λ _ _ x. absurd x)))

  -- A run whose secret is at hand reads the request of its Kubeconfig. If the request has a condition
  -- "Denied" or one "Failed", among any others, the run returns without error and sends one request more, which writes
  -- this Kubeconfig in phase "Failed" and in its terminal condition. The helpers for conditions and
  -- errors are taken to be lawful.
  pub find_csr-WritesTerminal :
      HasConditionLaws P
      → HasErrorLaws P
      → (o : Objects) (w : World P.State)
      → (P.get_csr (csr_name o.kubeconfig) w.server).0.err ≡ none
      → (has_type certificate_denied
            (P.get_csr (csr_name o.kubeconfig) w.server).0.object.conditions
          || has_type certificate_failed
              (P.get_csr (csr_name o.kubeconfig) w.server).0.object.conditions)
        ≡ true
      → Ends
          (λ _ _. ⊥)
          (WritesTerminal phase_failed o.kubeconfig
            (answered (csr_get (csr_name o.kubeconfig)) (P.get_csr (csr_name o.kubeconfig)) w))
          ((find_csr P o >>= λ csr.
              check_approval P o.kubeconfig (get_cert_approval_condition csr.conditions) >>= λ k.
              issue P k o.secret csr.certificate)
            w)
  unfolding find_csr
  find_csr-WritesTerminal L M o w there rejected =
      rw (there, M.nil_is_found)
        (decided-WritesTerminal L o (P.get_csr (csr_name o.kubeconfig) w.server).0.object _
          rejected)
