-- ===== src/Lifecycle/Progress/Completion.antt =====
-- An issued request leads to a finished Kubeconfig, and a rejected one to a broken one.
use kubeconfig_operator.Base.{
  String, true, false, none, some, ◌≡◌, refl, ◌∙◌, ap, inl, inr, ◌==◌, is_some, arith,
  if◌then◌else◌, Option-cases,
}
use kubeconfig_operator.K8s.{
  NamespacedName, Secret, Condition, ClusterRoleBinding, Reply, Fallible, ok, failed,
}
use kubeconfig_operator.Api.Types.{Kubeconfig}
use kubeconfig_operator.Api.Conditions.{
  condition_type_csr_approved, condition_type_user_secret_finished,
  condition_type_kubeconfig_finished, condition_true, condition_false, condition_unknown,
  phase_done, phase_failed,
}
use kubeconfig_operator.Platform.{Platform}
use kubeconfig_operator.Platform.Laws.{HasConditionLaws}
use kubeconfig_operator.Effects.{
  World, return, ◌>>=◌, update_kubeconfig_status, answered, binding_get,
}
use kubeconfig_operator.Effects.Ends.{Ends, Ends-and, Ends-bind_run, Ends-total}
use kubeconfig_operator.Controllers.Csr.{finished}
use kubeconfig_operator.Controllers.Panics.{HasContent}
use kubeconfig_operator.Controllers.Outcomes.Completion.{IsOk, create_kubeconfig-IsOk}
use kubeconfig_operator.Controllers.Resources
use kubeconfig_operator.Controllers.Resources.{create_kubeconfig}
use kubeconfig_operator.Controllers.Kubeconfig.Objects.{set_phase, mark, put_content, binding_name}
use kubeconfig_operator.Controllers.Kubeconfig.Finish.{
  complete, refused, binding_created, create_binding, bind_user, certificate_saved, save_config,
  issue,
}
use kubeconfig_operator.Lifecycle.Stages.{Snapshot, done, broken, stage, stage_of, finish}
use kubeconfig_operator.Lifecycle.Server.{Server}
use kubeconfig_operator.Lifecycle.Copies.{
  seen, Copy, Copy-again, mark-Copy, mark-then, written_stage,
}
use kubeconfig_operator.Lifecycle.Endings.{create_kubeconfig-Quiet}
use kubeconfig_operator.Lifecycle.Progress.Cooperation.{Cooperates}
use kubeconfig_operator.Lifecycle.Progress.Submission.{Reaches}

module _ (P : Platform) (name : String) (V : Server P name) (L : HasConditionLaws P)
    (C : Cooperates P name V) where
  -- The write of a finished copy is taken.
  write-Reaches :
      (σ : Snapshot) (j : Kubeconfig) (c : Condition) (s : P.State)
      → V.view s ≡ σ
      → j.meta.name ≡ name
      → is_some σ.kubeconfig ≡ true
      → finish P j ≡ some c
      → (c.status == condition_unknown) ≡ false
      → stage P (V.view (P.update_kubeconfig_status j s).1)
        ≡ (if c.status == condition_true then done else broken)
  unfolding stage_of
  write-Reaches σ j c s same named kept found known = elim (V.status_write j s named) [
    | inl lost ↦ cc (rw (C.status_taken j s named (rw same kept)) at lost.1)
    | inr written ↦ written_stage P name V j _ _ _ written (λ k st.
        rw
          (
            ap (λ x. P.find_status_condition x.conditions condition_type_kubeconfig_finished) st
                ∙ found,
            known,
          )
          refl)
  ]

  finish-Reaches :
      (A : Type 0) (status reason message phase : String) (σ : Snapshot) (k : Kubeconfig)
      (w : World P.State)
      → Copy P name V name σ k w
      → (status == condition_unknown) ≡ false
      → Ends {A = A}
          (λ _ _. ⊥)
          (Reaches P name V (if status == condition_true then done else broken))
          ((mark P condition_type_kubeconfig_finished status reason message k >>= λ k'.
              update_kubeconfig_status P (set_phase phase k') >>= λ _. return finished none)
            w)
  unfolding mark
  finish-Reaches A status reason message phase σ k w h known =
      let c : Condition = record {
        type = condition_type_kubeconfig_finished;
        status = status;
        last_transition_time = none;
        reason = reason;
        message = message;
      } in
      let set = L.set_self k.status.conditions c w.server in
      write-Reaches σ _ set.0 _ (V.set_status_condition k.status.conditions c w.server ∙ h.same)
        h.named (rw (h.mine refl).kept refl) (set.1) (rw set.2 known)
      ∙ ap (λ x. if x == condition_true then done else broken) (set.2)

  pub refused-Reaches :
      (σ : Snapshot) (k : Kubeconfig) (w : World P.State)
      → Copy P name V name σ k w
      → Ends (λ _ _. ⊥) (Reaches P name V broken) (refused P k w)
  unfolding refused
  refused-Reaches σ k w h =
      mark-then P name V (λ _ _. ⊥) (Reaches P name V broken) L name condition_type_csr_approved
        condition_false "CsrApproved" "CSR for the kubeconfig was denied or failed" σ k _ w refl h
        (λ k' v copy.
          finish-Reaches _ condition_false "Failed" "Kubeconfig creation failed in CSR stage"
            phase_failed σ k' v copy refl)

  complete-Reaches :
      (σ : Snapshot) (k : Kubeconfig) (w : World P.State)
      → Copy P name V name σ k w
      → Ends (λ _ _. ⊥) (Reaches P name V done) (complete P k w)
  unfolding complete
  complete-Reaches σ k w h =
      finish-Reaches _ condition_true "Finished" "Finished kubeconfig creation" phase_done σ k w h
        refl

  binding_created-Reaches :
      (σ : Snapshot) (k : Kubeconfig) (r : Reply ClusterRoleBinding) (w : World P.State)
      → Copy P name V name σ k w
      → r.err ≡ none
      → Ends (λ _ _. ⊥) (Reaches P name V done) (binding_created P k r w)
  unfolding binding_created
  binding_created-Reaches σ k r w h fine = rw fine (complete-Reaches σ k w h)

  create_binding-Reaches :
      (σ : Snapshot) (k : Kubeconfig) (w : World P.State)
      → Copy P name V name σ k w
      → is_some k.spec.role_ref ≡ true
      → Ends (λ _ _. ⊥) (Reaches P name V done) (create_binding P k w)
  unfolding create_binding Resources.create_cluster_role_binding
  create_binding-Reaches σ k w h role = elim (Option-cases k.spec.role_ref) [
    | inl nil ↦ cc (rw nil at role)
    | inr (r, given) ↦ rw given (
        binding_created-Reaches σ _ _ _
          (Copy-again P name V name σ k _ w _ h refl refl (V.create_binding _ w.server))
          (C.accepts.binding_created _ w.server))
  ]

  bind_user-Reaches :
      (σ : Snapshot) (k : Kubeconfig) (w : World P.State)
      → Copy P name V name σ k w
      → is_some k.spec.role_ref ≡ true
      → Ends (λ _ _. ⊥) (Reaches P name V done) (bind_user P k w)
  unfolding bind_user
  bind_user-Reaches σ k w h role =
      let n : NamespacedName = binding_name k in
      let v : World P.State = answered (binding_get n) (P.get_cluster_role_binding n) w in
      let read : Copy P name V name σ k v =
        Copy-again P name V name σ k _ w v h refl refl (V.get_binding n w.server) in
      ground (
        arith,
        C.errors.nil_is_found,
        C.accepts.binding_read n w.server,
        create_binding-Reaches σ k v read role,
        complete-Reaches σ k v read,
      )

  certificate_saved-Reaches :
      (σ : Snapshot) (k : Kubeconfig) (r : Reply Secret) (w : World P.State)
      → Copy P name V name σ k w
      → is_some k.spec.role_ref ≡ true
      → r.err ≡ none
      → Ends (λ _ _. ⊥) (Reaches P name V done) (certificate_saved P k r w)
  unfolding certificate_saved mark
  certificate_saved-Reaches σ k r w h role fine = rw fine (
      bind_user-Reaches σ _ _
        (mark-Copy P name V L name condition_type_user_secret_finished condition_true "Upserted"
          "Upserted user secret with certificate from approved CSR" σ k w refl h)
        role)

  save_config-Reaches :
      (σ : Snapshot) (k : Kubeconfig) (s : Secret) (cfg : Fallible String) (w : World P.State)
      → Copy P name V name σ k w
      → is_some k.spec.role_ref ≡ true
      → HasContent s
      → IsOk P L C.errors C.accepts cfg w
      → Ends (λ _ _. ⊥) (Reaches P name V done) (save_config P k s cfg w)
  unfolding save_config put_content
  save_config-Reaches σ k s (failed e) w h role there made = absurd made
  save_config-Reaches σ k s (ok cfg) w h role there made = elim (Option-cases s.content) [
    | inl empty ↦ cc (rw empty at there)
    | inr (content, given) ↦ rw given (
        certificate_saved-Reaches σ _ _ _
          (Copy-again P name V name σ k _ w _ h refl refl (V.update_secret _ w.server)) role
          (C.accepts.secret _ _))
  ]

  pub issue-Reaches :
      (σ : Snapshot) (k : Kubeconfig) (s : Secret) (cert : String) (w : World P.State)
      → Copy P name V name σ k w
      → is_some k.spec.role_ref ≡ true
      → is_some k.spec.cluster ≡ true
      → HasContent s
      → (cert == "") ≡ false
      → Ends (λ _ _. ⊥) (Reaches P name V done) (issue P k s cert w)
  unfolding issue put_content
  issue-Reaches σ k s cert w h role cluster there full = elim (Option-cases s.content) [
    | inl nil ↦ cc (rw nil at there)
    | inr (content, given) ↦
        let Same : World P.State → Type 0 = λ v. seen P name V v ≡ seen P name V w in
        rw (full, given)
          (Ends-bind_run (λ cfg v. IsOk P L C.errors C.accepts cfg v × Same v) (λ _ _. ⊥)
            (Reaches P name V done) _ _
            (Ends-total (λ cfg v. IsOk P L C.errors C.accepts cfg v × Same v)
              (Reaches P name V done) _
              (Ends-and (IsOk P L C.errors C.accepts) (λ _ v. Same v) (λ _ v. Same v) _
                (create_kubeconfig-IsOk P L C.errors C.accepts k _ w cluster)
                (create_kubeconfig-Quiet P name V L k _ w)))
            (λ cfg v made.
              save_config-Reaches σ k _ cfg v
                (Copy-again P name V name σ k _ w v h refl refl made.1) role refl made.0))
  ]
