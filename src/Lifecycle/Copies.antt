-- ===== src/Lifecycle/Copies.antt =====
-- The copy of a Kubeconfig that a run works on, against what the API server keeps.
use kubeconfig_operator.Base.{
  String, false, Option, none, some, ◌≡◌, refl, sym, ◌∙◌, ap, ◌⊎◌, inl, inr, ◌==◌, arith,
  Bool-cases, eq_iff, if◌then◌else◌,
}
use kubeconfig_operator.K8s.{Condition}
use kubeconfig_operator.Api.Types.{Kubeconfig}
use kubeconfig_operator.Api.Conditions.{
  condition_type_kubeconfig_finished, condition_true, condition_unknown,
}
use kubeconfig_operator.Platform.{Platform}
use kubeconfig_operator.Platform.Laws.{HasConditionLaws}
use kubeconfig_operator.Effects.{World, M, ◌>>=◌}
use kubeconfig_operator.Effects.Ends.{Exit, Ends, Ends-bind_run, Ends-total}
use kubeconfig_operator.Controllers.Keys.{is_in_terminal_condition}
use kubeconfig_operator.Controllers.Kubeconfig.Objects.{mark}
use kubeconfig_operator.Lifecycle.Stages.{
  Snapshot, Stage, Moves, done, broken, finish, stage, stage_of, open_stage,
}
use kubeconfig_operator.Lifecycle.Server.{Server, StatusWritten}

module _ (P : Platform) (name : String) (V : Server P name) where
  abbrev pub seen : World P.State → Snapshot
  seen w = V.view w.server

  -- A Kubeconfig is kept that is not in its terminal condition.
  pub record IsOpen (σ : Snapshot) : Type 0 where
    pub stored : Kubeconfig
    pub kept : σ.kubeconfig ≡ some stored
    pub unfinished : is_in_terminal_condition P stored ≡ false

  -- A run for the name `m` holds the copy `k` of an unfinished Kubeconfig, and `σ` is kept.
  pub record Copy (m : String) (σ : Snapshot) (k : Kubeconfig) (w : World P.State) : Type 0 where
    pub same : seen w ≡ σ
    pub named : k.meta.name ≡ m
    pub unfinished : is_in_terminal_condition P k ≡ false
    pub mine : m ≡ name → IsOpen σ

  stage_of-open :
      (k : Kubeconfig) (c : Option _)
      → is_in_terminal_condition P k ≡ false
      → stage_of (finish P k) c ≡ open_stage c
  unfolding is_in_terminal_condition stage_of
  stage_of-open k c h = ground arith

  pub stage-open : (σ : Snapshot) → IsOpen σ → stage P σ ≡ open_stage σ.request
  unfolding stage
  stage-open σ h = rw h.kept (stage_of-open h.stored σ.request h.unfinished)

  terminal_of_status :
      (k j : Kubeconfig)
      → j.status ≡ k.status
      → is_in_terminal_condition P j ≡ is_in_terminal_condition P k
  unfolding is_in_terminal_condition
  terminal_of_status k j h = ap (λ st. is_in_terminal_condition P (record k { status = st })) h

  terminal_of_finish :
      (k j : Kubeconfig)
      → finish P j ≡ finish P k
      → is_in_terminal_condition P j ≡ is_in_terminal_condition P k
  unfolding is_in_terminal_condition
  terminal_of_finish k j h = ground (arith, h)

  -- Nothing changed, or under the own name something that keeps the stage.
  abbrev pub Keeps : String → Snapshot → Snapshot → Type 0
  Keeps m σ τ = (τ ≡ σ) ⊎ ((m ≡ name) × (stage P τ ≡ stage P σ))

  -- Nothing changed, or under the own name the stage moved.
  abbrev pub Steps : String → Snapshot → Snapshot → Type 0
  Steps m σ τ = (τ ≡ σ) ⊎ ((m ≡ name) × Moves (stage P σ) (stage P τ))

  -- Setting another condition than the last one keeps the copy.
  pub mark-Copy :
      HasConditionLaws P
      → (m type status reason message : String) (σ : Snapshot) (k : Kubeconfig) (w : World P.State)
      → (type == condition_type_kubeconfig_finished) ≡ false
      → Copy m σ k w
      → Ends (Copy m σ) (λ _ _. ⊥) (mark P type status reason message k w)
  unfolding mark
  mark-Copy L m type status reason message σ k w other h =
      let c : Condition = record {
        type = type;
        status = status;
        last_transition_time = none;
        reason = reason;
        message = message;
      } in
      record {
        same = V.set_status_condition k.status.conditions c w.server ∙ h.same;
        named = h.named;
        unfinished =
            terminal_of_finish k _
              (L.set_other k.status.conditions c condition_type_kubeconfig_finished w.server other)
            ∙ h.unfinished;
        mine = h.mine;
      }

  -- Another object with the same name and conditions is as good, wherever nothing else changed.
  pub Copy-again :
      (m : String) (σ : Snapshot) (k j : Kubeconfig) (w v : World P.State)
      → Copy m σ k w
      → j.meta.name ≡ k.meta.name
      → j.status.conditions ≡ k.status.conditions
      → seen v ≡ seen w
      → Copy m σ j v
  Copy-again m σ k j w v h name_kept conditions_kept kept = record {
    same = kept ∙ h.same;
    named = name_kept ∙ h.named;
    unfinished =
        terminal_of_finish k j
          (ap (λ cs. P.find_status_condition cs condition_type_kubeconfig_finished) conditions_kept)
        ∙ h.unfinished;
    mine = h.mine;
  }

  pub mark-then :
      {B : Type 0} (U : B → World P.State → Type 0) (E : Exit → World P.State → Type 0)
      → HasConditionLaws P
      → (m type status reason message : String) (σ : Snapshot) (k : Kubeconfig)
        (f : Kubeconfig → M P.State B) (w : World P.State)
      → (type == condition_type_kubeconfig_finished) ≡ false
      → Copy m σ k w
      → ((k' : Kubeconfig) (v : World P.State) → Copy m σ k' v → Ends U E (f k' v))
      → Ends U E ((mark P type status reason message k >>= f) w)
  mark-then U E L m type status reason message σ k f w other h next =
      Ends-bind_run (Copy m σ) U E (mark P type status reason message k w) f
        (Ends-total (Copy m σ) E _ (mark-Copy L m type status reason message σ k w other h)) next

  -- What a write of the status leaves under the own name, if it happens.
  pub written_stage :
      (j : Kubeconfig) (before after : Snapshot) (t : Stage)
      → StatusWritten j before after
      → ((k : Kubeconfig) → k.status ≡ j.status → stage_of (finish P k) before.request ≡ t)
      → stage P after ≡ t
  unfolding stage
  written_stage j before after t h leads = rw h.becomes (leads h.stored h.status)

  -- A write of an unfinished copy keeps the stage, whether it succeeds or not.
  pub write-Keeps :
      (m : String) (σ : Snapshot) (j : Kubeconfig) (w : World P.State)
      → Copy m σ j w
      → Keeps m σ (V.view (P.update_kubeconfig_status j w.server).1)
  write-Keeps m σ j w h = elim (Bool-cases (m == name)) [
    | inr other ↦ inl (V.other_status_write j w.server (rw h.named other) ∙ h.same)
    | inl own ↦
        let here : m ≡ name = (eq_iff m name).0 own in
        elim (V.status_write j w.server (h.named ∙ here)) [
          | inl lost ↦ inl (lost.0 ∙ h.same)
          | inr written ↦ inr (
            here,
            written_stage j _ _ _ written (λ k same.
                stage_of-open k _ (terminal_of_status j k same ∙ h.unfinished)
                ∙ ap (λ τ. open_stage τ.request) h.same
                ∙ sym (stage-open σ (h.mine here))),
          )
        ]
  ]

  -- A write of a finished copy ends the life of the Kubeconfig, if it succeeds.
  pub write-ends :
      (m : String) (σ : Snapshot) (j : Kubeconfig) (c : Condition) (s : P.State)
      → V.view s ≡ σ
      → j.meta.name ≡ m
      → finish P j ≡ some c
      → (c.status == condition_unknown) ≡ false
      → (V.view (P.update_kubeconfig_status j s).1 ≡ σ)
        ⊎ ((m ≡ name)
            × (stage P (V.view (P.update_kubeconfig_status j s).1)
                ≡ (if c.status == condition_true then done else broken)))
  unfolding stage_of
  write-ends m σ j c s same named found known = elim (Bool-cases (m == name)) [
    | inr other ↦ inl (V.other_status_write j s (rw named other) ∙ same)
    | inl own ↦
        let here : m ≡ name = (eq_iff m name).0 own in
        elim (V.status_write j s (named ∙ here)) [
          | inl lost ↦ inl (lost.0 ∙ same)
          | inr written ↦ inr (
            here,
            written_stage j _ _ _ written (λ k st.
                rw
                  (
                    ap
                          (λ x.
                            P.find_status_condition x.conditions condition_type_kubeconfig_finished)
                          st
                        ∙ found,
                    known,
                  )
                  refl),
          )
        ]
  ]
