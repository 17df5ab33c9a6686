-- ===== src/Controllers/Csr/Clock.antt =====
-- Setting a condition of a signing request reads the clock at most once.
use kubeconfig_operator.Base.{ℕ, Option, none, some, List, ◌≡◌, refl, ◌⊎◌, inl, inr, arith}
use kubeconfig_operator.K8s.{CsrCondition}
use kubeconfig_operator.Platform.{Platform}
use kubeconfig_operator.Effects.{World}
use kubeconfig_operator.Effects.Ends.{Ends}
use kubeconfig_operator.Controllers.Csr.{
  set_status_condition, find_status_condition, upsert, transition_time, or_now,
}

module _ (P : Platform) where
  abbrev pub Ticks : World P.State → World P.State → Type 0
  Ticks w v = (v.server ≡ w.server) ⊎ (v.server ≡ (P.now w.server).1)

  or_now-Ticks :
      (t : Option ℕ) (w : World P.State) → Ends (λ _ v. Ticks w v) (λ _ _. ⊥) (or_now P t w)
  unfolding or_now
  or_now-Ticks none w = inr refl
  or_now-Ticks (some t) w = inl refl

  upsert-Ticks :
      (o : Option CsrCondition) (old : List CsrCondition) (new : CsrCondition) (w : World P.State)
      → Ends (λ _ v. Ticks w v) (λ _ _. ⊥) (upsert P o old new w)
  unfolding upsert transition_time
  upsert-Ticks none old new w = ground (arith, or_now-Ticks new.last_transition_time w)
  upsert-Ticks (some c) old new w = ground (arith, or_now-Ticks new.last_transition_time w)

  pub set_status_condition-Ticks :
      (old : List CsrCondition) (new : CsrCondition) (w : World P.State)
      → Ends (λ _ v. Ticks w v) (λ _ _. ⊥) (set_status_condition P old new w)
  unfolding set_status_condition
  set_status_condition-Ticks old new w = upsert-Ticks (find_status_condition old new.type) old new w
