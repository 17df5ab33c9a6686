-- ===== src/Lifecycle/Progress/Closed.antt =====
-- Kubeconfigs that no run works on.
use kubeconfig_operator.Base.{
  subst, String, ◌≡◌, refl, ◌⊎◌, inl, inr, ◌==◌, arith, Bool-cases, Option-cases,
}
use kubeconfig_operator.Api.Conditions.{condition_true, condition_unknown}
use kubeconfig_operator.Platform.{Platform}
use kubeconfig_operator.Controllers.Keys.{is_in_terminal_condition}
use kubeconfig_operator.Lifecycle.Stages.{
  Snapshot, Stage, absent, granted, issued, done, broken, stage, stage_of, finish,
}
use kubeconfig_operator.Lifecycle.Server.{Server}
use kubeconfig_operator.Lifecycle.Copies.{IsOpen}
use kubeconfig_operator.Lifecycle.Progress.Cooperation.{next}

-- A Kubeconfig that is not open is at a stage that no run of a controller leaves.
abbrev pub IsClosed : Stage → Type 0
IsClosed s = (s ≡ absent) ⊎ (s ≡ done) ⊎ (s ≡ broken)

pub closed_next : (s : Stage) → IsClosed s → s ≡ next s
closed_next s (inl here) = rw here refl
closed_next s (inr (inl here)) = rw here refl
closed_next s (inr (inr here)) = rw here refl

module _ (P : Platform) (name : String) (V : Server P name) where
  pub IsOpen-cases : (σ : Snapshot) → IsOpen P name V σ ⊎ IsClosed (stage P σ)
  unfolding stage stage_of is_in_terminal_condition
  IsOpen-cases σ = elim (Option-cases σ.kubeconfig) [
    | inl nothing ↦ inr (inl (rw nothing refl))
    | inr (k, kept) ↦ elim (Option-cases (finish P k)) [
      | inl unset ↦ inl (record { stored = k; kept = kept; unfinished = ground (arith, unset) })
      | inr (f, found) ↦ elim (Bool-cases (f.status == condition_unknown)) [
        | inl unknown ↦
            inl (record { stored = k; kept = kept; unfinished = ground (arith, found, unknown) })
        | inr known ↦ elim (Bool-cases (f.status == condition_true)) [
          | inl holds ↦ inr (inr (inl (rw (kept, found, known, holds) refl)))
          | inr fails ↦ inr (inr (inr (rw (kept, found, known, fails) refl)))
        ]
      ]
    ]
  ]

  pub IsOpen-unless :
      (σ : Snapshot) (s : Stage) → stage P σ ≡ s → (IsClosed s → ⊥) → IsOpen P name V σ
  IsOpen-unless σ s at stays = elim (IsOpen-cases σ) [
    | inr closed ↦ absurd (stays (subst IsClosed at closed))
    | inl opened ↦ opened
  ]

  pub granted-IsOpen :
      (σ : Snapshot) → (stage P σ ≡ granted) ⊎ (stage P σ ≡ issued) → IsOpen P name V σ
  granted-IsOpen σ (inl at) = IsOpen-unless σ granted at (λ closed. ground (arith, closed))
  granted-IsOpen σ (inr at) = IsOpen-unless σ issued at (λ closed. ground (arith, closed))
