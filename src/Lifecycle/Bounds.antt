-- ===== src/Lifecycle/Bounds.antt =====
-- How often the stage of a life can change, and the stages that no life leaves.
use kubeconfig_operator.Base.{
  Option, none, some, Bool-cases, Option-cases, ◌==◌, refl, subst, ◌∙◌, ℕ, ◌+◌, ◌*◌, ◌≤◌, String,
  ◌≡◌, sym, ap, ◌⊎◌, inl, inr, arith,
}
use kubeconfig_operator.Platform.{Platform}
use kubeconfig_operator.Platform.Laws.{HasConditionLaws}
use kubeconfig_operator.Effects.{World}
use kubeconfig_operator.Lifecycle.Stages.{
  Stage, done, broken, ◌⟶◌, submit, grant, grant_issued, reject, complete, give_up, Outside, make,
  approve, approve_issue, deny, deny_late, sign, Moves, rank, stage, stage_of, open_stage,
  csr_stage, finish, fresh, Snapshot, without_request,
}
use kubeconfig_operator.K8s.{Condition, CsrObject}
use kubeconfig_operator.Api.Conditions.{condition_unknown}
use kubeconfig_operator.Lifecycle.Server.{Server}
use kubeconfig_operator.Lifecycle.Copies.{seen}
use kubeconfig_operator.Lifecycle.Refinement.{OperatorStep, operator-Moves}

abbrev stage_discrete : Discrete Stage
stage_discrete = hlevel

-- One if the stage changes.
unfoldable pub changes : Stage → Stage → ℕ
changes s t = elim (stage_discrete s t) [ yes same ↦ 0 | no other ↦ 1 ]

changes_same : (s t : Stage) → s ≡ t → changes s t ≡ 0
unfolding changes
changes_same s t h = ground (arith, h)

changes_small : (s t : Stage) → changes s t ≤ 1
unfolding changes
changes_small s t = ground arith

⟶-rank : (s t : Stage) → s ⟶ t → rank s + 1 ≤ rank t
⟶-rank s t submit = omega arith
⟶-rank s t grant = omega arith
⟶-rank s t grant_issued = omega arith
⟶-rank s t reject = omega arith
⟶-rank s t complete = omega arith
⟶-rank s t give_up = omega arith

Outside-rank : (s t : Stage) → Outside s t → rank s + 1 ≤ rank t
Outside-rank s t make = omega arith
Outside-rank s t approve = omega arith
Outside-rank s t approve_issue = omega arith
Outside-rank s t deny = omega arith
Outside-rank s t deny_late = omega arith
Outside-rank s t sign = omega arith

Moves-rank : {s t : Stage} → Moves s t → (s ≡ t) ⊎ (rank s + 1 ≤ rank t)
Moves-rank (inl same) = inl same
Moves-rank (inr move) = inr (⟶-rank _ _ move)

allowed_rank : {s t : Stage} → (s ≡ t) ⊎ Outside s t → (s ≡ t) ⊎ (rank s + 1 ≤ rank t)
allowed_rank (inl same) = inl same
allowed_rank (inr move) = inr (Outside-rank _ _ move)

abbrev pub IsEnd : Stage → Type 0
IsEnd s = (s ≡ done) ⊎ (s ≡ broken)

IsEnd-Moves : {s t : Stage} → IsEnd s → Moves s t → t ≡ s
IsEnd-Moves h (inl same) = sym same
IsEnd-Moves (inl h) (inr x) = elim (rw h at x) [ ]
IsEnd-Moves (inr h) (inr x) = elim (rw h at x) [ ]

IsEnd-allowed : {s t : Stage} → IsEnd s → (s ≡ t) ⊎ Outside s t → t ≡ s
IsEnd-allowed h (inl same) = sym same
IsEnd-allowed (inl h) (inr x) = elim (rw h at x) [ ]
IsEnd-allowed (inr h) (inr x) = elim (rw h at x) [ ]

module _ (P : Platform) (name : String) (V : Server P name) where
  -- A life with `n` changes of the stage and `d` deletions of the request: runs of the operator for
  -- objects of any name, and what administrators and the signer do to the request, besides anything that
  -- keeps the stage.
  pub data Life : ℕ → ℕ → World P.State → World P.State → Type 0 where
    born : {w : World P.State} → Life 0 0 w w
    run :
        {n d k : ℕ} {u v w : World P.State}
        → Life n d u v
        → OperatorStep P v w
        → k ≡ n + changes (stage P (seen P name V v)) (stage P (seen P name V w))
        → Life k d u w
    outside :
        {n d k : ℕ} {u v : World P.State} (s : P.State)
        → Life n d u v
        → (stage P (seen P name V v) ≡ stage P (V.view s))
          ⊎ Outside (stage P (seen P name V v)) (stage P (V.view s))
        → k ≡ n + changes (stage P (seen P name V v)) (stage P (V.view s))
        → Life k d u (record v { server = s })
    deleted :
        {n d k : ℕ} {u v : World P.State} (s : P.State)
        → Life n d u v
        → V.view s ≡ without_request (seen P name V v)
        → k ≡ n + changes (stage P (seen P name V v)) (stage P (V.view s))
        → Life k (d + 1) u (record v { server = s })

  step_rank : (s t : Stage) → (s ≡ t) ⊎ (rank s + 1 ≤ rank t) → changes s t + rank s ≤ rank t
  step_rank s t (inl same) = omega (arith, changes_same s t same, ap rank same)
  step_rank s t (inr grows) = omega (arith, changes_small s t)

  abbrev IsUnfinished : Stage → Type 0
  IsUnfinished s = rank s + 1 ≤ 4

  open_rank : (r : Option CsrObject) → IsUnfinished (open_stage r)
  unfolding open_stage csr_stage
  open_rank none = omega arith
  open_rank (some c) = ground arith

  stage_of-cases :
      (f : Option Condition) (r : Option CsrObject)
      → (stage_of f none ≡ stage_of f r) ⊎ ((stage_of f none ≡ fresh) × IsUnfinished (stage_of f r))
  unfolding stage_of open_stage
  stage_of-cases none r = inr (refl, open_rank r)
  stage_of-cases (some f) r = elim (Bool-cases (f.status == condition_unknown)) [
    | inl unknown ↦ rw unknown (inr (refl, open_rank r))
    | inr known ↦ rw known (inl refl)
  ]

  -- Without its request, a Kubeconfig is as it was if it is finished or not there, and else a fresh one.
  without-cases :
      (σ : Snapshot)
      → (stage P (without_request σ) ≡ stage P σ)
        ⊎ ((stage P (without_request σ) ≡ fresh) × IsUnfinished (stage P σ))
  unfolding stage
  without-cases σ = elim (Option-cases σ.kubeconfig) [
    | inl nothing ↦ rw nothing (inl refl)
    | inr (k, kept) ↦ rw kept (stage_of-cases (finish P k) σ.request)
  ]

  deleted_rank :
      (s t : Stage) → (t ≡ s) ⊎ ((t ≡ fresh) × IsUnfinished s) → changes s t + rank s ≤ rank t + 4
  deleted_rank s t (inl same) =
      omega (arith, changes_small s t, changes_same s t (sym same), ap rank same)
  deleted_rank s t (inr (again, unfinished)) = omega (arith, changes_small s t, unfinished)

  IsEnd-deleted : (s t : Stage) → IsEnd s → (t ≡ s) ⊎ ((t ≡ fresh) × IsUnfinished s) → t ≡ s
  IsEnd-deleted s t h (inl same) = same
  IsEnd-deleted s t (inl h) (inr x) = absurd (omega (arith, ap rank h, x.1))
  IsEnd-deleted s t (inr h) (inr x) = absurd (omega (arith, ap rank h, x.1))

  module _ (L : HasConditionLaws P) where
    -- Let the API server and the helpers for conditions work as documented. Take a life of a Kubeconfig with `n`
    -- changes of the stage, made by runs of the operator and by what administrators and the signer may do
    -- to its request, which they delete `d` times. The rank, which goes from 0 to 4, has grown by `n`
    -- at least, but for 4 at each deletion. So there are at most four changes more than four for each
    -- deletion, and as long as nobody deletes the request no stage comes back.
    pub Life-bounded :
        {n d : ℕ} {u w : World P.State}
        → Life n d u w
        → n + rank (stage P (seen P name V u)) ≤ rank (stage P (seen P name V w)) + 4 * d
    Life-bounded born = omega arith
    Life-bounded (run {n} {d} {k} {u} {v} {w} life step e) = omega (
      arith,
      Life-bounded life,
      e,
      step_rank (stage P (seen P name V v)) (stage P (seen P name V w))
          (Moves-rank (operator-Moves P name V L v w step)),
    )
    Life-bounded (outside {n} {d} {k} {u} {v} s life step e) = omega (
      arith,
      Life-bounded life,
      e,
      step_rank (stage P (seen P name V v)) (stage P (V.view s)) (allowed_rank step),
    )
    Life-bounded (deleted {n} {d} {k} {u} {v} s life gone e) = omega (
      arith,
      Life-bounded life,
      e,
      deleted_rank (stage P (seen P name V v)) (stage P (V.view s))
          (rw gone (without-cases (seen P name V v))),
    )

    -- Let the API server and the helpers for conditions work as documented. A life that starts with a
    -- finished Kubeconfig, whether done or broken, ends at the same stage: whatever the operator runs and
    -- whatever happens to the request, its deletion included.
    pub Life-ended :
        {n d : ℕ} {u w : World P.State}
        → Life n d u w
        → IsEnd (stage P (seen P name V u))
        → stage P (seen P name V w) ≡ stage P (seen P name V u)
    Life-ended born h = refl
    Life-ended (run {n} {d} {k} {u} {v} {w} life step e) h =
        let before : stage P (seen P name V v) ≡ stage P (seen P name V u) = Life-ended life h in
        IsEnd-Moves (subst IsEnd (sym before) h) (operator-Moves P name V L v w step) ∙ before
    Life-ended (outside {n} {d} {k} {u} {v} s life step e) h =
        let before : stage P (seen P name V v) ≡ stage P (seen P name V u) = Life-ended life h in
        IsEnd-allowed (subst IsEnd (sym before) h) step ∙ before
    Life-ended (deleted {n} {d} {k} {u} {v} s life gone e) h =
        let before : stage P (seen P name V v) ≡ stage P (seen P name V u) = Life-ended life h in
        IsEnd-deleted (stage P (seen P name V v)) (stage P (V.view s)) (subst IsEnd (sym before) h)
          (rw gone (without-cases (seen P name V v)))
        ∙ before
