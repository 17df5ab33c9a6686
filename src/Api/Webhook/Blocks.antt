-- ===== src/Api/Webhook/Blocks.antt =====
-- The five blocks of the defaulting webhook that add a missing condition.
use kubeconfig_operator.Base.{
  ℕ, String, Bool, true, false, ◌||◌, Option, none, some, List, [], ◌∷◌, ◌≡◌, refl, ◌⊎◌, inl, inr,
  ◌==◌, if◌then◌else◌, is_some, or_else, Bool-cases, eq_iff, arith,
}
use kubeconfig_operator.K8s.{Condition}
use kubeconfig_operator.Api.Conditions.{
  condition_type_csr_created, condition_type_csr_approved, condition_type_user_secret_created,
  condition_type_user_secret_finished, condition_type_kubeconfig_finished, condition_unknown,
}
use kubeconfig_operator.Platform.{Platform}
use kubeconfig_operator.Platform.Laws.{HasConditionLaws}
use kubeconfig_operator.Effects.{World}
use kubeconfig_operator.Effects.Ends.{Exit, Ends, Ends-bind_run}
use kubeconfig_operator.Api.Webhook.{default_conditions, append_unknown}

-- A condition as the webhook adds it.
abbrev pub unknown_condition : String → ℕ → Condition
unknown_condition t now = record {
  type = t;
  status = condition_unknown;
  last_transition_time = some now;
  reason = "Unknown";
  message = "n/a";
}

abbrev pub contains : List String → String → Bool
contains [] u = false
contains (t ∷ ts) u = t == u || contains ts u

-- The five types in the order of the blocks, the last one first.
abbrev pub defaulted_types : List String
defaulted_types =
    condition_type_kubeconfig_finished ∷ condition_type_user_secret_finished
    ∷ condition_type_user_secret_created ∷ condition_type_csr_approved ∷ condition_type_csr_created
    ∷ []

abbrev pub IsUnknown : String → Option Condition → Type 0
IsUnknown u o = (o ≡ none) ⊎ ((now : ℕ) × (o ≡ some (unknown_condition u now)))

or_else-IsUnknown :
    (u : String) (now : ℕ) (o : Option Condition) (b : Bool)
    → IsUnknown u o
    → IsUnknown u (or_else o (if b then some (unknown_condition u now) else none))
or_else-IsUnknown u now none true h = inr (now, refl)
or_else-IsUnknown u now none false h = inl refl
or_else-IsUnknown u now (some c) b h = h

module _ (P : Platform) where
  -- `cs'` extends `cs` by conditions in state "Unknown": one for each of the types `ts` that `cs`
  -- lacks. What `cs` has stays.
  pub record Added (ts : List String) (cs cs' : List Condition) : Type 0 where
    pub news : String → Option Condition
    pub found :
        (u : String)
        → P.find_status_condition cs' u ≡ or_else (P.find_status_condition cs u) (news u)
    pub listed : (u : String) → is_some (news u) ≡ contains ts u
    pub unknown : (u : String) → IsUnknown u (news u)

  -- ... and nothing is sent to the API server.
  abbrev pub Adds :
      List String → List Condition → World P.State → List Condition → World P.State → Type 0
  Adds ts cs w cs' v = Added ts cs cs' × (v.effects ≡ w.effects)

  module _ (L : HasConditionLaws P) (c₀ : List Condition) (w₀ : World P.State) where
    append_unknown-Adds :
        (ts : List String) (t : String) (cs : List Condition) (w : World P.State)
        → Adds ts c₀ w₀ cs w
        → Ends (Adds (t ∷ ts) c₀ w₀) (λ _ _. ⊥) (append_unknown P t cs w)
    unfolding append_unknown
    append_unknown-Adds ts t cs w (h, quiet) =
        elim (Bool-cases (is_some (P.find_status_condition cs t))) [
          | inl there ↦ rw there (
            record {
              news =
                  λ u. or_else (h.news u) (if t == u then some (unknown_condition u 0) else none);
              found = λ u. ground (arith, eq_iff t u, h.found u);
              listed = λ u. ground (arith, eq_iff t u, h.listed u);
              unknown = λ u. or_else-IsUnknown u 0 (h.news u) (t == u) (h.unknown u);
            },
            quiet,
          )
          | inr fresh ↦ rw fresh (
            record {
              news = λ u.
                  or_else (h.news u)
                    (if t == u then some (unknown_condition u (P.now w.server).0) else none);
              found = λ u. ground (
                arith,
                eq_iff t u,
                h.found u,
                L.find_append cs (unknown_condition t (P.now w.server).0) u,
              );
              listed = λ u. ground (arith, eq_iff t u, h.listed u);
              unknown =
                  λ u. or_else-IsUnknown u (P.now w.server).0 (h.news u) (t == u) (h.unknown u);
            },
            quiet,
          )
        ]

    pub default_conditions-Adds :
        Ends (Adds defaulted_types c₀ w₀) (λ _ _. ⊥) (default_conditions P c₀ w₀)
    unfolding default_conditions
    default_conditions-Adds =
        let E : Exit → World P.State → Type 0 = λ _ _. ⊥ in
        let goal = Adds defaulted_types c₀ w₀ in
        let block = append_unknown-Adds in
        let added = Adds in
        let start : Adds [] c₀ w₀ c₀ w₀ = (
          record {
            news = λ _. none;
            found = λ u. ground arith;
            listed = λ _. refl;
            unknown = λ _. inl refl;
          },
          refl,
        ) in
        Ends-bind_run (added (condition_type_csr_created ∷ []) c₀ w₀) goal E
          (append_unknown P condition_type_csr_created c₀ w₀) _
          (block [] condition_type_csr_created c₀ w₀ start)
          λ c₁ w₁ h₁.
            Ends-bind_run
              (added (condition_type_csr_approved ∷ condition_type_csr_created ∷ []) c₀ w₀) goal E
              (append_unknown P condition_type_csr_approved c₁ w₁) _
              (block _ condition_type_csr_approved c₁ w₁ h₁)
              λ c₂ w₂ h₂.
                Ends-bind_run
                  (added
                    (condition_type_user_secret_created ∷ condition_type_csr_approved
                      ∷ condition_type_csr_created ∷ [])
                    c₀ w₀)
                  goal E (append_unknown P condition_type_user_secret_created c₂ w₂) _
                  (block _ condition_type_user_secret_created c₂ w₂ h₂)
                  λ c₃ w₃ h₃.
                    Ends-bind_run
                      (added
                        (condition_type_user_secret_finished ∷ condition_type_user_secret_created
                          ∷ condition_type_csr_approved ∷ condition_type_csr_created ∷ [])
                        c₀ w₀)
                      goal E (append_unknown P condition_type_user_secret_finished c₃ w₃) _
                      (block _ condition_type_user_secret_finished c₃ w₃ h₃)
                      λ c₄ w₄ h₄. block _ condition_type_kubeconfig_finished c₄ w₄ h₄
