-- ===== src/Controllers/Csr/Conditions.antt =====
-- The condition list of a signing request: the flags that are read from it, and the upsert.
use kubeconfig_operator.Base.{
  ℕ, String, Bool, true, false, ◌||◌, Option, none, some, List, [], ◌∷◌, ◌++◌, ◌≡◌, refl, ◌∙◌, ◌⊎◌,
  inl, inr, ◌==◌, if◌then◌else◌, Bool-cases, eq_iff, arith, map,
}
use kubeconfig_operator.K8s.{CsrCondition}
use kubeconfig_operator.Platform.{Platform}
use kubeconfig_operator.Effects.{World}
use kubeconfig_operator.Effects.Ends.{Ends, Ends-bind_run}
use kubeconfig_operator.Controllers.Csr.{
  Approval, approval_loop, get_cert_approval_condition, find_status_condition, replace_condition,
  upsert, set_status_condition, transition_time, or_now, certificate_approved, certificate_denied,
  certificate_failed,
}

-- Some condition of the list has this type.
abbrev pub has_type : String → List CsrCondition → Bool
has_type t [] = false
has_type t (c ∷ cs) = c.type == t || has_type t cs

abbrev flags : Approval → List CsrCondition → Approval
flags a cs = record {
  approved = a.approved || has_type certificate_approved cs;
  denied = a.denied || has_type certificate_denied cs;
  failed = a.failed || has_type certificate_failed cs;
}

approval_loop-flags : (a : Approval) (cs : List CsrCondition) → approval_loop a cs ≡ flags a cs
unfolding approval_loop
approval_loop-flags a [] = ground arith
approval_loop-flags a (c ∷ cs) =
    approval_loop-flags
      (record {
        approved = if c.type == certificate_approved then true else a.approved;
        denied = if c.type == certificate_denied then true else a.denied;
        failed = if c.type == certificate_failed then true else a.failed;
      })
      cs
    ∙ ground arith

-- The loop computes, for each of the three types, whether some condition has it.
pub get_cert_approval_condition-has_type :
    (cs : List CsrCondition)
    → get_cert_approval_condition cs ≡ record {
      approved = has_type certificate_approved cs;
      denied = has_type certificate_denied cs;
      failed = has_type certificate_failed cs;
    }
unfolding get_cert_approval_condition
get_cert_approval_condition-has_type cs = approval_loop-flags _ cs

find-has_type :
    (t : String) (cs : List CsrCondition) (c : CsrCondition)
    → find_status_condition cs t ≡ some c
    → has_type t cs ≡ true
unfolding find_status_condition
find-has_type t [] c h = cc
find-has_type t (x ∷ cs) c h = ground (arith, find-has_type t cs c)

find-append :
    (cs : List CsrCondition) (n : CsrCondition) (t : String)
    → find_status_condition cs n.type ≡ none
    → find_status_condition (cs ++ (n ∷ [])) t
      ≡ (if n.type == t then some n else find_status_condition cs t)
unfolding find_status_condition
find-append [] n t h = ground arith
find-append (c ∷ cs) n t h =
    ground (arith, find-append cs n t, eq_iff c.type t, eq_iff n.type t, eq_iff c.type n.type)

find-replace :
    (cs : List CsrCondition) (n old : CsrCondition) (t : String)
    → find_status_condition cs n.type ≡ some old
    → find_status_condition (replace_condition n cs) t
      ≡ (if n.type == t then some n else find_status_condition cs t)
unfolding find_status_condition replace_condition
find-replace [] n old t h = cc
find-replace (c ∷ cs) n old t h =
    ground (arith, find-replace cs n old t, eq_iff c.type t, eq_iff n.type t, eq_iff c.type n.type)

find-type :
    (cs : List CsrCondition) (t : String) (c : CsrCondition)
    → find_status_condition cs t ≡ some c
    → c.type ≡ t
unfolding find_status_condition
find-type [] t c h = cc
find-type (x ∷ cs) t c h = ground (arith, find-type cs t c, eq_iff x.type t)

types-replace :
    (cs : List CsrCondition) (n : CsrCondition)
    → map (λ c. c.type) (replace_condition n cs) ≡ map (λ c. c.type) cs
unfolding replace_condition
types-replace [] n = refl
types-replace (c ∷ cs) n = ground (arith, types-replace cs n, eq_iff c.type n.type)

types-append :
    (cs : List CsrCondition) (n : CsrCondition)
    → map (λ c. c.type) (cs ++ (n ∷ [])) ≡ map (λ c. c.type) cs ++ (n.type ∷ [])
types-append [] n = refl
types-append (c ∷ cs) n = ground (arith, types-append cs n)

-- The list has a condition of this type and this status.
abbrev pub has_status : Option CsrCondition → String → Bool
has_status none status = false
has_status (some c) status = c.status == status

-- What an upsert of `new` into `old` leaves: the new condition under its type, with a time that
-- moves only with the status; every other type as it was; no second condition of a type; and no
-- request to the API server.
pub record Upserted {S : Type 0} (old : List CsrCondition) (new : CsrCondition) (w : World S)
    (cs : List CsrCondition) (v : World S) : Type 0 where
  pub time : Option ℕ
  pub found :
      (t : String)
      → find_status_condition cs t ≡ (
          if new.type == t
          then some (record new { last_transition_time = time })
          else find_status_condition old t)
  pub stable :
      (has_status (find_status_condition old new.type) new.status ≡ false)
      ⊎ ((c : CsrCondition) × (find_status_condition old new.type ≡ some c)
          × (time ≡ c.last_transition_time))
  pub types :
      (map (λ c. c.type) cs ≡ map (λ c. c.type) old)
      ⊎ ((find_status_condition old new.type ≡ none)
          × (map (λ c. c.type) cs ≡ map (λ c. c.type) old ++ (new.type ∷ [])))
  pub quiet : v.effects ≡ w.effects

module _ (P : Platform) where
  appended-Upserted :
      (old : List CsrCondition) (new : CsrCondition) (time : Option ℕ) (w v : World P.State)
      → find_status_condition old new.type ≡ none
      → v.effects ≡ w.effects
      → Upserted old new w (old ++ (record new { last_transition_time = time } ∷ [])) v
  appended-Upserted old new time w v fresh q = record {
    time = time;
    found = λ t. find-append old _ t fresh;
    stable = inl (rw fresh);
    types = inr (fresh, types-append old _);
    quiet = q;
  }

  replaced-Upserted :
      (old : List CsrCondition) (new c : CsrCondition) (time : Option ℕ) (w v : World P.State)
      → find_status_condition old new.type ≡ some c
      → (c.status ≡ new.status → time ≡ c.last_transition_time)
      → v.effects ≡ w.effects
      → Upserted old new w
          (replace_condition
            (record c {
              status = new.status;
              last_transition_time = time;
              reason = new.reason;
              message = new.message;
            })
            old)
          v
  replaced-Upserted old new c time w v there keeps q = record {
    time = time;
    found = λ t. ground (
      arith,
      find-replace old
          (record c {
            status = new.status;
            last_transition_time = time;
            reason = new.reason;
            message = new.message;
          })
          c t,
      find-type old new.type c there,
    );
    stable = rw there (elim (Bool-cases (c.status == new.status)) [
      | inl same ↦ inr (c, refl, keeps ((eq_iff c.status new.status).0 same))
      | inr other ↦ inl other
    ]);
    types = inl (types-replace old _);
    quiet = q;
  }

  or_now_quiet :
      (t : Option ℕ) (w : World P.State)
      → Ends (λ _ v. v.effects ≡ w.effects) (λ _ _. ⊥) (or_now P t w)
  unfolding or_now
  or_now_quiet none w = refl
  or_now_quiet (some t) w = refl

  transition_time_keeps :
      (old new : CsrCondition) (w : World P.State)
      → Ends
          (λ t v.
            (v.effects ≡ w.effects) × (old.status ≡ new.status → t ≡ old.last_transition_time))
          (λ _ _. ⊥)
          (transition_time P old new w)
  unfolding transition_time
  transition_time_keeps old new w =
      ground (arith, eq_iff old.status new.status, or_now_quiet new.last_transition_time w)

  upsert-Upserted :
      (o : Option CsrCondition) (old : List CsrCondition) (new : CsrCondition) (w : World P.State)
      → find_status_condition old new.type ≡ o
      → Ends (Upserted old new w) (λ _ _. ⊥) (upsert P o old new w)
  unfolding upsert
  upsert-Upserted none old new w fresh =
      Ends-bind_run (λ _ v. v.effects ≡ w.effects) _ (λ _ _. ⊥)
        (or_now P new.last_transition_time w) _ (or_now_quiet new.last_transition_time w)
        λ t v q. appended-Upserted old new t w v fresh q
  upsert-Upserted (some c) old new w there =
      Ends-bind_run
        (λ t v. (v.effects ≡ w.effects) × (c.status ≡ new.status → t ≡ c.last_transition_time)) _
        (λ _ _. ⊥) (transition_time P c new w) _ (transition_time_keeps c new w)
        λ t v q. replaced-Upserted old new c t w v there q.1 q.0

  -- Setting a condition always succeeds, replaces or appends exactly the condition of that type with
  -- the new status, reason and message, moves its time only with its status, keeps every other
  -- type and the order, adds no second condition of a type, and sends nothing to the API server.
  pub set_status_condition-Upserted :
      (old : List CsrCondition) (new : CsrCondition) (w : World P.State)
      → Ends (Upserted old new w) (λ _ _. ⊥) (set_status_condition P old new w)
  unfolding set_status_condition
  set_status_condition-Upserted old new w =
      upsert-Upserted (find_status_condition old new.type) old new w refl

-- A list in which a condition of type "Approved" is found counts as approved.
pub approved_of_found :
    (cs : List CsrCondition) (c : CsrCondition)
    → find_status_condition cs certificate_approved ≡ some c
    → (get_cert_approval_condition cs).approved ≡ true
approved_of_found cs c h =
    rw get_cert_approval_condition-has_type (find-has_type certificate_approved cs c h)
