-- ===== src/Program/Order.antt =====
-- The start of the program against the list of what has to happen.
use kubeconfig_operator.Base.{
  Bool, true, false, Option, none, some, List, [], ◌∷◌, ◌++◌, ◌≡◌, refl, sym, ◌∙◌, ap, inl, inr,
  ◌⊎◌,
}
use kubeconfig_operator.K8s.{Error}
use kubeconfig_operator.Program.{
  add_client_go_scheme, add_to_scheme, group_version, scheme_builder, program, kubeconfig_kind,
  certificate_signing_request_kind, Flags, Call, get_config_or_die, new_manager, controller,
  new_for_config_or_die, webhook, add_healthz_check, add_readyz_check, start, Host, Startup,
  Process, going, exits, panics, ◌>=>◌, options, called, or_exit, or_panic, exit_on, panic_on,
  after, main,
}

-- What has to happen, in this order.
abbrev pub plan : Flags → List Call
plan f =
    get_config_or_die
    ∷ new_manager (options f)
    ∷ controller kubeconfig_kind (certificate_signing_request_kind ∷ [])
    ∷ new_for_config_or_die
    ∷ controller certificate_signing_request_kind []
    ∷ webhook kubeconfig_kind
    ∷ add_healthz_check "healthz"
    ∷ add_readyz_check "readyz"
    ∷ start
    ∷ []

-- The types are added to the scheme before.
abbrev pub program_plan : Flags → List Call
program_plan f = add_client_go_scheme ∷ add_to_scheme group_version scheme_builder ∷ plan f

-- Every call of the plan was made, and none failed.
abbrev pub Succeeds : List Call → List (Call × Option Error) → Type 0
Succeeds [] [] = Unit {0}
Succeeds [] (r ∷ rs) = ⊥
Succeeds (c ∷ cs) [] = ⊥
Succeeds (c ∷ cs) (r ∷ rs) = (r ≡ (c, none)) × Succeeds cs rs

-- The calls of the plan were made up to the first one that failed, which satisfies `Q`.
abbrev pub Stops : (Call → Type 0) → List Call → List (Call × Option Error) → Type 0
Stops Q [] rs = ⊥
Stops Q (c ∷ cs) [] = ⊥
Stops Q (c ∷ cs) (r ∷ rs) =
    ((e : Error) × (r ≡ (c, some e)) × Q c × (rs ≡ [])) ⊎ ((r ≡ (c, none)) × Stops Q cs rs)

-- `utilruntime.Must` and `NewForConfigOrDie` panic. `GetConfigOrDie` exits.
abbrev pub may_panic : Call → Bool
may_panic add_client_go_scheme = true
may_panic (add_to_scheme v ts) = true
may_panic new_for_config_or_die = true
may_panic _ = false

abbrev pub Panics : Call → Type 0
Panics c = may_panic c ≡ true

abbrev pub Exits : Call → Type 0
Exits c = may_panic c ≡ false

append-nil : {A : Type 0} (xs : List A) → xs ++ [] ≡ xs
append-nil [] = refl
append-nil (x ∷ xs) = ap (λ ys. x ∷ ys) (append-nil xs)

append_assoc : {A : Type 0} (xs ys zs : List A) → (xs ++ ys) ++ zs ≡ xs ++ (ys ++ zs)
append_assoc [] ys zs = refl
append_assoc (x ∷ xs) ys zs = ap (λ l. x ∷ l) (append_assoc xs ys zs)

module _ (H : Host) where
  -- A process that went through the calls of a plan: it exits with 0 if all succeed, and with 1
  -- or a panic at the first one that fails.
  unfoldable pub Follows : List Call → Startup H.State → Process H.State → Type 0
  Follows cs p (going q) = ⊥
  Follows cs p (exits n q) =
      (rs : List (Call × Option Error)) × (q.calls ≡ p.calls ++ rs)
      × (((n ≡ 0) × Succeeds cs rs) ⊎ ((n ≡ 1) × Stops Exits cs rs))
  Follows cs p (panics q) =
      (rs : List (Call × Option Error)) × (q.calls ≡ p.calls ++ rs) × Stops Panics cs rs

  end_step : (p : Startup H.State) → Follows [] p (exits 0 p)
  unfolding Follows
  end_step p = ([], sym (append-nil p.calls), inl (refl, tt))

  -- A call that succeeded, in front of the others.
  ahead :
      (c : Call) (cs : List Call) (p q : Startup H.State) (r : Process H.State)
      → q.calls ≡ p.calls ++ ((c, none) ∷ [])
      → Follows cs q r
      → Follows (c ∷ cs) p r
  unfolding Follows
  ahead c cs p q (going u) e h = h
  ahead c cs p q (exits n u) e (rs, calls, ends) = (
    (c, none) ∷ rs,
    calls ∙ ap (λ l. l ++ rs) e ∙ append_assoc p.calls ((c, none) ∷ []) rs,
    elim ends [
      | inl fine ↦ inl (fine.0, (refl, fine.1))
      | inr bad ↦ inr (bad.0, inr (refl, bad.1))
    ],
  )
  ahead c cs p q (panics u) e (rs, calls, stops) = (
    (c, none) ∷ rs,
    calls ∙ ap (λ l. l ++ rs) e ∙ append_assoc p.calls ((c, none) ∷ []) rs,
    inr (refl, stops),
  )

  exit_on_step :
      (o : Option Error) (c : Call) (cs : List Call) (g : Startup H.State → Process H.State)
      (p q : Startup H.State)
      → Exits c
      → q.calls ≡ p.calls ++ ((c, o) ∷ [])
      → Follows cs q (g q)
      → Follows (c ∷ cs) p (after (exit_on o q) g)
  unfolding Follows
  exit_on_step none c cs g p q m e rest = ahead c cs p q (g q) e rest
  exit_on_step (some x) c cs g p q m e rest =
      ((c, some x) ∷ [], e, inr (refl, inl (x, refl, m, refl)))

  exit_step :
      (c : Call) (cs : List Call) (g : Startup H.State → Process H.State)
      → Exits c
      → ((q : Startup H.State) → Follows cs q (g q))
      → (p : Startup H.State) → Follows (c ∷ cs) p ((or_exit H c >=> g) p)
  exit_step c cs g m rest p =
      exit_on_step (H.answer c p.host).0 c cs g p (called H c p) m refl (rest (called H c p))

  panic_on_step :
      (o : Option Error) (c : Call) (cs : List Call) (g : Startup H.State → Process H.State)
      (p q : Startup H.State)
      → Panics c
      → q.calls ≡ p.calls ++ ((c, o) ∷ [])
      → Follows cs q (g q)
      → Follows (c ∷ cs) p (after (panic_on o q) g)
  unfolding Follows
  panic_on_step none c cs g p q m e rest = ahead c cs p q (g q) e rest
  panic_on_step (some x) c cs g p q m e rest = ((c, some x) ∷ [], e, inl (x, refl, m, refl))

  panic_step :
      (c : Call) (cs : List Call) (g : Startup H.State → Process H.State)
      → Panics c
      → ((q : Startup H.State) → Follows cs q (g q))
      → (p : Startup H.State) → Follows (c ∷ cs) p ((or_panic H c >=> g) p)
  panic_step c cs g m rest p =
      panic_on_step (H.answer c p.host).0 c cs g p (called H c p) m refl (rest (called H c p))

  -- The part of `main`.
  pub main-Follows : (f : Flags) (p : Startup H.State) → Follows (plan f) p (main H f p)
  unfolding main
  main-Follows f = exit_step _ _ _ refl (
      exit_step _ _ _ refl (
        exit_step _ _ _ refl (
          panic_step _ _ _ refl (
            exit_step _ _ _ refl (
              exit_step _ _ _ refl
                (exit_step _ _ _ refl (exit_step _ _ _ refl (exit_step _ _ _ refl end_step))))))))

  -- The whole program.
  pub program-Follows :
      (f : Flags) (p : Startup H.State) → Follows (program_plan f) p (program H f p)
  unfolding program
  program-Follows f = panic_step _ _ _ refl (panic_step _ _ _ refl (main-Follows f))
