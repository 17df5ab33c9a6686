-- ===== src/Program/Readiness.antt =====
-- What each call of the start relies on, and how the process ends.
use kubeconfig_operator.Base.{Option, none, some, List, [], ◌∷◌, ◌≡◌, refl, inl, inr, ◌⊎◌}
use kubeconfig_operator.K8s.{Error}
use kubeconfig_operator.Program.{
  add_client_go_scheme, add_to_scheme, group_version, scheme_builder, program, kubeconfig_kind,
  certificate_signing_request_kind, Flags, Call, get_config_or_die, new_manager, controller,
  new_for_config_or_die, webhook, add_healthz_check, add_readyz_check, start, options, Host,
  Options, Process, going, exits, panics,
}
use kubeconfig_operator.Program.Order.{
  program_plan, Succeeds, Stops, Panics, Exits, Follows, program-Follows,
}

abbrev pub Calls : Type 0
Calls = List (Call × Option Error)

-- The call was made and did not fail.
abbrev pub Done : Call → Calls → Type 0
Done c [] = ⊥
Done c (r ∷ rs) = (r ≡ (c, none)) ⊎ Done c rs

-- There is a manager, with the addresses and the leader election that the flags ask for.
abbrev pub Managed : Flags → Calls → Type 0
Managed f past =
    (o : Options) × (o.metrics_bind_address ≡ f.metrics_bind_address)
    × (o.health_probe_bind_address ≡ f.health_probe_bind_address)
    × (o.leader_election ≡ f.leader_elect)
    × Done (new_manager o) past

-- What has to be done before a call: a manager wants its configuration and a scheme with all types,
-- everything that is registered a manager, the controller of requests also a client, and the start
-- both controllers, the webhook and both probes.
abbrev pub Needs : Flags → Call → Calls → Type 0
Needs f (new_manager o) past =
    Done get_config_or_die past
    × Done add_client_go_scheme past
    × Done (add_to_scheme group_version scheme_builder) past
Needs f (controller kubeconfig_kind owned) past = Managed f past
Needs f (controller certificate_signing_request_kind owned) past =
    Managed f past × Done new_for_config_or_die past
Needs f (webhook k) past = Managed f past
Needs f (add_healthz_check n) past = Managed f past
Needs f (add_readyz_check n) past = Managed f past
Needs f start past =
    Done (controller kubeconfig_kind (certificate_signing_request_kind ∷ [])) past
    × Done (controller certificate_signing_request_kind []) past
    × Done (webhook kubeconfig_kind) past
    × Done (add_healthz_check "healthz") past
    × Done (add_readyz_check "readyz") past
Needs f _ past = Unit {0}

-- Every call found done what it needs; `past` is newest first.
abbrev pub IsOrdered : Flags → Calls → Calls → Type 0
IsOrdered f past [] = Unit {0}
IsOrdered f past ((c, e) ∷ rs) = Needs f c past × IsOrdered f ((c, e) ∷ past) rs

-- No call but the last one failed, which satisfies `Q`.
abbrev pub FailsLast : (Call → Type 0) → Calls → Type 0
FailsLast Q [] = ⊥
FailsLast Q ((c, e) ∷ []) = ((x : Error) × (e ≡ some x)) × Q c
FailsLast Q ((c, e) ∷ r ∷ rs) = (e ≡ none) × FailsLast Q (r ∷ rs)

abbrev pub AllDone : Calls → Type 0
AllDone [] = Unit {0}
AllDone ((c, e) ∷ rs) = (e ≡ none) × AllDone rs

-- The process has ended, after calls in a good order: with code 0 if none failed and the manager was
-- started, with code 1 at a call that failed, or with a panic at one that is documented to panic.
abbrev pub IsStarted : {S : Type 0} → Flags → Process S → Type 0
IsStarted f (going q) = ⊥
IsStarted f (exits n q) =
    IsOrdered f [] q.calls
    × (((n ≡ 0) × AllDone q.calls × Done start q.calls) ⊎ ((n ≡ 1) × FailsLast Exits q.calls))
IsStarted f (panics q) = IsOrdered f [] q.calls × FailsLast Panics q.calls

abbrev fine_calls : List Call → Calls
fine_calls [] = []
fine_calls (c ∷ cs) = (c, none) ∷ fine_calls cs

Succeeds-fine : (cs : List Call) (rs : Calls) → Succeeds cs rs → rs ≡ fine_calls cs
Succeeds-fine [] [] h = refl
Succeeds-fine [] (r ∷ rs) h = absurd h
Succeeds-fine (c ∷ cs) [] h = absurd h
Succeeds-fine (c ∷ cs) (r ∷ rs) h = rw (h.0, Succeeds-fine cs rs h.1) refl

fine-AllDone : (cs : List Call) → AllDone (fine_calls cs)
fine-AllDone [] = tt
fine-AllDone (c ∷ cs) = (refl, fine-AllDone cs)

Stops-IsOrdered :
    (f : Flags) (Q : Call → Type 0) (cs : List Call) (past rs : Calls)
    → IsOrdered f past (fine_calls cs)
    → Stops Q cs rs
    → IsOrdered f past rs
Stops-IsOrdered f Q [] past rs h stops = absurd stops
Stops-IsOrdered f Q (c ∷ cs) past [] h stops = tt
Stops-IsOrdered f Q (c ∷ cs) past (r ∷ rs) h (inl (e, same, q, last)) = rw (same, last) (h.0, tt)
Stops-IsOrdered f Q (c ∷ cs) past (r ∷ rs) h (inr (same, stops)) =
    rw same (h.0, Stops-IsOrdered f Q cs ((c, none) ∷ past) rs h.1 stops)

Stops-FailsLast : (Q : Call → Type 0) (cs : List Call) (rs : Calls) → Stops Q cs rs → FailsLast Q rs
Stops-FailsLast Q [] rs stops = absurd stops
Stops-FailsLast Q (c ∷ cs) [] stops = absurd stops
Stops-FailsLast Q (c ∷ cs) (r ∷ []) (inl (e, same, q, last)) = rw same ((e, refl), q)
Stops-FailsLast Q (c ∷ cs) (r ∷ s ∷ rs) (inl (e, same, q, last)) = cc
Stops-FailsLast Q (c ∷ cs) (r ∷ []) (inr (same, stops)) = absurd (Stops-FailsLast Q cs [] stops)
Stops-FailsLast Q (c ∷ cs) (r ∷ s ∷ rs) (inr (same, stops)) =
    rw same (refl, Stops-FailsLast Q cs (s ∷ rs) stops)

infixr 4 ◌▸◌
◌▸◌ : {A B : Type 0} → A → B → A × B
a ▸ b = (a, b)

plan-IsOrdered : (f : Flags) → IsOrdered f [] (fine_calls (program_plan f))
plan-IsOrdered f =
    tt
    ▸ tt
    ▸ tt
    ▸ (inl refl, inr (inr (inl refl)), inr (inl refl))
    ▸ (options f, refl, refl, refl, inl refl)
    ▸ tt
    ▸ ((options f, refl, refl, refl, inr (inr (inl refl))), inl refl)
    ▸ (options f, refl, refl, refl, inr (inr (inr (inl refl))))
    ▸ (options f, refl, refl, refl, inr (inr (inr (inr (inl refl)))))
    ▸ (options f, refl, refl, refl, inr (inr (inr (inr (inr (inl refl))))))
    ▸ (
      inr (inr (inr (inr (inr (inl refl))))),
      inr (inr (inr (inl refl))),
      inr (inr (inl refl)),
      inr (inl refl),
      inl refl,
    )
    ▸ tt

plan-starts : (f : Flags) → Done start (fine_calls (program_plan f))
plan-starts f = inr (inr (inr (inr (inr (inr (inr (inr (inr (inr (inl refl))))))))))

module _ (H : Host) where
  Follows-IsStarted :
      (f : Flags) (s : H.State) (q : Process H.State)
      → Follows H (program_plan f) (record { host = s; calls = [] }) q
      → IsStarted f q
  unfolding Follows
  Follows-IsStarted f s (going q) h = h
  Follows-IsStarted f s (exits n q) (rs, calls, inl (zero, fine)) =
      rw (calls, Succeeds-fine (program_plan f) rs fine)
        (plan-IsOrdered f, inl (zero, fine-AllDone (program_plan f), plan-starts f))
  Follows-IsStarted f s (exits n q) (rs, calls, inr (one, stops)) = rw calls (
    Stops-IsOrdered f Exits (program_plan f) [] rs (plan-IsOrdered f) stops,
    inr (one, Stops-FailsLast Exits (program_plan f) rs stops),
  )
  Follows-IsStarted f s (panics q) (rs, calls, stops) = rw calls (
    Stops-IsOrdered f Panics (program_plan f) [] rs (plan-IsOrdered f) stops,
    Stops-FailsLast Panics (program_plan f) rs stops,
  )

  -- Whatever the flags and the answers of controller-runtime, the program ends with code 0 after calls
  -- that have all succeeded, the start of the manager among them; or it ends at the first call that
  -- fails: with a panic if this is one of the two additions to the scheme or the creation of the client
  -- set, with code 1 if it is any other. A manager is only made once the scheme has all types; the controllers,
  -- the webhook and the probes are only registered with a manager that has the addresses and the leader election
  -- of the flags, the controller of requests only once there is a client set; and the manager is started
  -- only once both controllers, the webhook and both probes are registered.
  pub program-IsStarted :
      (f : Flags) (s : H.State) → IsStarted f (program H f (record { host = s; calls = [] }))
  program-IsStarted f s = Follows-IsStarted f s _ (program-Follows H f _)
