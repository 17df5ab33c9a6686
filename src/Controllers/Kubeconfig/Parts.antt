-- ===== src/Controllers/Kubeconfig/Parts.antt =====
-- What holds at the end of a run of `Reconcile` follows from what holds between its five parts.
use kubeconfig_operator.K8s.{NamespacedName, CsrObject}
use kubeconfig_operator.Api.Types.{Kubeconfig}
use kubeconfig_operator.Platform.{Platform}
use kubeconfig_operator.Effects.{World, Run, value, returned, panicked, end_world, ◌>>=◌}
use kubeconfig_operator.Effects.Ends.{Exit, Ends, Ends-bind_run}
use kubeconfig_operator.Controllers.Csr.{get_cert_approval_condition}
use kubeconfig_operator.Controllers.Kubeconfig.{reconcile}
use kubeconfig_operator.Controllers.Kubeconfig.Objects.{Objects, load, user_secret}
use kubeconfig_operator.Controllers.Kubeconfig.Request.{find_csr}
use kubeconfig_operator.Controllers.Kubeconfig.Finish.{check_approval, issue}

module _ (P : Platform) (V : ⊥ → World P.State → Type 0) (E : Exit → World P.State → Type 0) where
  -- With the secret at hand.
  with_secret :
      (Found : CsrObject → World P.State → Type 0)
      (Passed : CsrObject → Kubeconfig → World P.State → Type 0) (o : Objects) (w : World P.State)
      → Ends Found E (find_csr P o w)
      → ((csr : CsrObject) (u : World P.State)
          → Found csr u
          → Ends
              (Passed csr)
              E
              (check_approval P o.kubeconfig (get_cert_approval_condition csr.conditions) u))
      → ((csr : CsrObject) (k : Kubeconfig) (u : World P.State)
          → Passed csr k u
          → Ends V E (issue P k o.secret csr.certificate u))
      → Ends V E (
          (find_csr P o >>= λ csr.
          check_approval P o.kubeconfig (get_cert_approval_condition csr.conditions) >>= λ k.
          issue P k o.secret csr.certificate)
            w)
  with_secret Found Passed o w found passed issued =
      Ends-bind_run Found V E (find_csr P o w) _ found
        λ csr u h. Ends-bind_run (Passed csr) V E _ _ (passed csr u h) λ k v. issued csr k v

  module _ (Loaded : Kubeconfig → World P.State → Type 0) (Held : Objects → World P.State → Type 0)
      (Found : Objects → CsrObject → World P.State → Type 0)
      (Passed : Objects → CsrObject → Kubeconfig → World P.State → Type 0) where
    pub reconcile-Ends :
        (name : NamespacedName) (w : World P.State)
        → Ends Loaded E (load P name w)
        → ((k : Kubeconfig) (u : World P.State) → Loaded k u → Ends Held E (user_secret P k u))
        → ((o : Objects) (u : World P.State) → Held o u → Ends (Found o) E (find_csr P o u))
        → ((o : Objects) (csr : CsrObject) (u : World P.State)
            → Found o csr u
            → Ends
                (Passed o csr)
                E
                (check_approval P o.kubeconfig (get_cert_approval_condition csr.conditions) u))
        → ((o : Objects) (csr : CsrObject) (k : Kubeconfig) (u : World P.State)
            → Passed o csr k u
            → Ends V E (issue P k o.secret csr.certificate u))
        → Ends V E (reconcile P name w)
    unfolding reconcile
    reconcile-Ends name w loaded held found passed issued =
        Ends-bind_run Loaded V E (load P name w) _ loaded λ k u at.
          Ends-bind_run Held V E (user_secret P k u) _ (held k u at)
            λ o v h. with_secret (Found o) (Passed o) o v (found o v h) (passed o) (issued o)

-- A run without a value ends by an exit.
pub end_world-Ends :
    {S : Type 0} (V : ⊥ → World S → Type 0) (Q : World S → Type 0) (r : Run S ⊥)
    → Ends V (λ _ w. Q w) r
    → Q (end_world r)
end_world-Ends V Q (value a w) h = absurd a
end_world-Ends V Q (returned r e w) h = h
end_world-Ends V Q (panicked w) h = h
