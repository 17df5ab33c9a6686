-- ===== src/Lifecycle/Progress/Polling.antt =====
-- A granted request is looked at again.
use kubeconfig_operator.Base.{
  String, Bool, true, false, ◌||◌, Option, none, some, ◌≡◌, refl, sym, ◌∙◌, inl, ◌==◌, arith,
}
use kubeconfig_operator.K8s.{CsrObject}
use kubeconfig_operator.Platform.{Platform}
use kubeconfig_operator.Platform.Laws.{HasConditionLaws}
use kubeconfig_operator.Effects.{World, ◌>>=◌}
use kubeconfig_operator.Effects.Ends.{Exit, returns, Ends, Ends-bind_run, Ends-total}
use kubeconfig_operator.Controllers.Csr.{Approval, get_cert_approval_condition}
use kubeconfig_operator.Controllers.Kubeconfig.{reconcile}
use kubeconfig_operator.Controllers.Kubeconfig.Objects.{
  Objects, load, mark, user_secret, requeue_after,
}
use kubeconfig_operator.Controllers.Kubeconfig.Request.{find_csr}
use kubeconfig_operator.Controllers.Kubeconfig.Finish.{check_approval, issue}
use kubeconfig_operator.Lifecycle.Stages.{
  Snapshot, granted, stage, open_stage, csr_stage, decision_stage,
}
use kubeconfig_operator.Lifecycle.Server.{Server, cluster_name}
use kubeconfig_operator.Lifecycle.Copies.{seen, IsOpen, stage-open}
use kubeconfig_operator.Lifecycle.Progress.Cooperation.{Cooperates}
use kubeconfig_operator.Lifecycle.Progress.Preparation.{
  Loaded, Ready, load-Loaded, user_secret-Ready,
}
use kubeconfig_operator.Lifecycle.Progress.Submission.{find_csr-Ready}
use kubeconfig_operator.Lifecycle.Progress.Closed.{granted-IsOpen}

-- Approved, neither denied nor failed, and without a certificate.
record IsGranted (a : Approval) (is_empty : Bool) : Type 0 where
  accepted : (a.denied || a.failed) ≡ false
  approved : a.approved ≡ true
  empty : is_empty ≡ true

decided-IsGranted :
    (a : Approval) (is_empty : Bool) → decision_stage a is_empty ≡ granted → IsGranted a is_empty
decided-IsGranted a is_empty at = record {
  accepted = ground (arith, at);
  approved = ground (arith, at);
  empty = ground (arith, at);
}

-- The run returned without error and asks for another one in fifteen seconds.
abbrev pub Polls : {S : Type 0} → Exit → World S → Type 0
Polls x v = x ≡ returns (requeue_after 15) none

module _ (P : Platform) (name : String) (V : Server P name) (L : HasConditionLaws P)
    (C : Cooperates P name V) where
  decided-Polls :
      (o : Objects) (a : Approval) (cert : String) (w : World P.State)
      → IsGranted a (cert == "")
      → Ends (λ _ _. ⊥) Polls ((check_approval P o.kubeconfig a >>= λ k. issue P k o.secret cert) w)
  unfolding check_approval mark issue
  decided-Polls o a cert w h = rw (h.accepted, h.approved, h.empty) refl

  prepared-Polls :
      (σ : Snapshot) (o : Objects) (r : Option CsrObject) (w : World P.State)
      → Ready P name V L C σ o w
      → σ.request ≡ r
      → open_stage r ≡ granted
      → Ends
          (λ _ _. ⊥)
          Polls
          ((find_csr P o >>= λ csr.
              check_approval P o.kubeconfig (get_cert_approval_condition csr.conditions) >>= λ k.
              issue P k o.secret csr.certificate)
            w)
  unfolding open_stage csr_stage
  prepared-Polls σ o none w h missing at = absurd (ground (arith, at))
  prepared-Polls σ o (some c) w h there at =
      Ends-bind_run (λ d v. (d ≡ c) × Ready P name V L C σ o v) (λ _ _. ⊥) Polls (find_csr P o w) _
        (Ends-total (λ d v. (d ≡ c) × Ready P name V L C σ o v) Polls _
          (find_csr-Ready P name V L C σ o c w h there))
        λ d v found. rw found.0 (
          decided-Polls o (get_cert_approval_condition c.conditions) c.certificate v
            (decided-IsGranted _ (c.certificate == "") at))

  -- Where nothing outside fails, a run for a Kubeconfig whose request is granted but carries no
  -- certificate yet returns without error and asks for another run in fifteen seconds.
  pub reconcile-Polls :
      (w : World P.State)
      → stage P (seen P name V w) ≡ granted
      → Ends (λ _ _. ⊥) Polls (reconcile P (cluster_name name) w)
  unfolding reconcile
  reconcile-Polls w at =
      let σ : Snapshot = seen P name V w in
      let opened : IsOpen P name V σ = granted-IsOpen P name V σ (inl at) in
      Ends-bind_run (Loaded P name V L C σ) (λ _ _. ⊥) Polls (load P (cluster_name name) w) _
        (Ends-total (Loaded P name V L C σ) Polls _ (load-Loaded P name V L C w opened))
        λ k v loaded.
          Ends-bind_run (Ready P name V L C σ) (λ _ _. ⊥) Polls (user_secret P k v) _
            (Ends-total (Ready P name V L C σ) Polls _
              (user_secret-Ready P name V L C σ k v loaded))
            λ o u ready.
              prepared-Polls σ o σ.request u ready refl (sym (stage-open P name V σ opened) ∙ at)
