-- ===== src/Lifecycle/Approvals.antt =====
-- What the approval of a waiting request leaves.
use kubeconfig_operator.Base.{
  String, true, false, some, List, ◌≡◌, refl, sym, ◌∙◌, ap, ◌⊎◌, inl, inr, ◌==◌, is_some,
  Bool-cases, eq_iff, Option-cases,
}
use kubeconfig_operator.K8s.{CsrObject, CsrCondition, Reply}
use kubeconfig_operator.Platform.{Platform}
use kubeconfig_operator.Effects.{World}
use kubeconfig_operator.Effects.Ends.{Ends, Ends-bind_run, Ends-and, Ends-mono}
use kubeconfig_operator.Controllers.Csr.{
  get_cert_approval_condition, set_status_condition, certificate_approved, certificate_failed,
  failed_condition, approved_condition, decide_csr, approve_csr, parse_csr,
}
use kubeconfig_operator.Controllers.Csr.Conditions.{Upserted, set_status_condition-Upserted}
use kubeconfig_operator.Controllers.Csr.Clock.{Ticks, set_status_condition-Ticks}
use kubeconfig_operator.Lifecycle.Stages.{Snapshot, with_request}
use kubeconfig_operator.Lifecycle.Server.{Server}
use kubeconfig_operator.Lifecycle.Copies.{seen}
use kubeconfig_operator.Lifecycle.Flags.{upserted_flags, flags-Upserted}

module _ (P : Platform) where
  module _ (name : String) (V : Server P name) where
    -- What a setting of a condition leaves, seen from the API server and from the flags.
    pub record Set (type : String) (csr : CsrObject) (w : World P.State) (cs : List CsrCondition)
        (v : World P.State) : Type 0 where
      pub kept : seen P name V v ≡ seen P name V w
      pub flags :
          get_cert_approval_condition cs
          ≡ upserted_flags type (get_cert_approval_condition csr.conditions)

    pub setting :
        (csr : CsrObject) (new : CsrCondition) (w : World P.State)
        → Ends (Set new.type csr w) (λ _ _. ⊥) (set_status_condition P csr.conditions new w)
    setting csr new w =
        Ends-mono (λ cs v. Upserted csr.conditions new w cs v × Ticks P w v) (Set new.type csr w)
          (λ _ _. ⊥) (λ _ _. ⊥) (set_status_condition P csr.conditions new w)
          (Ends-and (Upserted csr.conditions new w) (λ _ v. Ticks P w v) (λ _ _. ⊥)
            (set_status_condition P csr.conditions new w)
            (set_status_condition-Upserted P csr.conditions new w)
            (set_status_condition-Ticks P csr.conditions new w))
          (λ cs v h. record {
            kept = elim h.1 [
              | inl same ↦ ap V.view same
              | inr ticked ↦ ap V.view ticked ∙ V.now w.server
            ];
            flags = flags-Upserted csr.conditions new w v cs h.0;
          })
          (λ _ _ h. h)

    -- The approval was kept with its flags; or nothing was, and the answer is an error.
    pub record Approved (m : String) (σ : Snapshot) (csr : CsrObject) (r : Reply CsrObject)
        (w : World P.State) : Type 0 where
      pub named : r.object.meta.name ≡ m
      pub certificate : r.object.certificate ≡ csr.certificate
      pub flags :
          (get_cert_approval_condition r.object.conditions)
          ≡ record { approved = true; denied = false; failed = false }
      pub outcome :
          (seen P name V w ≡ σ)
          ⊎ ((m ≡ name)
              × ((c : CsrObject) × (seen P name V w ≡ with_request c σ)
                  × (c.conditions ≡ r.object.conditions)
                  × (c.certificate ≡ csr.certificate)))

    -- The request could not be parsed, and only the object in memory says so.
    pub record Unparsed (m : String) (σ : Snapshot) (csr : CsrObject) (r : Reply CsrObject)
        (w : World P.State) : Type 0 where
      pub named : r.object.meta.name ≡ m
      pub certificate : r.object.certificate ≡ csr.certificate
      pub flags :
          (get_cert_approval_condition r.object.conditions)
          ≡ record { approved = false; denied = false; failed = true }
      pub same : seen P name V w ≡ σ

    module _ (m : String) (σ : Snapshot) (csr : CsrObject) (named : csr.meta.name ≡ m)
        (holds : m ≡ name → σ.request ≡ some csr)
        (pending : get_cert_approval_condition csr.conditions
          ≡ record { approved = false; denied = false; failed = false }) where
      decided :
          (c : CsrObject) (w : World P.State)
          → seen P name V w ≡ σ
          → c.meta.name ≡ m
          → (V.view (P.update_approval c w.server).1 ≡ σ)
            ⊎ ((m ≡ name)
                × ((d : CsrObject) × (V.view (P.update_approval c w.server).1 ≡ with_request d σ)
                    × (d.conditions ≡ c.conditions)
                    × (d.certificate ≡ csr.certificate)))
      decided c w same c_named = elim (Bool-cases (m == name)) [
        | inr other ↦ inl (V.other_approval_write c w.server (rw c_named other) ∙ same)
        | inl equal ↦
            let own : m ≡ name = (eq_iff m name).0 equal in
            elim (V.approval_write c w.server (c_named ∙ own)) [
              | inl lost ↦ inl (lost.0 ∙ same)
              | inr d ↦
                  let had : some d.old ≡ some csr =
                    sym d.had ∙ ap (λ τ. τ.request) same ∙ holds own in
                  inr (
                    own,
                    (
                      d.stored,
                      d.becomes ∙ ap (with_request d.stored) same,
                      d.conditions,
                      cc (d.certificate, had),
                    ),
                  )
            ]
      ]

      pub approve_csr-Outcome :
          (w : World P.State)
          → seen P name V w ≡ σ
          → Ends
              (λ r v. Approved m σ csr r v ⊎ (Unparsed m σ csr r v × (is_some r.err ≡ true)))
              (λ _ _. ⊥)
              (approve_csr P csr w)
      unfolding approve_csr decide_csr
      approve_csr-Outcome w same = elim (Option-cases (parse_csr P csr.request)) [
        | inr (e, bad) ↦ rw bad (
            Ends-bind_run (Set certificate_failed csr w) _ (λ _ _. ⊥)
              (set_status_condition P csr.conditions (failed_condition e) w) _
              (setting csr (failed_condition e) w)
              (λ cs v set. inr (
                record {
                  named = named;
                  certificate = refl;
                  flags = set.flags ∙ ap (upserted_flags certificate_failed) pending;
                  same = set.kept ∙ same;
                },
                refl,
              )))
        | inl fine ↦ rw fine (
            Ends-bind_run (Set certificate_approved csr w) _ (λ _ _. ⊥)
              (set_status_condition P csr.conditions approved_condition w) _
              (setting csr approved_condition w)
              (λ cs v set. inl (record {
                named = named;
                certificate = refl;
                flags = set.flags ∙ ap (upserted_flags certificate_approved) pending;
                outcome = decided (record csr { conditions = cs }) v (set.kept ∙ same) named;
              })))
      ]
