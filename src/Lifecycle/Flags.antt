-- ===== src/Lifecycle/Flags.antt =====
-- The flags of a request after its conditions changed, and what they mean for the stage.
use kubeconfig_operator.Base.{
  String, true, some, List, [], ◌∷◌, ◌≡◌, refl, inl, inr, ◌==◌, is_some, arith, Bool-cases,
  if◌then◌else◌, Option-cases,
}
use kubeconfig_operator.K8s.{CsrObject, CsrCondition}
use kubeconfig_operator.Api.Conditions.{condition_unknown}
use kubeconfig_operator.Platform.{Platform}
use kubeconfig_operator.Effects.{World}
use kubeconfig_operator.Controllers.Csr.{
  Approval, get_cert_approval_condition, find_status_condition, certificate_approved,
  certificate_denied, certificate_failed,
}
use kubeconfig_operator.Controllers.Csr.Conditions.{
  has_type, get_cert_approval_condition-has_type, Upserted,
}
use kubeconfig_operator.Lifecycle.Stages.{
  Snapshot, with_request, Moves, finish, stage, stage_of, csr_stage, open_stage,
}

has_type-find :
    (t : String) (cs : List CsrCondition) → has_type t cs ≡ is_some (find_status_condition cs t)
unfolding find_status_condition
has_type-find t [] = refl
has_type-find t (c ∷ cs) = ground (arith, has_type-find t cs)

has_type-Upserted :
    {S : Type 0} (old : List CsrCondition) (new : CsrCondition) (w v : World S)
    (cs : List CsrCondition) (t : String)
    → Upserted old new w cs v
    → has_type t cs ≡ (if new.type == t then true else has_type t old)
has_type-Upserted old new w v cs t up =
    ground (arith, up.found t, has_type-find t cs, has_type-find t old)

-- The flags after an upsert.
abbrev pub upserted_flags : String → Approval → Approval
upserted_flags type a = record {
  approved = if type == certificate_approved then true else a.approved;
  denied = if type == certificate_denied then true else a.denied;
  failed = if type == certificate_failed then true else a.failed;
}

pub flags-Upserted :
    {S : Type 0} (old : List CsrCondition) (new : CsrCondition) (w v : World S)
    (cs : List CsrCondition)
    → Upserted old new w cs v
    → get_cert_approval_condition cs ≡ upserted_flags new.type (get_cert_approval_condition old)
flags-Upserted old new w v cs up =
    let at : (t : String) → has_type t cs ≡ (if new.type == t then true else has_type t old) =
      λ t. has_type-Upserted old new w v cs t up in
    rw
      (
        get_cert_approval_condition-has_type cs,
        get_cert_approval_condition-has_type old,
        at certificate_approved,
        at certificate_denied,
        at certificate_failed,
      )
      refl

module _ (P : Platform) where
  -- A request moves the stage of an unfinished Kubeconfig only.
  pub request-Moves :
      (σ : Snapshot) (c d : CsrObject)
      → σ.request ≡ some c
      → Moves (csr_stage c) (csr_stage d)
      → Moves (stage P σ) (stage P (with_request d σ))
  unfolding stage stage_of open_stage
  request-Moves σ c d had moves = elim (Option-cases σ.kubeconfig) [
    | inl none_kept ↦ rw none_kept (inl refl)
    | inr (k, kept) ↦
        rw (kept, had)
          (elim (Option-cases (finish P k)) [
            | inl open_one ↦ rw open_one moves
            | inr (f, found) ↦ rw found (elim (Bool-cases (f.status == condition_unknown)) [
              | inl open_one ↦ rw open_one moves
              | inr ended ↦ rw ended (inl refl)
            ])
          ])
  ]
