-- ===== src/Tests/Names.antt =====
-- The cluster in memory with names: it keeps the objects of "alice", and refuses all others. Here
-- the endpoint for the status of a request keeps its approval.
use kubeconfig_operator.Base.{
  String, Bool, true, not, ◌&&◌, Option, none, some, ◌≡◌, ◌==◌, ◌⊎◌, inl, inr, refl, if◌then◌else◌,
  is_some, arith, eq_iff, Bool-cases,
}
use kubeconfig_operator.K8s.{CsrObject, Reply}
use kubeconfig_operator.Api.Types.{Kubeconfig}
use kubeconfig_operator.Platform.{Platform}
use kubeconfig_operator.Platform.Laws.{HasConditionLaws}
use kubeconfig_operator.Controllers.Csr.{get_cert_approval_condition}
use kubeconfig_operator.Lifecycle.Stages.{Snapshot}
use kubeconfig_operator.Lifecycle.Server.{Server, CsrDecided, CsrReported}
use kubeconfig_operator.Tests.Cluster.{platform, sample, Store, not_found, no_csr}
use kubeconfig_operator.Tests.Laws.{platform-HasConditionLaws}

abbrev pub shown : Store → Kubeconfig
shown s = record (s.kubeconfig) { spec = sample.spec; meta = sample.meta }

abbrev pub shown_csr : CsrObject → CsrObject
shown_csr c = record c { meta = record (c.meta) { name = "alice" } }

abbrev pub shown_request : Option CsrObject → Option CsrObject
shown_request none = none
shown_request (some c) = some (shown_csr c)

abbrev pub shown_snapshot : Store → Snapshot
shown_snapshot s = record { kubeconfig = some (shown s); request = shown_request s.csr }

abbrev pub refuse : {A : Type 0} → A → Reply A
refuse a = record { object = a; err = some not_found }

abbrev pub accept : {A : Type 0} → A → Reply A
accept a = record { object = a; err = none }

abbrev pub found : Option CsrObject → Reply CsrObject
found none = refuse no_csr
found (some c) = accept (shown_csr c)

abbrev written : Kubeconfig → Store → Store
written k s = record s { kubeconfig = record (shown s) { status = k.status } }

abbrev pub decided : CsrObject → Option CsrObject → Store → Reply CsrObject × Store
decided c none s = (refuse c, s)
decided c (some old) s =
    (accept c, record s { csr = some (record (shown_csr old) { conditions = c.conditions }) })

abbrev same : Bool → Bool → Bool
same a b = if a then b else not b

abbrev keeps_approval : CsrObject → CsrObject → Bool
keeps_approval c old =
    same (get_cert_approval_condition c.conditions).approved
      (get_cert_approval_condition old.conditions).approved
    && same (get_cert_approval_condition c.conditions).denied
        (get_cert_approval_condition old.conditions).denied

abbrev reported : CsrObject → Option CsrObject → Store → Reply CsrObject × Store
reported c none s = (refuse c, s)
reported c (some old) s =
    if keeps_approval c old
    then (accept c, record s { csr = some (shown_csr c) })
    else (refuse c, s)

abbrev pub named : Platform
named = record platform {
  get_kubeconfig = λ n s.
      (record { object = shown s; err = if n.name == "alice" then none else some not_found }, s);
  get_csr = λ n s. (if n.name == "alice" then found s.csr else refuse no_csr, s);
  create_csr = λ c s. (accept c, if c.meta.name == "alice" then record s { csr = some c } else s);
  update_kubeconfig_status =
      λ k s. if k.meta.name == "alice" then (accept k, written k s) else (refuse k, s);
  update_approval = λ c s. if c.meta.name == "alice" then decided c s.csr s else (refuse c, s);
  update_csr_status = λ c s. if c.meta.name == "alice" then reported c s.csr s else (refuse c, s);
}

pub named-HasConditionLaws : HasConditionLaws named
named-HasConditionLaws = record {
  find_append = platform-HasConditionLaws.find_append;
  set_self = platform-HasConditionLaws.set_self;
  set_other = platform-HasConditionLaws.set_other;
}

pub found_object :
    (o : Option CsrObject) → (found o).err ≡ none → shown_request o ≡ some (found o).object
found_object none h = ground (arith, h)
found_object (some c) h = refl

pub found_missing :
    (o : Option CsrObject) → platform.is_not_found (found o).err ≡ true → shown_request o ≡ none
found_missing none h = refl
found_missing (some c) h = ground (arith, h)

pub found_name :
    (o : Option CsrObject) → (found o).err ≡ none → (found o).object.meta.name ≡ "alice"
found_name none h = ground (arith, h)
found_name (some c) h = refl

same_lem : (a b : Bool) → same a b ≡ true → a ≡ b
same_lem a b h = ground (arith, h)

pub decided-CsrDecided :
    (c : CsrObject) (o : Option CsrObject) (s : Store)
    → s.csr ≡ o
    → ((shown_snapshot (decided c o s).1 ≡ shown_snapshot s)
        × (is_some (decided c o s).0.err ≡ true))
      ⊎ CsrDecided c (shown_snapshot s) (shown_snapshot (decided c o s).1)
decided-CsrDecided c none s h = inl (refl, refl)
decided-CsrDecided c (some old) s h = inr (record {
  old = shown_csr old;
  had = rw h refl;
  stored = record (shown_csr old) { conditions = c.conditions };
  conditions = refl;
  certificate = refl;
  becomes = refl;
})

pub reported-CsrReported :
    (c : CsrObject) (o : Option CsrObject) (s : Store)
    → s.csr ≡ o
    → (shown_snapshot (reported c o s).1 ≡ shown_snapshot s)
      ⊎ CsrReported c (shown_snapshot s) (shown_snapshot (reported c o s).1)
reported-CsrReported c none s h = inl refl
reported-CsrReported c (some old) s h = elim (Bool-cases (keeps_approval c old)) [
  | inl agree ↦ rw agree (
      inr (record {
        old = shown_csr old;
        had = rw h refl;
        stored = shown_csr c;
        approved =
            same_lem (get_cert_approval_condition c.conditions).approved
              (get_cert_approval_condition old.conditions).approved (ground (arith, agree));
        denied =
            same_lem (get_cert_approval_condition c.conditions).denied
              (get_cert_approval_condition old.conditions).denied (ground (arith, agree));
        failed = refl;
        certificate = refl;
        becomes = refl;
      }))
  | inr differ ↦ rw differ (inl refl)
]

pub is_alice : (n : String) → n ≡ "alice" → (n == "alice") ≡ true
is_alice n h = ground (arith, h, eq_iff n "alice")

unfoldable pub named_server : Server named "alice"
named_server = record {
  view = shown_snapshot;
  kubeconfig_read = λ s h. refl;
  csr_read = λ s h. found_object s.csr h;
  csr_missing = λ s h. found_missing s.csr h;
  kubeconfig_name = λ n s h. ground (arith, h, eq_iff n.name "alice");
  csr_name = λ n s h. ground (arith, h, eq_iff n.name "alice", found_name s.csr);
  owner_keeps_name = λ owner m. refl;
  status_write = λ k s h. rw (is_alice k.meta.name h) (
      inr (record {
        stored = record (shown s) { status = k.status };
        status = refl;
        becomes = refl;
      }));
  csr_create = λ c s h. rw (is_alice c.meta.name h) (
      inr (record {
        stored = shown_csr c;
        conditions = refl;
        annotations = refl;
        owner_references = refl;
        becomes = refl;
      }));
  approval_write = λ c s h. rw (is_alice c.meta.name h) (decided-CsrDecided c s.csr s refl);
  csr_status_write = λ c s h. rw (is_alice c.meta.name h) (reported-CsrReported c s.csr s refl);
  other_status_write = λ k s h. rw h refl;
  other_csr_create = λ c s h. rw h refl;
  other_approval_write = λ c s h. rw h refl;
  other_csr_status_write = λ c s h. rw h refl;
  get_kubeconfig = λ n s. refl;
  get_secret = λ n s. refl;
  get_csr = λ n s. refl;
  get_binding = λ n s. refl;
  get_config_map = λ n s. refl;
  create_secret = λ x s. refl;
  update_secret = λ x s. refl;
  create_binding = λ b s. refl;
  now = λ s. refl;
  set_status_condition = λ cs c s. refl;
  rsa_generate_key = λ n s. refl;
  ecdsa_generate_key = λ c s. refl;
  ed25519_generate_key = λ s. refl;
  create_certificate_request = λ r key s. refl;
}
