-- ===== src/Tests/Cooperation.antt =====
-- The cluster with names hinders no run, and its signer adds certificates.
use kubeconfig_operator.Base.{
  true, Option, none, some, ◌≡◌, ◌⊎◌, inl, inr, refl, is_some, arith, subst,
}
use kubeconfig_operator.K8s.{Secret, CsrObject}
use kubeconfig_operator.Api.Types.{CertificateSigningRequest}
use kubeconfig_operator.Platform.Laws.{HasOwnerLaws}
use kubeconfig_operator.Controllers.Keys.{key_case}
use kubeconfig_operator.Controllers.Keys.Total.{KeysWork}
use kubeconfig_operator.Controllers.Panics.{IsSound}
use kubeconfig_operator.Controllers.Outcomes.Completion.{Accepts}
use kubeconfig_operator.Controllers.Outcomes.Submission.{Submits, HasKeyType}
use kubeconfig_operator.Lifecycle.Progress.Cooperation.{Cooperates}
use kubeconfig_operator.Lifecycle.Progress.Together.{IsSigned}
use kubeconfig_operator.Tests.Cluster.{read_secret, platform, sample, Store}
use kubeconfig_operator.Tests.Laws.{platform-IsSound, platform-Accepts, platform-HasOwnerLaws}
use kubeconfig_operator.Tests.Names.{
  shown_csr, shown_request, shown_snapshot, found, decided, named, is_alice, named_server,
}

found_or_missing :
    (o : Option Secret)
    → (platform.is_not_found (read_secret o).err ≡ true) ⊎ ((read_secret o).err ≡ none)
found_or_missing none = inl refl
found_or_missing (some x) = inr refl

abbrev AskedKey : Option CertificateSigningRequest → Type 0
AskedKey none = Unit {0}
AskedKey (some c) = HasKeyType (key_case c.signature_algorithm)

sample_key :
    (c : CertificateSigningRequest)
    → sample.spec.csr ≡ some c
    → HasKeyType (key_case c.signature_algorithm)
unfolding key_case
sample_key c h = subst AskedKey h tt

found_served : (o : Option CsrObject) → is_some (shown_request o) ≡ true → (found o).err ≡ none
found_served none h = ground (arith, h)
found_served (some c) h = refl

found_refused :
    (o : Option CsrObject) → shown_request o ≡ none → platform.is_not_found (found o).err ≡ true
found_refused none h = refl
found_refused (some c) h = ground (arith, h)

named-KeysWork : KeysWork named
named-KeysWork = record {
  pkcs1 = λ k. refl;
  ec = λ k. refl;
  pkcs8 = λ k. refl;
  no_key = λ r s. refl;
}

named-Submits : Submits named
named-Submits = record {
  keys = named-KeysWork;
  signs = λ r k s. refl;
  secret = λ x s. refl;
  request = λ c s. refl;
}

named-Accepts : Accepts named
named-Accepts = record {
  config_map = platform-Accepts.config_map;
  secret = λ x s. refl;
  binding_read = platform-Accepts.binding_read;
  binding_created = λ b s. refl;
}

decided_taken :
    (c : CsrObject) (o : Option CsrObject) (s : Store)
    → is_some (shown_request o) ≡ true
    → (decided c o s).0.err ≡ none
decided_taken c none s h = ground (arith, h)
decided_taken c (some old) s h = refl

named-IsSound : IsSound named
named-IsSound = record {
  stored = λ n s. inr (record { csr = refl; cluster = refl; role_ref = refl });
  secret_read = platform-IsSound.secret_read;
  secret_created = platform-IsSound.secret_created;
  keys = named-KeysWork;
}

pub named-Cooperates : Cooperates named "alice" named_server
unfolding named_server
named-Cooperates = record {
  sound = named-IsSound;
  submits = named-Submits;
  accepts = named-Accepts;
  errors = record { nil_is_found = refl };
  kubeconfig_served = λ s h. refl;
  csr_served = λ s h. found_served s.csr h;
  csr_refused = λ s h. found_refused s.csr h;
  secret_answers = λ n s. found_or_missing s.secret;
  secret_created = λ x s. refl;
  status_taken = λ k s h there. rw (is_alice k.meta.name h) refl;
  approval_taken = λ c s h there. rw (is_alice c.meta.name h) (decided_taken c s.csr s there);
  algorithm = λ s c h. sample_key c h;
  existing = λ s t ref h. cc h;
}

pub named-HasOwnerLaws : HasOwnerLaws named
named-HasOwnerLaws = record {
  annotations = platform-HasOwnerLaws.annotations;
  owner_references = platform-HasOwnerLaws.owner_references;
}

abbrev pub signed_request : Option CsrObject → Option CsrObject
signed_request none = none
signed_request (some c) = some (record c { certificate = "cert" })

-- The signer at work.
abbrev pub signed_store : Store → Store
signed_store s = record s { csr = signed_request s.csr }

IsSigned-request :
    (s : Store) (o : Option CsrObject)
    → s.csr ≡ o
    → is_some o ≡ true
    → IsSigned (shown_snapshot s) (shown_snapshot (record s { csr = signed_request o }))
IsSigned-request s none h there = ground (arith, there)
IsSigned-request s (some c) h there = record {
  request = shown_csr c;
  had = rw h refl;
  certificate = "cert";
  full = refl;
  becomes = refl;
}

pub signed_store-IsSigned :
    (s : Store)
    → is_some s.csr ≡ true
    → IsSigned (named_server.view s) (named_server.view (signed_store s))
unfolding named_server
signed_store-IsSigned s there = IsSigned-request s s.csr refl there
