-- ===== src/Tests/Laws.antt =====
-- The cluster in memory does what the theorems ask of the outside.
use kubeconfig_operator.Base.{
  String, Option, none, some, List, [], ◌∷◌, ◌++◌, ◌≡◌, ◌==◌, refl, inl, inr, if◌then◌else◌,
  or_else, arith, eq_iff, eq_refl, true, ◌⊎◌,
}
use kubeconfig_operator.K8s.{Condition, Secret, ClusterRoleBinding}
use kubeconfig_operator.Platform.Laws.{HasConditionLaws, HasErrorLaws, HasOwnerLaws}
use kubeconfig_operator.Controllers.Keys.Total.{KeysWork}
use kubeconfig_operator.Controllers.Panics.{IsSound, HasPointers, HasContent}
use kubeconfig_operator.Controllers.Outcomes.Completion.{Accepts}
use kubeconfig_operator.Controllers.Outcomes.Submission.{Submits}
use kubeconfig_operator.Tests.Cluster.{
  platform, find_condition, set_condition, read_secret, sample, reply_or, no_binding,
}

find-append :
    (cs : List Condition) (c : Condition) (t : String)
    → find_condition (cs ++ (c ∷ [])) t
      ≡ or_else (find_condition cs t) (if c.type == t then some c else none)
find-append [] c t = ground arith
find-append (x ∷ cs) c t = ground (arith, find-append cs c t)

find-set :
    (cs : List Condition) (c : Condition) (t : String)
    → find_condition (set_condition cs c) t ≡ (if c.type == t then some c else find_condition cs t)
find-set [] c t = ground arith
find-set (x ∷ cs) c t =
    ground (arith, find-set cs c t, eq_iff x.type t, eq_iff c.type t, eq_iff x.type c.type)

pub platform-HasConditionLaws : HasConditionLaws platform
platform-HasConditionLaws = record {
  find_append = find-append;
  set_self = λ cs c s. (c, ground (arith, find-set cs c c.type, eq_refl c.type), refl, refl, refl);
  set_other = λ cs c t s h. ground (arith, find-set cs c t);
}

pub platform-HasErrorLaws : HasErrorLaws platform
platform-HasErrorLaws = record { nil_is_found = refl }

pub platform-KeysWork : KeysWork platform
platform-KeysWork = record {
  pkcs1 = λ k. refl;
  ec = λ k. refl;
  pkcs8 = λ k. refl;
  no_key = λ r s. refl;
}

secret-HasContent :
    (o : Option Secret)
    → (platform.is_not_found (read_secret o).err ≡ true) ⊎ HasContent (read_secret o).object
secret-HasContent none = inl refl
secret-HasContent (some x) = inr refl

pub platform-IsSound : IsSound platform
platform-IsSound = record {
  stored = λ n s. inr (record { csr = refl; cluster = refl; role_ref = refl });
  secret_read = λ n s. secret-HasContent s.secret;
  secret_created = λ x s. refl;
  keys = platform-KeysWork;
}

pub platform-HasOwnerLaws : HasOwnerLaws platform
platform-HasOwnerLaws = record {
  annotations = λ owner m. refl;
  owner_references = λ owner m h. rw h refl;
}

binding_answers :
    (o : Option ClusterRoleBinding)
    → (platform.is_not_found (reply_or no_binding o).err ≡ true)
      ⊎ ((reply_or no_binding o).err ≡ none)
binding_answers none = inl refl
binding_answers (some b) = inr refl

pub platform-Accepts : Accepts platform
platform-Accepts = record {
  config_map = λ n s. refl;
  secret = λ x s. refl;
  binding_read = λ n s. binding_answers s.binding;
  binding_created = λ b s. refl;
}

pub sample-HasPointers : HasPointers sample
sample-HasPointers = record { csr = refl; cluster = refl; role_ref = refl }

pub platform-Submits : Submits platform
platform-Submits = record {
  keys = platform-KeysWork;
  signs = λ r k s. refl;
  secret = λ x s. refl;
  request = λ c s. refl;
}
