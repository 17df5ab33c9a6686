-- ===== src/Effects.antt =====
-- The effects of a Go function as a state monad: the outside world, the requests sent to it
-- with their answers and the events recorded so far (newest first), and the three ways in which a Go function body ends a
-- statement: with a value, by `return`, or by a panic. Log lines are not kept.
pub mod Ends
use kubeconfig_operator.Base.{String, Option, none, some, List, ◌∷◌}
use kubeconfig_operator.K8s.{
  NamespacedName, Error, Secret, CsrObject, ClusterRoleBinding, ConfigMap, Condition, Reply, Result,
}
use kubeconfig_operator.Api.Types.{Kubeconfig}
use kubeconfig_operator.Platform.{Platform}

-- A request to the API server together with its answer, or an event.
pub data Effect : Type 0 where
  kubeconfig_get : NamespacedName → Reply Kubeconfig → Effect
  secret_get : NamespacedName → Reply Secret → Effect
  csr_get : NamespacedName → Reply CsrObject → Effect
  binding_get : NamespacedName → Reply ClusterRoleBinding → Effect
  config_map_get : NamespacedName → Reply ConfigMap → Effect
  secret_create secret_update : Secret → Reply Secret → Effect
  csr_create csr_status_update csr_approval_update : CsrObject → Reply CsrObject → Effect
  binding_create : ClusterRoleBinding → Reply ClusterRoleBinding → Effect
  kubeconfig_status_update : Kubeconfig → Reply Kubeconfig → Effect
  -- `Recorder.Event`: type, reason and message.
  event : String → String → String → Effect

pub record World (S : Type 0) : Type 0 where
  pub server : S
  pub effects : List Effect

pub data Run (S : Type 0) (A : Type 0) : Type 0 where
  value : A → World S → Run S A
  returned : Result → Option Error → World S → Run S A
  panicked : World S → Run S A

abbrev pub M : Type 0 → Type 0 → Type 0
M S A = World S → Run S A

abbrev pub pure : {S A : Type 0} → A → M S A
pure a w = value a w

abbrev pub end_world : {S A : Type 0} → Run S A → World S
end_world (value a w) = w
end_world (returned r e w) = w
end_world (panicked w) = w

-- `return result, err`.
abbrev pub return : {S A : Type 0} → Result → Option Error → M S A
return r e w = returned r e w

abbrev pub panic : {S A : Type 0} → M S A
panic w = panicked w

abbrev pub bind_run : {S A B : Type 0} → Run S A → (A → M S B) → Run S B
bind_run (value a w) f = f a w
bind_run (returned r e w) f = returned r e w
bind_run (panicked w) f = panicked w

infixl 5 ◌>>=◌ ◌>>◌
abbrev pub ◌>>=◌ : {S A B : Type 0} → M S A → (A → M S B) → M S B
◌>>=◌ m f w = bind_run (m w) f

abbrev pub ◌>>◌ : {S B : Type 0} → M S (Unit {0}) → M S B → M S B
m >> k = m >>= λ _. k

-- A step of the outside that is no request: the clock, the random source.
abbrev pub step : {S A : Type 0} → (S → A × S) → M S A
step f w = value (f w.server).0 (record w { server = (f w.server).1 })

-- The world once a request has been answered, and once an event has been recorded.
abbrev pub answered : {S A : Type 0} → (Reply A → Effect) → (S → Reply A × S) → World S → World S
answered e f w = record { server = (f w.server).1; effects = e (f w.server).0 ∷ w.effects }

abbrev pub announced : {S : Type 0} → String → String → String → World S → World S
announced t r m w = record w { effects = event t r m ∷ w.effects }

-- A request to the API server, which is kept with its answer.
abbrev pub call : {S A : Type 0} → (Reply A → Effect) → (S → Reply A × S) → M S (Reply A)
call e f w = value (f w.server).0 (answered e f w)

-- `Recorder.Event` and `Recorder.Eventf`.
abbrev pub record_event : {S : Type 0} → String → String → String → M S (Unit {0})
record_event t r m w = value tt (announced t r m w)

-- Dereferences a pointer.
abbrev pub deref : {S A : Type 0} → Option A → M S A
deref none w = panicked w
deref (some a) w = value a w

module _ (P : Platform) where
  abbrev pub get_kubeconfig : NamespacedName → M P.State (Reply Kubeconfig)
  get_kubeconfig n = call (kubeconfig_get n) (P.get_kubeconfig n)

  abbrev pub get_secret : NamespacedName → M P.State (Reply Secret)
  get_secret n = call (secret_get n) (P.get_secret n)

  abbrev pub get_csr : NamespacedName → M P.State (Reply CsrObject)
  get_csr n = call (csr_get n) (P.get_csr n)

  abbrev pub get_cluster_role_binding : NamespacedName → M P.State (Reply ClusterRoleBinding)
  get_cluster_role_binding n = call (binding_get n) (P.get_cluster_role_binding n)

  abbrev pub get_config_map : NamespacedName → M P.State (Reply ConfigMap)
  get_config_map n = call (config_map_get n) (P.get_config_map n)

  abbrev pub create_secret : Secret → M P.State (Reply Secret)
  create_secret x = call (secret_create x) (P.create_secret x)

  abbrev pub update_secret : Secret → M P.State (Reply Secret)
  update_secret x = call (secret_update x) (P.update_secret x)

  abbrev pub create_csr : CsrObject → M P.State (Reply CsrObject)
  create_csr x = call (csr_create x) (P.create_csr x)

  abbrev pub create_cluster_role_binding : ClusterRoleBinding → M P.State (Reply ClusterRoleBinding)
  create_cluster_role_binding x = call (binding_create x) (P.create_cluster_role_binding x)

  abbrev pub update_kubeconfig_status : Kubeconfig → M P.State (Reply Kubeconfig)
  update_kubeconfig_status x = call (kubeconfig_status_update x) (P.update_kubeconfig_status x)

  abbrev pub update_csr_status : CsrObject → M P.State (Reply CsrObject)
  update_csr_status x = call (csr_status_update x) (P.update_csr_status x)

  abbrev pub update_approval : CsrObject → M P.State (Reply CsrObject)
  update_approval x = call (csr_approval_update x) (P.update_approval x)

  abbrev pub set_status_condition : List Condition → Condition → M P.State (List Condition)
  set_status_condition cs c = step (P.set_status_condition cs c)
