-- ===== src/Controllers/Kubeconfig/Objects.antt =====
-- controllers/kubeconfig_controller.go, the first half of `Reconcile`: the Kubeconfig of the request
-- and its user secret.
use kubeconfig_operator.Base.{ℕ, String, true, Option, none, some, ◌<>◌, if◌then◌else◌}
use kubeconfig_operator.Base.Dict.{insert}
use kubeconfig_operator.K8s.{NamespacedName, Error, Secret, Reply, Result}
use kubeconfig_operator.Api.Types.{Kubeconfig, SecretRef}
use kubeconfig_operator.Api.Conditions.{
  condition_type_user_secret_created, condition_true, condition_false, phase_failed,
}
use kubeconfig_operator.Platform.{Platform}
use kubeconfig_operator.Effects.{
  M, pure, return, deref, ◌>>=◌, ◌>>◌, record_event, get_kubeconfig, get_secret, create_secret,
  update_kubeconfig_status, set_status_condition,
}
use kubeconfig_operator.Controllers.Keys.{is_in_terminal_condition}
use kubeconfig_operator.Controllers.Resources.{create_user_secret}
use kubeconfig_operator.Controllers.Csr.{finished}

-- `ctrl.Result{Requeue: true, RequeueAfter: ...}`.
abbrev pub requeue_after : ℕ → Result
requeue_after n = record { requeue = true; requeue_after = n }

abbrev pub user_secret_name : Kubeconfig → NamespacedName
user_secret_name k = record {
  namespace = "kubeconfig-operator-system";
  name = k.meta.name <> "-client-cert";
}

abbrev pub binding_name : Kubeconfig → NamespacedName
binding_name k = record { namespace = ""; name = k.spec.username <> "-kubeconfig" }

abbrev pub set_phase : String → Kubeconfig → Kubeconfig
set_phase phase k = record k { status = record (k.status) { status = phase } }

abbrev pub set_user_secret : Secret → Kubeconfig → Kubeconfig
set_user_secret s k = record k {
  status = record (k.status) {
    user_secret = record { name = s.meta.name; namespace = s.meta.namespace };
  };
}

-- An error as "%v" prints it.
abbrev pub text_of : Option Error → String
text_of none = "<nil>"
text_of (some e) = e.message

-- A Kubeconfig and its user secret, as the local variables of `Reconcile` hold them.
pub record Objects : Type 0 where
  pub kubeconfig : Kubeconfig
  pub secret : Secret

module _ (P : Platform) where
  -- `meta.SetStatusCondition(&kubeconfig.Status.Conditions, ...)`.
  unfoldable pub mark : String → String → String → String → Kubeconfig → M P.State Kubeconfig
  mark type status reason message k = do
    conditions ← set_status_condition P k.status.conditions (record {
      type = type;
      status = status;
      last_transition_time = none;
      reason = reason;
      message = message;
    })
    pure (record k { status = record (k.status) { conditions = conditions } })

  -- `userSecret.Data[key] = value`, a panic where the map is nil.
  unfoldable pub put_content : String → String → Secret → M P.State Secret
  put_content key value s = do
    m ← deref s.content
    pure (record s { content = some (insert key value m) })

  -- The object of the request. A finished one is left alone.
  unfoldable pub load : NamespacedName → M P.State Kubeconfig
  load name = do
    r ← get_kubeconfig P name
    elim r.err [
      | some e ↦ if P.is_not_found (some e) then return finished none else return finished (some e)
      | none ↦ if is_in_terminal_condition P r.object then return finished none else pure r.object
    ]

  -- `Spec.ExistingCSR` is set. Only a "not found" error ends the run here.
  unfoldable pub existing_secret : SecretRef → Kubeconfig → M P.State Objects
  existing_secret ref k = do
    r ← get_secret P (record { namespace = ref.namespace; name = ref.name })
    if P.is_not_found r.err
        then (do
          record_event "Warning" "NotFound"
              ("Predefined secret for CSR could not be found, " <> text_of r.err)
          return (requeue_after 60) r.err)
        else pure (record {
          kubeconfig = set_user_secret r.object k;
          secret = record (r.object) { meta = P.set_controller_reference k.meta r.object.meta };
        })

  unfoldable pub created_secret : Kubeconfig → Reply Secret → M P.State Objects
  created_secret k r = elim r.err [
    | some e ↦ do
      record_event "Warning" "UserSecretFailed" ("Failed to create user secret, " <> e.message)
      k' ←
          mark condition_type_user_secret_created condition_false "UserSecretCreateFailed"
            ("Failed to create user secret, " <> e.message) k
      _ ← update_kubeconfig_status P (set_phase phase_failed k')
      return finished (some e)
    | none ↦ do
      k' ←
          mark condition_type_user_secret_created condition_true "UserSecretCreated"
            "Created user secret" (set_user_secret r.object k)
      pure (record { kubeconfig = k'; secret = r.object })
  ]

  -- No existing secret is named: the operator's own one is read, or created.
  unfoldable pub own_secret : Kubeconfig → M P.State Objects
  own_secret k = do
    r ← get_secret P (user_secret_name k)
    if P.is_not_found r.err
        then (do
          s ← create_secret P (create_user_secret P k (user_secret_name k))
          created_secret k s)
        else elim r.err [
          | some e ↦ return finished (some e)
          | none ↦ pure (record { kubeconfig = k; secret = r.object })
        ]

  -- The branch on `Spec.ExistingCSR`.
  unfoldable pub secret_for : Option SecretRef → Kubeconfig → M P.State Objects
  secret_for (some ref) k = existing_secret ref k
  secret_for none k = own_secret k

  unfoldable pub user_secret : Kubeconfig → M P.State Objects
  unfolding secret_for
  user_secret k = secret_for k.spec.existing_csr k
