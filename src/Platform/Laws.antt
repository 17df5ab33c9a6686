-- ===== src/Platform/Laws.antt =====
-- What the documentation of the called code promises, as far as a theorem relies on it.
use kubeconfig_operator.Base.{
  String, none, some, List, [], ◌∷◌, ◌++◌, ◌≡◌, ◌==◌, false, if◌then◌else◌, or_else,
}
use kubeconfig_operator.K8s.{Condition, ObjectMeta}
use kubeconfig_operator.Platform.{Platform}

-- `meta.FindStatusCondition` gives the first condition of a type. `meta.SetStatusCondition` makes the
-- given condition the one of its type, whatever its transition time, and leaves the other types.
pub record HasConditionLaws (P : Platform) : Type 0 where
  pub find_append :
      (cs : List Condition) (c : Condition) (t : String)
      → P.find_status_condition (cs ++ (c ∷ [])) t
        ≡ or_else (P.find_status_condition cs t) (if c.type == t then some c else none)
  pub set_self :
      (cs : List Condition) (c : Condition) (s : P.State)
      → (d : Condition) × (P.find_status_condition (P.set_status_condition cs c s).0 c.type
          ≡ some d)
        × (d.status ≡ c.status)
        × (d.reason ≡ c.reason)
        × (d.message ≡ c.message)
  pub set_other :
      (cs : List Condition) (c : Condition) (t : String) (s : P.State)
      → (c.type == t) ≡ false
      → P.find_status_condition (P.set_status_condition cs c s).0 t ≡ P.find_status_condition cs t

-- `apierrors.IsNotFound` holds of no nil error.
pub record HasErrorLaws (P : Platform) : Type 0 where
  pub nil_is_found : P.is_not_found none ≡ false

-- `controllerutil.SetControllerReference` keeps the annotations and makes the owner, a Kubeconfig, an
-- owner reference.
pub record HasOwnerLaws (P : Platform) : Type 0 where
  pub annotations :
      (owner m : ObjectMeta) → (P.set_controller_reference owner m).annotations ≡ m.annotations
  pub owner_references :
      (owner m : ObjectMeta)
      → m.owner_references ≡ []
      → (P.set_controller_reference owner m).owner_references
        ≡ record {
          api_version = "kubeconfig.k8s.zoomoid.dev/v1alpha1";
          kind = "Kubeconfig";
          name = owner.name;
        }
          ∷ []
