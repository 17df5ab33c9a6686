-- ===== src/Tests/Copies.antt =====
-- A Kubeconfig in memory, a list of one, and a reference, with their deep copies.
use kubeconfig_operator.Base.{
  ℕ, String, true, Option, none, some, [], ◌∷◌, ◌≡◌, refl, if◌then◌else◌,
}
use kubeconfig_operator.K8s.{ObjectMeta, Condition}
use kubeconfig_operator.Api.Types.{SecretObjectReference}
use kubeconfig_operator.Api.Memory.{
  Foreign, Pointer, Shape, TypeMeta, KubeconfigStruct, Cell, Memory, eqb, text, cluster, csr, texts,
  conditions, kubeconfig, kubeconfigs, kubeconfig_list, reference, other, pure,
}
use kubeconfig_operator.Api.DeepCopy.{
  copy_pointer, Library, kubeconfig_copy, list_copy, reference_copy, as_object, kubeconfig_object,
  list_object, kubeconfig_copy_object, list_copy_object,
}
use kubeconfig_operator.Api.DeepCopy.Shapes.{
  kubeconfig_shape, kubeconfig_list_shape, reference_shape,
}
use kubeconfig_operator.Api.DeepCopy.Rules.{Equals, pure-IsDeep, IsDeep}
use kubeconfig_operator.Api.DeepCopy.Pointers.{PointsTo, SliceHas, EachHas, PointsTo-IsDeep}
use kubeconfig_operator.Api.DeepCopy.Contents.{
  TypedKubeconfig, KubeconfigList, LibraryLaws, KubeconfigHas, ListHas, ReferenceHas,
}
use kubeconfig_operator.Api.DeepCopy.Independence.{
  IsCopied, kubeconfig_copy_object-IsCopied, list_copy_object-IsCopied, reference_copy-IsCopied,
}
use kubeconfig_operator.Tests.Cluster.{bare_meta}

-- Metadata behind a pointer; conditions without any.
abbrev linked : Foreign
linked = record {
  ObjectMeta = Pointer;
  ListMeta = String;
  Condition = Condition;
  Other = ObjectMeta;
}

abbrev meta_of : Cell linked → Option ObjectMeta
meta_of (other m) = some m
meta_of c = none

abbrev meta_shape : Shape linked ObjectMeta
meta_shape = record { wrap = other; unwrap = meta_of }

abbrev library : Library linked
library = record {
  object_meta_into = copy_pointer meta_shape pure;
  list_meta_into = pure;
  condition_into = pure;
}

meta-IsDeep : IsDeep (PointsTo meta_shape Equals) (copy_pointer meta_shape pure)
meta-IsDeep = PointsTo-IsDeep meta_shape (λ _. refl) Equals pure pure-IsDeep

abbrev laws : LibraryLaws library
laws = record {
  ListMeta = String;
  ObjectMetaHas = λ p m v. PointsTo meta_shape Equals p m (some v);
  ListMetaHas = Equals;
  ConditionHas = Equals;
  object_meta = record {
    frame = λ p v m n h k. meta-IsDeep.frame p (some v) m n h k;
    deep = λ p v m h. meta-IsDeep.deep p (some v) m h;
  };
  list_meta = pure-IsDeep;
  condition = pure-IsDeep;
}

abbrev type_meta : TypeMeta
type_meta = record { kind = "Kubeconfig"; api_version = "kubeconfig.k8s.zoomoid.dev/v1alpha1" }

abbrev alice : KubeconfigStruct linked
alice = record {
  type_meta = type_meta;
  object_meta = some 9;
  spec = record {
    username = "alice";
    existing_csr = none;
    auto_approve_csr = true;
    csr = some 1;
    cluster = some 3;
    role_ref = none;
  };
  status = record {
    user_secret = record { name = ""; namespace = "" };
    csr = record { name = "" };
    conditions = some 4;
    kubeconfig = "";
    status = "";
  };
}

abbrev pending : Condition
pending = record {
  type = "CsrCreated";
  status = "Unknown";
  last_transition_time = none;
  reason = "";
  message = "";
}

-- The Kubeconfig at 0 and its parts behind it, a list with it at 5, a reference at 7, and the metadata at 9.
abbrev cells : ℕ → Cell linked
cells p =
    if eqb p 0
    then kubeconfig alice
    else if eqb p 1
    then csr (record {
      signature_algorithm = "SHA256WithRSA";
      additional_fields = record {
        country = some 2;
        province = none;
        locality = none;
        organization = none;
        organizational_unit = none;
      };
    })
    else if eqb p 2
    then texts ("DE" ∷ [])
    else if eqb p 3
    then cluster (record { name = "kubernetes"; server = "https://10.0.0.1:6443" })
    else if eqb p 4
    then conditions (pending ∷ [])
    else if eqb p 5
    then kubeconfig_list (record { type_meta = type_meta; list_meta = "7"; items = some 6 })
    else if eqb p 6
    then kubeconfigs (alice ∷ [])
    else if eqb p 7
    then reference (record { group = none; kind = some 8; name = "mine"; namespace = none })
    else if eqb p 8
    then text "Secret"
    else other (bare_meta "alice")

abbrev memory : Memory linked
memory = record { next = 10; cell = cells }

abbrev spoilt : ℕ → Cell linked
spoilt p = text "spoilt"

-- What they hold.
abbrev alice_value : TypedKubeconfig
alice_value = record {
  type_meta = type_meta;
  kubeconfig = record {
    meta = bare_meta "alice";
    spec = record {
      username = "alice";
      existing_csr = none;
      auto_approve_csr = true;
      csr = some (record {
        signature_algorithm = "SHA256WithRSA";
        additional_fields = record {
          country = some ("DE" ∷ []);
          province = none;
          locality = none;
          organization = none;
          organizational_unit = none;
        };
      });
      cluster = some (record { name = "kubernetes"; server = "https://10.0.0.1:6443" });
      role_ref = none;
    };
    status = record {
      user_secret = record { name = ""; namespace = "" };
      csr = record { name = "" };
      conditions = pending ∷ [];
      kubeconfig = "";
      status = "";
    };
  };
}

abbrev list_value : KubeconfigList String
list_value = record { type_meta = type_meta; list_meta = "7"; items = alice_value ∷ [] }

abbrev reference_value : SecretObjectReference
reference_value = record { group = none; kind = some "Secret"; name = "mine"; namespace = none }

alice-KubeconfigHas : KubeconfigHas laws alice memory alice_value
unfolding PointsTo SliceHas EachHas
alice-KubeconfigHas = record {
  type_meta = refl;
  object_meta = record { held = _; stands = refl; has = refl };
  spec = record {
    username = refl;
    existing_csr = tt;
    auto_approve_csr = refl;
    csr = record {
      held = _;
      stands = refl;
      has = record {
        signature_algorithm = refl;
        additional_fields = record {
          country = record { held = _; stands = refl; has = refl };
          province = tt;
          locality = tt;
          organization = tt;
          organizational_unit = tt;
        };
      };
    };
    cluster = record { held = _; stands = refl; has = refl };
    role_ref = tt;
  };
  status = record {
    user_secret = refl;
    csr = refl;
    conditions = record { held = _; stands = refl; has = (refl, tt) };
    kubeconfig = refl;
    status = refl;
  };
}

alice-PointsTo : PointsTo kubeconfig_shape (KubeconfigHas laws) (some 0) memory (some alice_value)
unfolding PointsTo
alice-PointsTo = record { held = alice; stands = refl; has = alice-KubeconfigHas }

list-PointsTo : PointsTo kubeconfig_list_shape (ListHas laws) (some 5) memory (some list_value)
unfolding PointsTo SliceHas EachHas
list-PointsTo = record {
  held = _;
  stands = refl;
  has = record {
    type_meta = refl;
    list_meta = refl;
    items = record { held = _; stands = refl; has = (alice-KubeconfigHas, tt) };
  };
}

reference-PointsTo : PointsTo reference_shape ReferenceHas (some 7) memory (some reference_value)
unfolding PointsTo
reference-PointsTo = record {
  held = _;
  stands = refl;
  has = record {
    group = tt;
    kind = record { held = _; stands = refl; has = refl };
    name = refl;
    namespace = tt;
  };
}

kubeconfig_copy_object-IsCopied_example :
    (r : IsCopied kubeconfig_shape
      (KubeconfigHas laws)
      (kubeconfig_copy library)
      (some 0)
      (some alice_value)
      memory
      spoilt)
    × (kubeconfig_copy_object library (some 0) memory
        ≡ some (as_object kubeconfig_object r.made, r.after))
kubeconfig_copy_object-IsCopied_example =
    kubeconfig_copy_object-IsCopied laws (some 0) (some alice_value) memory spoilt alice-PointsTo

list_copy_object-IsCopied_example :
    (r : IsCopied kubeconfig_list_shape
      (ListHas laws)
      (list_copy library)
      (some 5)
      (some list_value)
      memory
      spoilt)
    × (list_copy_object library (some 5) memory ≡ some (as_object list_object r.made, r.after))
list_copy_object-IsCopied_example =
    list_copy_object-IsCopied laws (some 5) (some list_value) memory spoilt list-PointsTo

reference_copy-IsCopied_example :
    IsCopied reference_shape ReferenceHas reference_copy
      (some 7)
      (some reference_value)
      memory
      spoilt
reference_copy-IsCopied_example =
    reference_copy-IsCopied (some 7) (some reference_value) memory spoilt reference-PointsTo
