-- ===== src/Api/Memory.antt =====
-- The objects of api/v1alpha1 as they lie in memory: a pointer is an address or nil, and a slice an
-- array that it spans, or nil. A write through one pointer is seen through every other one.
use Prim.Native.Nat.{compare, Ordering}
use kubeconfig_operator.Base.{
  ℕ, ◌+◌, String, Bool, true, false, Option, none, some, List, if◌then◌else◌,
}
use kubeconfig_operator.K8s.{RoleRef}
use kubeconfig_operator.Api.Types.{SecretRef, CsrRef, Cluster, SignatureAlgorithm}

abbrev pub Pointer : Type 0
Pointer = Option ℕ

-- The types of apimachinery that the structs embed, as they lie in memory, and what else they point to.
pub record Foreign : Type 1 where
  pub ObjectMeta : Type 0
  pub ListMeta : Type 0
  pub Condition : Type 0
  pub Other : Type 0

pub record TypeMeta : Type 0 where
  pub kind : String
  pub api_version : String

pub record FieldsStruct : Type 0 where
  pub country : Pointer
  pub province : Pointer
  pub locality : Pointer
  pub organization : Pointer
  pub organizational_unit : Pointer

pub record CsrStruct : Type 0 where
  pub signature_algorithm : SignatureAlgorithm
  pub additional_fields : FieldsStruct

pub record SpecStruct : Type 0 where
  pub username : String
  pub existing_csr : Pointer
  pub auto_approve_csr : Bool
  pub csr : Pointer
  pub cluster : Pointer
  pub role_ref : Pointer

pub record StatusStruct : Type 0 where
  pub user_secret : SecretRef
  pub csr : CsrRef
  pub conditions : Pointer
  pub kubeconfig : String
  pub status : String

pub record KubeconfigStruct (F : Foreign) : Type 0 where
  pub type_meta : TypeMeta
  pub object_meta : F.ObjectMeta
  pub spec : SpecStruct
  pub status : StatusStruct

pub record ListStruct (F : Foreign) : Type 0 where
  pub type_meta : TypeMeta
  pub list_meta : F.ListMeta
  pub items : Pointer

-- `SecretObjectReference`, with the text types `Group`, `Kind` and `Namespace` behind pointers.
pub record ReferenceStruct : Type 0 where
  pub group : Pointer
  pub kind : Pointer
  pub name : String
  pub namespace : Pointer

-- What stands at an address: a struct, a text, or the array of a slice.
pub data Cell (F : Foreign) : Type 0 where
  text : String → Cell F
  secret_ref : SecretRef → Cell F
  csr_ref : CsrRef → Cell F
  cluster : Cluster → Cell F
  role_ref : RoleRef → Cell F
  fields : FieldsStruct → Cell F
  csr : CsrStruct → Cell F
  spec : SpecStruct → Cell F
  status : StatusStruct → Cell F
  reference : ReferenceStruct → Cell F
  kubeconfig : KubeconfigStruct F → Cell F
  kubeconfig_list : ListStruct F → Cell F
  texts : List String → Cell F
  conditions : List F.Condition → Cell F
  kubeconfigs : List (KubeconfigStruct F) → Cell F
  other : F.Other → Cell F

-- The addresses below `next` are in use.
pub record Memory (F : Foreign) : Type 0 where
  pub next : ℕ
  pub cell : ℕ → Cell F

abbrev pub ltb : ℕ → ℕ → Bool
ltb a b = elim (compare a b) [ Ordering.lt ↦ true | _ ↦ false ]

abbrev pub eqb : ℕ → ℕ → Bool
eqb a b = elim (compare a b) [ Ordering.eq ↦ true | _ ↦ false ]

abbrev pub read : {F : Foreign} → Memory F → ℕ → Option (Cell F)
read m p = if ltb p m.next then some (m.cell p) else none

-- A computation on the memory; `none` is a panic.
abbrev pub M : Foreign → Type 0 → Type 0
M F A = Memory F → Option (A × Memory F)

abbrev pub pure : {F : Foreign} {A : Type 0} → A → M F A
pure a m = some (a, m)

abbrev pub and_then :
    {F : Foreign} {A B : Type 0} → Option (A × Memory F) → (A → M F B) → Option (B × Memory F)
and_then none f = none
and_then (some (a, m)) f = f a m

infixl 5 ◌>>=◌ ◌>>◌
abbrev pub ◌>>=◌ : {F : Foreign} {A B : Type 0} → M F A → (A → M F B) → M F B
◌>>=◌ c f m = and_then (c m) f

abbrev pub ◌>>◌ : {F : Foreign} {B : Type 0} → M F (Unit {0}) → M F B → M F B
c >> d = c >>= λ _. d

-- A type of values behind pointers: how it stands in a cell, and what a cell has of it.
pub record Shape (F : Foreign) (A : Type 0) : Type 0 where
  pub wrap : A → Cell F
  pub unwrap : Cell F → Option A

module _ {F : Foreign} {A : Type 0} (S : Shape F A) where
  abbrev pub load_cell : Option (Cell F) → M F A
  load_cell none m = none
  load_cell (some c) m = elim (S.unwrap c) [ none ↦ none | some a ↦ some (a, m) ]

  abbrev pub load : ℕ → M F A
  load p m = load_cell (read m p) m

  abbrev pub alloc : A → M F ℕ
  alloc a m = some (
    m.next,
    record { next = m.next + 1; cell = λ q. if eqb q m.next then S.wrap a else m.cell q },
  )

  abbrev pub store : ℕ → A → M F (Unit {0})
  store p a m = some (tt, record m { cell = λ q. if eqb q p then S.wrap a else m.cell q })
