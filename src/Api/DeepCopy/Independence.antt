-- ===== src/Api/DeepCopy/Independence.antt =====
-- Deep copies against changes of what they were made from, and the other way round.
use kubeconfig_operator.Base.{ℕ, Option, none, some, ◌≡◌, refl, arith, if◌then◌else◌}
use kubeconfig_operator.Api.Types.{SecretObjectReference}
use kubeconfig_operator.Api.Memory.{Foreign, Cell, Memory, Pointer, Shape, M, ltb}
use kubeconfig_operator.Api.DeepCopy.{
  Library, copy_pointer, kubeconfig_into, list_into, reference_into, kubeconfig_copy, list_copy,
  reference_copy, as_object, kubeconfig_object, list_object, kubeconfig_copy_object,
  list_copy_object,
}
use kubeconfig_operator.Api.DeepCopy.Shapes.{
  kubeconfig_shape, kubeconfig_list_shape, reference_shape,
}
use kubeconfig_operator.Api.DeepCopy.Rules.{Agrees, Keeps, Deep, Yields, IsDeep}
use kubeconfig_operator.Api.DeepCopy.Pointers.{PointsTo, IsShape, PointsTo-IsDeep}
use kubeconfig_operator.Api.DeepCopy.Contents.{
  TypedKubeconfig, KubeconfigList, LibraryLaws, KubeconfigHas, ListHas, ReferenceHas,
}
use kubeconfig_operator.Api.DeepCopy.Structs.{ReferenceHas-IsDeep}
use kubeconfig_operator.Api.DeepCopy.Resources.{KubeconfigHas-IsDeep, ListHas-IsDeep}

module _ {F : Foreign} where
  -- All addresses below `lo`, or all from there on, are overwritten.
  abbrev pub spoil_below : ℕ → (ℕ → Cell F) → Memory F → Memory F
  spoil_below lo junk m = record m { cell = λ p. if ltb p lo then junk p else m.cell p }

  abbrev pub spoil_from : ℕ → (ℕ → Cell F) → Memory F → Memory F
  spoil_from lo junk m = record m { cell = λ p. if ltb p lo then m.cell p else junk p }

  spoil_from-Keeps :
      (junk : ℕ → Cell F) (m n : Memory F) → Keeps m n → Keeps m (spoil_from m.next junk n)
  spoil_from-Keeps junk m n k = record {
    grows = k.grows;
    same = λ p above below. ground (arith, below, k.same p);
  }

  spoil_below-Agrees :
      (lo : ℕ) (junk : ℕ → Cell F) (n : Memory F) → Agrees lo n (spoil_below lo junk n)
  spoil_below-Agrees lo junk n = record {
    grows = omega arith;
    same = λ p above below. ground (arith, above);
  }

  module _ {A V : Type 0} where
    -- A copy was made of what `c` points to. Both have the content `v`; the original has it still if
    -- all new addresses are overwritten, and the copy if all old ones are.
    pub record IsCopied (S : Shape F A) (Has : A → Memory F → V → Type 0)
        (copy : Pointer → M F Pointer) (c : Pointer) (v : Option V) (m : Memory F)
        (junk : ℕ → Cell F) : Type 0 where
      pub made : Pointer
      pub after : Memory F
      pub runs : copy c m ≡ some (made, after)
      pub original : PointsTo S Has c after v
      pub copied : PointsTo S Has made after v
      pub original_alone : PointsTo S Has c (spoil_from m.next junk after) v
      pub copied_alone : PointsTo S Has made (spoil_below m.next junk after) v

    module _ (S : Shape F A) (law : IsShape S) (Has : A → Memory F → V → Type 0) (into : A → M F A)
        (D : IsDeep Has into) (c : Pointer) (v : Option V) (m : Memory F) (junk : ℕ → Cell F)
        (has : PointsTo S Has c m v) where
      IsCopied-run :
          (r : Option (Pointer × Memory F))
          → copy_pointer S into c m ≡ r
          → Yields m (λ d n. Deep m.next (PointsTo S Has) d n v) r
          → IsCopied S Has (copy_pointer S into) c v m junk
      IsCopied-run none e h = absurd h
      IsCopied-run (some (d, n)) e h =
          let P = PointsTo-IsDeep S law Has into D in
          record {
            made = d;
            after = n;
            runs = e;
            original = P.frame c v m n has h.0;
            copied = h.1 n (record { grows = omega arith; same = λ p _ _. refl });
            original_alone = P.frame c v m _ has (spoil_from-Keeps junk m n h.0);
            copied_alone = h.1 _ (spoil_below-Agrees m.next junk n);
          }

      pub copy_pointer-IsCopied : IsCopied S Has (copy_pointer S into) c v m junk
      copy_pointer-IsCopied =
          IsCopied-run (copy_pointer S into c m) refl
            ((PointsTo-IsDeep S law Has into D).deep c v m has)

  -- `DeepCopy` of a SecretObjectReference, nil or with any content: it returns without a panic,
  -- original and copy have that content, the original has it still when every address that the
  -- copying took is overwritten, and the copy has it still when every older address is.
  pub reference_copy-IsCopied :
      (c : Pointer) (v : Option SecretObjectReference) (m : Memory F) (junk : ℕ → Cell F)
      → PointsTo reference_shape ReferenceHas c m v
      → IsCopied reference_shape ReferenceHas reference_copy c v m junk
  reference_copy-IsCopied =
      copy_pointer-IsCopied reference_shape (λ _. refl) ReferenceHas reference_into
        ReferenceHas-IsDeep

module _ {F : Foreign} {L : Library F} (W : LibraryLaws L) where
  -- `DeepCopy` of a Kubeconfig.
  kubeconfig_copy-IsCopied :
      (c : Pointer) (v : Option TypedKubeconfig) (m : Memory F) (junk : ℕ → Cell F)
      → PointsTo kubeconfig_shape (KubeconfigHas W) c m v
      → IsCopied kubeconfig_shape (KubeconfigHas W) (kubeconfig_copy L) c v m junk
  unfolding kubeconfig_copy
  kubeconfig_copy-IsCopied =
      copy_pointer-IsCopied kubeconfig_shape (λ _. refl) (KubeconfigHas W) (kubeconfig_into L)
        (KubeconfigHas-IsDeep W)

  -- `DeepCopy` of a list.
  list_copy-IsCopied :
      (c : Pointer) (v : Option (KubeconfigList W.ListMeta)) (m : Memory F) (junk : ℕ → Cell F)
      → PointsTo kubeconfig_list_shape (ListHas W) c m v
      → IsCopied kubeconfig_list_shape (ListHas W) (list_copy L) c v m junk
  unfolding list_copy
  list_copy-IsCopied =
      copy_pointer-IsCopied kubeconfig_list_shape (λ _. refl) (ListHas W) (list_into L)
        (ListHas-IsDeep W)

  -- `DeepCopy` and `DeepCopyObject` of a Kubeconfig, nil or with any content behind its pointers
  -- and slices, where apimachinery's copies of metadata and conditions are deep: they return
  -- without a panic, original and copy have that content, the original has it still when every
  -- address that the copying took is overwritten, and the copy has it still when every older
  -- address is. The object is the copy, and nil, not a pointer that is nil, for a nil
  -- Kubeconfig.
  pub kubeconfig_copy_object-IsCopied :
      (c : Pointer) (v : Option TypedKubeconfig) (m : Memory F) (junk : ℕ → Cell F)
      → PointsTo kubeconfig_shape (KubeconfigHas W) c m v
      → (r : IsCopied kubeconfig_shape (KubeconfigHas W) (kubeconfig_copy L) c v m junk)
        × (kubeconfig_copy_object L c m ≡ some (as_object kubeconfig_object r.made, r.after))
  unfolding kubeconfig_copy_object
  kubeconfig_copy_object-IsCopied c v m junk has =
      let r = kubeconfig_copy-IsCopied c v m junk has in (r, rw r.runs refl)

  -- The same of a KubeconfigList, all of whose Kubeconfigs are copied: for any content of a
  -- list, nil or not, where apimachinery's copies are deep, `DeepCopy` and `DeepCopyObject`
  -- return without a panic, original and copy have that content, neither loses it when all
  -- addresses of the other are overwritten, and a nil list becomes a nil object.
  pub list_copy_object-IsCopied :
      (c : Pointer) (v : Option (KubeconfigList W.ListMeta)) (m : Memory F) (junk : ℕ → Cell F)
      → PointsTo kubeconfig_list_shape (ListHas W) c m v
      → (r : IsCopied kubeconfig_list_shape (ListHas W) (list_copy L) c v m junk)
        × (list_copy_object L c m ≡ some (as_object list_object r.made, r.after))
  unfolding list_copy_object
  list_copy_object-IsCopied c v m junk has =
      let r = list_copy-IsCopied c v m junk has in (r, rw r.runs refl)
