-- ===== src/Api/DeepCopy/Pointers.antt =====
-- The content behind pointers and slices, and its copies.
use kubeconfig_operator.Base.{ℕ, ◌+◌, Option, none, some, List, [], ◌∷◌, ◌≡◌, arith, if◌then◌else◌}
use kubeconfig_operator.Api.Memory.{
  Foreign, Cell, Memory, Pointer, Shape, M, pure, and_then, ◌>>◌, read, load, store, eqb,
}
use kubeconfig_operator.Api.DeepCopy.{copy_pointer, copy_each}
use kubeconfig_operator.Api.DeepCopy.Rules.{
  Agrees, Keeps, Keeps-refl, Deep, Yields, IsDeep, field, field_run,
}

read_kept :
    {F : Foreign} (p : ℕ) (c : Cell F) (m n : Memory F)
    → read m p ≡ some c
    → Keeps m n
    → read n p ≡ some c
read_kept p c m n h k = ground (arith, h, k.grows, k.same p)

-- What stands in a cell is read back.
abbrev pub IsShape : {F : Foreign} {A : Type 0} → Shape F A → Type 0
IsShape {A = A} S = (a : A) → S.unwrap (S.wrap a) ≡ some a

module _ {F : Foreign} {A V : Type 0} where
  -- At the address stands something with this content.
  pub record Stands (S : Shape F A) (Has : A → Memory F → V → Type 0) (p : ℕ) (m : Memory F) (v : V)
      : Type 0 where
    pub held : A
    pub stands : read m p ≡ some (S.wrap held)
    pub has : Has held m v

  -- A pointer, nil or not.
  unfoldable pub PointsTo :
      Shape F A → (A → Memory F → V → Type 0) → Pointer → Memory F → Option V → Type 0
  PointsTo S Has none m none = Unit {0}
  PointsTo S Has none m (some v) = ⊥
  PointsTo S Has (some p) m none = ⊥
  PointsTo S Has (some p) m (some v) = Stands S Has p m v

  unfoldable pub EachHas : (A → Memory F → V → Type 0) → List A → Memory F → List V → Type 0
  EachHas Has [] m [] = Unit {0}
  EachHas Has [] m (v ∷ vs) = ⊥
  EachHas Has (a ∷ rest) m [] = ⊥
  EachHas Has (a ∷ rest) m (v ∷ vs) = Has a m v × EachHas Has rest m vs

  module _ (S : Shape F A) (law : IsShape S) (Has : A → Memory F → V → Type 0) (into : A → M F A)
      (D : IsDeep Has into) where
    pub Stands-frame :
        (p : ℕ) (v : V) (m n : Memory F) → Stands S Has p m v → Keeps m n → Stands S Has p n v
    Stands-frame p v m n h k = record {
      held = h.held;
      stands = read_kept p (S.wrap h.held) m n h.stands k;
      has = D.frame h.held v m n h.has k;
    }

    -- The memory in which room for the copy was made.
    abbrev made : A → Memory F → Memory F
    made a m = record { next = m.next + 1; cell = λ q. if eqb q m.next then S.wrap a else m.cell q }

    abbrev stored : ℕ → A → Memory F → Memory F
    stored p a m = record m { cell = λ q. if eqb q p then S.wrap a else m.cell q }

    made-Keeps : (a : A) (m : Memory F) → Keeps m (made a m)
    made-Keeps a m = record { grows = omega arith; same = λ p above below. ground (arith, below) }

    stored-Keeps : (a b : A) (m n : Memory F) → Keeps (made a m) n → Keeps m (stored m.next b n)
    stored-Keeps a b m n k = record {
      grows = omega (arith, k.grows);
      same = λ p above below. ground (arith, below, k.same p);
    }

    stored-Stands :
        (a b : A) (v : V) (m n o : Memory F)
        → Keeps (made a m) n
        → Deep (m.next + 1) Has b n v
        → Agrees m.next (stored m.next b n) o
        → Stands S Has m.next o v
    stored-Stands a b v m n o k d g = record {
      held = b;
      stands = ground (arith, k.grows, g.grows, g.same m.next);
      has = d o (record {
        grows = g.grows;
        same = λ p above below. ground (arith, above, below, g.same p);
      });
    }

    copied :
        (Q : Pointer → Memory F → Type 0) (a : A) (v : V) (m : Memory F) (r : Option (A × Memory F))
        → ((p : ℕ) (o : Memory F) → Stands S Has p o v → Q (some p) o)
        → Yields (made a m) (λ b n. Deep (m.next + 1) Has b n v) r
        → Yields m
            (λ q n. (o : Memory F) → Agrees m.next n o → Q q o)
            (and_then r (λ b. store S m.next b >> pure (some m.next)))
    copied Q a v m none intro h = absurd h
    copied Q a v m (some (b, n)) intro h =
        (stored-Keeps a b m n h.0, λ o g. intro m.next o (stored-Stands a b v m n o h.0 h.1 g))

    load_stands :
        (p : ℕ) (a : A) (m : Memory F) → read m p ≡ some (S.wrap a) → load S p m ≡ some (a, m)
    load_stands p a m h = ground (arith, h, law a)

    -- What stands at an address is copied to a new one.
    pub copy_pointer-Stands :
        (Q : Pointer → Memory F → Type 0) (p : ℕ) (v : V) (m : Memory F)
        → ((p : ℕ) (o : Memory F) → Stands S Has p o v → Q (some p) o)
        → Stands S Has p m v
        → Yields m
            (λ q n. (o : Memory F) → Agrees m.next n o → Q q o)
            (copy_pointer S into (some p) m)
    unfolding copy_pointer
    copy_pointer-Stands Q p v m intro h = rw (load_stands p h.held m h.stands) (
        copied Q h.held v m (into h.held (made h.held m)) intro (
          D.deep h.held v (made h.held m)
            (D.frame h.held v m (made h.held m) h.has (made-Keeps h.held m))))

    PointsTo-frame :
        (q : Pointer) (v : Option V) (m n : Memory F)
        → PointsTo S Has q m v
        → Keeps m n
        → PointsTo S Has q n v
    unfolding PointsTo
    PointsTo-frame none none m n h k = tt
    PointsTo-frame none (some v) m n h k = absurd h
    PointsTo-frame (some p) none m n h k = absurd h
    PointsTo-frame (some p) (some v) m n h k = Stands-frame p v m n h k

    PointsTo-Deep :
        (q : Pointer) (v : Option V) (m : Memory F)
        → PointsTo S Has q m v
        → Yields m (λ r n. Deep m.next (PointsTo S Has) r n v) (copy_pointer S into q m)
    unfolding PointsTo copy_pointer
    PointsTo-Deep none none m h = (Keeps-refl m, λ n k. tt)
    PointsTo-Deep none (some v) m h = absurd h
    PointsTo-Deep (some p) none m h = absurd h
    PointsTo-Deep (some p) (some v) m h =
        copy_pointer-Stands (λ q o. PointsTo S Has q o (some v)) p v m (λ q o x. x) h

    pub PointsTo-IsDeep : IsDeep (PointsTo S Has) (copy_pointer S into)
    PointsTo-IsDeep = record { frame = PointsTo-frame; deep = PointsTo-Deep }

  module _ (Has : A → Memory F → V → Type 0) (into : A → M F A) (D : IsDeep Has into) where
    EachHas-frame :
        (xs : List A) (vs : List V) (m n : Memory F)
        → EachHas Has xs m vs
        → Keeps m n
        → EachHas Has xs n vs
    unfolding EachHas
    EachHas-frame [] [] m n h k = tt
    EachHas-frame [] (v ∷ vs) m n h k = absurd h
    EachHas-frame (x ∷ xs) [] m n h k = absurd h
    EachHas-frame (x ∷ xs) (v ∷ vs) m n h k = (D.frame x v m n h.0 k, EachHas-frame xs vs m n h.1 k)

    EachHas-Deep :
        (xs : List A) (vs : List V) (m : Memory F)
        → EachHas Has xs m vs
        → Yields m (λ ys n. Deep m.next (EachHas Has) ys n vs) (copy_each into xs m)
    unfolding EachHas copy_each
    EachHas-Deep [] [] m h = (Keeps-refl m, λ n g. tt)
    EachHas-Deep [] (v ∷ vs) m h = absurd h
    EachHas-Deep (x ∷ xs) [] m h = absurd h
    EachHas-Deep (x ∷ xs) (v ∷ vs) m h = field D x v m m _ _ (Keeps-refl m) h.0 λ y n kept.
        field_run (EachHas Has) vs m _ _ n (copy_each into xs n) kept
          (EachHas-Deep xs vs n (EachHas-frame xs vs m n h.1 kept))
          λ ys o more. (Keeps-refl o, λ dys dy u k. (dy u k, dys u k))

    pub EachHas-IsDeep : IsDeep (EachHas Has) (copy_each into)
    EachHas-IsDeep = record { frame = EachHas-frame; deep = EachHas-Deep }

-- A slice of values with pointers of their own, nil or not; a nil one is empty.
module _ {F : Foreign} {A V : Type 0} where
  unfoldable pub SliceHas :
      Shape F (List A) → (A → Memory F → V → Type 0) → Pointer → Memory F → List V → Type 0
  SliceHas S Has none m vs = vs ≡ []
  SliceHas S Has (some p) m vs = Stands S (EachHas Has) p m vs

  module _ (S : Shape F (List A)) (law : IsShape S) (Has : A → Memory F → V → Type 0)
      (into : A → M F A) (D : IsDeep Has into) where
    SliceHas-frame :
        (q : Pointer) (vs : List V) (m n : Memory F)
        → SliceHas S Has q m vs
        → Keeps m n
        → SliceHas S Has q n vs
    unfolding SliceHas
    SliceHas-frame none vs m n h k = h
    SliceHas-frame (some p) vs m n h k =
        Stands-frame S law (EachHas Has) (copy_each into) (EachHas-IsDeep Has into D) p vs m n h k

    SliceHas-Deep :
        (q : Pointer) (vs : List V) (m : Memory F)
        → SliceHas S Has q m vs
        → Yields m
            (λ r n. Deep m.next (SliceHas S Has) r n vs)
            (copy_pointer S (copy_each into) q m)
    unfolding SliceHas copy_pointer
    SliceHas-Deep none vs m h = (Keeps-refl m, λ n k. h)
    SliceHas-Deep (some p) vs m h =
        copy_pointer-Stands S law (EachHas Has) (copy_each into) (EachHas-IsDeep Has into D)
          (λ q o. SliceHas S Has q o vs) p vs m (λ q o x. x) h

    pub SliceHas-IsDeep : IsDeep (SliceHas S Has) (copy_pointer S (copy_each into))
    SliceHas-IsDeep = record { frame = SliceHas-frame; deep = SliceHas-Deep }
