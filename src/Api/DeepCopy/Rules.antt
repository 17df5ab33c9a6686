-- ===== src/Api/DeepCopy/Rules.antt =====
-- Copies that share nothing with what they were copied from, and the rules for making them.
use kubeconfig_operator.Base.{ℕ, ◌≤◌, ◌<◌, Option, none, some, ◌≡◌, refl, ◌∙◌, arith}
use kubeconfig_operator.Api.Memory.{Foreign, Memory, M, pure, and_then, ◌>>=◌}

module _ {F : Foreign} where
  -- `n` has all addresses of `m`, and the same cells from `lo` on.
  pub record Agrees (lo : ℕ) (m n : Memory F) : Type 0 where
    pub grows : m.next ≤ n.next
    pub same : (p : ℕ) → lo ≤ p → p < m.next → n.cell p ≡ m.cell p

  -- Nothing that was in use is changed.
  abbrev pub Keeps : Memory F → Memory F → Type 0
  Keeps = Agrees 0

  pub Keeps-refl : (m : Memory F) → Keeps m m
  Keeps-refl m = record { grows = omega arith; same = λ p _ _. refl }

  pub Agrees-trans : {lo : ℕ} {m n o : Memory F} → Agrees lo m n → Agrees lo n o → Agrees lo m o
  Agrees-trans h k = record {
    grows = omega (arith, h.grows, k.grows);
    same = λ p above below. k.same p above (omega (arith, below, h.grows)) ∙ h.same p above below;
  }

  pub Agrees-from : {lo hi : ℕ} {m n : Memory F} → lo ≤ hi → Agrees lo m n → Agrees hi m n
  Agrees-from le h = record {
    grows = h.grows;
    same = λ p above below. h.same p (omega (arith, le, above)) below;
  }

  module _ {A V : Type 0} where
    -- `a` has the content `v` whatever happens to the addresses below `lo`.
    abbrev pub Deep : ℕ → (A → Memory F → V → Type 0) → A → Memory F → V → Type 0
    Deep lo Has a m v = (n : Memory F) → Agrees lo m n → Has a n v

    pub Deep-later :
        {lo : ℕ} (Has : A → Memory F → V → Type 0) {a : A} {m n : Memory F} {v : V}
        → Keeps m n
        → Deep lo Has a m v
        → Deep lo Has a n v
    Deep-later {lo} Has h d o k = d o (Agrees-trans (Agrees-from (omega arith) h) k)

  -- The computation does not panic, changes nothing that was in use, and `Q` holds afterwards.
  abbrev pub Yields :
      {A : Type 0} → Memory F → (A → Memory F → Type 0) → Option (A × Memory F) → Type 0
  Yields m Q none = ⊥
  Yields m Q (some (a, n)) = Keeps m n × Q a n

  -- A way to copy values: their contents survive wherever nothing in use is changed, and a copy has
  -- the same content in addresses of its own.
  pub record IsDeep {A V : Type 0} (Has : A → Memory F → V → Type 0) (copy : A → M F A)
      : Type 0 where
    pub frame : (a : A) (v : V) (m n : Memory F) → Has a m v → Keeps m n → Has a n v
    pub deep :
        (a : A) (v : V) (m : Memory F)
        → Has a m v
        → Yields m (λ b n. Deep m.next Has b n v) (copy a m)

  module _ {A B V : Type 0} (Has : A → Memory F → V → Type 0) (v : V) (o : Memory F)
      (R : B → Memory F → Type 0) (f : A → M F B) where
    -- What the rest of a computation yields, given a copy that it does not touch.
    abbrev Rest : A → Memory F → Type 0
    Rest b n = Yields n (λ s w. Deep o.next Has b w v → R s w) (f b n)

    last :
        (b : A) (m n : Memory F) (r : Option (B × Memory F))
        → Keeps m n
        → Deep o.next Has b n v
        → Yields n (λ s w. Deep o.next Has b w v → R s w) r
        → Yields m R r
    last b m n none k d g = absurd g
    last b m n (some (s, w)) k d g = (Agrees-trans k g.0, g.1 (Deep-later Has g.0 d))

    pub field_run :
        (m : Memory F) (r : Option (A × Memory F))
        → Keeps o m
        → Yields m (λ b n. Deep m.next Has b n v) r
        → ((b : A) (n : Memory F) → Keeps o n → Rest b n)
        → Yields m R (and_then r f)
    field_run m none kept h rest = absurd h
    field_run m (some (b, n)) kept h rest =
        last b m n (f b n) h.0 (λ u k. h.1 u (Agrees-from kept.grows k))
          (rest b n (Agrees-trans kept h.0))

  -- One field of a struct is copied, then the others.
  pub field :
      {A B V : Type 0} {Has : A → Memory F → V → Type 0} {copy : A → M F A}
      → IsDeep Has copy
      → (a : A) (v : V) (o m : Memory F) (R : B → Memory F → Type 0) (f : A → M F B) → Keeps o m
      → Has a o v
      → ((b : A) (n : Memory F)
          → Keeps o n
          → Yields n (λ s w. Deep o.next Has b w v → R s w) (f b n))
      → Yields m R ((copy a >>= f) m)
  field {Has = Has} {copy = copy} D a v o m R f kept has rest =
      field_run Has v o R f m (copy a m) kept (D.deep a v m (D.frame a v o m has kept)) rest

  -- Values without pointers.
  abbrev pub Equals : {A : Type 0} → A → Memory F → A → Type 0
  Equals a m v = a ≡ v

  pub pure-IsDeep : {A : Type 0} → IsDeep (Equals {A = A}) pure
  pure-IsDeep = record { frame = λ a v m n h _. h; deep = λ a v m h. (Keeps-refl m, λ n _. h) }
