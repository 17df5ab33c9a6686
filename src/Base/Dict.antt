-- ===== src/Base/Dict.antt =====
-- Go maps with text keys, as association lists that list no key twice.
use Prim.Native.String.{String}
use mathlib.Core.Path.{◌≡◌, refl}
use mathlib.Core.Option.{Option, none, some}
use mathlib.Core.List.{List, [], ◌∷◌}
use native.Mathlib.Omega.{arith}
use text.Mathlib.Text.{◌==◌}
use text.Mathlib.TextEquality.{eq_iff}
use kubeconfig_operator.Base.Tests.{if◌then◌else◌}

abbrev pub Dict {ℓ} : Type ℓ → Type ℓ
Dict V = List (String × V)

module _ {ℓ} {V : Type ℓ} where
  unfoldable pub lookup : String → Dict V → Option V
  lookup k [] = none
  lookup k ((j, v) ∷ m) = if j == k then some v else lookup k m

  unfoldable pub insert : String → V → Dict V → Dict V
  insert k v [] = (k, v) ∷ []
  insert k v ((j, w) ∷ m) = if j == k then (k, v) ∷ m else (j, w) ∷ insert k v m

  -- What a key holds after a write to some key.
  pub lookup-insert :
      (m : Dict V) (written read : String) (v : V)
      → lookup read (insert written v m) ≡ (if written == read then some v else lookup read m)
  unfolding insert lookup
  lookup-insert [] written read v = refl
  lookup-insert (entry ∷ m) written read v = ground (
    arith,
    lookup-insert m written read v,
    eq_iff written read,
    eq_iff entry.0 read,
    eq_iff entry.0 written,
  )

  -- No key is listed twice.
  abbrev pub NodupKeys : Dict V → Type ℓ
  NodupKeys [] = Unit
  NodupKeys ((j, v) ∷ m) = (lookup j m ≡ none) × NodupKeys m
