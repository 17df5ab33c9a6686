-- ===== src/Effects/Ends.antt =====
-- How a run ends, as a predicate on runs with a rule for sequences.
use kubeconfig_operator.Base.{Option, List, [], ◌∷◌, ◌⊎◌}
use kubeconfig_operator.K8s.{Error, Result}
use kubeconfig_operator.Effects.{Effect, World, Run, value, returned, panicked, M, bind_run}

-- The end of a handler: what it returns, or a panic.
pub data Exit : Type 0 where
  returns : Result → Option Error → Exit
  panics : Exit

-- `V` holds of a value and `E` of an exit, with the world that is reached.
abbrev pub Ends :
    {S A : Type 0} → (A → World S → Type 0) → (Exit → World S → Type 0) → Run S A → Type 0
Ends V E (value a w) = V a w
Ends V E (returned r e w) = E (returns r e) w
Ends V E (panicked w) = E panics w

pub Ends-bind_run :
    {S A B : Type 0} (U : A → World S → Type 0) (V : B → World S → Type 0)
    (E : Exit → World S → Type 0) (m : Run S A) (f : A → M S B)
    → Ends U E m
    → ((a : A) (w : World S) → U a w → Ends V E (f a w))
    → Ends V E (bind_run m f)
Ends-bind_run U V E (value a w) f h k = k a w h
Ends-bind_run U V E (returned r e w) f h k = h
Ends-bind_run U V E (panicked w) f h k = h

pub Ends-mono :
    {S A : Type 0} (U V : A → World S → Type 0) (D E : Exit → World S → Type 0) (m : Run S A)
    → Ends U D m
    → ((a : A) (w : World S) → U a w → V a w)
    → ((x : Exit) (w : World S) → D x w → E x w)
    → Ends V E m
Ends-mono U V D E (value a w) h j k = j a w h
Ends-mono U V D E (returned r e w) h j k = k (returns r e) w h
Ends-mono U V D E (panicked w) h j k = k panics w h

-- Some effect of a trace satisfies `Q`.
abbrev pub Occurs : (Effect → Type 0) → List Effect → Type 0
Occurs Q [] = ⊥
Occurs Q (e ∷ es) = Q e ⊎ Occurs Q es

-- A run that cannot exit meets any requirement on exits.
pub Ends-total :
    {S A : Type 0} (U : A → World S → Type 0) (E : Exit → World S → Type 0) (m : Run S A)
    → Ends U (λ _ _. ⊥) m
    → Ends U E m
Ends-total U E (value a w) h = h
Ends-total U E (returned r e w) h = absurd h
Ends-total U E (panicked w) h = absurd h

-- Two descriptions of a run that cannot exit hold together.
pub Ends-and :
    {S A : Type 0} (U V : A → World S → Type 0) (E : Exit → World S → Type 0) (m : Run S A)
    → Ends U (λ _ _. ⊥) m
    → Ends V E m
    → Ends (λ a w. U a w × V a w) (λ _ _. ⊥) m
Ends-and U V E (value a w) h j = (h, j)
Ends-and U V E (returned r e w) h j = h
Ends-and U V E (panicked w) h j = h
