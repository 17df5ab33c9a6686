-- ===== src/Tests/Interleavings.antt =====
-- A run of each controller at the same time, their requests in turns.
use kubeconfig_operator.Base.{ℕ, some, List, [], ◌∷◌}
use kubeconfig_operator.K8s.{NamespacedName}
use kubeconfig_operator.Effects.{Effect, World, end_world}
use kubeconfig_operator.Controllers.Csr
use kubeconfig_operator.Controllers.Kubeconfig
use kubeconfig_operator.Controllers.Safety.{IsSafe}
use kubeconfig_operator.System.{kubeconfig_run, csr_run}
use kubeconfig_operator.System.Interleaving.{
  disturbed, untraced, Merge, nothing, left, right, ran, empty, joined, History, History-IsSafe,
}
use kubeconfig_operator.Tests.Cluster.{platform, fresh, open_csr, Store}

abbrev request : NamespacedName
request = record { namespace = ""; name = "alice" }

-- Somebody else puts the request there.
abbrev appears : ℕ → Store → Store
appears n s = record s { csr = some open_csr }

abbrev unmoved : ℕ → Store → Store
unmoved n s = s

abbrev first : World (ℕ × Store)
first =
    end_world (Kubeconfig.reconcile (disturbed platform unmoved) request (untraced (fresh.server)))

abbrev second : World (ℕ × Store)
second = end_world (Csr.reconcile (disturbed platform appears) request (untraced (fresh.server)))

abbrev in_turns : List Effect → List Effect → List Effect
in_turns [] ys = ys
in_turns (x ∷ xs) [] = x ∷ xs
in_turns (x ∷ xs) (y ∷ ys) = x ∷ y ∷ in_turns xs ys

none_left : (ys : List Effect) → Merge [] ys ys
none_left [] = nothing
none_left (y ∷ ys) = right y [] ys ys (none_left ys)

none_right : (xs : List Effect) → Merge xs [] xs
none_right [] = nothing
none_right (x ∷ xs) = left x xs [] xs (none_right xs)

in_turns-Merge : (xs ys : List Effect) → Merge xs ys (in_turns xs ys)
in_turns-Merge [] ys = none_left ys
in_turns-Merge (x ∷ xs) [] = none_right (x ∷ xs)
in_turns-Merge (x ∷ xs) (y ∷ ys) = left x _ _ _ (right y _ _ _ (in_turns-Merge xs ys))

both-History : History platform (in_turns first.effects second.effects)
both-History =
    joined first.effects second.effects _
      (ran unmoved fresh.server first (kubeconfig_run request (untraced (fresh.server))))
      (joined second.effects [] second.effects
        (ran appears fresh.server second (csr_run request (untraced (fresh.server)))) empty
        (none_right second.effects))
      (in_turns-Merge first.effects second.effects)

History-IsSafe_example : IsSafe (in_turns first.effects second.effects)
History-IsSafe_example =
    History-IsSafe platform (in_turns first.effects second.effects) both-History
