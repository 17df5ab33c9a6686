-- ===== src/System/Interleaving.antt =====
-- Runs that interleave request by request. Before each access to the outside that a run makes, the
-- others, further runs of the operator among them, may have changed the state in any way; and a
-- run may be cut off after any of its effects.
use kubeconfig_operator.Base.{ℕ, ◌+◌, List, [], ◌∷◌, inl, inr}
use kubeconfig_operator.Platform.{Platform}
use kubeconfig_operator.Effects.{
  Effect, World, kubeconfig_get, secret_get, csr_get, binding_get, config_map_get, secret_create,
  secret_update, csr_create, csr_status_update, csr_approval_update, binding_create,
  kubeconfig_status_update, event,
}
use kubeconfig_operator.Effects.Ends.{Occurs}
use kubeconfig_operator.Controllers.Safety.{IsSafe, IsJustified}
use kubeconfig_operator.System.{Step, Step-IsSafe}

-- The `n`-th access of a run finds the state as `others n` has left it.
abbrev after_others : {S A : Type 0} → (ℕ → S → S) → (S → A × S) → ℕ × S → A × (ℕ × S)
after_others others f (n, s) = ((f (others n s)).0, (n + 1, (f (others n s)).1))

-- The outside as a run sees it while others go on.
abbrev pub disturbed : (P : Platform) → (ℕ → P.State → P.State) → Platform
disturbed P others = record P {
  State = ℕ × P.State;
  get_kubeconfig = λ x. after_others others (P.get_kubeconfig x);
  get_secret = λ x. after_others others (P.get_secret x);
  get_csr = λ x. after_others others (P.get_csr x);
  get_cluster_role_binding = λ x. after_others others (P.get_cluster_role_binding x);
  get_config_map = λ x. after_others others (P.get_config_map x);
  create_secret = λ x. after_others others (P.create_secret x);
  create_csr = λ x. after_others others (P.create_csr x);
  create_cluster_role_binding = λ x. after_others others (P.create_cluster_role_binding x);
  update_secret = λ x. after_others others (P.update_secret x);
  update_kubeconfig_status = λ x. after_others others (P.update_kubeconfig_status x);
  update_csr_status = λ x. after_others others (P.update_csr_status x);
  update_approval = λ x. after_others others (P.update_approval x);
  now = after_others others P.now;
  set_status_condition = λ cs c. after_others others (P.set_status_condition cs c);
  rsa_generate_key = λ n. after_others others (P.rsa_generate_key n);
  ecdsa_generate_key = λ c. after_others others (P.ecdsa_generate_key c);
  ed25519_generate_key = after_others others P.ed25519_generate_key;
  create_certificate_request = λ r k. after_others others (P.create_certificate_request r k);
}

abbrev pub untraced : {S : Type 0} → S → World (ℕ × S)
untraced s = record { server = (0, s); effects = [] }

-- The effects of two histories in one, each in its order.
pub data Merge : List Effect → List Effect → List Effect → Type 0 where
  nothing : Merge [] [] []
  left : (e : Effect) (xs ys zs : List Effect) → Merge xs ys zs → Merge (e ∷ xs) ys (e ∷ zs)
  right : (e : Effect) (xs ys zs : List Effect) → Merge xs ys zs → Merge xs (e ∷ ys) (e ∷ zs)

module _ (P : Platform) where
  -- The effects of one run of a handler, newest first, whatever the others do in between.
  pub data Trace : List Effect → Type 0 where
    ran :
        (others : ℕ → P.State → P.State) (s : P.State) (w : World (ℕ × P.State))
        → Step (disturbed P others) (untraced s) w
        → Trace w.effects
    cut_off : (e : Effect) (es : List Effect) → Trace (e ∷ es) → Trace es

  -- The effects of any number of runs at the same time.
  pub data History : List Effect → Type 0 where
    empty : History []
    joined : (xs ys zs : List Effect) → Trace xs → History ys → Merge xs ys zs → History zs

-- Each of the merged traces occurs in the whole.
Occurs-left :
    (Q : Effect → Type 0) (xs ys zs : List Effect) → Merge xs ys zs → Occurs Q xs → Occurs Q zs
Occurs-left Q xs ys zs nothing h = h
Occurs-left Q xs ys zs (left e _ _ _ m) (inl h) = inl h
Occurs-left Q xs ys zs (left e _ _ _ m) (inr h) = inr (Occurs-left Q _ _ _ m h)
Occurs-left Q xs ys zs (right e _ _ _ m) h = inr (Occurs-left Q _ _ _ m h)

Occurs-right :
    (Q : Effect → Type 0) (xs ys zs : List Effect) → Merge xs ys zs → Occurs Q ys → Occurs Q zs
Occurs-right Q xs ys zs nothing h = h
Occurs-right Q xs ys zs (left e _ _ _ m) h = inr (Occurs-right Q _ _ _ m h)
Occurs-right Q xs ys zs (right e _ _ _ m) (inl h) = inl h
Occurs-right Q xs ys zs (right e _ _ _ m) (inr h) = inr (Occurs-right Q _ _ _ m h)

-- What justifies an effect still does when more has happened.
IsJustified-mono :
    (e : Effect) (past more : List Effect)
    → ((Q : Effect → Type 0) → Occurs Q past → Occurs Q more)
    → IsJustified e past
    → IsJustified e more
IsJustified-mono (kubeconfig_get _ _) past more f h = tt
IsJustified-mono (secret_get _ _) past more f h = tt
IsJustified-mono (csr_get _ _) past more f h = tt
IsJustified-mono (binding_get _ _) past more f h = tt
IsJustified-mono (config_map_get _ _) past more f h = tt
IsJustified-mono (secret_create _ _) past more f h = tt
IsJustified-mono (secret_update _ _) past more f h = tt
IsJustified-mono (csr_status_update _ _) past more f h = tt
IsJustified-mono (event _ _ _) past more f h = tt
IsJustified-mono (csr_create _ _) past more f h = f _ h
IsJustified-mono (csr_approval_update _ _) past more f h = record {
  csr = h.csr;
  read = f _ h.read;
  owned = h.owned;
  annotated = h.annotated;
  undecided = h.undecided;
  same_object = h.same_object;
  approves = h.approves;
}
IsJustified-mono (binding_create _ _) past more f h = record {
  kubeconfig = h.kubeconfig;
  csr = h.csr;
  read = f _ h.read;
  binds = h.binds;
  read_csr = f _ h.read_csr;
  issued = h.issued;
  saved = f _ h.saved;
}
IsJustified-mono (kubeconfig_status_update _ _) past more f (inl h) = inl h
IsJustified-mono (kubeconfig_status_update _ _) past more f (inr (inl h)) = inr (inl (f _ h))
IsJustified-mono (kubeconfig_status_update _ _) past more f (inr (inr h)) = inr (
    inr (record {
      kubeconfig = h.kubeconfig;
      same_meta = h.same_meta;
      same_spec = h.same_spec;
      csr = h.csr;
      read = f _ h.read;
      read_csr = f _ h.read_csr;
      issued = h.issued;
      saved = f _ h.saved;
      bound = f _ h.bound;
    }))

Merge-IsSafe : (xs ys zs : List Effect) → Merge xs ys zs → IsSafe xs → IsSafe ys → IsSafe zs
Merge-IsSafe xs ys zs nothing h k = tt
Merge-IsSafe xs ys zs (left e _ _ _ m) h k =
    (IsJustified-mono e _ _ (λ Q. Occurs-left Q _ _ _ m) h.0, Merge-IsSafe _ _ _ m h.1 k)
Merge-IsSafe xs ys zs (right e _ _ _ m) h k =
    (IsJustified-mono e _ _ (λ Q. Occurs-right Q _ _ _ m) k.0, Merge-IsSafe _ _ _ m h k.1)

module _ (P : Platform) where
  Trace-IsSafe : (es : List Effect) → Trace P es → IsSafe es
  Trace-IsSafe es (ran others s w r) = Step-IsSafe (disturbed P others) (untraced s) w tt r
  Trace-IsSafe es (cut_off e _ t) = (Trace-IsSafe (e ∷ es) t).1

  -- Let any number of runs of the two controllers and of the webhook go on at the same time and
  -- interleave request by request, let others change the state of everything outside between any two
  -- accesses of a run, and let runs be cut off anywhere. In the history of all their requests each one is still
  -- justified by what happened before it: the history is safe.
  pub History-IsSafe : (es : List Effect) → History P es → IsSafe es
  History-IsSafe es empty = tt
  History-IsSafe es (joined xs ys _ t h m) =
      Merge-IsSafe xs ys es m (Trace-IsSafe xs t) (History-IsSafe ys h)
