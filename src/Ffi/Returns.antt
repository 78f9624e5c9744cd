-- ===== src/Ffi/Returns.antt =====
-- Postconditions of calls, with a rule for each way in which the module composes them.
use mathlib.Core.Path.{subst}
use tarako_module.Shared.{
  Error, Option, none, some, Outcome, ok, err, panic, NoPanic, ◌≡◌, refl, sym, ◌∷◌,
}
use tarako_module.Ffi.Monad.{
  Call, State, M, lift, log, ◌>>=◌, finally, unless_returned, on_error, match_result,
}

-- The call does not panic, and if it succeeds its result and state have the property.
abbrev pub Returns : {W A : Type 0} → (A → State W → Type 0) → Outcome A × State W → Type 0
Returns P (ok a, s) = P a s
Returns P (err e, s) = Unit
Returns P (panic, s) = ⊥

module _ {W A B : Type 0} where
  pub Returns-bind :
      (P : A → State W → Type 0) (Q : B → State W → Type 0) (m : M W A) (f : A → M W B)
      (s : State W)
      → Returns P (m s)
      → ((a : A) (t : State W) → P a t → Returns Q (f a t))
      → Returns Q ((m >>= f) s)
  Returns-bind P Q m f s h k = go (m s) h
    where
      go : (x : Outcome A × State W) → Returns P x → Returns Q (((λ _. x) >>= f) s)
      go (ok a, t) p = k a t p
      go (err e, t) p = tt
      go (panic, t) p = p

  pub Returns-match_result :
      (P : A → State W → Type 0) (Q : B → State W → Type 0) (m : M W A) (f : A → M W B)
      (g : Error → M W B) (s : State W)
      → Returns P (m s)
      → ((a : A) (t : State W) → P a t → Returns Q (f a t))
      → ((e : Error) (t : State W) → Returns Q (g e t))
      → Returns Q (match_result m f g s)
  Returns-match_result P Q m f g s h k l = go (m s) h
    where
      go : (x : Outcome A × State W) → Returns P x → Returns Q (match_result (λ _. x) f g s)
      go (ok a, t) p = k a t p
      go (err e, t) p = l e t
      go (panic, t) p = p

module _ {W A : Type 0} where
  pub Returns-mono :
      (P Q : A → State W → Type 0) (x : Outcome A × State W)
      → ((a : A) (t : State W) → P a t → Q a t)
      → Returns P x
      → Returns Q x
  Returns-mono P Q (ok a, t) f p = f a t p
  Returns-mono P Q (err e, t) f p = tt
  Returns-mono P Q (panic, t) f p = p

  pub Returns-finally :
      (P : A → Type 0) (m : M W A) (cleanup : M W (Unit {0})) (s : State W)
      → Returns (λ a _. P a) (m s)
      → Returns (λ a _. P a) (finally m cleanup s)
  Returns-finally P m cleanup s h = go (m s) h
    where
      go :
          (x : Outcome A × State W)
          → Returns (λ a _. P a) x
          → Returns (λ a _. P a) (finally (λ _. x) cleanup s)
      go (ok a, t) p = p
      go (err e, t) p = tt
      go (panic, t) p = p

  pub Returns-on_error :
      (P : A → Type 0) (m : M W A) (cleanup : M W (Unit {0})) (s : State W)
      → Returns (λ a _. P a) (m s)
      → Returns (λ a _. P a) (on_error m cleanup s)
  Returns-on_error P m cleanup s h = go (m s) h
    where
      go :
          (x : Outcome A × State W)
          → Returns (λ a _. P a) x
          → Returns (λ a _. P a) (on_error (λ _. x) cleanup s)
      go (ok a, t) p = p
      go (err e, t) p = tt
      go (panic, t) p = p

  pub Returns-unless_returned :
      (P : Option A → Type 0) (m : M W (Option A)) (cleanup : M W (Unit {0})) (s : State W)
      → Returns (λ o _. P o) (m s)
      → Returns (λ o _. P o) (unless_returned m cleanup s)
  Returns-unless_returned P m cleanup s h = go (m s) h
    where
      go :
          (x : Outcome (Option A) × State W)
          → Returns (λ o _. P o) x
          → Returns (λ o _. P o) (unless_returned (λ _. x) cleanup s)
      go (ok none, t) p = p
      go (ok (some a), t) p = p
      go (err e, t) p = tt
      go (panic, t) p = p

module _ {W A B : Type 0} where
  -- The scope of a local that is dropped at its end.
  pub Returns-scope :
      (P : A → State W → Type 0) (Q : B → Type 0) (m : M W A) (f : A → M W B)
      (cleanup : A → M W (Unit {0})) (s : State W)
      → Returns P (m s)
      → ((a : A) (t : State W) → P a t → Returns (λ b _. Q b) (f a t))
      → Returns (λ b _. Q b) ((m >>= λ a. finally (f a) (cleanup a)) s)
  Returns-scope P Q m f cleanup s h k =
      Returns-bind P (λ b _. Q b) m (λ a. finally (f a) (cleanup a)) s h
        (λ a t p. Returns-finally Q (f a) (cleanup a) t (k a t p))

  -- The scope of a local that a successful return may move out.
  pub Returns-returning :
      (P : A → State W → Type 0) (Q : Option B → Type 0) (m : M W A) (f : A → M W (Option B))
      (cleanup : A → M W (Unit {0})) (s : State W)
      → Returns P (m s)
      → ((a : A) (t : State W) → P a t → Returns (λ b _. Q b) (f a t))
      → Returns (λ b _. Q b) ((m >>= λ a. unless_returned (f a) (cleanup a)) s)
  Returns-returning P Q m f cleanup s h k =
      Returns-bind P (λ b _. Q b) m (λ a. unless_returned (f a) (cleanup a)) s h
        (λ a t p. Returns-unless_returned Q (f a) (cleanup a) t (k a t p))

  -- A step that cannot fail at the value at hand.
  pub Returns-lift :
      (Q : B → State W → Type 0) (r : Outcome A) (a : A) (f : A → M W B) (s : State W)
      → r ≡ ok a
      → Returns Q (f a s)
      → Returns Q ((lift r >>= f) s)
  Returns-lift Q r a f s e h = subst (λ r. Returns Q ((lift r >>= f) s)) (sym e) h

  -- A step that may fail, with what its success says of its value.
  pub Returns-step :
      (Q : B → State W → Type 0) (r : Outcome A) (f : A → M W B) (s : State W)
      → NoPanic r
      → ((a : A) → r ≡ ok a → Returns Q (f a s))
      → Returns Q ((lift r >>= f) s)
  Returns-step Q (ok a) f s h k = k a refl
  Returns-step Q (err e) f s h k = tt
  Returns-step Q panic f s h k = h

module _ {W A : Type 0} where
  -- The end of a scope, with the call that drops the local.
  pub Returns-finally-log :
      (P Q : A → State W → Type 0) (m : M W A) (c : Call) (s : State W)
      → Returns P (m s)
      → ((a : A) (t : State W) → P a t → Q a (record t { calls = c ∷ t.calls }))
      → Returns Q (finally m (log c) s)
  Returns-finally-log P Q m c s h k = go (m s) h
    where
      go : (x : Outcome A × State W) → Returns P x → Returns Q (finally (λ _. x) (log c) s)
      go (ok a, t) p = k a t p
      go (err e, t) p = tt
      go (panic, t) p = p

  pub Returns-outcome :
      (P : A → State W → Type 0) (r : Outcome A) (t : State W)
      → NoPanic r
      → ((a : A) → r ≡ ok a → P a t)
      → Returns P (r, t)
  Returns-outcome P (ok a) t h k = k a refl
  Returns-outcome P (err e) t h k = tt
  Returns-outcome P panic t h k = h
