-- ===== src/Ffi/Errors.antt =====
-- Which errors a call can give, with a rule for each way in which the module composes calls.
use tarako_module.Shared.{
  Bool, true, false, Option, none, some, Outcome, ok, err, panic, Error, if◌then◌else◌, ◌≡◌, refl,
}
use tarako_module.Ffi.Returns.{Returns}
use tarako_module.Ffi.Monad.{
  on_error, match_result, State, M, lift, ◌>>=◌, finally, unless_returned,
}

-- An error has the property.
abbrev pub ErrsBy : {W A : Type 0} → (Error → Type 0) → Outcome A × State W → Type 0
ErrsBy E (ok a, s) = Unit
ErrsBy E (err e, s) = E e
ErrsBy E (panic, s) = Unit

pub ErrsBy-mono :
    {W A : Type 0} (E F : Error → Type 0) (x : Outcome A × State W)
    → ((e : Error) → E e → F e)
    → ErrsBy E x
    → ErrsBy F x
ErrsBy-mono E F (ok a, s) f h = tt
ErrsBy-mono E F (err e, s) f h = f e h
ErrsBy-mono E F (panic, s) f h = tt

-- The errors of two calls in a row, where the first gives a result with a property.
pub ErrsBy-bind :
    {W A B : Type 0} (E : Error → Type 0) (P : A → State W → Type 0) (m : M W A) (f : A → M W B)
    (s : State W)
    → ErrsBy E (m s)
    → Returns P (m s)
    → ((a : A) (t : State W) → P a t → ErrsBy E (f a t))
    → ErrsBy E ((m >>= f) s)
ErrsBy-bind {W} {A} E P m f s h r k = go (m s) h r
  where
    go : (x : Outcome A × State W) → ErrsBy E x → Returns P x → ErrsBy E (((λ _. x) >>= f) s)
    go (ok a, t) h r = k a t r
    go (err e, t) h r = h
    go (panic, t) h r = tt

module _ {W : Type 0} (E : Error → Type 0) where
  -- Every error of the call has the property.
  pub record Fails {A : Type 0} (m : M W A) : Type 0 where
    pub errs : (s : State W) → ErrsBy E (m s)

  pub Fails-bind :
      {A B : Type 0} (m : M W A) (f : A → M W B)
      → Fails m
      → ((a : A) → Fails (f a))
      → Fails (m >>= f)
  Fails-bind {A} {B} m f h k = record { errs = λ s. go s (m s) (h.errs s) }
    where
      go : (s : State W) (x : Outcome A × State W) → ErrsBy E x → ErrsBy E (((λ _. x) >>= f) s)
      go s (ok a, t) p = (k a).errs t
      go s (err e, t) p = p
      go s (panic, t) p = tt

  pub Fails-finally :
      {A : Type 0} (m : M W A) (cleanup : M W (Unit {0})) → Fails m → Fails (finally m cleanup)
  Fails-finally {A} m cleanup h = record { errs = λ s. go s (m s) (h.errs s) }
    where
      go :
          (s : State W) (x : Outcome A × State W)
          → ErrsBy E x
          → ErrsBy E (finally (λ _. x) cleanup s)
      go s (ok a, t) p = tt
      go s (err e, t) p = p
      go s (panic, t) p = tt

  pub Fails-unless_returned :
      {A : Type 0} (m : M W (Option A)) (cleanup : M W (Unit {0}))
      → Fails m
      → Fails (unless_returned m cleanup)
  Fails-unless_returned {A} m cleanup h = record { errs = λ s. go s (m s) (h.errs s) }
    where
      go :
          (s : State W) (x : Outcome (Option A) × State W)
          → ErrsBy E x
          → ErrsBy E (unless_returned (λ _. x) cleanup s)
      go s (ok none, t) p = tt
      go s (ok (some a), t) p = tt
      go s (err e, t) p = p
      go s (panic, t) p = tt

  pub Fails-on_error :
      {A : Type 0} (m : M W A) (cleanup : M W (Unit {0})) → Fails m → Fails (on_error m cleanup)
  Fails-on_error {A} m cleanup h = record { errs = λ s. go s (m s) (h.errs s) }
    where
      go :
          (s : State W) (x : Outcome A × State W)
          → ErrsBy E x
          → ErrsBy E (on_error (λ _. x) cleanup s)
      go s (ok a, t) p = tt
      go s (err e, t) p = p
      go s (panic, t) p = tt

  -- The scopes of a local.
  pub Fails-scope :
      {A B : Type 0} (m : M W A) (f : A → M W B) (cleanup : A → M W (Unit {0}))
      → Fails m
      → ((a : A) → Fails (f a))
      → Fails (m >>= λ a. finally (f a) (cleanup a))
  Fails-scope m f cleanup h k =
      Fails-bind m (λ a. finally (f a) (cleanup a)) h (λ a. Fails-finally (f a) (cleanup a) (k a))

  pub Fails-returning :
      {A B : Type 0} (m : M W A) (f : A → M W (Option B)) (cleanup : A → M W (Unit {0}))
      → Fails m
      → ((a : A) → Fails (f a))
      → Fails (m >>= λ a. unless_returned (f a) (cleanup a))
  Fails-returning m f cleanup h k =
      Fails-bind m (λ a. unless_returned (f a) (cleanup a)) h
        (λ a. Fails-unless_returned (f a) (cleanup a) (k a))

  pub Fails-if :
      {A : Type 0} (b : Bool) (m n : M W A)
      → (b ≡ true → Fails m)
      → (b ≡ false → Fails n)
      → Fails (if b then m else n)
  Fails-if true m n h k = h refl
  Fails-if false m n h k = k refl

  pub Fails-lift : {A : Type 0} (r : Outcome A) → ((e : Error) → r ≡ err e → E e) → Fails (lift r)
  Fails-lift (ok a) h = record { errs = λ s. tt }
  Fails-lift (err e) h = record { errs = λ s. h e refl }
  Fails-lift panic h = record { errs = λ s. tt }

  pub Fails-pure : {A : Type 0} (a : A) → Fails (lift (ok a))
  Fails-pure a = record { errs = λ s. tt }

-- A `match` on the result of a call whose errors have a property of their own.
pub Fails-match_result :
    {W : Type 0} (E F : Error → Type 0) {A B : Type 0} (m : M W A) (f : A → M W B)
    (g : Error → M W B)
    → Fails F m
    → ((a : A) → Fails E (f a))
    → ((e : Error) → F e → Fails E (g e))
    → Fails E (match_result m f g)
Fails-match_result {W} E F {A} {B} m f g h k l = record { errs = λ s. go s (m s) (h.errs s) }
  where
    go :
        (s : State W) (x : Outcome A × State W)
        → ErrsBy F x
        → ErrsBy E (match_result (λ _. x) f g s)
    go s (ok a, t) p = (k a).errs t
    go s (err e, t) p = (l e p).errs t
    go s (panic, t) p = tt

pub Fails-mono :
    {W A : Type 0} (E F : Error → Type 0) (m : M W A)
    → ((e : Error) → E e → F e)
    → Fails E m
    → Fails F m
Fails-mono E F m f h = record { errs = λ s. ErrsBy-mono E F (m s) f (h.errs s) }
