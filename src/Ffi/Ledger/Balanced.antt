-- ===== src/Ffi/Ledger/Balanced.antt =====
-- Calls that give back all that they take.
use mathlib.Core.Path.{subst}
use native.Mathlib.Nat.{zero-add}
use tarako_module.Shared.{
  ℕ, ◌+◌, ◌≡◌, Bool, Option, none, some, Outcome, ok, err, panic, arith, NoPanic,
}
use tarako_module.Ffi.Monad.{Call, State, M, lift, log, ◌>>=◌, finally, unless_returned}
use tarako_module.Ffi.Ledger.{
  total, total-cons, Settles, Owns, Gives, Owns-bind, Owns-finally, Owns-frame, Rel, Rel-refl,
  Rel-give, Rel-zeros, Rel-zero,
}

module _ (exact : Bool) (out back : Call → ℕ) {W : Type 0} where
  -- The call gives back all that it takes.
  pub record Balanced {A : Type 0} (m : M W A) : Type 0 where
    pub settles : Owns exact out back 0 (λ _. 0) 0 m

  pub Balanced-bind :
      {A B : Type 0} (m : M W A) (f : A → M W B)
      → Balanced m
      → ((a : A) → Balanced (f a))
      → Balanced (m >>= f)
  Balanced-bind m f h k = record {
    settles = Owns-bind exact out back (λ _. 0) 0 (λ _. 0) 0 m f h.settles (λ a. (k a).settles);
  }

  pub Balanced-finally :
      {A : Type 0} (m : M W A) (cleanup : M W (Unit {0}))
      → Balanced m
      → Gives exact out back 0 cleanup
      → Balanced (finally m cleanup)
  Balanced-finally m cleanup h g = record {
    settles =
        Owns-finally exact out back 0 0 (λ _. 0) 0 m cleanup
          (Owns-frame exact out back 0 0 (λ _. 0) 0 m h.settles) g;
  }

  -- The scope of a local: taken at its start, given back at its end.
  pub Balanced-scope :
      {A B : Type 0} (d : A → ℕ) (m : M W A) (f : A → M W B) (cleanup : A → M W (Unit {0}))
      → Owns exact out back 0 d 0 m
      → ((a : A) → Balanced (f a))
      → ((a : A) → Gives exact out back (d a) (cleanup a))
      → Balanced (m >>= λ a. finally (f a) (cleanup a))
  Balanced-scope d m f cleanup h k g = record {
    settles =
        Owns-bind exact out back d 0 (λ _. 0) 0 m (λ a. finally (f a) (cleanup a)) h
          λ a.
            Owns-finally exact out back (d a) (d a) (λ _. 0) 0 (f a) (cleanup a)
              (subst (λ k. Owns exact out back k (λ _. 0 + d a) (0 + d a) (f a)) (zero-add (d a))
                (Owns-frame exact out back (d a) 0 (λ _. 0) 0 (f a) (k a).settles))
              (g a);
  }

  -- A scope whose value is moved out or dropped, and which the account does not name.
  pub Balanced-unless_returned :
      {A : Type 0} (m : M W (Option A)) (cleanup : M W (Unit {0}))
      → Balanced m
      → Gives exact out back 0 cleanup
      → Balanced (unless_returned m cleanup)
  Balanced-unless_returned {A} m cleanup h g = record { settles = λ s. go s (m s) (h.settles s) }
    where
      go :
          (s : State W) (x : Outcome (Option A) × State W)
          → Settles exact out back s 0 (λ _. 0) 0 x
          → Settles exact out back s 0 (λ _. 0) 0 (unless_returned (λ _. x) cleanup s)
      go s (ok (some a), t) p = p
      go s (ok none, t) p = Rel-give exact _ _ _ _ _ _ 0 0 0 p (g t)
      go s (err e, t) p = Rel-give exact _ _ _ _ _ _ 0 0 0 p (g t)
      go s (panic, t) p = p

  pub Balanced-lift : {A : Type 0} (r : Outcome A) → NoPanic r → Balanced (lift r)
  Balanced-lift (ok a) h = record { settles = λ s. Rel-refl exact _ _ (omega arith) }
  Balanced-lift (err e) h = record { settles = λ s. Rel-refl exact _ _ (omega arith) }
  Balanced-lift panic h = absurd h

  -- A call that leaves the list of calls alone.
  pub Balanced-quiet :
      {A : Type 0} (m : M W A)
      → ((s : State W) → NoPanic (m s).0 × ((m s).1.calls ≡ s.calls))
      → Balanced m
  Balanced-quiet {A} m h = record { settles = λ s. go s (m s) (h s) }
    where
      go :
          (s : State W) (x : Outcome A × State W)
          → NoPanic x.0 × (x.1.calls ≡ s.calls)
          → Settles exact out back s 0 (λ _. 0) 0 x
      go s (ok a, t) e = Rel-refl exact _ _ (rw e.1 (omega arith))
      go s (err a, t) e = Rel-refl exact _ _ (rw e.1 (omega arith))
      go s (panic, t) e = e.0

  pub Balanced-log : (c : Call) → out c ≡ back c → Balanced (log c)
  Balanced-log c e = record {
    settles = λ s.
        Rel-refl exact _ _ (omega (arith, total-cons out c s.calls, total-cons back c s.calls, e));
  }

  pub Balanced-of_Gives : (c : Call) → Gives exact out back {W = W} 0 (log c) → Balanced (log c)
  Balanced-of_Gives c g = record { settles = λ s. Rel-zero exact _ _ (g s) }

  -- What the account of a balanced call says, whatever its outcome.
  pub Balanced-total :
      {A : Type 0} (m : M W A) (s : State W)
      → Balanced m
      → Rel exact
          (total out (m s).1.calls + total back s.calls)
          (total back (m s).1.calls + total out s.calls)
  Balanced-total {A} m s h = go (m s) (h.settles s)
    where
      go :
          (x : Outcome A × State W)
          → Settles exact out back s 0 (λ _. 0) 0 x
          → Rel exact
              (total out x.1.calls + total back s.calls)
              (total back x.1.calls + total out s.calls)
      go (ok a, t) p = Rel-zeros exact _ _ p
      go (err e, t) p = Rel-zeros exact _ _ p
      go (panic, t) p = absurd p

  pub Balanced-NoPanic : {A : Type 0} (m : M W A) (s : State W) → Balanced m → NoPanic (m s).0
  Balanced-NoPanic {A} m s h = go (m s) (h.settles s)
    where
      go : (x : Outcome A × State W) → Settles exact out back s 0 (λ _. 0) 0 x → NoPanic x.0
      go (ok a, t) p = tt
      go (err e, t) p = tt
      go (panic, t) p = p
