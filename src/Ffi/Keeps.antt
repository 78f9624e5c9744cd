-- ===== src/Ffi/Keeps.antt =====
-- A relation between the state before a call and the one after it, however the call ends, with a
-- rule for each way in which the module composes calls.
use tarako_module.Shared.{Bool, true, false, Outcome, ok, err, panic, if◌then◌else◌}
use tarako_module.Ffi.Monad.{State, M, lift, ◌>>=◌, finally}

pub record Preorder (W : Type 0) : Type 1 where
  pub rel : State W → State W → Type 0
  pub same : (s : State W) → rel s s
  pub chain : (s t u : State W) → rel s t → rel t u → rel s u

module _ {W : Type 0} (R : Preorder W) where
  pub record Keeps {A : Type 0} (m : M W A) : Type 0 where
    pub keeps : (s : State W) → R.rel s (m s).1

  pub Keeps-bind :
      {A B : Type 0} (m : M W A) (f : A → M W B)
      → Keeps m
      → ((a : A) → Keeps (f a))
      → Keeps (m >>= f)
  Keeps-bind {A} {B} m f h k = record { keeps = λ s. go s (m s) (h.keeps s) }
    where
      go : (s : State W) (x : Outcome A × State W) → R.rel s x.1 → R.rel s (((λ _. x) >>= f) s).1
      go s (ok a, t) p = R.chain s t (f a t).1 p ((k a).keeps t)
      go s (err e, t) p = p
      go s (panic, t) p = p

  pub Keeps-finally :
      {A : Type 0} (m : M W A) (cleanup : M W (Unit {0}))
      → Keeps m
      → Keeps cleanup
      → Keeps (finally m cleanup)
  Keeps-finally {A} m cleanup h k = record { keeps = λ s. go s (m s) (h.keeps s) }
    where
      go :
          (s : State W) (x : Outcome A × State W)
          → R.rel s x.1
          → R.rel s (finally (λ _. x) cleanup s).1
      go s (ok a, t) p = R.chain s t (cleanup t).1 p (k.keeps t)
      go s (err e, t) p = R.chain s t (cleanup t).1 p (k.keeps t)
      go s (panic, t) p = p

  pub Keeps-lift : {A : Type 0} (r : Outcome A) → Keeps (lift r)
  Keeps-lift r = record { keeps = λ s. R.same s }

  pub Keeps-if :
      {A : Type 0} (b : Bool) (m n : M W A) → Keeps m → Keeps n → Keeps (if b then m else n)
  Keeps-if true m n h k = h
  Keeps-if false m n h k = k
