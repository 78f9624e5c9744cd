-- ===== src/Ffi/Ledger.antt =====
-- What calls own: a weight for the calls that take something and one for the calls that give it
-- back, summed over the calls made, with a rule for each way in which the module composes calls.
pub mod Sides
pub mod Balanced
use mathlib.Core.Path.{subst}
use native.Mathlib.Nat.{zero-add}
use tarako_module.Shared.{
  ℕ, ◌+◌, ◌≤◌, ◌≡◌, refl, Bool, true, false, Option, none, some, List, [], ◌∷◌, Outcome, ok, err,
  panic, Error, arith, NoPanic,
}
use tarako_module.Ffi.Monad.{
  Call, State, M, lift, log, ◌>>=◌, finally, unless_returned, on_error, match_result,
}
pub use Sides.*

unfoldable pub total : (Call → ℕ) → List Call → ℕ
total w [] = 0
total w (c ∷ cs) = w c + total w cs

pub total-cons : (w : Call → ℕ) (c : Call) (cs : List Call) → total w (c ∷ cs) ≡ w c + total w cs
unfolding total
total-cons w c cs = refl

module _ (exact : Bool) (out back : Call → ℕ) {W : Type 0} where
  -- From `pre` held at the start, the account up to `t` leaves `post` held.
  abbrev pub Account : State W → State W → ℕ → ℕ → Type 0
  Account s t pre post =
      Rel exact (total out t.calls + total back s.calls + pre)
        (total back t.calls + total out s.calls + post)

  -- A success holds `q` of its result, an error `qe`, and there is no panic.
  abbrev pub Settles : {A : Type 0} → State W → ℕ → (A → ℕ) → ℕ → Outcome A × State W → Type 0
  Settles s pre q qe (ok a, t) = Account s t pre (q a)
  Settles s pre q qe (err e, t) = Account s t pre qe
  Settles s pre q qe (panic, t) = ⊥

  abbrev pub Owns : {A : Type 0} → ℕ → (A → ℕ) → ℕ → M W A → Type 0
  Owns pre q qe m = (s : State W) → Settles s pre q qe (m s)

  abbrev pub Gives : {A : Type 0} → ℕ → M W A → Type 0
  Gives d m =
      (s : State W)
      → Rel exact (total out (m s).1.calls + total back s.calls + d)
          (total back (m s).1.calls + total out s.calls)

  pub Owns-log : (c : Call) (pre : ℕ) → out c ≡ back c → Owns pre (λ _. pre) pre (log c)
  Owns-log c pre e s =
      Rel-refl exact _ _ (omega (arith, total-cons out c s.calls, total-cons back c s.calls, e))

  pub Owns-pure : {A : Type 0} (a : A) (q : A → ℕ) (qe : ℕ) → Owns (q a) q qe (lift (ok a))
  Owns-pure a q qe s = Rel-refl exact _ _ (omega arith)

  pub Owns-lift_err :
      {A : Type 0} (e : Error) (q : A → ℕ) (qe : ℕ) → Owns qe q qe (lift {A = A} (err e))
  Owns-lift_err e q qe s = Rel-refl exact _ _ (omega arith)

  pub Owns-match_result :
      {A B : Type 0} (mid : A → ℕ) (pre me : ℕ) (q : B → ℕ) (qe : ℕ) (m : M W A) (f : A → M W B)
      (g : Error → M W B)
      → Owns pre mid me m
      → ((a : A) → Owns (mid a) q qe (f a))
      → ((e : Error) → Owns me q qe (g e))
      → Owns pre q qe (match_result m f g)
  Owns-match_result {A} {B} mid pre me q qe m f g h k l s = go (m s) (h s)
    where
      last :
          (x : ℕ) (t : State W) (y : Outcome B × State W)
          → Account s t pre x
          → Settles t x q qe y
          → Settles s pre q qe y
      last x t (ok b, u) p r = Rel-trans exact _ _ _ _ _ _ pre x (q b) p r
      last x t (err e, u) p r = Rel-trans exact _ _ _ _ _ _ pre x qe p r
      last x t (panic, u) p r = r

      go :
          (x : Outcome A × State W)
          → Settles s pre mid me x
          → Settles s pre q qe (match_result (λ _. x) f g s)
      go (ok a, t) p = last (mid a) t (f a t) p (k a t)
      go (err e, t) p = last me t (g e t) p (l e t)
      go (panic, t) p = p

  pub Owns-bind :
      {A B : Type 0} (mid : A → ℕ) (pre : ℕ) (q : B → ℕ) (qe : ℕ) (m : M W A) (f : A → M W B)
      → Owns pre mid qe m
      → ((a : A) → Owns (mid a) q qe (f a))
      → Owns pre q qe (m >>= f)
  Owns-bind mid pre q qe m f h k =
      Owns-match_result mid pre qe q qe m f (λ e. lift (err e)) h k (λ e. Owns-lift_err e q qe)

  pub Owns-finally :
      {A : Type 0} (d pre : ℕ) (q : A → ℕ) (qe : ℕ) (m : M W A) (cleanup : M W (Unit {0}))
      → Owns pre (λ a. q a + d) (qe + d) m
      → Gives d cleanup
      → Owns pre q qe (finally m cleanup)
  Owns-finally {A} d pre q qe m cleanup h g s = go (m s) (h s)
    where
      go :
          (x : Outcome A × State W)
          → Settles s pre (λ a. q a + d) (qe + d) x
          → Settles s pre q qe (finally (λ _. x) cleanup s)
      go (ok a, t) p = Rel-give exact _ _ _ _ _ _ pre (q a) d p (g t)
      go (err e, t) p = Rel-give exact _ _ _ _ _ _ pre qe d p (g t)
      go (panic, t) p = p

  pub Owns-on_error :
      {A : Type 0} (d pre : ℕ) (q : A → ℕ) (qe : ℕ) (m : M W A) (cleanup : M W (Unit {0}))
      → Owns pre q (qe + d) m
      → Gives d cleanup
      → Owns pre q qe (on_error m cleanup)
  Owns-on_error {A} d pre q qe m cleanup h g s = go (m s) (h s)
    where
      go :
          (x : Outcome A × State W)
          → Settles s pre q (qe + d) x
          → Settles s pre q qe (on_error (λ _. x) cleanup s)
      go (ok a, t) p = p
      go (err e, t) p = Rel-give exact _ _ _ _ _ _ pre qe d p (g t)
      go (panic, t) p = p

  -- What was held before is held afterwards.
  pub Owns-frame :
      {A : Type 0} (c pre : ℕ) (q : A → ℕ) (qe : ℕ) (m : M W A)
      → Owns pre q qe m
      → Owns (pre + c) (λ a. q a + c) (qe + c) m
  Owns-frame {A} c pre q qe m h s = go (m s) (h s)
    where
      go :
          (x : Outcome A × State W)
          → Settles s pre q qe x
          → Settles s (pre + c) (λ a. q a + c) (qe + c) x
      go (ok a, t) p = Rel-frame exact _ _ c pre (q a) p
      go (err e, t) p = Rel-frame exact _ _ c pre qe p
      go (panic, t) p = p

  pub Gives-log : (c : Call) (d : ℕ) → Rel exact (out c + d) (back c) → Gives d (log c)
  Gives-log c d h s =
      rw (total-cons out c s.calls, total-cons back c s.calls)
        (Rel-log exact (out c) (back c) d (total out s.calls) (total back s.calls) h)
