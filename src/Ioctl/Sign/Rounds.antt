-- ===== src/Ioctl/Sign/Rounds.antt =====
-- The loop of `ecdsa_sign`: which round ends it.
use mathlib.Core.Path.{subst}
use tarako_module.Shared.{
  ℕ, zero, suc, ◌<◌, ◌≡◌, refl, sym, none, some, Option, List, ok, err, panic, Error, einval,
  Outcome, inl, inr, ◌⊎◌, arith, NoPanic,
}
use tarako_module.Ffi.{Kernel, State, M, ◌>>=◌, pure}
use tarako_module.Ffi.Ledger.Balanced.{Balanced-NoPanic}
use tarako_module.Vli.{Vli}
use tarako_module.Ecc.{sha256_hash}
use tarako_module.Ecc.Account.{allocated, freed, point_accounts}
use tarako_module.Ioctl.Sign.{attempt, rounds, ecdsa_sign}
use tarako_module.Ioctl.Sign.Account.{attempt_balanced}

module _ {W : Type 0} (K : Kernel W) (h : List ℕ) (d n : Vli) where
  -- So many rounds in a row gave no signature, each drawing its own nonce.
  pub data Skips : ℕ → State W → State W → Type 0 where
    stop : (s : State W) → Skips 0 s s
    skip :
        (m : ℕ) (s t u : State W)
        → attempt K h d n s ≡ (ok none, t)
        → Skips m t u
        → Skips (suc m) s u

  -- How a loop of `left` rounds ends with `x`: at the first round that gives a signature or an
  -- error, or after all of them.
  abbrev pub Ends : ℕ → State W → Outcome (Vli × Vli) × State W → Type 0
  Ends left s x =
      ((m : ℕ) × (u t : State W) × (rs : Vli × Vli) × (m < left)
        × Skips m s u
        × (attempt K h d n u ≡ (ok (some rs), t))
        × (x ≡ (ok rs, t)))
      ⊎ ((m : ℕ) × (u t : State W) × (e : Error) × (m < left)
          × Skips m s u
          × (attempt K h d n u ≡ (err e, t))
          × (x ≡ (err e, t)))
      ⊎ ((u : State W) × Skips left s u × (x ≡ (err einval, u)))

  later :
      (left : ℕ) (s t : State W) (x : Outcome (Vli × Vli) × State W)
      → attempt K h d n s ≡ (ok none, t)
      → Ends left t x
      → Ends (suc left) s x
  later left s t x e (inl (m, u, v, rs, lt, k, a, b)) =
      inl (suc m, u, v, rs, omega (arith, lt), skip m s t u e k, a, b)
  later left s t x e (inr (inl (m, u, v, er, lt, k, a, b))) =
      inr (inl (suc m, u, v, er, omega (arith, lt), skip m s t u e k, a, b))
  later left s t x e (inr (inr (u, k, b))) = inr (inr (u, skip left s t u e k, b))

  attempt-NoPanic : (s : State W) → NoPanic (attempt K h d n s).0
  attempt-NoPanic s =
      let w : ℕ → ℕ = λ _. 0 in
      Balanced-NoPanic _ (allocated w) (freed w) (attempt K h d n) s
        (attempt_balanced K _ (allocated w) (freed w) (point_accounts K w) h d n)

  rounds-Ends : (left : ℕ) (s : State W) → Ends left s (rounds K left h d n s)
  unfolding rounds
  rounds-Ends zero s = inr (inr (s, stop s, refl))
  rounds-Ends (suc left) s = go (rounds-Ends left) (attempt K h d n s) refl (attempt-NoPanic s)
    where
      continue : Option (Vli × Vli) → M W (Vli × Vli)
      continue o = elim o [ some rs ↦ pure rs | none ↦ rounds K left h d n ]

      go :
          (rest : (t : State W) → Ends left t (rounds K left h d n t))
          (y : Outcome (Option (Vli × Vli)) × State W)
          → attempt K h d n s ≡ y
          → NoPanic y.0
          → Ends (suc left) s (((λ _. y) >>= continue) s)
      go rest (ok (some rs), t) e _ = inl (0, s, t, rs, omega arith, stop s, e, refl)
      go rest (ok none, t) e _ = later left s t _ e (rest t)
      go rest (err x, t) e _ = inr (inl (0, s, t, x, omega arith, stop s, e, refl))
      go rest (panic, t) e p = absurd p

  -- Signing ends with the first of at most 100 rounds that gives a signature, or with the error
  -- of the first round that fails; only if all 100 rounds gave neither does it end with EINVAL.
  pub ecdsa_sign-Ends :
      (bytes : List ℕ) (s : State W)
      → sha256_hash K bytes ≡ h
      → Ends 100 s (ecdsa_sign K bytes d n s)
  unfolding ecdsa_sign
  ecdsa_sign-Ends bytes s e =
      subst (λ g. Ends 100 s (rounds K 100 g d n s)) (sym e) (rounds-Ends 100 s)
