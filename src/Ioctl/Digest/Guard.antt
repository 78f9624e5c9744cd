-- ===== src/Ioctl/Digest/Guard.antt =====
-- The RCU read guard of `current_exe_fsverity_digest`.
use tarako_module.Shared.{
  ℕ, ◌+◌, ◌-◌, ◌<◌, ◌≡◌, refl, inl, inr, List, [], ◌∷◌, arith, Bool-cases, Option-cases, ◌==◌, ok,
  err, panic, NoPanic, Outcome,
}
use tarako_module.Ffi.{Call, Kernel, State, log, finally, rcu_lock, rcu_unlock, get_digest}
use tarako_module.Ioctl.Digest.{FsverityDigest, read_digest, current_exe_fsverity_digest}
use tarako_module.Ioctl.Digest.Caller.{check_digest-NoPanic}

-- How many read guards are held after these calls.
unfoldable pub guards : List Call → ℕ
guards [] = 0
guards (rcu_lock ∷ cs) = guards cs + 1
guards (rcu_unlock ∷ cs) = guards cs - 1
guards (_ ∷ cs) = guards cs

-- Every digest was read while a guard was held.
unfoldable pub IsGuarded : List Call → Type 0
unfolding guards
IsGuarded [] = Unit
IsGuarded (get_digest i ∷ cs) = (0 < guards cs) × IsGuarded cs
IsGuarded (_ ∷ cs) = IsGuarded cs

module _ {W : Type 0} (K : Kernel W) where
  -- Under a guard, and with the guard still held.
  abbrev Kept : State W → Outcome FsverityDigest × State W → Type 0
  Kept s (r, t) =
      NoPanic r
      × (IsGuarded s.calls
          → 0 < guards s.calls
          → IsGuarded t.calls × (guards t.calls ≡ guards s.calls))

  read_digest-Kept : (mm : ℕ) (s : State W) → Kept s (read_digest K mm s)
  unfolding read_digest guards IsGuarded
  read_digest-Kept mm s = elim (Bool-cases (K.exe_file mm s.world == 0)) [
    | inl e ↦ rw e (tt, λ g h. (g, refl))
    | inr e ↦ rw e (elim (Bool-cases (K.f_inode (K.exe_file mm s.world) s.world == 0)) [
      | inl f ↦ rw f (tt, λ g h. (g, refl))
      | inr f ↦ rw f (
        check_digest-NoPanic K
            (K.fsverity_get_digest (K.f_inode (K.exe_file mm s.world) s.world) s.world).0.0
            (K.fsverity_get_digest (K.f_inode (K.exe_file mm s.world) s.world) s.world).0.1,
        λ g h. ((h, g), refl),
      )
    ])
  ]

  -- Reading the caller's digest takes the RCU read guard before it looks at the digest and gives it
  -- back on every path: as many guards are held after the call as before it, a digest is read only
  -- while one is held, and there is no panic, whatever the helper returns.
  pub current_exe_fsverity_digest-IsGuarded :
      (s : State W)
      → IsGuarded s.calls
      → let (r, t) = current_exe_fsverity_digest K s in
        NoPanic r × IsGuarded t.calls × (guards t.calls ≡ guards s.calls)
  unfolding current_exe_fsverity_digest guards IsGuarded
  current_exe_fsverity_digest-IsGuarded s g = elim (Option-cases (K.current_mm s.world)) [
    | inl e ↦ rw e (tt, g, refl)
    | inr (mm, e) ↦ rw e (elim (Bool-cases (mm == 0)) [
      | inl f ↦ rw f (tt, g, refl)
      | inr f ↦ rw f (go (read_digest K mm locked) (read_digest-Kept mm locked))
    ])
  ]
    where
      locked : State W
      locked = record s { calls = rcu_lock ∷ s.calls }

      go :
          (x : Outcome FsverityDigest × State W)
          → Kept locked x
          → let (r, t) = finally (λ _. x) (log rcu_unlock) locked in
            NoPanic r × IsGuarded t.calls × (guards t.calls ≡ guards s.calls)
      go (ok d, t) k = let p = k.1 g (omega arith) in (tt, p.0, omega (arith, p.1))
      go (err e, t) k = let p = k.1 g (omega arith) in (tt, p.0, omega (arith, p.1))
      go (panic, t) k = absurd k.0
