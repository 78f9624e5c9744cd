-- ===== src/Ioctl/Digest/Refused.antt =====
-- Why there is no digest of the caller.
use mathlib.Core.Path.{subst}
use tarako_module.Shared.{
  ℕ, ◌≡◌, refl, ap, ◌∙◌, true, none, some, inl, inr, Bool-cases, Option-cases, is_negative, ◌==◌,
  ==_iff, ltb, ℤ, pos, negsuc, List, length, Error, eperm, enoent, eoverflow, err, Outcome, ok,
  panic, ◌∷◌,
}
use tarako_module.Ffi.{Kernel, State, log, finally, rcu_lock, rcu_unlock}
use tarako_module.Ffi.Errors.{ErrsBy}
use tarako_module.Ioctl.Digest.{
  FsverityDigest, check_digest, read_digest, current_exe_fsverity_digest,
}

ret_of : {A B : Type 0} {x : A × B} {a : A} {b : B} → x ≡ (a, b) → x.0 ≡ a
ret_of e = ap (λ y. y.0) e

buffer_of : {A B : Type 0} {x : A × B} {a : A} {b : B} → x ≡ (a, b) → x.1 ≡ b
buffer_of e = ap (λ y. y.1) e

module _ {W : Type 0} (K : Kernel W) where
  -- In the world `w`: the current task has no memory map, or a null pointer stands on the way to its
  -- executable's inode, or the helper failed, or gave no digest, or one that is too long.
  pub data NoDigest (w : W) : Error → Type 0 where
    no_mm : K.current_mm w ≡ none → NoDigest w eperm
    null_mm : K.current_mm w ≡ some 0 → NoDigest w eperm
    null_exe : (mm : ℕ) → K.current_mm w ≡ some mm → K.exe_file mm w ≡ 0 → NoDigest w eperm
    null_inode :
        (mm : ℕ) → K.current_mm w ≡ some mm → K.f_inode (K.exe_file mm w) w ≡ 0 → NoDigest w eperm
    not_given :
        (inode : ℕ)
        → is_negative (K.fsverity_get_digest inode w).0.0 ≡ true
        → NoDigest w (K.from_errno (K.fsverity_get_digest inode w).0.0)
    empty : (inode : ℕ) → (K.fsverity_get_digest inode w).0.0 ≡ pos 0 → NoDigest w enoent
    too_long :
        (inode size : ℕ)
        → (K.fsverity_get_digest inode w).0.0 ≡ pos size
        → ltb (length (K.fsverity_get_digest inode w).0.1) size ≡ true
        → NoDigest w eoverflow

  check_digest_errs :
      (w : W) (inode : ℕ) (ret : ℤ) (buffer : List ℕ) (t : State W)
      → (K.fsverity_get_digest inode w).0 ≡ (ret, buffer)
      → ErrsBy (NoDigest w) (check_digest K ret buffer, t)
  unfolding check_digest
  check_digest_errs w inode (negsuc m) buffer t e =
      subst (λ r. NoDigest w (K.from_errno r)) (ret_of e)
        (not_given inode (ap is_negative (ret_of e)))
  check_digest_errs w inode (pos size) buffer t e = elim (Bool-cases (size == 0)) [
    | inl f ↦ rw f (empty inode (ret_of e ∙ ap pos ((==_iff size 0).0 f)))
    | inr f ↦ elim (Bool-cases (ltb (length buffer) size)) [
      | inl g ↦
          rw (f, g)
            (too_long inode size (ret_of e) (ap (λ b. ltb (length b) size) (buffer_of e) ∙ g))
      | inr g ↦ rw (f, g) tt
    ]
  ]

  read_digest_errs :
      (mm : ℕ) (s : State W)
      → K.current_mm s.world ≡ some mm
      → ErrsBy (NoDigest s.world) (read_digest K mm s)
  unfolding read_digest
  read_digest_errs mm s has = elim (Bool-cases (exe == 0)) [
    | inl e ↦ rw e (null_exe mm has ((==_iff exe 0).0 e))
    | inr e ↦ elim (Bool-cases (K.f_inode exe s.world == 0)) [
      | inl f ↦ rw (e, f) (null_inode mm has ((==_iff (K.f_inode exe s.world) 0).0 f))
      | inr f ↦ rw (e, f) (check_digest_errs s.world (K.f_inode exe s.world) _ _ _ refl)
    ]
  ]
    where
      exe : ℕ
      exe = K.exe_file mm s.world

  -- Every error of reading the caller's digest has its reason in the state of the call: EPERM where
  -- there is no memory map or a null pointer on the way to the inode, the error of the helper, ENOENT
  -- where it gave no digest, and EOVERFLOW where it gave one that is longer than its buffer.
  pub current_exe_fsverity_digest_errs :
      (s : State W) → ErrsBy (NoDigest s.world) (current_exe_fsverity_digest K s)
  unfolding current_exe_fsverity_digest
  current_exe_fsverity_digest_errs s = elim (Option-cases (K.current_mm s.world)) [
    | inl e ↦ rw e (no_mm e)
    | inr (mm, e) ↦ elim (Bool-cases (mm == 0)) [
      | inl f ↦ rw (e, f) (null_mm (e ∙ ap some ((==_iff mm 0).0 f)))
      | inr f ↦ rw (e, f) (go (read_digest K mm locked) (read_digest_errs mm locked e))
    ]
  ]
    where
      locked : State W
      locked = record s { calls = rcu_lock ∷ s.calls }

      go :
          (x : Outcome FsverityDigest × State W)
          → ErrsBy (NoDigest s.world) x
          → ErrsBy (NoDigest s.world) (finally (λ _. x) (log rcu_unlock) locked)
      go (ok d, t) h = tt
      go (err e, t) h = h
      go (panic, t) h = tt
