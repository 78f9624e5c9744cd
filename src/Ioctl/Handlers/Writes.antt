-- ===== src/Ioctl/Handlers/Writes.antt =====
-- How often the handlers copy to user space: a postcondition with one copy, and its rules.
pub mod Silent
pub mod Once
use tarako_module.Shared.{
  ℕ, suc, Error, ◌+◌, ◌≡◌, refl, sym, ◌∙◌, ◌⊎◌, inl, inr, Bool, true, false, none, some, Option,
  List, ◌∷◌, Outcome, ok, err, panic, [], arith, Bool-cases, Option-cases, is_negative, ℤ, NoPanic,
  ok_or, not, einval, eperm, enxio, e2big, slice_to, pos, ltb, ◌==◌, if◌then◌else◌, length, reverse,
}
use tarako_module.Ffi
use tarako_module.Ffi.{
  Call, Kernel, State, M, pure, lift, log, ◌>>=◌, ◌>>◌, finally, copy_to_user, copy_from_user,
  rcu_lock, rcu_unlock, get_digest, wipe,
}
use tarako_module.Ffi.Ledger.{total, Owns, Gives, Gives-log, Settles, total-cons}
use tarako_module.Ffi.Ledger.Balanced.{Balanced, Balanced-total}
use tarako_module.Vli.{Vli, drop_vli, checked}
use tarako_module.Ecc.{
  generate_private_key, make_public_key, fill_point, drop_point, sha256_hash, p256_pubkey_bytes,
}
use tarako_module.Ecc.Account.{Accounts}
use tarako_module.Ecc.Account.Even.{Even, even_accounts}
use tarako_module.SetOnce.{SetOnce, as_ref}
use tarako_module.Ioctl.Types.{
  KeyPair, SignDataReq, size_of_req, sign_data_req_of_bytes, sign_data_req_bytes, user_data_bytes,
}
use tarako_module.Ioctl.Sign.{sign}
use tarako_module.Ioctl.Sign.Account.{ecdsa_sign-Balanced}
use tarako_module.Ioctl.Digest.{digest, read_digest, current_exe_fsverity_digest, FsverityDigest}
use tarako_module.Ioctl.Handlers.{
  message_buffer, write_limbs, read_sign_data_req, write_user, write_sign_data_req, answer,
  sign_request, handle_sign_data, handle_get_pubkey,
}

-- A copy to user space counts one.
abbrev copied : Call → ℕ
copied (copy_to_user a bytes) = 1
copied _ = 0

abbrev none_back : Call → ℕ
none_back _ = 0

-- How often the module has copied to user space.
unfoldable pub writes : {W : Type 0} → State W → ℕ
writes s = total copied s.calls

module _ {W A : Type 0} where
  -- No copy is made, however the call ends.
  abbrev pub Quiet : State W → Outcome A × State W → Type 0
  Quiet s x = writes x.1 ≡ writes s

module _ {W : Type 0} (K : Kernel W) where
  -- A success has copied once. An error has copied nothing, or it is the error of its one copy.
  -- Nothing is copied before a panic.
  abbrev pub WritesOnce : {A : Type 0} → State W → Outcome A × State W → Type 0
  WritesOnce s (ok a, t) = writes t ≡ writes s + 1
  WritesOnce s (err e, t) =
      (writes t ≡ writes s)
      ⊎ ((writes t ≡ writes s + 1)
          × ((arg : ℕ) × (size : ℕ) × (bytes : List ℕ) × (w : W) × ((K.write_slice arg size bytes
                  w).0
                ≡ some e)))
  WritesOnce s (panic, t) = writes t ≡ writes s

  pub Once-bind :
      {A B : Type 0} (m : M W A) (f : A → M W B) (s : State W)
      → Quiet s (m s)
      → ((a : A) (t : State W) → WritesOnce t (f a t))
      → WritesOnce s ((m >>= f) s)
  Once-bind {A} {B} m f s h k = go (m s) h
    where
      last :
          (t : State W)
          → writes t ≡ writes s
          → (y : Outcome B × State W) → WritesOnce t y
          → WritesOnce s y
      last t e (ok b, u) p = omega (arith, p, e)
      last t e (err x, u) (inl p) = inl (p ∙ e)
      last t e (err x, u) (inr p) = inr (omega (arith, p.0, e), p.1)
      last t e (panic, u) p = p ∙ e

      go : (x : Outcome A × State W) → Quiet s x → WritesOnce s (((λ _. x) >>= f) s)
      go (ok a, t) e = last t e (f a t) (k a t)
      go (err x, t) e = inl e
      go (panic, t) e = e

  pub Once-finally :
      {A : Type 0} (m : M W A) (v : Vli) (s : State W)
      → WritesOnce s (m s)
      → WritesOnce s (finally m (drop_vli v) s)
  unfolding writes total
  Once-finally {A} m v s h = go (m s) h
    where
      go :
          (x : Outcome A × State W)
          → WritesOnce s x
          → WritesOnce s (finally (λ _. x) (drop_vli v) s)
      go (ok a, t) p = omega (arith, p)
      go (err e, t) (inl p) = inl (omega (arith, p))
      go (err e, t) (inr p) = inr (omega (arith, p.0), p.1)
      go (panic, t) p = p

  pub Once-lift :
      {A B : Type 0} (r : Outcome A) (f : A → M W B) (s : State W)
      → ((a : A) → WritesOnce s (f a s))
      → WritesOnce s ((lift r >>= f) s)
  Once-lift (ok a) f s k = k a
  Once-lift (err e) f s k = inl refl
  Once-lift panic f s k = refl

  pub Once-then :
      {A B : Type 0} (m : M W A) (b : B) (s : State W)
      → WritesOnce s (m s)
      → WritesOnce s ((m >> pure b) s)
  Once-then {A} m b s h = go (m s) h
    where
      go : (x : Outcome A × State W) → WritesOnce s x → WritesOnce s (((λ _. x) >> pure b) s)
      go (ok a, t) p = p
      go (err e, t) p = p
      go (panic, t) p = p

  pub Quiet-bind :
      {A B : Type 0} (m : M W A) (f : A → M W B) (s : State W)
      → Quiet s (m s)
      → ((a : A) (t : State W) → Quiet t (f a t))
      → Quiet s ((m >>= f) s)
  Quiet-bind {A} {B} m f s h k = go (m s) h
    where
      go : (x : Outcome A × State W) → Quiet s x → Quiet s (((λ _. x) >>= f) s)
      go (ok a, t) e = k a t ∙ e
      go (err x, t) e = e
      go (panic, t) e = e

  pub Quiet-log : (c : Call) (s : State W) → copied c ≡ 0 → Quiet s (log c s)
  unfolding writes total
  Quiet-log c s e = omega (arith, e)

  pub Quiet-finally :
      {A : Type 0} (m : M W A) (c : Call) (s : State W)
      → Quiet s (m s)
      → copied c ≡ 0
      → Quiet s (finally m (log c) s)
  Quiet-finally {A} m c s h e = go (m s) h
    where
      go : (x : Outcome A × State W) → Quiet s x → Quiet s (finally (λ _. x) (log c) s)
      go (ok a, t) p = Quiet-log c t e ∙ p
      go (err x, t) p = Quiet-log c t e ∙ p
      go (panic, t) p = p

  pub Once-if :
      {A : Type 0} (b : Bool) (m n : M W A) (s : State W)
      → WritesOnce s (m s)
      → WritesOnce s (n s)
      → WritesOnce s ((if b then m else n) s)
  Once-if true m n s h k = h
  Once-if false m n s h k = k
