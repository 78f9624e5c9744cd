-- ===== src/Ioctl/Handlers/Account.antt =====
-- What the handlers take and give back, however they end.
pub mod Parts
pub mod Handled
use tarako_module.Shared.{
  ℕ, ◌+◌, ◌≤◌, ◌≡◌, refl, ap, Bool, true, false, not, none, some, Option, inl, inr, ◌⊎◌, List, ◌∷◌,
  length, reverse, ltb, Error, Outcome, ok, err, ok_or, einval, eperm, enxio, e2big, slice_to, ℤ,
  pos, arith, Option-cases, ◌==◌, if◌then◌else◌,
}
use tarako_module.Ffi.{
  Call, Kernel, State, M, pure, lift, log, ◌>>=◌, ◌>>◌, finally, wipe, copy_to_user, copy_from_user,
  rcu_lock, rcu_unlock, get_digest, kernel_call, kernel_read,
}
use tarako_module.Ffi.Ledger.{total, total-cons, Rel, Rel-refl, Rel-join, Rel-drop, Gives}
use tarako_module.Ffi.Ledger.Balanced.{Balanced, Balanced-total, Balanced-of_Gives}
use tarako_module.Ffi.Keeps.{Preorder, Keeps, Keeps-bind, Keeps-finally, Keeps-lift, Keeps-if}
use tarako_module.Vli.{Vli, drop_vli, checked}
use tarako_module.Ecc.{sha256_hash, p256_pubkey_bytes}
use tarako_module.Ecc.Account.{Accounts}
use tarako_module.SetOnce.{SetOnce, as_ref}
use tarako_module.Ioctl.Types.{
  KeyPair, SignDataReq, size_of_req, user_data_bytes, sign_data_req_bytes, sign_data_req_of_bytes,
}
use tarako_module.Ioctl.Sign.{sign}
use tarako_module.Ioctl.Sign.Account.{ecdsa_sign-Balanced}
use tarako_module.Ioctl.Digest.{
  FsverityDigest, digest, check_digest, read_digest, current_exe_fsverity_digest,
}
use tarako_module.Ioctl.Handlers.{
  message_buffer, write_limbs, read_sign_data_req, write_user, write_sign_data_req, answer,
  sign_request, handle_sign_data, handle_get_pubkey,
}

-- The calls of the handlers themselves weigh the same on both sides.
pub record Calm (out back : Call → ℕ) : Type 0 where
  pub copies_in : (a n : ℕ) → out (copy_from_user a n) ≡ back (copy_from_user a n)
  pub copies_out : (a : ℕ) (b : List ℕ) → out (copy_to_user a b) ≡ back (copy_to_user a b)
  pub locks : out rcu_lock ≡ back rcu_lock
  pub unlocks : out rcu_unlock ≡ back rcu_unlock
  pub digests : (i : ℕ) → out (get_digest i) ≡ back (get_digest i)

-- What is given back makes up for what is taken.
abbrev pub settled : {W : Type 0} → Bool → (Call → ℕ) → (Call → ℕ) → Preorder W
settled exact out back = record {
  rel = λ s t.
      Rel exact (total out t.calls + total back s.calls) (total back t.calls + total out s.calls);
  same = λ s. Rel-refl exact _ _ (omega arith);
  chain = λ s t u p q.
      Rel-join exact (total out s.calls) (total out t.calls) (total out u.calls)
        (total back s.calls) (total back t.calls) (total back u.calls) p q;
}

module _ {W : Type 0} (exact : Bool) (out back : Call → ℕ) where
  abbrev pub settling : Preorder W
  settling = settled exact out back

  abbrev pub Even : {A : Type 0} → M W A → Type 0
  Even = Keeps settling

  pub log-Even : (c : Call) → out c ≡ back c → Even (log c)
  log-Even c e = record {
    keeps = λ s.
        Rel-refl exact _ _ (omega (arith, total-cons out c s.calls, total-cons back c s.calls, e));
  }

  pub call-Even : {A : Type 0} (f : W → A × W) → Even (kernel_call f)
  call-Even f = record { keeps = λ s. Rel-refl exact _ _ (omega arith) }

  pub read-Even : {A : Type 0} (f : W → A) → Even (kernel_read f)
  read-Even f = record { keeps = λ s. Rel-refl exact _ _ (omega arith) }

  pub then-Even : (m : M W (Unit {0})) (z : ℤ) → Even m → Even (m >> pure z)
  then-Even m z h = Keeps-bind settling m (λ _. pure z) h (λ _. Keeps-lift settling (ok z))

  pub lifted-Even :
      {A B : Type 0} (r : Outcome A) (f : A → M W B) → ((a : A) → Even (f a)) → Even (lift r >>= f)
  lifted-Even r f h = Keeps-bind settling (lift r) f (Keeps-lift settling r) h

module _ {W : Type 0} (K : Kernel W) (exact : Bool) (out back : Call → ℕ)
    (acc : Accounts K exact out back) where
  open acc use {wipe_any}

  pub drop_vli-Even : (v : Vli) → Even exact out back (drop_vli {W = W} v)
  drop_vli-Even v = record {
    keeps = λ s.
        Balanced-total exact out back (drop_vli v) s
          (Balanced-of_Gives exact out back (wipe v) (wipe_any v));
  }

  pub sign-Even : (kp : KeyPair) (bytes : List ℕ) → Even exact out back (sign K kp bytes)
  unfolding sign
  sign-Even kp bytes = record {
    keeps = λ s.
        Balanced-total exact out back (sign K kp bytes) s
          (ecdsa_sign-Balanced K exact out back acc bytes kp.private kp.curve_n);
  }
