-- ===== src/Device/Account/Commands.antt =====
-- What an ioctl of /dev/tarako takes and gives back.
use tarako_module.Shared.{
  ℕ, ◌+◌, ◌≤◌, ◌≡◌, refl, Bool, true, false, List, ok, err, pos, ℤ, enotty, ◌==◌, if◌then◌else◌,
}
use tarako_module.Ffi.{Call, Kernel, State, M, pure, lift}
use tarako_module.Ffi.Ledger.{total}
use tarako_module.Ffi.Keeps.{Keeps-lift, Keeps-if}
use tarako_module.Ecc.Account.{
  allocated, freed, drawn, wiped, Accounts, point_accounts, key_accounts,
}
use tarako_module.SetOnce.{SetOnce}
use tarako_module.Ioctl.Types.{KeyPair, tarako_hello, tarako_get_pubkey, tarako_sign_data}
use tarako_module.Ioctl.Handlers.{handle_get_pubkey, handle_sign_data}
use tarako_module.Ioctl.Handlers.Account.{Calm, Even, settled}
use tarako_module.Ioctl.Handlers.Account.Handled.{handle_sign_data-Even, handle_get_pubkey-Even}
use tarako_module.Device.{ioctl}

point-Calm : (w : ℕ → ℕ) → Calm (allocated w) (freed w)
point-Calm w = record {
  copies_in = λ a n. refl;
  copies_out = λ a b. refl;
  locks = refl;
  unlocks = refl;
  digests = λ i. refl;
}

key-Calm : (w : List ℕ → ℕ) → Calm (drawn w) (wiped w)
key-Calm w = record {
  copies_in = λ a n. refl;
  copies_out = λ a b. refl;
  locks = refl;
  unlocks = refl;
  digests = λ i. refl;
}

module _ {W : Type 0} (K : Kernel W) where
  ioctl-Even :
      (exact : Bool) (out back : Call → ℕ)
      → Accounts K exact out back
      → Calm out back
      → (cell : SetOnce KeyPair) (cmd arg : ℕ) → Even exact out back (ioctl K cell cmd arg)
  unfolding ioctl
  ioctl-Even exact out back acc calm cell cmd arg =
      Keeps-if (settled exact out back) (cmd == tarako_hello K) (pure (pos 0)) keyed
        (Keeps-lift (settled exact out back) (ok (pos 0)))
        (Keeps-if (settled exact out back) (cmd == tarako_get_pubkey K)
          (handle_get_pubkey K cell arg cmd) signing
          (handle_get_pubkey-Even K exact out back acc calm cell arg cmd)
          (Keeps-if (settled exact out back) (cmd == tarako_sign_data K)
            (handle_sign_data K cell arg cmd) (lift (err enotty))
            (handle_sign_data-Even K exact out back acc calm cell arg cmd)
            (Keeps-lift (settled exact out back) (err enotty))))
    where
      signing : M W ℤ
      signing =
          if cmd == tarako_sign_data K then handle_sign_data K cell arg cmd else lift (err enotty)

      keyed : M W ℤ
      keyed = if cmd == tarako_get_pubkey K then handle_get_pubkey K cell arg cmd else signing

module _ {W : Type 0} (K : Kernel W) (cell : SetOnce KeyPair) (cmd arg : ℕ) (s : State W) where
  -- Whatever the command, the caller, the contents of the cell and the outcome, an ioctl frees as
  -- many points as it allocates, address by address: for any weight of the addresses, the points
  -- allocated weigh what the points freed do. No failure on the way, of the copy to user space as
  -- much as of a signature, leaks a point.
  pub ioctl-frees :
      (w : ℕ → ℕ)
      → let t = (ioctl K cell cmd arg s).1 in
        total (allocated w) t.calls + total (freed w) s.calls
        ≡ total (freed w) t.calls + total (allocated w) s.calls
  unfolding point_accounts
  ioctl-frees w =
      let account =
        ioctl-Even K true (allocated w) (freed w) (point_accounts K w) (point-Calm w) cell cmd
          arg in
      account.keeps s

  -- Whatever the command, the caller, the contents of the cell and the outcome, every scalar that an
  -- ioctl draws is wiped before it returns: for any weight of the limbs, the scalars wiped weigh at
  -- least what the scalars drawn do.
  pub ioctl-wipes :
      (w : List ℕ → ℕ)
      → let t = (ioctl K cell cmd arg s).1 in
        total (drawn w) t.calls + total (wiped w) s.calls
        ≤ total (wiped w) t.calls + total (drawn w) s.calls
  unfolding key_accounts
  ioctl-wipes w =
      let account =
        ioctl-Even K false (drawn w) (wiped w) (key_accounts K w) (key-Calm w) cell cmd arg in
      account.keeps s
