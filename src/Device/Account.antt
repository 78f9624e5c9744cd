-- ===== src/Device/Account.antt =====
-- What loading the module takes and gives back: the keys that are drawn, and the registration of
-- the device.
pub mod Loading
pub mod Commands
pub mod Life
use native.Mathlib.Nat.{zero-add}
use mathlib.Core.Path.{subst}
use tarako_module.Shared.{
  ℕ, ◌+◌, ◌≤◌, ◌≡◌, refl, sym, Bool, true, false, none, some, List, ◌∷◌, inl, inr, ok, err, panic,
  arith, Bool-cases, Option-cases, Outcome, is_negative, ◌==◌,
}
use tarako_module.Ffi
use tarako_module.Ffi.{Call, Kernel, State, M, pure, log, wipe, ◌>>=◌, ◌>>◌, on_error}
use tarako_module.Ffi.Ledger.{
  total, Rel, Rel-refl, Rel-give, Owns, Owns-bind, Owns-on_error, Gives, Gives-log, Account,
  Settles,
}
use tarako_module.Vli.{Vli}
use tarako_module.SetOnce.{populate, cmpxchg, write_value, store_init}
use tarako_module.Ecc.{generate_private_key, make_public_key, fill_point, drop_point}
use tarako_module.Ecc.Account.{drawn, wiped, Accounts, key_accounts}
use tarako_module.Ecc.Account.Even.{Even, even_accounts}
use tarako_module.Ioctl.Types.{KeyPair}
use tarako_module.Ioctl.Keys.{generate_key_pair}
use tarako_module.Ioctl.Keys.Account.{generate_key_pair-Owns}
use tarako_module.Device.{
  Module, drop_local, register_device, drop_registration, publish, ready, conclude, module_init,
}
use tarako_module.Device.Account.Loading.{Accounted, module_init-Accounted}

-- A registration of the device, and its end.
abbrev pub registered : Call → ℕ
registered Ffi.register = 1
registered _ = 0

abbrev pub deregistered : Call → ℕ
deregistered Ffi.deregister = 1
deregistered _ = 0

registration-Even : Even registered deregistered
registration-Even = record {
  allocs = λ a. refl;
  frees = λ a. refl;
  keys = λ k. refl;
  pubs = λ k. refl;
  wipes = λ v. refl;
  imas = λ l n bytes hash. refl;
  prints = λ m. refl;
}

-- The weight of the private key in the cell of a module that is loaded.
abbrev pub key_left : {W : Type 0} → (Vli → ℕ) → Outcome (Unit {0}) × Module W → ℕ
key_left w (ok _, m) = elim m.key_pair.value [ some kp ↦ w kp.private + 0 | none ↦ 0 ]
key_left w (err e, m) = 0
key_left w (panic, m) = 0

abbrev pub device_left : {W : Type 0} → Outcome (Unit {0}) × Module W → ℕ
device_left (ok _, m) = elim m.key_pair.value [ some kp ↦ 1 | none ↦ 0 ]
device_left (err e, m) = 0
device_left (panic, m) = 0

module _ {W : Type 0} (K : Kernel W) (m : Module W) where
  -- Loading wipes every key that it draws, other than the private key in the cell of a module
  -- that is loaded: for any weight of the limbs, the weight of the scalars wiped, and of that
  -- key, is at least that of the keys drawn. Where loading fails, at whatever point, no key is
  -- left.
  pub module_init-wipes :
      (w : List ℕ → ℕ)
      → let x = module_init K m in
        total (drawn w) x.1.kernel.calls + total (wiped w) m.kernel.calls
        ≤ total (wiped w) x.1.kernel.calls + total (drawn w) m.kernel.calls + key_left w x
  unfolding key_accounts
  module_init-wipes w =
      go (module_init K m) (
        module_init-Accounted K false (drawn w) (wiped w) (key_accounts K w) 0 (omega arith) gives
          m)
    where
      gives : Gives false (drawn w) (wiped w) 0 (log {W = W} Ffi.deregister)
      gives = Gives-log false (drawn w) (wiped w) Ffi.deregister 0 (omega arith)

      go :
          (x : Outcome (Unit {0}) × Module W)
          → Accounted K false
              (drawn w)
              (wiped w)
              (key_accounts K w)
              0
              (omega arith)
              gives
              m.kernel
              x
          → total (drawn w) x.1.kernel.calls + total (wiped w) m.kernel.calls
            ≤ total (wiped w) x.1.kernel.calls + total (drawn w) m.kernel.calls + key_left w x
      go (ok _, n) h = h
      go (err e, n) h = h
      go (panic, n) h = h

  -- A module that is loaded has its device registered once more than deregistered, and after a
  -- failure to load as many registrations were ended as were made.
  pub module_init-registers :
      let x = module_init K m in
      total registered x.1.kernel.calls + total deregistered m.kernel.calls
      ≡ total deregistered x.1.kernel.calls + total registered m.kernel.calls + device_left x
  unfolding even_accounts
  module_init-registers = go (module_init K m) (
      module_init-Accounted K true registered deregistered
        (even_accounts K registered deregistered registration-Even) 1 refl gives m)
    where
      gives : Gives true registered deregistered 1 (log {W = W} Ffi.deregister)
      gives = Gives-log true registered deregistered Ffi.deregister 1 refl

      go :
          (x : Outcome (Unit {0}) × Module W)
          → Accounted K true registered deregistered
              (even_accounts K registered deregistered registration-Even)
              1
              refl
              gives
              m.kernel
              x
          → total registered x.1.kernel.calls + total deregistered m.kernel.calls
            ≡ total deregistered x.1.kernel.calls + total registered m.kernel.calls + device_left x
      go (ok _, n) h = h
      go (err e, n) h = h
      go (panic, n) h = h
