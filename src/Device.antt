-- ===== src/Device.antt =====
-- driver/src/lib.rs: loading and unloading the module, opening and releasing its device file, and
-- the dispatch of an ioctl.
pub mod Dispatch
pub mod Lifecycle
pub mod Account
pub mod Total
pub mod Files
pub mod NotLoaded
pub mod System
use tarako_module.Shared.{
  ℕ, ◌==◌, if◌then◌else◌, true, false, none, some, ℤ, pos, Outcome, ok, err, panic, ebusy, enotty,
  enomem,
}
use tarako_module.Ffi.{
  Kernel, State, M, pure, lift, ◌>>=◌, ◌>>◌, log, kernel_call, kernel_effect, on_error,
  match_result, print, loading, init_failed, already_initialized, key_ready, get_device, put_device,
  alloc_box, free_box,
}
use tarako_module.Ffi
use tarako_module.Vli.{drop_vli}
use tarako_module.SetOnce.{SetOnce, populate, cmpxchg, clear}
use tarako_module.Ioctl.Types.{
  KeyPair, drop_key_pair, tarako_hello, tarako_get_pubkey, tarako_sign_data,
}
use tarako_module.Ioctl.Keys.{generate_key_pair}
use tarako_module.Ioctl.Handlers.{handle_get_pubkey, handle_sign_data}

-- The static `KEY_PAIR`, and the rest.
pub record Module (W : Type 0) : Type 0 where
  pub key_pair : SetOnce KeyPair
  pub kernel : State W

-- A key pair that is dropped while it is a local value: its fields in order.
abbrev pub drop_local : {W : Type 0} → KeyPair → M W (Unit {0})
drop_local kp = drop_vli kp.private >> drop_vli kp.curve_n

module _ {W : Type 0} (K : Kernel W) where
  unfoldable pub ioctl : SetOnce KeyPair → ℕ → ℕ → M W ℤ
  ioctl cell cmd arg =
      if cmd == tarako_hello K
      then pure (pos 0)
      else if cmd == tarako_get_pubkey K
      then handle_get_pubkey K cell arg cmd
      else if cmd == tarako_sign_data K
      then handle_sign_data K cell arg cmd
      else lift (err enotty)

  -- `MiscDeviceRegistration::register`
  unfoldable pub register_device : M W (Unit {0})
  register_device = do
    failed ← kernel_call K.register
    elim failed [ some e ↦ lift (err e) | none ↦ log Ffi.register ]

  -- Dropping the registration.
  unfoldable pub drop_registration : M W (Unit {0})
  drop_registration = do kernel_effect K.deregister; log Ffi.deregister

  -- The closure of `pin_chain`. `populate` drops a key pair that it does not store, and on the
  -- error of the closure the registration is dropped.
  unfoldable pub publish : KeyPair → Module W → Outcome (Unit {0}) × Module W
  unfolding drop_registration
  publish kp m =
      let (cell, populated) = populate kp m.key_pair in
      if populated
      then (ok tt, record { key_pair = cell; kernel = (log (print key_ready) m.kernel).1 })
      else (
        err ebusy,
        record {
          key_pair = cell;
          kernel =
              ((drop_local kp >> log (print already_initialized) >> drop_registration) m.kernel).1;
        },
      )

  -- `generate_key_pair().inspect_err(...)`
  unfoldable pub generate_logged : M W KeyPair
  unfolding generate_key_pair
  generate_logged =
      match_result (generate_key_pair K) pure
        λ error. log (print (init_failed error)) >> lift (err error)

  -- The part of `init` before `KEY_PAIR` is touched.
  unfoldable pub ready : M W KeyPair
  unfolding register_device generate_logged
  ready = do
    log (print loading)
    kp ← generate_logged
    on_error (register_device >> pure kp) (drop_local kp)

  unfoldable pub conclude : Outcome KeyPair → Module W → Outcome (Unit {0}) × Module W
  unfolding publish
  conclude (ok kp) m = publish kp m
  conclude (err e) m = (err e, m)
  conclude panic m = (panic, m)

  -- `TarakoModule::init`
  unfoldable pub module_init : Module W → Outcome (Unit {0}) × Module W
  unfolding conclude ready
  module_init m = let (r, s) = ready m.kernel in conclude r (record m { kernel = s })

  -- The key pair in the cell while `SetOnce::clear` drops it: where the exchange is made.
  unfoldable pub drop_stored : SetOnce KeyPair → M W (Unit {0})
  unfolding cmpxchg
  drop_stored c =
      if (cmpxchg 2 1 c).1
      then elim c.value [ some kp ↦ drop_local kp | none ↦ lift panic ]
      else pure tt

  -- `Drop for KeyCleanup`: the call of `SetOnce::clear`.
  unfoldable pub drop_key_cleanup : Module W → Module W
  unfolding drop_stored
  drop_key_cleanup m = record {
    key_pair = clear drop_key_pair m.key_pair;
    kernel = (drop_stored m.key_pair m.kernel).1;
  }

  -- Unloading: the fields of `TarakoModule` in order, `_miscdev` and then `_key_cleanup`.
  unfoldable pub module_drop : Module W → Module W
  unfolding drop_registration drop_key_cleanup
  module_drop m = drop_key_cleanup (record m { kernel = (drop_registration m.kernel).1 })

-- `Pin<KBox<TarakoDevice>>`: the address of the box. What it holds is the reference to the device,
-- and there is one device.
pub record TarakoDevice : Type 0 where
  pub box : ℕ

module _ {W : Type 0} (K : Kernel W) where
  -- `Drop for ARef<Device>`
  unfoldable pub drop_dev : M W (Unit {0})
  drop_dev = do kernel_effect K.put_device; log put_device

  -- `MiscDevice::open`: where there is no memory, the initialiser is dropped with its reference.
  unfoldable pub open_device : M W TarakoDevice
  unfolding drop_dev
  open_device = do
    kernel_effect K.get_device
    log get_device
    box ← kernel_call K.kbox_alloc
    elim box [
      | none ↦ drop_dev >> lift (err enomem)
      | some p ↦ log (alloc_box p) >> pure (record { box = p })
    ]

  -- The drop of the box, when the file is released: its content, and then its memory.
  unfoldable pub release_device : TarakoDevice → M W (Unit {0})
  unfolding drop_dev
  release_device me = do drop_dev; kernel_effect (K.kbox_free me.box); log (free_box me.box)
