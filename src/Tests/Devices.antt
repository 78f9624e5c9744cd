-- ===== src/Tests/Devices.antt =====
-- The theorems on the module as a whole, at concrete inputs.
use mathlib.Core.Path.{subst}
use tarako_module.Shared.{
  ℕ, ◌+◌, ◌≤◌, ◌≡◌, refl, true, ok, some, List, [], ◌∷◌, ◌++◌, length, replicate, arith, NoPanic,
  All-append, All-replicate,
}
use tarako_module.Bytes.{IsByte, be_value, be_value_from}
use tarako_module.Ffi.Ledger.{total}
use tarako_module.Vli.Value.{value}
use tarako_module.Ecc.Account.{allocated, freed, drawn, wiped}
use tarako_module.Ioctl.Types.{KeyPair}
use tarako_module.Ioctl.Keys.Compressed.{IsKeyPair}
use tarako_module.Ioctl.Handlers.Gate.{IsSound, Holds}
use tarako_module.Device.{Module, ioctl, module_init, module_drop, generate_logged}
use tarako_module.Device.Account.Life.{after_ioctls, module_drop-wipes}
use tarako_module.SetOnce.{populate}
use tarako_module.Ioctl.Keys.{generate_key_pair, assemble}
use tarako_module.Ecc.{
  x_as_bytes, y_as_bytes, get_curve_n, ima_measure_pubkey, generate_private_key, make_public_key,
}
use tarako_module.Device.Account.{
  registered, deregistered, key_left, device_left, module_init-wipes, module_init-registers,
}
use tarako_module.Device.Account.Commands.{ioctl-frees, ioctl-wipes}
use tarako_module.Device.Total.{ioctl-NoPanic}
use tarako_module.Tests.Limbs.{to_limbs, to_limbs-IsVli}
use tarako_module.Tests.Machine.{p256_order, p256_group, machine}
use tarako_module.Tests.Contracts.{
  machine_vli, machine_hash, machine_digest, machine_user, machine_keys, machine_order,
}
use tarako_module.Tests.Fixtures.{start_state, cell_of, empty_module, machine_ioctl}

-- The key pair of the private key 1.
abbrev pub one_x : List ℕ
one_x = replicate 31 0 ++ (1 ∷ [])

abbrev pub one_pair : KeyPair
one_pair = record {
  private = to_limbs 4 1;
  pubkey = 2 ∷ one_x;
  curve_n = to_limbs 4 p256_order;
  ima_measured = true;
}

pub one_pair-IsKeyPair : IsKeyPair machine p256_group machine_keys one_pair
unfolding be_value be_value_from to_limbs value
one_pair-IsKeyPair = record {
  private_ok = (to_limbs-IsVli 4 1, (1, refl));
  order_ok = machine_order;
  x = one_x;
  x_size = refl;
  x_bytes =
      All-append IsByte (replicate 31 0) (1 ∷ []) (All-replicate IsByte 31 0 (omega arith))
        (omega arith, tt);
  x_eq = refl;
  pubkey_eq = refl;
  world = 0;
  measured_eq = refl;
}

pub one_sound : IsSound (cell_of one_pair)
one_sound set uninit = absurd (ground arith)

pub one_keys :
    (kp : KeyPair) → Holds (cell_of one_pair) kp → IsKeyPair machine p256_group machine_keys kp
one_keys kp holds =
    let found : some one_pair ≡ some kp = holds.1 in
    let same : one_pair ≡ kp = cc in
    subst (λ k. IsKeyPair machine p256_group machine_keys k) same one_pair-IsKeyPair

ioctl-NoPanic_example : NoPanic (ioctl machine (cell_of one_pair) 0xC1015302 4096 start_state).0
ioctl-NoPanic_example =
    ioctl-NoPanic machine p256_group machine_vli machine_keys machine_hash machine_digest
      machine_user machine_ioctl (cell_of one_pair) one_sound one_keys 0xC1015302 4096 start_state

module_init-wipes_example :
    let x = module_init machine empty_module in
    total (drawn length) x.1.kernel.calls + total (wiped length) []
    ≤ total (wiped length) x.1.kernel.calls + total (drawn length) [] + key_left length x
module_init-wipes_example = module_init-wipes machine empty_module length

module_init-registers_example :
    let x = module_init machine empty_module in
    total registered x.1.kernel.calls + total deregistered []
    ≡ total deregistered x.1.kernel.calls + total registered [] + device_left x
module_init-registers_example = module_init-registers machine empty_module

ioctl-frees_example :
    let t = (ioctl machine (cell_of one_pair) 0xC1015302 4096 start_state).1 in
    total (allocated (λ a. a)) t.calls + total (freed (λ a. a)) []
    ≡ total (freed (λ a. a)) t.calls + total (allocated (λ a. a)) []
ioctl-frees_example = ioctl-frees machine (cell_of one_pair) 0xC1015302 4096 start_state (λ a. a)

ioctl-wipes_example :
    let t = (ioctl machine (cell_of one_pair) 0xC1015302 4096 start_state).1 in
    total (drawn length) t.calls + total (wiped length) []
    ≤ total (wiped length) t.calls + total (drawn length) []
ioctl-wipes_example = ioctl-wipes machine (cell_of one_pair) 0xC1015302 4096 start_state length

-- The module after it was loaded.
abbrev loaded_module : Module ℕ
loaded_module = (module_init machine empty_module).1

loads : module_init machine empty_module ≡ (ok tt, loaded_module)
unfolding module_init generate_logged generate_key_pair generate_private_key make_public_key
    x_as_bytes y_as_bytes assemble get_curve_n ima_measure_pubkey populate
loads = refl

-- A signature and a read of the public key.
abbrev two_ioctls : List (ℕ × ℕ)
two_ioctls = (0xC1015302, 4096) ∷ (0x80215301, 8192) ∷ []

module_drop-wipes_example :
    let u = module_drop machine (record loaded_module {
      kernel = after_ioctls machine loaded_module.key_pair two_ioctls loaded_module.kernel;
    }) in
    total (drawn length) u.kernel.calls + total (wiped length) []
    ≤ total (wiped length) u.kernel.calls + total (drawn length) []
module_drop-wipes_example =
    module_drop-wipes machine p256_group machine_keys empty_module loaded_module two_ioctls length
      loads
