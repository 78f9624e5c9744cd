-- ===== src/Tests/Refusals.antt =====
-- The theorems on errors and on what is written, at concrete inputs.
use tarako_module.Shared.{ℕ, ◌≡◌, ◌∷◌, [], arith, none, some}
use tarako_module.Ffi.{Kernel}
use mathlib.Core.Path.{subst}
use tarako_module.Contract.{VliContract, HashContract, DigestContract, UserContract, KeyContract}
use tarako_module.Ioctl.Types.{KeyPair}
use tarako_module.Ioctl.Keys.Compressed.{IsKeyPair}
use tarako_module.Tests.Devices.{one_pair, one_pair-IsKeyPair, one_sound}
use tarako_module.Ffi.Errors.{ErrsBy}
use tarako_module.Ioctl.Sign.{ecdsa_sign}
use tarako_module.Ioctl.Sign.Errors.{SignEnds, ecdsa_sign-SignEnds}
use tarako_module.Ioctl.Digest.{current_exe_fsverity_digest}
use tarako_module.Ioctl.Digest.Refused.{NoDigest, current_exe_fsverity_digest_errs}
use tarako_module.Ioctl.Handlers.{handle_sign_data}
use tarako_module.Ioctl.Handlers.Gate.{Holds}
use tarako_module.Ioctl.Handlers.Writes.{WritesOnce}
use tarako_module.Ioctl.Handlers.Writes.Once.{handle_sign_data-WritesOnce}
use tarako_module.Ioctl.Handlers.Errors.Signing.{NotSigned, handle_sign_data-NotSigned}
use tarako_module.Tests.Limbs.{to_limbs, to_limbs-IsVli}
use tarako_module.Tests.Machine.{machine, p256_order, p256_group}
use tarako_module.Tests.Contracts.{
  machine_vli, machine_hash, machine_digest, machine_user, machine_keys, machine_order,
}
use tarako_module.Tests.Fixtures.{start_state, test_pair, cell_of}

handle_sign_data-WritesOnce_example :
    WritesOnce machine start_state
      (handle_sign_data machine (cell_of test_pair) 4096 0xC1015302 start_state)
handle_sign_data-WritesOnce_example =
    handle_sign_data-WritesOnce machine (cell_of test_pair) 4096 0xC1015302 start_state

-- A kernel without memory for points, whose current task has no memory map.
abbrev poor_machine : Kernel ℕ
poor_machine = record machine { ecc_alloc_point = λ n w. (none, w); current_mm = λ w. none }

poor_vli : VliContract poor_machine 4
poor_vli = record {
  is_zero_law = machine_vli.is_zero_law;
  cmp_law = machine_vli.cmp_law;
  sub_law = machine_vli.sub_law;
  mod_mult_law = machine_vli.mod_mult_law;
  mod_inv_law = machine_vli.mod_inv_law;
  digits_law = machine_vli.digits_law;
}

poor_hash : HashContract poor_machine
poor_hash = record { sha256_law = machine_hash.sha256_law }

poor_digest : DigestContract poor_machine
poor_digest = record { buffer_law = machine_digest.buffer_law }

poor_user : UserContract poor_machine
poor_user = record { read_law = machine_user.read_law }

poor_keys : KeyContract poor_machine p256_group
poor_keys = record {
  alloc_law = λ w p e. absurd (ground arith);
  privkey_law = machine_keys.privkey_law;
  pubkey_law = machine_keys.pubkey_law;
  curve_law = machine_keys.curve_law;
}

poor_pair : IsKeyPair poor_machine p256_group poor_keys one_pair
poor_pair = record {
  private_ok = one_pair-IsKeyPair.private_ok;
  order_ok = one_pair-IsKeyPair.order_ok;
  x = one_pair-IsKeyPair.x;
  x_size = one_pair-IsKeyPair.x_size;
  x_bytes = one_pair-IsKeyPair.x_bytes;
  x_eq = one_pair-IsKeyPair.x_eq;
  pubkey_eq = one_pair-IsKeyPair.pubkey_eq;
  world = one_pair-IsKeyPair.world;
  measured_eq = one_pair-IsKeyPair.measured_eq;
}

poor_pairs :
    (kp : KeyPair) → Holds (cell_of one_pair) kp → IsKeyPair poor_machine p256_group poor_keys kp
poor_pairs kp holds =
    let found : some one_pair ≡ some kp = holds.1 in
    let same : one_pair ≡ kp = cc in
    subst (λ k. IsKeyPair poor_machine p256_group poor_keys k) same poor_pair

handle_sign_data-NotSigned_example :
    ErrsBy
      (NotSigned poor_machine p256_group poor_vli poor_keys poor_hash poor_digest poor_user
        (cell_of one_pair)
        one_sound
        poor_pairs
        4096
        0xC1015302
        start_state)
      (handle_sign_data poor_machine (cell_of one_pair) 4096 0xC1015302 start_state)
handle_sign_data-NotSigned_example =
    handle_sign_data-NotSigned poor_machine p256_group poor_vli poor_keys poor_hash poor_digest
      poor_user (cell_of one_pair) one_sound poor_pairs 4096 0xC1015302 start_state

ecdsa_sign-SignEnds_example :
    SignEnds poor_machine p256_group poor_vli poor_keys
      (to_limbs 4 p256_order)
      (to_limbs 4 1)
      machine_order
      (to_limbs-IsVli 4 1)
      poor_hash
      (1 ∷ 2 ∷ [])
      start_state
      (ecdsa_sign poor_machine (1 ∷ 2 ∷ []) (to_limbs 4 1) (to_limbs 4 p256_order) start_state)
ecdsa_sign-SignEnds_example =
    ecdsa_sign-SignEnds poor_machine p256_group poor_vli poor_keys (to_limbs 4 p256_order)
      (to_limbs 4 1) machine_order (to_limbs-IsVli 4 1) poor_hash (1 ∷ 2 ∷ []) start_state

current_exe_fsverity_digest_errs_example :
    ErrsBy (NoDigest poor_machine 0) (current_exe_fsverity_digest poor_machine start_state)
current_exe_fsverity_digest_errs_example = current_exe_fsverity_digest_errs poor_machine start_state
