-- ===== src/Tests/Signing.antt =====
-- The theorems on signing, keys and the handlers, at concrete inputs.
use tarako_module.Shared.{
  ◌+◌, ◌≤◌, ◌≡◌, ◌≢◌, refl, ◌⊎◌, true, false, [], ◌∷◌, length, err, NoPanic, eperm, enxio, e2big,
  ◌<◌, arith,
}
use tarako_module.Ffi.Returns.{Returns}
use tarako_module.Ffi.Ledger.{total}
use tarako_module.Vli.Value.{IsVli}
use tarako_module.Ecc.{p256_pubkey_bytes, sha256_hash}
use tarako_module.Ecc.Account.{allocated, freed, drawn, wiped}
use tarako_module.Ioctl.Types.{KeyPair}
use tarako_module.Ioctl.Sign.{ecdsa_sign}
use tarako_module.Ioctl.Sign.Account.{ecdsa_sign-frees, ecdsa_sign-wipes}
use tarako_module.Ioctl.Sign.Round.{Signs}
use tarako_module.Ioctl.Sign.Correct.{ecdsa_sign-IsSignature}
use tarako_module.Ioctl.Sign.Rounds.{Ends, ecdsa_sign-Ends}
use tarako_module.Ioctl.Keys.{generate_key_pair}
use tarako_module.Ioctl.Keys.Compressed.{IsKeyPair, generate_key_pair-IsKeyPair}
use tarako_module.Ioctl.Digest.{current_exe_fsverity_digest}
use tarako_module.Ioctl.Digest.Caller.{IsDigestAt, current_exe_fsverity_digest_lem}
use tarako_module.Ioctl.Digest.Guard.{IsGuarded, guards, current_exe_fsverity_digest-IsGuarded}
use tarako_module.Ioctl.Handlers.{handle_sign_data, handle_get_pubkey}
use tarako_module.Ioctl.Handlers.Signed.{DeliversFor, handle_sign_data-IsEvidence}
use tarako_module.Ioctl.Handlers.Gate.{
  IsSound, Holds, length_or, offered, handle_sign_data-refuses, handle_get_pubkey_lem,
}
use tarako_module.Tests.Limbs.{to_limbs, to_limbs-IsVli}
use tarako_module.Tests.Machine.{p256_order, p256_group, machine}
use tarako_module.Tests.Contracts.{
  machine_vli, machine_hash, machine_digest, machine_user, machine_keys, machine_order,
}
use tarako_module.Tests.Fixtures.{start_state, test_pair, unmeasured_pair, cell_of}

private_IsVli : IsVli 4 (to_limbs 4 1)
private_IsVli = to_limbs-IsVli 4 1

test_sound : IsSound (cell_of test_pair)
test_sound set uninit = absurd (ground arith)

unmeasured_sound : IsSound (cell_of unmeasured_pair)
unmeasured_sound set uninit = absurd (ground arith)

nothing-IsGuarded : IsGuarded []
unfolding IsGuarded
nothing-IsGuarded = tt

handle_sign_data-IsEvidence_example :
    Returns
      (DeliversFor machine p256_group machine_vli machine_keys machine_hash machine_digest
        machine_user test_pair machine_order private_IsVli start_state 4096 0xC1015302)
      (handle_sign_data machine (cell_of test_pair) 4096 0xC1015302 start_state)
handle_sign_data-IsEvidence_example =
    handle_sign_data-IsEvidence machine p256_group machine_vli machine_keys machine_hash
      machine_digest machine_user test_pair machine_order private_IsVli (cell_of test_pair) 4096
      0xC1015302 start_state refl refl refl

ecdsa_sign-IsSignature_example :
    Returns
      (λ rs _.
        Signs machine p256_group machine_vli machine_keys
          (to_limbs 4 p256_order)
          (to_limbs 4 1)
          machine_order
          private_IsVli
          (machine.sha256 (1 ∷ 2 ∷ []) 2)
          rs)
      (ecdsa_sign machine (1 ∷ 2 ∷ []) (to_limbs 4 1) (to_limbs 4 p256_order) start_state)
ecdsa_sign-IsSignature_example =
    ecdsa_sign-IsSignature machine p256_group machine_vli machine_keys (to_limbs 4 p256_order)
      (to_limbs 4 1) machine_order private_IsVli machine_hash (1 ∷ 2 ∷ []) start_state

handle_sign_data-refuses_example :
    ((kp : KeyPair) × Holds (cell_of unmeasured_pair) kp × (kp.ima_measured ≡ true))
    ⊎ ((kp : KeyPair) × Holds (cell_of unmeasured_pair) kp
        × (kp.ima_measured ≡ false)
        × (handle_sign_data machine (cell_of unmeasured_pair) 4096 0xC1015302 start_state
            ≡ (err eperm, start_state)))
    ⊎ (((cell_of unmeasured_pair).init ≢ 2)
        × (handle_sign_data machine (cell_of unmeasured_pair) 4096 0xC1015302 start_state
            ≡ (err enxio, start_state)))
handle_sign_data-refuses_example =
    handle_sign_data-refuses machine (cell_of unmeasured_pair) unmeasured_sound 4096 0xC1015302
      start_state

handle_get_pubkey_lem_example :
    ((kp : KeyPair) × Holds (cell_of test_pair) kp
      × (p256_pubkey_bytes ≤ machine.ioc_size 0x80215301)
      × (handle_get_pubkey machine (cell_of test_pair) 4096 0x80215301 start_state ≡ (
        length_or machine
            (cell_of test_pair)
            test_sound
            4096
            0x80215301
            start_state
            (machine.write_slice 4096 (machine.ioc_size 0x80215301) kp.pubkey 0).0,
        offered machine (cell_of test_pair) test_sound 4096 0x80215301 start_state kp.pubkey,
      )))
    ⊎ ((machine.ioc_size 0x80215301 < p256_pubkey_bytes)
        × (handle_get_pubkey machine (cell_of test_pair) 4096 0x80215301 start_state
            ≡ (err e2big, start_state)))
    ⊎ (((cell_of test_pair).init ≢ 2)
        × (handle_get_pubkey machine (cell_of test_pair) 4096 0x80215301 start_state
            ≡ (err enxio, start_state)))
handle_get_pubkey_lem_example =
    handle_get_pubkey_lem machine (cell_of test_pair) test_sound 4096 0x80215301 start_state

generate_key_pair-IsKeyPair_example :
    Returns
      (λ kp _. IsKeyPair machine p256_group machine_keys kp)
      (generate_key_pair machine start_state)
generate_key_pair-IsKeyPair_example =
    generate_key_pair-IsKeyPair machine p256_group machine_keys start_state

ecdsa_sign-wipes_example :
    let t = (ecdsa_sign machine (1 ∷ []) (to_limbs 4 1) (to_limbs 4 p256_order) start_state).1 in
    total (drawn length) t.calls + total (wiped length) []
    ≤ total (wiped length) t.calls + total (drawn length) []
ecdsa_sign-wipes_example =
    ecdsa_sign-wipes machine (1 ∷ []) (to_limbs 4 1) (to_limbs 4 p256_order) start_state length

ecdsa_sign-frees_example :
    let (r, t) = ecdsa_sign machine (1 ∷ []) (to_limbs 4 1) (to_limbs 4 p256_order) start_state in
    NoPanic r
    × (total (allocated (λ a. a)) t.calls + total (freed (λ a. a)) []
        ≡ total (freed (λ a. a)) t.calls + total (allocated (λ a. a)) [])
ecdsa_sign-frees_example =
    ecdsa_sign-frees machine (1 ∷ []) (to_limbs 4 1) (to_limbs 4 p256_order) start_state (λ a. a)

ecdsa_sign-Ends_example :
    Ends machine
      (sha256_hash machine (1 ∷ []))
      (to_limbs 4 1)
      (to_limbs 4 p256_order)
      100
      start_state
      (ecdsa_sign machine (1 ∷ []) (to_limbs 4 1) (to_limbs 4 p256_order) start_state)
ecdsa_sign-Ends_example =
    ecdsa_sign-Ends machine (sha256_hash machine (1 ∷ [])) (to_limbs 4 1) (to_limbs 4 p256_order)
      (1 ∷ []) start_state refl

current_exe_fsverity_digest-IsGuarded_example :
    let (r, t) = current_exe_fsverity_digest machine start_state in
    NoPanic r × IsGuarded t.calls × (guards t.calls ≡ guards start_state.calls)
current_exe_fsverity_digest-IsGuarded_example =
    current_exe_fsverity_digest-IsGuarded machine start_state nothing-IsGuarded

current_exe_fsverity_digest_lem_example :
    Returns
      (λ d _. IsDigestAt machine machine_digest 0 d)
      (current_exe_fsverity_digest machine start_state)
current_exe_fsverity_digest_lem_example =
    current_exe_fsverity_digest_lem machine machine_digest start_state
