-- ===== src/Tests/Runs.antt =====
-- Runs of the module on the concrete kernel.
use tarako_module.Shared.{◌≡◌, refl, [], ◌∷◌, ok, err, pos, ebusy, copy_from_slice, slice_to}
use tarako_module.Ioctl.Handlers.{
  handle_sign_data, answer, message_buffer, read_sign_data_req, sign_request, write_limbs,
  write_sign_data_req, write_user,
}
use tarako_module.Device.{module_init, generate_logged}
use tarako_module.Tests.Machine.{machine, public_key}
use tarako_module.Tests.Limbs.{to_limbs, swapped, find_inv}
use tarako_module.Tests.Fixtures.{start_state, test_pair, cell_of, empty_module, full_module}
use tarako_module.SetOnce.{as_ref, deref, populate}
use tarako_module.Bytes.{
  le_bytes, le_value, to_be_bytes, from_be, be_value, be_value_from, bytes_of,
}
use tarako_module.Ioctl.Digest.{current_exe_fsverity_digest, digest, check_digest, read_digest}
use tarako_module.Ioctl.Types.{sign_data_req_of_bytes, sign_data_req_bytes}
use tarako_module.Ioctl.Sign.{sign, add_mod, attempt, ecdsa_sign, finish, reduce, rounds, sub}
use tarako_module.Ioctl.Keys.{generate_key_pair, assemble}
use tarako_module.Ecc.{
  x_as_bytes, y_as_bytes, get_curve_n, ima_measure_pubkey, generate_private_key, make_public_key,
  x_scalar, drop_point, fill_point, sha256_hash,
}
use tarako_module.Vli.{
  ge, unswap, add_limb, carrying_add, cmp_ffi, cmp, partial_cmp, from_be_bytes, is_zero, mod_inv,
  mod_mult, sub_with_borrow, unswap_from, vli_cmp_to_ordering, zero_vli,
}
use tarako_module.Vli.Value.{value}
use tarako_module.Vli.Add.{base_pow}

-- One whole ioctl: the caller's digest, the request, a signature in its first round, the answer.
sign_data_runs :
    (handle_sign_data machine (cell_of test_pair) 4096 0xC1015302 start_state).0 ≡ ok (pos 0)
unfolding answer message_buffer read_sign_data_req sign_request write_limbs write_sign_data_req
    write_user public_key to_limbs swapped as_ref deref le_bytes le_value to_be_bytes from_be
    be_value be_value_from bytes_of current_exe_fsverity_digest digest check_digest read_digest
    sign_data_req_of_bytes sign_data_req_bytes sign add_mod attempt ecdsa_sign finish reduce rounds
    sub generate_private_key make_public_key x_scalar drop_point fill_point sha256_hash ge unswap
    add_limb carrying_add cmp_ffi cmp partial_cmp from_be_bytes is_zero mod_inv mod_mult
    sub_with_borrow unswap_from vli_cmp_to_ordering zero_vli value handle_sign_data base_pow
    find_inv copy_from_slice slice_to
sign_data_runs = refl

-- The signature of the empty message, with the private key 1 and the nonce 1.
ecdsa_sign_runs :
    (ecdsa_sign machine [] (to_limbs 4 1) test_pair.curve_n start_state).0
    ≡ ok (
      to_limbs 4 1,
      72340172838076674 ∷ 72340172838076673 ∷ 72340172838076673 ∷ 72340172838076673 ∷ [],
    )
unfolding answer message_buffer read_sign_data_req sign_request write_limbs write_sign_data_req
    write_user public_key to_limbs swapped as_ref deref le_bytes le_value to_be_bytes from_be
    be_value be_value_from bytes_of current_exe_fsverity_digest digest check_digest read_digest
    sign_data_req_of_bytes sign_data_req_bytes sign add_mod attempt ecdsa_sign finish reduce rounds
    sub generate_private_key make_public_key x_scalar drop_point fill_point sha256_hash ge unswap
    add_limb carrying_add cmp_ffi cmp partial_cmp from_be_bytes is_zero mod_inv mod_mult
    sub_with_borrow unswap_from vli_cmp_to_ordering zero_vli value handle_sign_data base_pow
    find_inv copy_from_slice slice_to
ecdsa_sign_runs = refl

-- Loading the module, and loading it again, which finds the cell set.
init_runs : (module_init machine empty_module).0 ≡ ok tt
unfolding module_init generate_logged generate_key_pair generate_private_key make_public_key
    x_as_bytes y_as_bytes assemble get_curve_n ima_measure_pubkey populate
init_runs = refl

init_again : (module_init machine full_module).0 ≡ err ebusy
unfolding module_init generate_logged generate_key_pair generate_private_key make_public_key
    x_as_bytes y_as_bytes assemble get_curve_n ima_measure_pubkey populate
init_again = refl
