-- ===== src/Ioctl/Handlers.antt =====
-- `handle_get_pubkey` and `handle_sign_data`. `cell` is the static `KEY_PAIR`, which the handlers
-- only read.
pub mod Wire
pub mod Binding
pub mod Gate
pub mod Answer
pub mod Signed
pub mod Writes
pub mod Account
pub mod Errors
use tarako_module.Shared.{
  ℕ, suc, ◌+◌, ◌*◌, ltb, if◌then◌else◌, not, none, some, inl, inr, List, [], ◌∷◌, ◌++◌, reverse,
  length, replicate, ℤ, pos, Outcome, ok, err, panic, einval, enxio, eperm, e2big, ok_or, slice_to,
  copy_from_slice,
}
use tarako_module.Bytes.{to_be_bytes}
use tarako_module.Ffi.{
  Kernel, M, pure, lift, ◌>>=◌, ◌>>◌, log, kernel_call, finally, copy_from_user, copy_to_user,
}
use tarako_module.Vli.{Vli, checked, drop_vli}
use tarako_module.Ecc.{p256_pubkey_bytes, sha256_hash}
use tarako_module.SetOnce.{SetOnce, as_ref}
use tarako_module.Ioctl.Types.{
  SignDataReq, KeyPair, user_data_bytes, fs_verity_max_digest_size, size_of_req,
  sign_data_req_bytes, sign_data_req_of_bytes,
}
use tarako_module.Ioctl.Sign.{sign}
use tarako_module.Ioctl.Digest.{digest, current_exe_fsverity_digest}

-- The buffer `to_sign` with the digest and the user data copied into it.
unfoldable pub message_buffer : List ℕ → List ℕ → ℕ → Outcome (List ℕ)
message_buffer digest_bytes user_data to_sign_len =
    elim (copy_from_slice (replicate (fs_verity_max_digest_size + user_data_bytes) 0) 0
      (length digest_bytes) digest_bytes) [
        | ok to_sign ↦ copy_from_slice to_sign (length digest_bytes) to_sign_len user_data
        | err e ↦ err e
        | panic ↦ panic
      ]

-- The loop that writes a scalar into `sig_r` or `sig_s`, at index `i`, over the limbs from the
-- highest down.
unfoldable pub write_limbs : ℕ → List ℕ → List ℕ → Outcome (List ℕ)
write_limbs i [] sig = ok sig
write_limbs i (limb ∷ limbs) sig =
    elim (copy_from_slice sig (i * 8) ((i + 1) * 8) (to_be_bytes limb)) [
      | ok sig' ↦ write_limbs (i + 1) limbs sig'
      | err e ↦ err e
      | panic ↦ panic
    ]

module _ {W : Type 0} (K : Kernel W) where
  unfoldable pub read_sign_data_req : ℕ → ℕ → M W SignDataReq
  read_sign_data_req arg buf_size = do
    r ← kernel_call (K.read_slice arg buf_size size_of_req)
    log (copy_from_user arg size_of_req)
    elim r [ inl e ↦ lift (err e) | inr bytes ↦ pure (sign_data_req_of_bytes bytes) ]

  -- `UserSlice::new(arg, buf_size).writer().write_slice(bytes)`
  unfoldable pub write_user : ℕ → ℕ → List ℕ → M W (Unit {0})
  write_user arg buf_size bytes = do
    r ← kernel_call (K.write_slice arg buf_size bytes)
    log (copy_to_user arg bytes)
    elim r [ some e ↦ lift (err e) | none ↦ pure tt ]

  unfoldable pub write_sign_data_req : ℕ → ℕ → SignDataReq → M W (Unit {0})
  unfolding write_user
  write_sign_data_req arg buf_size req = write_user arg buf_size (sign_data_req_bytes req)

  unfoldable pub handle_get_pubkey : SetOnce KeyPair → ℕ → ℕ → M W ℤ
  unfolding write_user
  handle_get_pubkey cell arg cmd = do
    found ← lift (as_ref cell)
    kp ← lift (ok_or found enxio)
    let buf_size = K.ioc_size cmd
    if ltb buf_size p256_pubkey_bytes
        then lift (err e2big)
        else do write_user arg buf_size kp.pubkey; pure (pos p256_pubkey_bytes)

  -- The part of `handle_sign_data` that owns the two scalars of the signature.
  unfoldable pub answer : ℕ → ℕ → List ℕ → SignDataReq → Vli → Vli → M W ℤ
  unfolding write_sign_data_req write_limbs
  answer arg buf_size pubkey req sig_r_limbs sig_s_limbs = do
    sig_r ← lift (write_limbs 0 (reverse sig_r_limbs) req.sig_r)
    sig_s ← lift (write_limbs 0 (reverse sig_s_limbs) req.sig_s)
    write_sign_data_req arg buf_size (record req { sig_r = sig_r; sig_s = sig_s; pubkey = pubkey })
    pure (pos 0)

  -- The part from the read of the request on.
  unfoldable pub sign_request : KeyPair → List ℕ → ℕ → ℕ → M W ℤ
  unfolding read_sign_data_req message_buffer answer
  sign_request kp digest_bytes arg buf_size = do
    req ← read_sign_data_req arg buf_size
    to_sign_len ← lift (ok_or (checked (length digest_bytes + user_data_bytes)) einval)
    to_sign ← lift (message_buffer digest_bytes req.user_data to_sign_len)
    message ← lift (slice_to to_sign_len to_sign)
    (sig_r_limbs, sig_s_limbs) ← sign K kp message
    finally
        (finally
          (answer arg buf_size kp.pubkey (record req { hash = sha256_hash K message }) sig_r_limbs
            sig_s_limbs)
          (drop_vli sig_s_limbs))
        (drop_vli sig_r_limbs)

  unfoldable pub handle_sign_data : SetOnce KeyPair → ℕ → ℕ → M W ℤ
  unfolding sign_request
  handle_sign_data cell arg cmd = do
    let buf_size = K.ioc_size cmd
    found ← lift (as_ref cell)
    kp ← lift (ok_or found enxio)
    if not kp.ima_measured then lift (err eperm) else do
      d ← current_exe_fsverity_digest K
      digest_bytes ← lift (digest d)
      sign_request kp digest_bytes arg buf_size
