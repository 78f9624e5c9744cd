-- ===== src/Ioctl/Handlers/Account/Handled.antt =====
-- What `handle_sign_data` and `handle_get_pubkey` take and give back.
use tarako_module.Shared.{
  ℕ, ◌+◌, Bool, not, List, length, reverse, ltb, err, ok_or, einval, eperm, enxio, e2big, slice_to,
  ℤ, pos, if◌then◌else◌,
}
use tarako_module.Ffi.{Call, Kernel, M, pure, lift, ◌>>=◌, ◌>>◌, finally}
use tarako_module.Ffi.Keeps.{Keeps-bind, Keeps-finally, Keeps-lift, Keeps-if}
use tarako_module.Vli.{Vli, drop_vli, checked}
use tarako_module.Ecc.{sha256_hash, p256_pubkey_bytes}
use tarako_module.Ecc.Account.{Accounts}
use tarako_module.SetOnce.{SetOnce, as_ref}
use tarako_module.Ioctl.Types.{KeyPair, SignDataReq, user_data_bytes, sign_data_req_bytes}
use tarako_module.Ioctl.Sign.{sign}
use tarako_module.Ioctl.Digest.{FsverityDigest, digest, current_exe_fsverity_digest}
use tarako_module.Ioctl.Handlers.{
  message_buffer, write_limbs, read_sign_data_req, write_user, write_sign_data_req, answer,
  sign_request, handle_sign_data, handle_get_pubkey,
}
use tarako_module.Ioctl.Handlers.Account.{
  Calm, settled, Even, then-Even, lifted-Even, drop_vli-Even, sign-Even,
}
use tarako_module.Ioctl.Handlers.Account.Parts.{
  digest-Even, read_sign_data_req-Even, write_user-Even,
}

module _ {W : Type 0} (K : Kernel W) (exact : Bool) (out back : Call → ℕ)
    (acc : Accounts K exact out back) (calm : Calm out back) where
  pub answer-Even :
      (arg size : ℕ) (pubkey : List ℕ) (req : SignDataReq) (r' s' : Vli)
      → Even exact out back (answer K arg size pubkey req r' s')
  unfolding answer write_sign_data_req
  answer-Even arg size pubkey req r' s' =
      lifted-Even exact out back (write_limbs 0 (reverse r') req.sig_r)
        (λ sig_r. lift (write_limbs 0 (reverse s') req.sig_s) >>= last sig_r)
        λ sig_r.
          lifted-Even exact out back (write_limbs 0 (reverse s') req.sig_s) (last sig_r) λ sig_s.
            then-Even exact out back
              (write_user K arg size (sign_data_req_bytes (filled sig_r sig_s))) (pos 0)
              (write_user-Even K exact out back calm arg size
                (sign_data_req_bytes (filled sig_r sig_s)))
    where
      filled : List ℕ → List ℕ → SignDataReq
      filled sig_r sig_s = record req { sig_r = sig_r; sig_s = sig_s; pubkey = pubkey }

      last : List ℕ → List ℕ → M W ℤ
      last sig_r sig_s =
          write_user K arg size (sign_data_req_bytes (filled sig_r sig_s)) >> pure (pos 0)

  pub sign_request-Even :
      (kp : KeyPair) (d : List ℕ) (arg size : ℕ)
      → Even exact out back (sign_request K kp d arg size)
  unfolding sign_request
  sign_request-Even kp d arg size =
      Keeps-bind (settled exact out back) (read_sign_data_req K arg size) after_read
        (read_sign_data_req-Even K exact out back calm arg size)
        λ req.
          lifted-Even exact out back (ok_or (checked (length d + user_data_bytes)) einval)
            (with_len req)
            λ n.
              lifted-Even exact out back (message_buffer d req.user_data n) (with_buffer req n)
                λ to_sign.
                  lifted-Even exact out back (slice_to n to_sign) (with_message req) λ message.
                    Keeps-bind (settled exact out back) (sign K kp message)
                      (with_signature req message) (sign-Even K exact out back acc kp message)
                      λ rs. signed (record req { hash = sha256_hash K message }) rs.0 rs.1
    where
      signed :
          (req : SignDataReq) (r' s' : Vli)
          → Even exact out back (
              finally (finally (answer K arg size kp.pubkey req r' s') (drop_vli s')) (drop_vli r'))
      signed req r' s' =
          Keeps-finally (settled exact out back)
            (finally (answer K arg size kp.pubkey req r' s') (drop_vli s')) (drop_vli r')
            (Keeps-finally (settled exact out back) (answer K arg size kp.pubkey req r' s')
              (drop_vli s') (answer-Even arg size kp.pubkey req r' s')
              (drop_vli-Even K exact out back acc s'))
            (drop_vli-Even K exact out back acc r')

      with_signature : SignDataReq → List ℕ → Vli × Vli → M W ℤ
      with_signature req message rs =
          finally
            (finally
              (answer K arg size kp.pubkey (record req { hash = sha256_hash K message }) rs.0 rs.1)
              (drop_vli rs.1))
            (drop_vli rs.0)

      with_message : SignDataReq → List ℕ → M W ℤ
      with_message req message = sign K kp message >>= with_signature req message

      with_buffer : SignDataReq → ℕ → List ℕ → M W ℤ
      with_buffer req n to_sign = lift (slice_to n to_sign) >>= with_message req

      with_len : SignDataReq → ℕ → M W ℤ
      with_len req n = lift (message_buffer d req.user_data n) >>= with_buffer req n

      after_read : SignDataReq → M W ℤ
      after_read req = lift (ok_or (checked (length d + user_data_bytes)) einval) >>= with_len req

  pub handle_sign_data-Even :
      (cell : SetOnce KeyPair) (arg cmd : ℕ) → Even exact out back (handle_sign_data K cell arg cmd)
  unfolding handle_sign_data
  handle_sign_data-Even cell arg cmd =
      lifted-Even exact out back (as_ref cell) (λ found. lift (ok_or found enxio) >>= with_pair)
        λ found. lifted-Even exact out back (ok_or found enxio) with_pair λ kp.
          Keeps-if (settled exact out back) (not kp.ima_measured) (lift (err eperm))
            (current_exe_fsverity_digest K >>= with_digest kp)
            (Keeps-lift (settled exact out back) (err eperm))
            (Keeps-bind (settled exact out back) (current_exe_fsverity_digest K) (with_digest kp)
              (digest-Even K exact out back calm)
              λ d.
                lifted-Even exact out back (digest d) (λ bytes. sign_request K kp bytes arg size)
                  (λ bytes. sign_request-Even kp bytes arg size))
    where
      size : ℕ
      size = K.ioc_size cmd

      with_digest : KeyPair → FsverityDigest → M W ℤ
      with_digest kp d = lift (digest d) >>= λ digest_bytes. sign_request K kp digest_bytes arg size

      with_pair : KeyPair → M W ℤ
      with_pair kp =
          if not kp.ima_measured
          then lift (err eperm)
          else current_exe_fsverity_digest K >>= with_digest kp

  pub handle_get_pubkey-Even :
      (cell : SetOnce KeyPair) (arg cmd : ℕ)
      → Even exact out back (handle_get_pubkey K cell arg cmd)
  unfolding handle_get_pubkey
  handle_get_pubkey-Even cell arg cmd =
      lifted-Even exact out back (as_ref cell) (λ found. lift (ok_or found enxio) >>= with_pair)
        λ found. lifted-Even exact out back (ok_or found enxio) with_pair λ kp.
          Keeps-if (settled exact out back) (ltb size p256_pubkey_bytes) (lift (err e2big))
            (write_user K arg size kp.pubkey >> pure (pos p256_pubkey_bytes))
            (Keeps-lift (settled exact out back) (err e2big))
            (then-Even exact out back (write_user K arg size kp.pubkey) (pos p256_pubkey_bytes)
              (write_user-Even K exact out back calm arg size kp.pubkey))
    where
      size : ℕ
      size = K.ioc_size cmd

      with_pair : KeyPair → M W ℤ
      with_pair kp =
          if ltb size p256_pubkey_bytes
          then lift (err e2big)
          else (write_user K arg size kp.pubkey >> pure (pos p256_pubkey_bytes))
