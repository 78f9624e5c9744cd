-- ===== src/Ioctl/Handlers/Writes/Once.antt =====
-- The handlers copy to user space once.
use tarako_module.Shared.{
  ℕ, ◌+◌, refl, inl, inr, List, err, arith, Option-cases, ℤ, ok_or, not, einval, eperm, enxio,
  e2big, slice_to, pos, ltb, if◌then◌else◌, length, reverse,
}
use tarako_module.Ffi.{Kernel, State, M, pure, lift, ◌>>=◌, ◌>>◌, finally}
use tarako_module.Ffi.Ledger.{total}
use tarako_module.Vli.{Vli, drop_vli, checked}
use tarako_module.Ecc.{sha256_hash, p256_pubkey_bytes}
use tarako_module.SetOnce.{SetOnce, as_ref}
use tarako_module.Ioctl.Types.{KeyPair, SignDataReq, sign_data_req_bytes, user_data_bytes}
use tarako_module.Ioctl.Sign.{sign}
use tarako_module.Ioctl.Digest.{digest, current_exe_fsverity_digest, FsverityDigest}
use tarako_module.Ioctl.Handlers.{
  message_buffer, write_limbs, read_sign_data_req, write_user, write_sign_data_req, answer,
  sign_request, handle_sign_data, handle_get_pubkey,
}
use tarako_module.Ioctl.Handlers.Writes.{
  writes, WritesOnce, Once-bind, Once-finally, Once-lift, Once-then, Once-if,
}
use tarako_module.Ioctl.Handlers.Writes.Silent.{digest-Quiet, read_sign_data_req-Quiet, sign-Quiet}

module _ {W : Type 0} (K : Kernel W) where
  write_user-Once :
      (arg size : ℕ) (bytes : List ℕ) (s : State W) → WritesOnce K s (write_user K arg size bytes s)
  unfolding write_user writes total
  write_user-Once arg size bytes s = elim (Option-cases (K.write_slice arg size bytes s.world).0) [
    | inl e ↦ rw e (omega arith)
    | inr (x, e) ↦ rw e (inr (omega arith, (arg, size, bytes, s.world, e)))
  ]

  answer-Once :
      (arg size : ℕ) (pubkey : List ℕ) (req : SignDataReq) (r' s' : Vli) (s : State W)
      → WritesOnce K s (answer K arg size pubkey req r' s' s)
  unfolding answer write_sign_data_req
  answer-Once arg size pubkey req r' s' s =
      Once-lift K (write_limbs 0 (reverse r') req.sig_r)
        (λ sig_r. lift (write_limbs 0 (reverse s') req.sig_s) >>= last sig_r) s
        λ sig_r. Once-lift K (write_limbs 0 (reverse s') req.sig_s) (last sig_r) s λ sig_s.
          Once-then K (write_user K arg size (sign_data_req_bytes (filled sig_r sig_s))) (pos 0) s
            (write_user-Once arg size (sign_data_req_bytes (filled sig_r sig_s)) s)
    where
      filled : List ℕ → List ℕ → SignDataReq
      filled sig_r sig_s = record req { sig_r = sig_r; sig_s = sig_s; pubkey = pubkey }

      last : List ℕ → List ℕ → M W ℤ
      last sig_r sig_s =
          write_user K arg size (sign_data_req_bytes (filled sig_r sig_s)) >> pure (pos 0)

  -- The scope of the two scalars of the signature.
  signed-Once :
      (arg size : ℕ) (pubkey : List ℕ) (req : SignDataReq) (r' s' : Vli) (s : State W)
      → WritesOnce K s
          (finally (finally (answer K arg size pubkey req r' s') (drop_vli s')) (drop_vli r') s)
  signed-Once arg size pubkey req r' s' s =
      Once-finally K (finally (answer K arg size pubkey req r' s') (drop_vli s')) r' s (
        Once-finally K (answer K arg size pubkey req r' s') s' s
          (answer-Once arg size pubkey req r' s' s))

  sign_request-Once :
      (kp : KeyPair) (d : List ℕ) (arg size : ℕ) (s : State W)
      → WritesOnce K s (sign_request K kp d arg size s)
  unfolding sign_request
  sign_request-Once kp d arg size s =
      Once-bind K (read_sign_data_req K arg size) after_read s
        (read_sign_data_req-Quiet K arg size s)
        λ req t.
          Once-lift K (ok_or (checked (length d + user_data_bytes)) einval) (with_len req) t λ n.
            Once-lift K (message_buffer d req.user_data n) (with_buffer req n) t λ to_sign.
              Once-lift K (slice_to n to_sign) (with_message req) t λ message.
                Once-bind K (sign K kp message) (with_signature req message) t
                  (sign-Quiet K kp message t)
                  λ rs.
                    signed-Once arg size kp.pubkey (record req { hash = sha256_hash K message })
                      rs.0 rs.1
    where
      with_signature : SignDataReq → List ℕ → Vli × Vli → M W ℤ
      with_signature req message rs =
          finally
            (finally
              (answer K arg size kp.pubkey (record req { hash = sha256_hash K message }) rs.0 rs.1)
              (drop_vli rs.1))
            (drop_vli rs.0)

      with_message : SignDataReq → List ℕ → M W ℤ
      with_message req message = sign K kp message >>= with_signature req message

      with_buffer : SignDataReq → ℕ → List ℕ → M W ℤ
      with_buffer req n to_sign = lift (slice_to n to_sign) >>= with_message req

      with_len : SignDataReq → ℕ → M W ℤ
      with_len req n = lift (message_buffer d req.user_data n) >>= with_buffer req n

      after_read : SignDataReq → M W ℤ
      after_read req = lift (ok_or (checked (length d + user_data_bytes)) einval) >>= with_len req

  -- `handle_sign_data` copies to user space once where it succeeds, in every state and whatever is
  -- in the cell. Where it fails it has copied nothing, or the one copy was made and the error is the
  -- one that the copy gave: no other failure lets a part of an answer out.
  pub handle_sign_data-WritesOnce :
      (cell : SetOnce KeyPair) (arg cmd : ℕ) (s : State W)
      → WritesOnce K s (handle_sign_data K cell arg cmd s)
  unfolding handle_sign_data
  handle_sign_data-WritesOnce cell arg cmd s =
      Once-lift K (as_ref cell) (λ found. lift (ok_or found enxio) >>= with_pair) s
        λ found. Once-lift K (ok_or found enxio) with_pair s gated
    where
      size : ℕ
      size = K.ioc_size cmd

      with_digest : KeyPair → FsverityDigest → M W ℤ
      with_digest kp d = lift (digest d) >>= λ digest_bytes. sign_request K kp digest_bytes arg size

      with_pair : KeyPair → M W ℤ
      with_pair kp =
          if not kp.ima_measured
          then lift (err eperm)
          else current_exe_fsverity_digest K >>= with_digest kp

      gated : (kp : KeyPair) → WritesOnce K s (with_pair kp s)
      gated kp =
          Once-if K (not kp.ima_measured) (lift (err eperm))
            (current_exe_fsverity_digest K >>= with_digest kp) s (inl refl)
            (Once-bind K (current_exe_fsverity_digest K) (with_digest kp) s (digest-Quiet K s)
              λ d t.
                Once-lift K (digest d) (λ bytes. sign_request K kp bytes arg size) t
                  (λ bytes. sign_request-Once kp bytes arg size t))

  -- `handle_get_pubkey` likewise: one copy where it succeeds, and where it fails none, or one that
  -- failed with that error.
  pub handle_get_pubkey-WritesOnce :
      (cell : SetOnce KeyPair) (arg cmd : ℕ) (s : State W)
      → WritesOnce K s (handle_get_pubkey K cell arg cmd s)
  unfolding handle_get_pubkey
  handle_get_pubkey-WritesOnce cell arg cmd s =
      Once-lift K (as_ref cell) (λ found. lift (ok_or found enxio) >>= with_pair) s
        λ found. Once-lift K (ok_or found enxio) with_pair s λ kp.
          Once-if K (ltb size p256_pubkey_bytes) (lift (err e2big))
            (write_user K arg size kp.pubkey >> pure (pos p256_pubkey_bytes)) s (inl refl)
            (Once-then K (write_user K arg size kp.pubkey) (pos p256_pubkey_bytes) s
              (write_user-Once arg size kp.pubkey s))
    where
      size : ℕ
      size = K.ioc_size cmd

      with_pair : KeyPair → M W ℤ
      with_pair kp =
          if ltb size p256_pubkey_bytes
          then lift (err e2big)
          else (write_user K arg size kp.pubkey >> pure (pos p256_pubkey_bytes))
