-- ===== src/Ioctl/Handlers/Answer/Steps.antt =====
-- The steps of `sign_request` from the read of the request on.
use tarako_module.Shared.{
  ◌^◌, ℕ, ◌+◌, ◌≤◌, ◌≡◌, true, List, ◌++◌, length, ltb, arith, ok, ℤ, slice_to, ok_or, einval,
}
use tarako_module.Ffi.{Kernel, State, ◌>>=◌, M, lift, finally}
use tarako_module.Vli.{checked, drop_vli}
use tarako_module.Ecc.{sha256_hash}
use tarako_module.Ioctl.Types.{SignDataReq, KeyPair, user_data_bytes}
use tarako_module.Ioctl.Sign.{sign}
use tarako_module.Ioctl.Handlers.{message_buffer, answer}

module _ {W : Type 0} (K : Kernel W) (kp : KeyPair) where
  -- From the signature on.
  abbrev pub signing : ℕ → ℕ → SignDataReq → List ℕ → M W ℤ
  signing arg size req message = sign K kp message >>= λ (sig_r_limbs, sig_s_limbs).
      finally
        (finally
          (answer K arg size kp.pubkey (record req { hash = sha256_hash K message }) sig_r_limbs
            sig_s_limbs)
          (drop_vli sig_s_limbs))
        (drop_vli sig_r_limbs)

  -- The steps between the read of the request and the signature.
  abbrev pub rest_of : List ℕ → ℕ → ℕ → SignDataReq → M W ℤ
  rest_of digest_bytes arg size req = do
    to_sign_len ← lift (ok_or (checked (length digest_bytes + user_data_bytes)) einval)
    to_sign ← lift (message_buffer digest_bytes req.user_data to_sign_len)
    message ← lift (slice_to to_sign_len to_sign)
    signing arg size req message

  pub rest-eq :
      (digest_bytes : List ℕ) (arg size : ℕ) (req : SignDataReq) (buffer : List ℕ) (st : State W)
      → length digest_bytes ≤ 64
      → message_buffer digest_bytes req.user_data (length digest_bytes + user_data_bytes)
        ≡ ok buffer
      → slice_to (length digest_bytes + user_data_bytes) buffer ≡ ok (digest_bytes ++ req.user_data)
      → rest_of digest_bytes arg size req st
        ≡ signing arg size req (digest_bytes ++ req.user_data) st
  rest-eq digest_bytes arg size req buffer st hd e f =
      let fits : ltb (length digest_bytes + user_data_bytes) (2 ^ 64) ≡ true = ground arith in
      rw (fits, e, f)
