-- ===== src/Ioctl/Handlers/Errors.antt =====
-- Why a request to sign fails, and the errors of the steps that talk to the kernel.
pub mod Slices
pub mod Signing
use mathlib.Core.Path.{subst}
use tarako_module.Shared.{
  ℕ, ◌+◌, ◌*◌, ◌≡◌, ◌≢◌, refl, sym, ap, ◌∙◌, Bool, true, false, not, none, some, Option, inl, inr,
  ◌⊎◌, ◌++◌, take, List, [], ◌∷◌, length, reverse, replicate, Error, Outcome, ok, err, panic,
  einval, enxio, eperm, ok_or, slice_to, copy_from_slice, ℤ, pos, arith, Bool-cases, Option-cases,
  leb, ◌&&◌, ◌-◌, ◌==◌,
}
use tarako_module.Bytes.{to_be_bytes}
use tarako_module.Ffi.{
  Kernel, State, M, pure, lift, log, ◌>>=◌, ◌>>◌, finally, copy_from_user, copy_to_user,
}
use tarako_module.Ffi.Errors.{
  ErrsBy, Fails, Fails-bind, Fails-finally, Fails-if, Fails-lift, Fails-pure,
}
use tarako_module.Contract.{VliContract, HashContract, KeyContract, CurveGroup, IsOrder}
use tarako_module.Vli.Value.{IsVli}
use tarako_module.Ioctl.Sign.Nonces.{BadNonces}
use tarako_module.Ioctl.Handlers.Answer.Request.{IsRequest}
use tarako_module.Vli.{Vli, drop_vli, checked}
use tarako_module.Ecc.{p256_digits, sha256_hash}
use tarako_module.Ecc.Failure.{Failure}
use tarako_module.SetOnce.{SetOnce, as_ref}
use tarako_module.Ioctl.Types.{
  KeyPair, SignDataReq, user_data_bytes, fs_verity_max_digest_size, size_of_req,
  sign_data_req_bytes, sign_data_req_of_bytes,
}
use tarako_module.Ioctl.Sign.{sign}
use tarako_module.Ioctl.Sign.Rounds.{Skips}
use tarako_module.Ioctl.Sign.Errors.{SignEnds, ecdsa_sign-SignEnds}
use tarako_module.Ioctl.Digest.{FsverityDigest, digest, current_exe_fsverity_digest}
use tarako_module.Ioctl.Digest.Refused.{NoDigest, current_exe_fsverity_digest_errs}
use tarako_module.Ioctl.Handlers.{
  message_buffer, write_limbs, read_sign_data_req, write_user, write_sign_data_req, answer,
  sign_request, handle_sign_data,
}
use tarako_module.Ioctl.Handlers.Gate.{IsSound, Holds, handle_sign_data-refuses}

module _ {W P : Type 0} (K : Kernel W) (G : CurveGroup P) (V : VliContract K p256_digits)
    (C : KeyContract K G) (H : HashContract K) (kp : KeyPair) (order : IsOrder K G kp.curve_n)
    (private : IsVli p256_digits kp.private) (arg size : ℕ) (digest_bytes : List ℕ) where
  -- Why a request fails after the digest of its caller was read.
  pub data NotServed : Error → Type 0 where
    not_read : (w : W) (e : Error) → (K.read_slice arg size size_of_req w).0 ≡ inl e → NotServed e
    helper_failed : (e : Error) → Failure K e → NotServed e
    no_nonce :
        (input : List ℕ) (w : W) (s t : State W)
        → (K.read_slice arg size size_of_req w).0 ≡ inr input
        → BadNonces K G V C kp.curve_n kp.private order private
            (sha256_hash K (digest_bytes ++ take user_data_bytes input))
            100
            s
            t
        → NotServed einval
    not_written :
        (bytes : List ℕ) (w : W) (e : Error)
        → (K.write_slice arg size bytes w).0 ≡ some e
        → NotServed e

  pub read_errs : (s : State W) → ErrsBy NotServed (read_sign_data_req K arg size s)
  unfolding read_sign_data_req
  read_errs s = go (K.read_slice arg size size_of_req s.world).0 refl (record {
    world = (K.read_slice arg size size_of_req s.world).1;
    buffers = s.buffers;
    calls = copy_from_user arg size_of_req ∷ s.calls;
  })
    where
      arm : Error ⊎ List ℕ → M W SignDataReq
      arm r = elim r [ inl e ↦ lift (err e) | inr bytes ↦ pure (sign_data_req_of_bytes bytes) ]

      go :
          (r : Error ⊎ List ℕ)
          → (K.read_slice arg size size_of_req s.world).0 ≡ r
          → (t : State W) → ErrsBy NotServed (arm r t)
      go (inl e) f t = not_read s.world e f
      go (inr bytes) f t = tt

  pub write_errs : (bytes : List ℕ) (s : State W) → ErrsBy NotServed (write_user K arg size bytes s)
  unfolding write_user
  write_errs bytes s = elim (Option-cases (K.write_slice arg size bytes s.world).0) [
    | inl e ↦ rw e tt
    | inr (x, e) ↦ rw e (not_written bytes s.world x e)
  ]

  pub sign_errs :
      (req : SignDataReq) (t s : State W)
      → IsRequest K arg size req t
      → ErrsBy NotServed (sign K kp (digest_bytes ++ req.user_data) s)
  unfolding sign sign_data_req_of_bytes
  sign_errs req t s (w, input, was_read, e, n) =
      go (sign K kp message s)
        (ecdsa_sign-SignEnds K G V C kp.curve_n kp.private order private H message s)
    where
      message : List ℕ
      message = digest_bytes ++ req.user_data

      hash_of : List ℕ → List ℕ
      hash_of user_data = sha256_hash K (digest_bytes ++ user_data)

      go :
          (x : Outcome (Vli × Vli) × State W)
          → SignEnds K G V C kp.curve_n kp.private order private H message s x
          → ErrsBy NotServed x
      go (ok rs, u) h = tt
      go (err x, u) (inl f) = helper_failed x f
      go (err x, u) (inr f) = subst NotServed (sym f.0) (
          no_nonce input w s u was_read (
            subst (λ d. BadNonces K G V C kp.curve_n kp.private order private (hash_of d) 100 s u)
              (ap (λ q. q.user_data) e) f.1))
      go (panic, u) h = tt
