-- ===== src/Ioctl/Handlers/Errors/Signing.antt =====
-- Every error of `handle_sign_data` and its reason.
use mathlib.Core.Path.{subst}
use tarako_module.Shared.{
  ℕ, ◌++◌, ◌≤◌, take, length-take, ◌≡◌, ◌≢◌, sym, false, inl, inr, List, length, reverse, Error,
  Outcome, err, enxio, eperm, ℤ, pos, arith,
}
use tarako_module.Ffi.{Kernel, State, M, pure, lift, ◌>>=◌, ◌>>◌, finally}
use tarako_module.Ffi.Errors.{
  ErrsBy, ErrsBy-mono, ErrsBy-bind, Fails, Fails-bind, Fails-finally, Fails-lift, Fails-pure,
}
use tarako_module.Contract.{
  VliContract, HashContract, DigestContract, UserContract, KeyContract, CurveGroup, IsOrder,
}
use tarako_module.Vli.Value.{IsVli}
use tarako_module.Ioctl.Keys.Compressed.{IsKeyPair}
use tarako_module.Ioctl.Handlers.Answer.Request.{IsRequest, read_lem, IsRequest-sizes}
use tarako_module.Ioctl.Handlers.Answer.Steps.{signing, rest_of, rest-eq}
use tarako_module.Ioctl.Handlers.Wire.{message_lem}
use tarako_module.Ioctl.Digest.Caller.{
  IsCallerDigest, IsDigestAt, current_exe_fsverity_digest_lem, digest_lem,
}
use tarako_module.Vli.{Vli, drop_vli}
use tarako_module.Ecc.{p256_digits, sha256_hash}
use tarako_module.SetOnce.{SetOnce}
use tarako_module.Ioctl.Types.{KeyPair, SignDataReq, sign_data_req_bytes}
use tarako_module.Ioctl.Sign.{sign}
use tarako_module.Ioctl.Digest.{FsverityDigest, current_exe_fsverity_digest}
use tarako_module.Ioctl.Digest.Refused.{NoDigest, current_exe_fsverity_digest_errs}
use tarako_module.Ioctl.Handlers.{
  write_limbs, read_sign_data_req, write_user, write_sign_data_req, answer, sign_request,
  handle_sign_data,
}
use tarako_module.Ioctl.Handlers.Gate.{
  after_digest, handle_sign_data-opened, IsSound, Holds, handle_sign_data-refuses,
}
use tarako_module.Ioctl.Handlers.Errors.{NotServed, read_errs, write_errs, sign_errs}
use tarako_module.Ioctl.Handlers.Errors.Slices.{write_limbs-err}

module _ {W P : Type 0} (K : Kernel W) (G : CurveGroup P) (V : VliContract K p256_digits)
    (C : KeyContract K G) (H : HashContract K) (kp : KeyPair) (order : IsOrder K G kp.curve_n)
    (private : IsVli p256_digits kp.private) (arg size : ℕ) (digest_bytes : List ℕ) where
  abbrev Bad : Error → Type 0
  Bad = NotServed K G V C H kp order private arg size digest_bytes

  never : {A : Type 0} (r : Outcome A) → ((e : Error) → r ≢ err e) → Fails {W = W} Bad (lift r)
  never r h = Fails-lift Bad r (λ e f. absurd (h e f))

  answer-Fails :
      (req : SignDataReq) (r' s' : Vli) → Fails Bad (answer K arg size kp.pubkey req r' s')
  unfolding answer write_sign_data_req
  answer-Fails req r' s' =
      Fails-bind Bad (lift (write_limbs 0 (reverse r') req.sig_r))
        (λ sig_r. lift (write_limbs 0 (reverse s') req.sig_s) >>= last sig_r)
        (never (write_limbs 0 (reverse r') req.sig_r) (write_limbs-err 0 (reverse r') req.sig_r))
        λ sig_r.
          Fails-bind Bad (lift (write_limbs 0 (reverse s') req.sig_s)) (last sig_r)
            (never (write_limbs 0 (reverse s') req.sig_s)
              (write_limbs-err 0 (reverse s') req.sig_s))
            λ sig_s.
              Fails-bind Bad (write_user K arg size (sign_data_req_bytes (filled sig_r sig_s)))
                (λ _. pure (pos 0))
                (record {
                  errs =
                      write_errs K G V C H kp order private arg size digest_bytes
                        (sign_data_req_bytes (filled sig_r sig_s));
                })
                (λ _. Fails-pure Bad (pos 0))
    where
      filled : List ℕ → List ℕ → SignDataReq
      filled sig_r sig_s = record req { sig_r = sig_r; sig_s = sig_s; pubkey = kp.pubkey }

      last : List ℕ → List ℕ → M W ℤ
      last sig_r sig_s =
          write_user K arg size (sign_data_req_bytes (filled sig_r sig_s)) >> pure (pos 0)

  signed-Fails :
      (req : SignDataReq) (r' s' : Vli)
      → Fails Bad
          (finally (finally (answer K arg size kp.pubkey req r' s') (drop_vli s')) (drop_vli r'))
  signed-Fails req r' s' =
      Fails-finally Bad (finally (answer K arg size kp.pubkey req r' s') (drop_vli s'))
        (drop_vli r')
        (Fails-finally Bad (answer K arg size kp.pubkey req r' s') (drop_vli s')
          (answer-Fails req r' s'))

  signing_errs :
      (req : SignDataReq) (t s : State W)
      → IsRequest K arg size req t
      → ErrsBy Bad (signing K kp arg size req (digest_bytes ++ req.user_data) s)
  signing_errs req t s hreq =
      let fails =
        Fails-bind Bad (sign K kp message) signed
          (record {
            errs = λ u. sign_errs K G V C H kp order private arg size digest_bytes req t u hreq;
          })
          (λ rs. signed-Fails (record req { hash = sha256_hash K message }) rs.0 rs.1) in
      fails.errs s
    where
      message : List ℕ
      message = digest_bytes ++ req.user_data

      signed : Vli × Vli → M W ℤ
      signed rs =
          finally
            (finally
              (answer K arg size kp.pubkey (record req { hash = sha256_hash K message }) rs.0 rs.1)
              (drop_vli rs.1))
            (drop_vli rs.0)

  pub sign_request_errs :
      UserContract K
      → length digest_bytes ≤ 64
      → (s : State W) → ErrsBy Bad (sign_request K kp digest_bytes arg size s)
  unfolding sign_request
  sign_request_errs U hd s =
      ErrsBy-bind Bad (IsRequest K arg size) (read_sign_data_req K arg size)
        (rest_of K kp digest_bytes arg size) s
        (read_errs K G V C H kp order private arg size digest_bytes s) (read_lem K U arg size s)
        λ req t hreq.
          let sizes = IsRequest-sizes K U arg size req t hreq in
          let (buffer, made, sliced) = message_lem digest_bytes req.user_data hd sizes.0 in
          subst (ErrsBy Bad) (sym (rest-eq K kp digest_bytes arg size req buffer t hd made sliced))
            (signing_errs req t t hreq)

module _ {W P : Type 0} (K : Kernel W) (G : CurveGroup P) (V : VliContract K p256_digits)
    (C : KeyContract K G) (H : HashContract K) (D : DigestContract K) (U : UserContract K)
    (cell : SetOnce KeyPair) (sound : IsSound cell)
    (keys : (kp : KeyPair) → Holds cell kp → IsKeyPair K G C kp) (arg cmd : ℕ) (s : State W) where
  -- Why the whole call fails, in the state `s`.
  pub data NotSigned : Error → Type 0 where
    not_set : cell.init ≢ 2 → NotSigned enxio
    unmeasured : (kp : KeyPair) → Holds cell kp → kp.ima_measured ≡ false → NotSigned eperm
    no_digest : (e : Error) → NoDigest K s.world e → NotSigned e
    not_served :
        (kp : KeyPair) (holds : Holds cell kp) (digest_bytes : List ℕ) (e : Error)
        → IsCallerDigest K s.world digest_bytes
        → NotServed K G V C H kp
            (keys kp holds).order_ok
            (keys kp holds).private_ok.0
            arg
            (K.ioc_size cmd)
            digest_bytes
            e
        → NotSigned e

  after_digest_errs :
      (kp : KeyPair) (holds : Holds cell kp) (d : FsverityDigest) (t : State W)
      → IsDigestAt K D s.world d
      → ErrsBy NotSigned (after_digest K kp arg cmd d t)
  after_digest_errs kp holds d t h =
      let pair = keys kp holds in
      let bytes = take d.size d.buffer in
      let short : length bytes ≤ 64 = omega (arith, length-take d.size d.buffer h.1, h.1, h.2) in
      subst (λ r. ErrsBy NotSigned ((lift r >>= λ b. sign_request K kp b arg (K.ioc_size cmd)) t))
        (sym (digest_lem K D s.world d h))
        (ErrsBy-mono
          (NotServed K G V C H kp pair.order_ok pair.private_ok.0 arg (K.ioc_size cmd) bytes)
          NotSigned (sign_request K kp bytes arg (K.ioc_size cmd) t)
          (λ e f. not_served kp holds bytes e h.0 f)
          (sign_request_errs K G V C H kp pair.order_ok pair.private_ok.0 arg (K.ioc_size cmd) bytes
            U short t))

  -- Every error of `handle_sign_data` has its reason: ENXIO, the cell is not set; EPERM, the key pair
  -- is not measured; one of the reasons why the caller's digest cannot be read; the error of the copy
  -- from user space; the error of a helper that failed in signing; EINVAL, a hundred nonces in a row
  -- that were drawn cannot sign the hash of the caller's digest followed by the user data that was
  -- read; or the error of the copy to user space. So the length of the message is never the reason.
  -- The storage of a set cell is initialised and holds a key pair as `generate_key_pair` makes it,
  -- and the kernel's helpers meet their contracts.
  pub handle_sign_data-NotSigned : ErrsBy NotSigned (handle_sign_data K cell arg cmd s)
  handle_sign_data-NotSigned = elim (handle_sign_data-refuses K cell sound arg cmd s) [
    | inl (kp, holds, measured) ↦
        subst (ErrsBy NotSigned)
          (sym (handle_sign_data-opened K kp cell arg cmd s holds.0 holds.1 measured))
          (ErrsBy-bind NotSigned (λ d _. IsDigestAt K D s.world d) (current_exe_fsverity_digest K)
            (after_digest K kp arg cmd) s
            (ErrsBy-mono (NoDigest K s.world) NotSigned (current_exe_fsverity_digest K s) no_digest
              (current_exe_fsverity_digest_errs K s))
            (current_exe_fsverity_digest_lem K D s) (after_digest_errs kp holds))
    | inr (inl (kp, holds, unset, e)) ↦ subst (ErrsBy NotSigned) (sym e) (unmeasured kp holds unset)
    | inr (inr (unset, e)) ↦ subst (ErrsBy NotSigned) (sym e) (not_set unset)
  ]
