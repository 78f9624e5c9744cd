-- ===== src/Ioctl/Handlers/Answer.antt =====
-- The answer of `sign_request`: its bytes, and that they are evidence.
pub mod Request
pub mod Copied
pub mod Steps
use mathlib.Core.Path.{subst}
use tarako_module.Shared.{
  ◌^◌, ℕ, ◌+◌, ◌≤◌, ◌≡◌, refl, sym, ap, ◌∙◌, none, some, inl, inr, true, Option, List, [], ◌∷◌,
  ◌++◌, length, take, drop, reverse, ltb, arith, Option-cases, ok, ℤ, pos, slice_to, ok_or, einval,
  length-take, length-drop, length-reverse, Error, ◌⊎◌,
}
use tarako_module.Bytes.{be_value, bytes_of}
use tarako_module.Bytes.Laws.{length-bytes_of}
use tarako_module.Ffi.{Call, Kernel, State, ◌>>=◌, M, lift, pure, copy_to_user, wipe, finally}
use tarako_module.Ffi.Returns.{Returns, Returns-bind, Returns-finally-log}
use tarako_module.Vli.{Vli, checked, drop_vli}
use tarako_module.Vli.Value.{value, IsVli}
use tarako_module.Contract.{
  VliContract, HashContract, DigestContract, UserContract, KeyContract, CurveGroup, IsOrder,
}
use tarako_module.Ecc.{p256_digits, p256_bytes, sha256_hash}
use tarako_module.Ecdsa.{IsSignature}
use tarako_module.Ioctl.Types.{
  SignDataReq, KeyPair, user_data_bytes, size_of_req, sign_data_req_bytes, sign_data_req_of_bytes,
}
use tarako_module.Ioctl.Sign.{sign}
use tarako_module.Ioctl.Sign.Round.{Signs}
use tarako_module.Ioctl.Sign.Correct.{ecdsa_sign-IsSignature}
use tarako_module.Ioctl.Handlers.{
  read_sign_data_req, write_user, write_sign_data_req, write_limbs, message_buffer, answer,
  sign_request,
}
use tarako_module.Ioctl.Handlers.Wire.{write_limbs_lem, be_value-scalar, message_lem}
use tarako_module.Ioctl.Handlers.Answer.Steps.{signing, rest_of, rest-eq}
use tarako_module.Ioctl.Handlers.Answer.Request.{IsRequest, read_lem, IsRequest-sizes}
use tarako_module.Ioctl.Handlers.Answer.Copied.{last_write, filled, Wrote, answer_lem}

-- The evidence that a successful call returns: the request with the user data that was read at
-- `arg`, the hash of the caller's digest followed by that data, a signature of that hash in the
-- big-endian wire format, and the public key.
pub record IsEvidence {W P : Type 0} (K : Kernel W) (G : CurveGroup P) (kp : KeyPair) (arg size : ℕ)
    (digest_bytes : List ℕ) (out : SignDataReq) : Type 0 where
  pub world : W
  pub input : List ℕ
  pub was_read : (K.read_slice arg size size_of_req world).0 ≡ inr input
  pub user_data_eq : out.user_data ≡ take user_data_bytes input
  pub hash_eq : out.hash ≡ sha256_hash K (digest_bytes ++ out.user_data)
  pub pubkey_eq : out.pubkey ≡ kp.pubkey
  pub r_size : length out.sig_r ≡ p256_bytes
  pub s_size : length out.sig_s ≡ p256_bytes
  pub signature :
      IsSignature G
        (G.times (value kp.private) G.base)
        (be_value out.hash)
        (be_value out.sig_r)
        (be_value out.sig_s)

module _ {W P : Type 0} (K : Kernel W) (G : CurveGroup P) (V : VliContract K p256_digits)
    (C : KeyContract K G) (H : HashContract K) (D : DigestContract K) (U : UserContract K)
    (kp : KeyPair) (order : IsOrder K G kp.curve_n) (private : IsVli p256_digits kp.private) where
  -- The state after the call: its last write to user space is evidence.
  abbrev pub Delivers : ℕ → ℕ → List ℕ → ℤ → State W → Type 0
  Delivers arg size digest_bytes ret t =
      (ret ≡ pos 0)
      × ((out : SignDataReq) × (last_write t.calls ≡ some (arg, sign_data_req_bytes out))
          × IsEvidence K G kp arg size digest_bytes out)

  evidence :
      (arg size : ℕ) (digest_bytes : List ℕ) (req : SignDataReq) (t : State W) (r s : Vli)
      → IsRequest K arg size req t
      → Signs K G V C kp.curve_n kp.private order private
          (sha256_hash K (digest_bytes ++ req.user_data))
          (r, s)
      → IsEvidence K G kp arg size digest_bytes (
          filled
            (record req { hash = sha256_hash K (digest_bytes ++ req.user_data) })
            kp.pubkey
            r
            s)
  evidence arg size digest_bytes req t r s (w, input, was_read, e, n) signs = record {
    world = w;
    input = input;
    was_read = was_read;
    user_data_eq = unfold sign_data_req_of_bytes in ap (λ q. q.user_data) e;
    hash_eq = refl;
    pubkey_eq = refl;
    r_size = length-reverse (bytes_of r) ∙ omega (arith, length-bytes_of r, signs.0.0);
    s_size = length-reverse (bytes_of s) ∙ omega (arith, length-bytes_of s, signs.1.0);
    signature = rw (be_value-scalar r signs.0.1, be_value-scalar s signs.1.1) signs.2;
  }

  signed_part :
      (digest_bytes : List ℕ) (arg size : ℕ) (req : SignDataReq) (st : State W)
      → IsRequest K arg size req st
      → Returns
          (Delivers arg size digest_bytes)
          (signing K kp arg size req (digest_bytes ++ req.user_data) st)
  unfolding sign
  signed_part digest_bytes arg size req st₀ hreq =
      Returns-bind (λ rs _. Signs K G V C kp.curve_n kp.private order private hash rs)
        (Delivers arg size digest_bytes) (sign K kp message) _ st₀
        (unfold sha256_hash in
          ecdsa_sign-IsSignature K G V C kp.curve_n kp.private order private H message st₀)
        λ (r, s) st₁ signs.
          let out = filled req' kp.pubkey r s in
          let bytes = sign_data_req_bytes out in
          Returns-finally-log (Wrote arg bytes) (Delivers arg size digest_bytes)
            (finally (answer K arg size kp.pubkey req' r s) (drop_vli s)) (wipe r) st₁
            (Returns-finally-log (Wrote arg bytes) (Wrote arg bytes)
              (answer K arg size kp.pubkey req' r s) (wipe s) st₁
              (answer_lem K arg size kp.pubkey req' r s st₁ sizes.1 sizes.2 signs.0.0 signs.1.0)
              (λ ret t h. h))
            (λ ret t h. (h.0, (out, h.1, evidence arg size digest_bytes req st₀ r s hreq signs)))
    where
      message : List ℕ
      message = digest_bytes ++ req.user_data

      hash : List ℕ
      hash = sha256_hash K message

      req' : SignDataReq
      req' = record req { hash = hash }

      sizes :
          (length req.user_data ≡ user_data_bytes)
          × (length req.sig_r ≡ p256_bytes)
          × (length req.sig_s ≡ p256_bytes)
      sizes = IsRequest-sizes K U arg size req st₀ hreq

  pub sign_request_lem :
      (digest_bytes : List ℕ) (arg size : ℕ) (st : State W)
      → length digest_bytes ≤ 64
      → Returns (Delivers arg size digest_bytes) (sign_request K kp digest_bytes arg size st)
  unfolding sign_request
  sign_request_lem digest_bytes arg size st₀ hd =
      Returns-bind (IsRequest K arg size) (Delivers arg size digest_bytes)
        (read_sign_data_req K arg size) (rest_of K kp digest_bytes arg size) st₀
        (read_lem K U arg size st₀)
        λ req st₁ hreq.
          let sizes = IsRequest-sizes K U arg size req st₁ hreq in
          let (buffer, filled_buffer, sliced) = message_lem digest_bytes req.user_data hd sizes.0 in
          subst (Returns (Delivers arg size digest_bytes))
            (sym (rest-eq K kp digest_bytes arg size req buffer st₁ hd filled_buffer sliced))
            (signed_part digest_bytes arg size req st₁ hreq)
