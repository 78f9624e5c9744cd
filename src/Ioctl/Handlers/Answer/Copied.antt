-- ===== src/Ioctl/Handlers/Answer/Copied.antt =====
-- The request that `answer` copies to user space.
use mathlib.Core.Path.{subst}
use tarako_module.Shared.{
  ℕ, ◌≡◌, refl, sym, none, some, inl, inr, Option, List, [], ◌∷◌, length, reverse, arith,
  Option-cases, ok, ℤ, pos,
}
use tarako_module.Bytes.{bytes_of}
use tarako_module.Ffi.{Call, Kernel, State, ◌>>=◌, pure, copy_to_user}
use tarako_module.Ffi.Returns.{Returns, Returns-bind}
use tarako_module.Vli.{Vli}
use tarako_module.Ecc.{p256_digits, p256_bytes}
use tarako_module.Ioctl.Types.{SignDataReq, sign_data_req_bytes}
use tarako_module.Ioctl.Handlers.{write_user, write_sign_data_req, write_limbs, answer}
use tarako_module.Ioctl.Handlers.Wire.{write_limbs_lem}

-- The last copy to user space: its address and bytes.
abbrev pub last_write : List Call → Option (ℕ × List ℕ)
last_write [] = none
last_write (copy_to_user arg bytes ∷ cs) = some (arg, bytes)
last_write (_ ∷ cs) = last_write cs

-- The request as it is returned, with the scalars in wire format.
abbrev pub filled : SignDataReq → List ℕ → Vli → Vli → SignDataReq
filled req pubkey r s = record req {
  sig_r = reverse (bytes_of r);
  sig_s = reverse (bytes_of s);
  pubkey = pubkey;
}

-- A call that returns 0 after it has copied `bytes` to `arg`.
abbrev pub Wrote : {W : Type 0} → ℕ → List ℕ → ℤ → State W → Type 0
Wrote arg bytes ret t = (ret ≡ pos 0) × (last_write t.calls ≡ some (arg, bytes))

module _ {W : Type 0} (K : Kernel W) where
  pub write_lem :
      (arg size : ℕ) (bytes : List ℕ) (s : State W)
      → Returns (λ _ t. last_write t.calls ≡ some (arg, bytes)) (write_user K arg size bytes s)
  unfolding write_user
  write_lem arg size bytes s = elim (Option-cases (K.write_slice arg size bytes s.world).0) [
    | inl e ↦ rw e refl
    | inr (e, h) ↦ rw h tt
  ]

  pub answer-eq :
      (arg size : ℕ) (pubkey : List ℕ) (req : SignDataReq) (r s : Vli) (st : State W)
      → write_limbs 0 (reverse r) req.sig_r ≡ ok (reverse (bytes_of r))
      → write_limbs 0 (reverse s) req.sig_s ≡ ok (reverse (bytes_of s))
      → answer K arg size pubkey req r s st
        ≡ (write_user K arg size (sign_data_req_bytes (filled req pubkey r s)) >>= λ _.
              pure (pos 0))
            st
  unfolding answer write_sign_data_req
  answer-eq arg size pubkey req r s st e f = rw (e, f, answer)

  pub answer_lem :
      (arg size : ℕ) (pubkey : List ℕ) (req : SignDataReq) (r s : Vli) (st : State W)
      → length req.sig_r ≡ p256_bytes
      → length req.sig_s ≡ p256_bytes
      → length r ≡ p256_digits
      → length s ≡ p256_digits
      → Returns
          (Wrote arg (sign_data_req_bytes (filled req pubkey r s)))
          (answer K arg size pubkey req r s st)
  answer_lem arg size pubkey req r s st hr hs nr ns =
      subst (Returns (Wrote arg bytes))
        (sym (
          answer-eq arg size pubkey req r s st (write_limbs_lem r req.sig_r (omega (arith, hr, nr)))
            (write_limbs_lem s req.sig_s (omega (arith, hs, ns)))))
        (Returns-bind (λ _ t. last_write t.calls ≡ some (arg, bytes)) (Wrote arg bytes)
          (write_user K arg size bytes) (λ _. pure (pos 0)) st (write_lem arg size bytes st)
          (λ _ t h. (refl, h)))
    where
      bytes : List ℕ
      bytes = sign_data_req_bytes (filled req pubkey r s)
