-- ===== src/Ioctl/Handlers/Answer/Request.antt =====
-- The request that `read_sign_data_req` reads.
use tarako_module.Shared.{
  ℕ, ◌≡◌, refl, inl, inr, List, length, drop, arith, length-take, length-drop, Error, ◌⊎◌,
}
use tarako_module.Ffi.{Kernel, State}
use tarako_module.Ffi.Returns.{Returns}
use tarako_module.Contract.{UserContract}
use tarako_module.Ecc.{p256_bytes}
use tarako_module.Ioctl.Types.{SignDataReq, user_data_bytes, size_of_req, sign_data_req_of_bytes}
use tarako_module.Ioctl.Handlers.{read_sign_data_req}

module _ {W : Type 0} (K : Kernel W) where
  abbrev pub IsRequest : ℕ → ℕ → SignDataReq → State W → Type 0
  IsRequest arg size req _ =
      (w : W) × (input : List ℕ) × ((K.read_slice arg size size_of_req w).0 ≡ inr input)
      × (req ≡ sign_data_req_of_bytes input)
      × (length input ≡ size_of_req)

module _ {W : Type 0} (K : Kernel W) (U : UserContract K) where
  pub read_lem :
      (arg size : ℕ) (s : State W)
      → Returns (IsRequest K arg size) (read_sign_data_req K arg size s)
  unfolding read_sign_data_req
  read_lem arg size s = go (K.read_slice arg size size_of_req s.world).0 refl
    where
      go :
          (r : Error ⊎ List ℕ)
          → (K.read_slice arg size size_of_req s.world).0 ≡ r
          → Returns (IsRequest K arg size) (read_sign_data_req K arg size s)
      go (inl e) h = rw (h, read_sign_data_req) tt
      go (inr bytes) h =
          rw (h, read_sign_data_req)
            (s.world, bytes, h, refl, U.read_law arg size size_of_req s.world bytes h)

  pub IsRequest-sizes :
      (arg size : ℕ) (req : SignDataReq) (t : State W)
      → IsRequest K arg size req t
      → (length req.user_data ≡ user_data_bytes)
        × (length req.sig_r ≡ p256_bytes)
        × (length req.sig_s ≡ p256_bytes)
  unfolding sign_data_req_of_bytes
  IsRequest-sizes arg size req t (w, input, was_read, e, n) = rw e (
    length-take 128 input (omega (arith, n)),
    length-take 32 (drop 32 (drop 128 input)) (omega (arith, after_hash)),
    length-take 32 (drop 32 (drop 32 (drop 128 input)))
        (omega (arith, after_hash, length-drop 32 (drop 32 (drop 128 input)))),
  )
    where
      after_hash : length (drop 32 (drop 128 input)) ≡ 97
      after_hash = omega (arith, n, length-drop 128 input, length-drop 32 (drop 128 input))
