-- ===== src/Device/Dispatch.antt =====
-- The ioctl of /dev/tarako: its command numbers, and what each command does.
use tarako_module.Shared.{
  ℕ, ◌+◌, ◌*◌, ◌/◌, ◌%◌, ◌^◌, ◌<◌, ◌≡◌, ◌≢◌, refl, ◌∙◌, ◌⊎◌, inl, inr, ◌==◌, ok, err, pos, enotty,
  arith, Bool-cases,
}
use tarako_module.Ffi.{Kernel, State}
use tarako_module.SetOnce.{SetOnce}
use tarako_module.Ioctl.Types.{KeyPair, tarako_hello, tarako_get_pubkey, tarako_sign_data}
use tarako_module.Ioctl.Handlers.{handle_get_pubkey, handle_sign_data}
use tarako_module.Device.{ioctl}

-- The encoding of `_IO`, `_IOR` and `_IOWR`, for sizes of 14 bits, types and numbers of 8.
pub record IoctlContract {W : Type 0} (K : Kernel W) : Type 0 where
  pub io_law : (t n : ℕ) → K.io t n ≡ t * 256 + n
  pub ior_law : (s t n : ℕ) → s < 2 ^ 14 → K.ior s t n ≡ 2 * 2 ^ 30 + s * 2 ^ 16 + t * 256 + n
  pub iowr_law : (s t n : ℕ) → s < 2 ^ 14 → K.iowr s t n ≡ 3 * 2 ^ 30 + s * 2 ^ 16 + t * 256 + n
  pub size_law : (c : ℕ) → K.ioc_size c ≡ c / 2 ^ 16 % 2 ^ 14

module _ {W : Type 0} (K : Kernel W) (E : IoctlContract K) where
  -- With the documented encoding of ioctl numbers, the three commands have the numbers that the
  -- module's documentation gives: 0x5300, 0x80215301 and 0xC1015302.
  pub numbers :
      (tarako_hello K ≡ 0x5300)
      × (tarako_get_pubkey K ≡ 0x80215301)
      × (tarako_sign_data K ≡ 0xC1015302)
  unfolding tarako_hello tarako_get_pubkey tarako_sign_data
  numbers =
      (E.io_law 0x53 0, E.ior_law 33 0x53 1 (omega arith), E.iowr_law 257 0x53 2 (omega arith))

  -- With the documented encoding of ioctl numbers, an ioctl does what its number says: 0x5300
  -- returns 0 at once; 0x80215301 is `handle_get_pubkey` with a buffer of exactly 33 bytes, and
  -- 0xC1015302 is `handle_sign_data` with a buffer of exactly 257; every other command is ENOTTY
  -- and changes nothing.
  pub ioctl_lem :
      (cell : SetOnce KeyPair) (cmd arg : ℕ) (s : State W)
      → ((cmd ≡ 0x5300) × (ioctl K cell cmd arg s ≡ (ok (pos 0), s)))
        ⊎ ((cmd ≡ 0x80215301)
            × (K.ioc_size cmd ≡ 33)
            × (ioctl K cell cmd arg s ≡ handle_get_pubkey K cell arg cmd s))
        ⊎ ((cmd ≡ 0xC1015302)
            × (K.ioc_size cmd ≡ 257)
            × (ioctl K cell cmd arg s ≡ handle_sign_data K cell arg cmd s))
        ⊎ ((cmd ≢ 0x5300)
            × (cmd ≢ 0x80215301)
            × (cmd ≢ 0xC1015302)
            × (ioctl K cell cmd arg s ≡ (err enotty, s)))
  unfolding ioctl
  ioctl_lem cell cmd arg s = elim (Bool-cases (cmd == tarako_hello K)) [
    | inl a ↦ inl (ground (arith, numbers), rw a refl)
    | inr a ↦ elim (Bool-cases (cmd == tarako_get_pubkey K)) [
      | inl b ↦
          let e : cmd ≡ 0x80215301 = ground (arith, numbers) in
          inr (inl (e, E.size_law cmd ∙ omega (arith, e), rw (a, b) refl))
      | inr b ↦ elim (Bool-cases (cmd == tarako_sign_data K)) [
        | inl c ↦
            let e : cmd ≡ 0xC1015302 = ground (arith, numbers) in
            inr (inr (inl (e, E.size_law cmd ∙ omega (arith, e), rw (a, b, c) refl)))
        | inr c ↦ inr (
            inr (
              inr (
                ground (arith, numbers),
                ground (arith, numbers),
                ground (arith, numbers),
                rw (a, b, c) refl,
              )))
      ]
    ]
  ]
