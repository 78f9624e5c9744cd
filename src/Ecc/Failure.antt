-- ===== src/Ecc/Failure.antt =====
-- The errors of the ECC wrappers: each is one of the kernel's helpers that failed.
use tarako_module.Shared.{
  ◌≡◌, true, none, some, inl, inr, Bool-cases, Option-cases, is_negative, ◌==◌, ◌||◌, Error, enomem,
  efault,
}
use tarako_module.Ffi.{Kernel, Point, State}
use tarako_module.Ffi.Errors.{ErrsBy, Fails}
use tarako_module.Vli.{Vli}
use tarako_module.Ecc.{
  p256, p256_digits, drop_point, generate_private_key, fill_point, make_public_key,
}

module _ {W : Type 0} (K : Kernel W) where
  pub data Failure : Error → Type 0 where
    no_key :
        (w : W)
        → is_negative (K.ecc_gen_privkey p256 p256_digits w).0.0 ≡ true
        → Failure (K.from_errno (K.ecc_gen_privkey p256 p256_digits w).0.0)
    no_memory : (w : W) → (K.ecc_alloc_point p256_digits w).0 ≡ none → Failure enomem
    null_buffer :
        (w : W) (p : Point)
        → (K.ecc_alloc_point p256_digits w).0 ≡ some p
        → (p.x == 0 || p.y == 0) ≡ true
        → Failure efault
    no_public_key :
        (k : Vli) (w : W)
        → is_negative (K.ecc_make_pub_key p256 p256_digits k w).0.0 ≡ true
        → Failure (K.from_errno (K.ecc_make_pub_key p256 p256_digits k w).0.0)

  generate_private_key_errs : (s : State W) → ErrsBy Failure (generate_private_key K s)
  unfolding generate_private_key
  generate_private_key_errs s =
      elim (Bool-cases (is_negative (K.ecc_gen_privkey 2 4 s.world).0.0)) [
        | inl e ↦ rw e (no_key s.world e)
        | inr e ↦ rw e tt
      ]

  fill_point_errs : (p : Point) (k : Vli) (s : State W) → ErrsBy Failure (fill_point K p k s)
  unfolding fill_point drop_point
  fill_point_errs p k s = elim (Bool-cases (is_negative (K.ecc_make_pub_key 2 4 k s.world).0.0)) [
    | inl e ↦ rw e (no_public_key k s.world e)
    | inr e ↦ rw e tt
  ]

  make_public_key_errs : (k : Vli) (s : State W) → ErrsBy Failure (make_public_key K k s)
  unfolding make_public_key drop_point
  make_public_key_errs k s = elim (Option-cases (K.ecc_alloc_point 4 s.world).0) [
    | inl e ↦ rw e (no_memory s.world e)
    | inr (p, e) ↦ elim (Bool-cases (p.x == 0 || p.y == 0)) [
      | inl f ↦ rw (e, f) (null_buffer s.world p e f)
      | inr f ↦ rw (e, f) (fill_point_errs p k _)
    ]
  ]

  pub generate_private_key-Fails : Fails Failure (generate_private_key K)
  generate_private_key-Fails = record { errs = generate_private_key_errs }

  pub make_public_key-Fails : (k : Vli) → Fails Failure (make_public_key K k)
  make_public_key-Fails k = record { errs = make_public_key_errs k }
