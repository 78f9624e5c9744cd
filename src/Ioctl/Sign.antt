-- ===== src/Ioctl/Sign.antt =====
-- `ecdsa_sign`.
pub mod Account
pub mod Rounds
pub mod Steps
pub mod Round
pub mod Correct
pub mod Nonces
pub mod Errors
use tarako_module.Shared.{
  ℕ, zero, suc, ◌||◌, not, ◌==◌, if◌then◌else◌, Option, none, some, List, err, einval,
}
use tarako_module.Ffi.{Point, Kernel, M, pure, lift, ◌>>=◌, ◌>>◌, finally, unless_returned}
use tarako_module.Vli.{
  Vli, carrying_add, unswap, is_zero, sub_with_borrow, mod_inv, mod_mult, ge, from_be_bytes,
  drop_vli,
}
use tarako_module.Ecc.{
  p256_digits, x_scalar, drop_point, generate_private_key, make_public_key, sha256_hash,
}
use tarako_module.Ioctl.Types.{KeyPair}

module _ {W : Type 0} (K : Kernel W) where
  -- `Sub<&Self>::sub`, which takes its left operand by value and so drops it.
  unfoldable pub sub : Vli → Vli → M W Vli
  sub v rhs = do drop_vli v; pure (sub_with_borrow K p256_digits v rhs).0

  -- `if v >= curve_n { v = v - curve_n; }`
  unfoldable pub reduce : Vli → Vli → M W Vli
  unfolding sub
  reduce v curve_n = if ge K p256_digits v curve_n then sub v curve_n else pure v

  -- The local variables of one round, each dropped where its scope ends: `holding` for a scalar,
  -- `holding_point` for a point.
  abbrev holding : {A : Type 0} → M W Vli → (Vli → M W A) → M W A
  holding m f = m >>= λ v. finally (f v) (drop_vli v)

  abbrev holding_point : {A : Type 0} → M W Point → (Point → M W A) → M W A
  holding_point m f = m >>= λ point. finally (f point) (drop_point K point)

  -- A scalar that the round may return is dropped on every other way out.
  abbrev returning : {A : Type 0} → M W Vli → (Vli → M W (Option A)) → M W (Option A)
  returning m f = m >>= λ v. unless_returned (f v) (drop_vli v)

  -- The sum modulo the order: `z_plus_rs` of the source.
  unfoldable pub add_mod : Vli → Vli → Vli → M W Vli
  unfolding sub
  add_mod z s curve_n =
      let (z_plus_rs, carry) = carrying_add z s 0 in
      if not (carry == 0) || ge K p256_digits z_plus_rs curve_n
      then sub z_plus_rs curve_n
      else pure z_plus_rs

  -- The round from `z` on, for the nonce `k` and its `r`.
  unfoldable pub finish : List ℕ → Vli → Vli → Vli → Vli → M W (Option (Vli × Vli))
  unfolding reduce add_mod
  finish data_hash privkey curve_n k r =
      holding (lift (from_be_bytes K p256_digits data_hash) >>= λ z. reduce z curve_n) λ z.
        holding (pure (mod_mult K p256_digits r privkey curve_n)) λ s.
          holding (add_mod z s curve_n) λ z_plus_rs.
            holding (pure (mod_inv K p256_digits k curve_n)) λ k_inv.
              returning (pure (mod_mult K p256_digits z_plus_rs k_inv curve_n))
                λ s'. if is_zero K p256_digits s' then pure none else pure (some (r, s'))

  -- One round of the loop: `none` for `continue`.
  unfoldable pub attempt : List ℕ → Vli → Vli → M W (Option (Vli × Vli))
  unfolding reduce finish
  attempt data_hash privkey curve_n = holding (generate_private_key K) λ k.
      holding_point (make_public_key K k) λ pubk. holding (x_scalar K pubk) λ r_swapped.
        returning (reduce (unswap p256_digits r_swapped) curve_n)
          λ r. if is_zero K p256_digits r then pure none else finish data_hash privkey curve_n k r

  -- The loop with so many rounds left.
  unfoldable pub rounds : ℕ → List ℕ → Vli → Vli → M W (Vli × Vli)
  unfolding attempt
  rounds zero data_hash privkey curve_n = lift (err einval)
  rounds (suc left) data_hash privkey curve_n = do
    signature ← attempt data_hash privkey curve_n
    elim signature [ some rs ↦ pure rs | none ↦ rounds left data_hash privkey curve_n ]

  unfoldable pub ecdsa_sign : List ℕ → Vli → Vli → M W (Vli × Vli)
  unfolding rounds
  ecdsa_sign bytes privkey curve_n = rounds 100 (sha256_hash K bytes) privkey curve_n

  -- `KeyPair::sign`
  unfoldable pub sign : KeyPair → List ℕ → M W (Vli × Vli)
  unfolding ecdsa_sign
  sign kp bytes = ecdsa_sign bytes kp.private kp.curve_n
