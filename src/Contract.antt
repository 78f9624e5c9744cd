-- ===== src/Contract.antt =====
-- What the module relies on in the functions that it calls: the documented behaviour of the
-- kernel's helpers, as records of laws that theorems take as hypotheses. Nothing here is proved
-- of the kernel; `Tests.Machine` has a concrete interface that meets every law.
use tarako_module.Shared.{
  ℕ, ◌+◌, ◌*◌, ◌%◌, ◌≤◌, ◌<◌, ◌≡◌, ◌≢◌, ltb, ◌==◌, if◌then◌else◌, false, some, inr, List, length,
  take, drop, All, ℤ, pos, negsuc, is_negative,
}
use tarako_module.Bytes.{IsByte, IsLimb, be_value, bytes_of}
use tarako_module.Ffi.{Point, Curve, Kernel}
use tarako_module.Vli.{Vli}
use tarako_module.Vli.Value.{value, IsVli}
use tarako_module.Vli.Add.{base_pow}
use tarako_module.Ecc.{p256, p256_digits, p256_bytes}

-- The sign of `a - b`, as `vli_cmp` returns it.
abbrev pub cmp_sign : ℕ → ℕ → ℤ
cmp_sign a b = if ltb a b then negsuc 0 else if a == b then pos 0 else pos 1

module _ {W : Type 0} (K : Kernel W) where
  -- The vli helpers of crypto/ecc.c on arrays of `n` limbs. `vli_mod_mult_slow` wants a modulus
  -- whose top bit is set, and `vli_mod_inv` an argument that has an inverse.
  pub record VliContract (n : ℕ) : Type 0 where
    pub is_zero_law : (v : Vli) → IsVli n v → K.vli_is_zero v n ≡ (value v == 0)
    pub cmp_law :
        (v w : Vli) → IsVli n v → IsVli n w → K.vli_cmp v w n ≡ cmp_sign (value v) (value w)
    pub sub_law :
        (v w : Vli)
        → IsVli n v
        → IsVli n w
        → IsVli n (K.vli_sub v w n).0
          × ((K.vli_sub v w n).1 ≤ 1)
          × (value (K.vli_sub v w n).0 + value w ≡ value v + base_pow n * (K.vli_sub v w n).1)
    pub mod_mult_law :
        (v w m : Vli)
        → IsVli n v
        → IsVli n w
        → IsVli n m
        → base_pow n ≤ 2 * value m
        → IsVli n (K.vli_mod_mult_slow v w m n)
          × (value (K.vli_mod_mult_slow v w m n) ≡ value v * value w % value m)
    pub mod_inv_law :
        (v m : Vli) (b : ℕ)
        → IsVli n v
        → IsVli n m
        → 1 < value m
        → value v * b % value m ≡ 1
        → IsVli n (K.vli_mod_inv v m n) × (value v * value (K.vli_mod_inv v m n) % value m ≡ 1)
    pub digits_law :
        (bytes : List ℕ)
        → length bytes ≡ n * 8
        → All IsByte bytes
        → IsVli n (K.ecc_digits_from_bytes bytes (n * 8) n)
          × (value (K.ecc_digits_from_bytes bytes (n * 8) n) ≡ be_value bytes)

  -- SHA-256 fills 32 bytes.
  pub record HashContract : Type 0 where
    pub sha256_law :
        (bytes : List ℕ)
        → (length (K.sha256 bytes (length bytes)) ≡ p256_bytes)
          × All IsByte (K.sha256 bytes (length bytes))

  -- The helper writes into an array of 64 bytes.
  pub record DigestContract : Type 0 where
    pub buffer_law : (inode : ℕ) (w : W) → length (K.fsverity_get_digest inode w).0.1 ≡ 64

  -- A copy from user space gives as many bytes as were asked for.
  pub record UserContract : Type 0 where
    pub read_law :
        (arg size n : ℕ) (w : W) (bytes : List ℕ)
        → (K.read_slice arg size n w).0 ≡ inr bytes
        → length bytes ≡ n

-- A curve as a group: its base point, its coordinates, and the order of the base point.
pub record CurveGroup (P : Type 0) : Type 0 where
  pub base : P
  pub plus : P → P → P
  pub times : ℕ → P → P
  pub x_of : P → ℕ
  pub y_of : P → ℕ
  pub order : ℕ
  pub times_add : (a b : ℕ) (p : P) → times (a + b) p ≡ plus (times a p) (times b p)
  pub times_times : (a b : ℕ) (p : P) → times a (times b p) ≡ times (a * b) p
  pub times_order : (a : ℕ) → times (a % order) base ≡ times a base

module _ {W P : Type 0} (K : Kernel W) (G : CurveGroup P) where
  -- The order of P-256 has its top bit set.
  abbrev pub IsOrder : Vli → Type 0
  IsOrder n =
      IsVli p256_digits n
      × (value n ≡ G.order)
      × (base_pow p256_digits ≤ 2 * G.order)
      × (2 ≤ G.order)

  -- The key helpers: a private key is a unit modulo the order, and a public key is the multiple
  -- of the base point with both coordinates in big-endian byte order in memory. The two
  -- coordinate buffers of a point are disjoint.
  pub record KeyContract : Type 0 where
    pub alloc_law :
        (w : W) (p : Point)
        → (K.ecc_alloc_point p256_digits w).0 ≡ some p
        → p.x ≢ 0
        → p.y ≢ 0
        → p.x ≢ p.y
    pub privkey_law :
        (w : W)
        → is_negative (K.ecc_gen_privkey p256 p256_digits w).0.0 ≡ false
        → let key = (K.ecc_gen_privkey p256 p256_digits w).0.1 in
          IsVli p256_digits key × ((b : ℕ) × (value key * b % G.order ≡ 1))
    pub pubkey_law :
        (k : Vli) (w : W)
        → IsVli p256_digits k
        → is_negative (K.ecc_make_pub_key p256 p256_digits k w).0.0 ≡ false
        → let raw = (K.ecc_make_pub_key p256 p256_digits k w).0.1 in
          (length raw ≡ 2 * p256_digits)
          × All IsLimb raw
          × (be_value (bytes_of (take p256_digits raw)) ≡ G.x_of (G.times (value k) G.base))
          × (be_value (bytes_of (drop p256_digits raw)) ≡ G.y_of (G.times (value k) G.base))
    pub curve_law : (c : Curve) (n : Vli) → K.ecc_get_curve p256 ≡ some c → c.n ≡ some n → IsOrder n
