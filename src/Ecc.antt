-- ===== src/Ecc.antt =====
-- driver/src/ecc.rs: the wrappers of the kernel's ECC, SHA-256 and IMA helpers. The wrapper
-- `Point` is the non-null pointer to the kernel's point, so it is that point here.
pub mod Account
pub mod Keys
pub mod Failure
use tarako_module.Shared.{
  ℕ, ◌+◌, ◌-◌, ◌*◌, ◌/◌, ◌==◌, ◌||◌, if◌then◌else◌, false, Option, none, some, List, length, take,
  drop, is_negative, err, enomem, efault, ok_or,
}
use tarako_module.Bytes.{bytes_of}
use tarako_module.Ffi.{
  Point, Curve, Kernel, State, M, pure, lift, ◌>>=◌, ◌>>◌, log, kernel_call, kernel_effect, load,
  store, finally, alloc_point, free_point, gen_privkey, ima_measure,
}
use tarako_module.Ffi
use tarako_module.Vli.{Vli, drop_vli}

abbrev pub p256 : ℕ
p256 = 0x0002

-- `256_usize.div_ceil(64)`
abbrev pub p256_digits : ℕ
p256_digits = (256 + 64 - 1) / 64

abbrev pub p256_bytes : ℕ
p256_bytes = p256_digits * 8

abbrev pub p256_pubkey_bytes : ℕ
p256_pubkey_bytes = 1 + p256_bytes

-- `Point::inner`: the kernel's point behind the non-null pointer.
abbrev pub inner : Point → Point
inner point = point

module _ {W : Type 0} (K : Kernel W) where
  -- The reads of the coordinate buffers: as limbs, and as bytes.
  unfoldable pub x_scalar : Point → M W Vli
  x_scalar point = load (inner point).x

  unfoldable pub x_as_bytes : Point → M W (List ℕ)
  x_as_bytes point = do limbs ← load (inner point).x; pure (bytes_of limbs)

  unfoldable pub y_as_bytes : Point → M W (List ℕ)
  y_as_bytes point = do limbs ← load (inner point).y; pure (bytes_of limbs)

  -- `Drop for Point`, and the other calls of `ecc_free_point`
  unfoldable pub drop_point : Point → M W (Unit {0})
  drop_point point = do
    kernel_effect (K.ecc_free_point point.address)
    log (free_point point.address)

  unfoldable pub get_curve_n : Option Vli
  get_curve_n = elim (K.ecc_get_curve p256) [ none ↦ none | some curve ↦ curve.n ]

  -- `key` is dropped on the error path, with what the helper has left in it.
  unfoldable pub generate_private_key : M W Vli
  generate_private_key = do
    (ret, key) ← kernel_call (K.ecc_gen_privkey p256 p256_digits)
    log (gen_privkey key)
    if is_negative ret then (drop_vli key >> lift (err (K.from_errno ret))) else pure key

  -- The part of `make_public_key` after the null checks.
  unfoldable pub fill_point : Point → Vli → M W Point
  unfolding drop_point
  fill_point point privkey = do
    (ret, raw) ← kernel_call (K.ecc_make_pub_key p256 p256_digits privkey)
    log (Ffi.make_pub_key privkey)
    if is_negative ret then (drop_point point >> lift (err (K.from_errno ret))) else do
      store point.x (take p256_digits raw)
      store point.y (take p256_digits (drop p256_digits raw))
      pure point

  unfoldable pub make_public_key : Vli → M W Point
  unfolding drop_point fill_point
  make_public_key privkey = do
    p ← kernel_call (K.ecc_alloc_point p256_digits)
    point ← lift (ok_or p enomem)
    log (alloc_point point.address)
    if point.x == 0 || point.y == 0
        then (drop_point point >> lift (err efault))
        else fill_point point privkey

  unfoldable pub sha256_hash : List ℕ → List ℕ
  sha256_hash bytes = K.sha256 bytes (length bytes)

  unfoldable pub ima_measure_pubkey : List ℕ → M W (Unit {0})
  ima_measure_pubkey bytes = do
    result ← kernel_call (
        K.ima_measure_critical_data "tarako_pubkey" "public-key-generate" bytes (length bytes)
          false)
    log (ima_measure "tarako_pubkey" "public-key-generate" bytes false)
    if is_negative result then lift (err (K.from_errno result)) else pure tt
