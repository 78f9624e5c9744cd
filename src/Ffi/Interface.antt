-- ===== src/Ffi/Interface.antt =====
-- The functions that driver/src/ffi.rs declares, and those of the `kernel` crate that the module
-- calls, as one interface.
--
-- `W` is the state of the rest of the kernel. A pointer is its address, and 0 is the null
-- pointer. A function that reads or changes the rest of the kernel takes `W` and returns it; the
-- vli helpers, SHA-256 and the curve table are pure. A function that fills a buffer returns what
-- the buffer then holds, beside its return value.
use Prim.Native.String.{String}
use tarako_module.Shared.{ℕ, Bool, Option, List, ◌⊎◌, ℤ, Error}

-- `struct Point`, at `address`.
pub record Point : Type 0 where
  pub address : ℕ
  pub x : ℕ
  pub y : ℕ
  pub ndigits : ℕ

-- `struct Curve`: what its pointers point to, and `none` for a null pointer. `name` and `g` are
-- left out: the module does not read them.
pub record Curve : Type 0 where
  pub nbits : ℕ
  pub p : Option (List ℕ)
  pub n : Option (List ℕ)
  pub a : Option (List ℕ)
  pub b : Option (List ℕ)

pub record Kernel (W : Type 0) : Type 0 where
  -- `kernel::error`
  pub from_errno : ℤ → Error
  -- `kernel::ioctl`: the size of the type argument stands first.
  pub io : ℕ → ℕ → ℕ
  pub ior : ℕ → ℕ → ℕ → ℕ
  pub iowr : ℕ → ℕ → ℕ → ℕ
  pub ioc_size : ℕ → ℕ
  -- crypto/ecc.c, lib/crypto/sha256.c
  pub vli_is_zero : List ℕ → ℕ → Bool
  pub vli_cmp : List ℕ → List ℕ → ℕ → ℤ
  pub vli_sub : List ℕ → List ℕ → ℕ → List ℕ × ℕ
  pub vli_mod_inv : List ℕ → List ℕ → ℕ → List ℕ
  pub vli_mod_mult_slow : List ℕ → List ℕ → List ℕ → ℕ → List ℕ
  pub ecc_digits_from_bytes : List ℕ → ℕ → ℕ → List ℕ
  pub ecc_get_curve : ℕ → Option Curve
  pub sha256 : List ℕ → ℕ → List ℕ
  pub ecc_alloc_point : ℕ → W → Option Point × W
  pub ecc_free_point : ℕ → W → W
  pub ecc_gen_privkey : ℕ → ℕ → W → (ℤ × List ℕ) × W
  pub ecc_make_pub_key : ℕ → ℕ → List ℕ → W → (ℤ × List ℕ) × W
  -- security/integrity/ima, fs/verity
  pub ima_measure_critical_data : String → String → List ℕ → ℕ → Bool → W → ℤ × W
  pub fsverity_get_digest : ℕ → W → (ℤ × List ℕ) × W
  -- `current!().mm()` as a raw pointer, and the fields that the module reads behind it
  pub current_mm : W → Option ℕ
  pub exe_file : ℕ → W → ℕ
  pub f_inode : ℕ → W → ℕ
  -- `UserSlice::new(addr, size).reader().read_slice` of so many bytes, and `write_slice`
  pub read_slice : ℕ → ℕ → ℕ → W → (Error ⊎ List ℕ) × W
  pub write_slice : ℕ → ℕ → List ℕ → W → Option Error × W
  -- `MiscDeviceRegistration`: register, which may fail, and deregister on drop
  pub register : W → Option Error × W
  pub deregister : W → W
  -- The reference count behind `ARef<Device>`, and the allocator of `KBox`, which gives an address
  -- or nothing
  pub get_device : W → W
  pub put_device : W → W
  pub kbox_alloc : W → Option ℕ × W
  pub kbox_free : ℕ → W → W
