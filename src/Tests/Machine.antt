-- ===== src/Tests/Machine.antt =====
-- A concrete kernel over one counter: limb arithmetic by numbers, the integers modulo the order of
-- P-256 as the group, and helpers that succeed.
use native.Mathlib.Nat.{add-mod}
use tarako_module.Shared.{
  ℕ, ◌+◌, ◌-◌, ◌*◌, ◌/◌, ◌%◌, ◌^◌, ◌≡◌, ap, ◌∙◌, inl, inr, none, some, List, ◌++◌, replicate, arith,
  ltb, leb, ◌==◌, pos, negsuc, errno, efault, if◌then◌else◌, mod-mul-mod, mul-mod-mod, ◌⊎◌, Error,
}
use tarako_module.Bytes.{be_value}
use tarako_module.Ffi.{Point, Curve, Kernel}
use tarako_module.Vli.Value.{value}
use tarako_module.Vli.Add.{base_pow}
use tarako_module.Contract.{CurveGroup, cmp_sign}
use tarako_module.Tests.Limbs.{to_limbs, find_inv, swapped}

-- The order of the base point of P-256.
abbrev pub p256_order : ℕ
p256_order = 0xffffffff00000000ffffffffffffffffbce6faada7179e84f3b9cac2fc632551

-- The residues of a modulus as a group; the coordinates of a residue are itself and its successor.
pub residues-times_add : (m a b p : ℕ) → (a + b) * p % m ≡ (a * p % m + b * p % m) % m
residues-times_add m a b p = ap (λ (t : ℕ). t % m) (omega arith) ∙ add-mod (a * p) (b * p) m

pub residues-times_times : (m a b p : ℕ) → a * (b * p % m) % m ≡ a * b * p % m
residues-times_times m a b p = mul-mod-mod a (b * p) m ∙ ap (λ (t : ℕ). t % m) (omega arith)

abbrev pub residues : ℕ → CurveGroup ℕ
residues m = record {
  base = 1;
  plus = λ a b. (a + b) % m;
  times = λ k p. k * p % m;
  x_of = λ p. p;
  y_of = λ p. p + 1;
  order = m;
  times_add = residues-times_add m;
  times_times = residues-times_times m;
  times_order = λ a. mod-mul-mod a 1 m;
}

abbrev pub p256_group : CurveGroup ℕ
p256_group = residues p256_order

-- The two coordinates of `k` times the base point, as the kernel leaves them.
unfoldable pub public_key : ℕ → List ℕ
public_key k =
    swapped (to_limbs 4 (k * 1 % p256_order)) ++ swapped (to_limbs 4 (k * 1 % p256_order + 1))

abbrev pub machine_point : Point
machine_point = record { address = 16; x = 32; y = 64; ndigits = 4 }

abbrev pub machine_curve : Curve
machine_curve = record {
  nbits = 256;
  p = none;
  n = some (to_limbs 4 p256_order);
  a = none;
  b = none;
}

abbrev pub read_five : ℕ → ℕ → Error ⊎ List ℕ
read_five size n = if leb n size then inr (replicate n 5) else inl efault

abbrev pub machine : Kernel ℕ
machine = record {
  from_errno = λ r. elim r [ pos n ↦ errno 22 | negsuc n ↦ errno (n + 1) ];
  io = λ t n. t * 256 + n;
  ior = λ s t n. 2 * 2 ^ 30 + s * 2 ^ 16 + t * 256 + n;
  iowr = λ s t n. 3 * 2 ^ 30 + s * 2 ^ 16 + t * 256 + n;
  ioc_size = λ c. c / 2 ^ 16 % 2 ^ 14;
  vli_is_zero = λ v n. value v == 0;
  vli_cmp = λ v w n. cmp_sign (value v) (value w);
  vli_sub = λ v w n. (
    to_limbs n ((value v + base_pow n - value w) % base_pow n),
    if ltb (value v) (value w) then 1 else 0,
  );
  vli_mod_inv = λ v m n. to_limbs n (find_inv (value m) 0 (value v) (value m));
  vli_mod_mult_slow = λ v w m n. to_limbs n (value v * value w % value m);
  ecc_digits_from_bytes = λ bytes count n. to_limbs n (be_value bytes);
  ecc_get_curve = λ id. some machine_curve;
  sha256 = λ bytes n. replicate 32 1;
  ecc_alloc_point = λ n w. (some machine_point, w + 1);
  ecc_free_point = λ p w. w + 1;
  ecc_gen_privkey = λ id n w. ((pos 0, to_limbs 4 1), w + 1);
  ecc_make_pub_key = λ id n k w. ((pos 0, public_key (value k)), w + 1);
  ima_measure_critical_data = λ label name bytes n hash w. (pos 0, w + 1);
  fsverity_get_digest = λ inode w. ((pos 32, replicate 64 9), w + 1);
  current_mm = λ w. some 1;
  exe_file = λ mm w. 2;
  f_inode = λ exe w. 3;
  read_slice = λ arg size n w. (read_five size n, w + 1);
  write_slice = λ arg size bytes w. (none, w + 1);
  register = λ w. (none, w + 1);
  deregister = λ w. w + 1;
  get_device = λ w. w + 1;
  put_device = λ w. w + 1;
  kbox_alloc = λ w. (some 48, w + 1);
  kbox_free = λ p w. w + 1;
}
