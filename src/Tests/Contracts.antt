-- ===== src/Tests/Contracts.antt =====
-- The concrete kernel meets every contract.
use native.Mathlib.Nat.{mod-lt}
use mathlib.Core.Path.{subst}
use tarako_module.Shared.{
  ℕ, zero, suc, ◌+◌, ◌-◌, ◌*◌, ◌%◌, ◌≤◌, ◌<◌, ◌≡◌, refl, ap, ap₂, ◌∙◌, inr, some, List, ◌++◌,
  length, take, drop, All, All-append, arith, length-append, length-replicate, All-replicate,
  take-append_all, drop-append_all, mul-mod-mod,
}
use tarako_module.Bytes.{IsByte, IsLimb, be_value, bytes_of}
use tarako_module.Ffi.{Curve}
use tarako_module.Vli.{Vli}
use tarako_module.Vli.Value.{value, IsVli}
use tarako_module.Vli.Add.{base_pow, value-lt}
use tarako_module.Contract.{
  VliContract, HashContract, DigestContract, UserContract, KeyContract, IsOrder,
}
use tarako_module.Tests.Limbs.{
  to_limbs, to_limbs-IsVli, value-to_limbs, wrapped, find_inv, find_inv_lem, swapped,
  be_value-swapped, length-swapped, swapped-IsLimb, be_value-lt,
}
use tarako_module.Tests.Machine.{
  p256_order, p256_group, public_key, machine_curve, machine, read_five,
}

base_pow-pos : (n : ℕ) → 0 < base_pow n
unfolding base_pow
base_pow-pos zero = omega arith
base_pow-pos (suc n) = omega (arith, base_pow-pos n)

-- A product modulo an array fits an array.
mult_fits : (n x m : ℕ) → m < base_pow n → base_pow n ≤ 2 * m → value (to_limbs n (x % m)) ≡ x % m
mult_fits n x m small top =
    let pos : 0 < m = omega (arith, base_pow-pos n) in
    value-to_limbs n (x % m) (omega (arith, mod-lt x {m = m} pos))

pub machine_vli : VliContract machine 4
machine_vli = record {
  is_zero_law = λ v h. refl;
  cmp_law = λ v w hv hw. refl;
  sub_law = λ v w hv hw.
      let B = base_pow 4 in
      let below : (value v + B - value w) % B < B = mod-lt _ (base_pow-pos 4) in
      (
        to_limbs-IsVli 4 _,
        ground arith,
        ap (λ (t : ℕ). t + value w) (value-to_limbs 4 _ below)
            ∙ wrapped (value v) (value w) B (value-lt 4 v hv) (value-lt 4 w hw),
      );
  mod_mult_law = λ v w m hv hw hm top.
      (to_limbs-IsVli 4 _, mult_fits 4 (value v * value w) (value m) (value-lt 4 m hm) top);
  mod_inv_law = λ v m b hv hm big e. (to_limbs-IsVli 4 _, inverse v m b hm big e);
  digits_law =
      λ bytes n h. (to_limbs-IsVli 4 _, value-to_limbs 4 (be_value bytes) (be_value-lt bytes n h));
}
  where
    inverse :
        (v m : Vli) (b : ℕ)
        → IsVli 4 m
        → 1 < value m
        → value v * b % value m ≡ 1
        → value v * value (to_limbs 4 (find_inv (value m) 0 (value v) (value m))) % value m ≡ 1
    inverse v m b hm big e =
        let below : b % value m < value m = mod-lt b (omega arith) in
        let found =
          find_inv_lem (value m) 0 (value v) (value m) (b % value m) (omega arith)
            (omega (arith, below)) (mul-mod-mod (value v) b (value m) ∙ e) in
        let small : find_inv (value m) 0 (value v) (value m) < base_pow 4 =
          omega (arith, found.1, value-lt 4 m hm) in
        ap (λ (t : ℕ). value v * t % value m) (value-to_limbs 4 _ small) ∙ found.0

pub machine_hash : HashContract machine
machine_hash = record {
  sha256_law = λ bytes. (length-replicate {A = ℕ} 32 1, All-replicate IsByte 32 1 (omega arith));
}

pub machine_digest : DigestContract machine
machine_digest = record { buffer_law = λ inode w. length-replicate {A = ℕ} 64 9 }

pub machine_user : UserContract machine
machine_user = record { read_law = λ arg size n w bytes h. read size n bytes h }
  where
    read : (size n : ℕ) (bytes : List ℕ) → read_five size n ≡ inr bytes → length bytes ≡ n
    read size n bytes h = ground (arith, length-replicate {A = ℕ} n 5)

coordinate_lt : (x : ℕ) → x % p256_order + 1 < base_pow 4
unfolding base_pow
coordinate_lt x = omega (arith, mod-lt x {m = p256_order} (omega arith))

coordinate : (x : ℕ) → x < base_pow 4 → be_value (bytes_of (swapped (to_limbs 4 x))) ≡ x
coordinate x h = be_value-swapped (to_limbs 4 x) (to_limbs-IsVli 4 x).1 ∙ value-to_limbs 4 x h

size_of : (x : ℕ) → length (swapped (to_limbs 4 x)) ≡ 4
size_of x = length-swapped (to_limbs 4 x) ∙ (to_limbs-IsVli 4 x).0

-- The two halves of the public key.
halves : (x y : List ℕ) → length x ≡ 4 → (take 4 (x ++ y) ≡ x) × (drop 4 (x ++ y) ≡ y)
halves x y h = (
  subst (λ n. take n (x ++ y) ≡ x) h (take-append_all x y),
  subst (λ n. drop n (x ++ y) ≡ y) h (drop-append_all x y),
)

public_key_lem :
    (k : ℕ)
    → (length (public_key k) ≡ 8)
      × All IsLimb (public_key k)
      × (be_value (bytes_of (take 4 (public_key k))) ≡ k * 1 % p256_order)
      × (be_value (bytes_of (drop 4 (public_key k))) ≡ k * 1 % p256_order + 1)
unfolding public_key
public_key_lem k =
    let a : ℕ = k * 1 % p256_order in
    let x = swapped (to_limbs 4 a) in
    let y = swapped (to_limbs 4 (a + 1)) in
    let split = halves x y (size_of a) in
    let small = coordinate_lt (k * 1) in
    (
      length-append x y ∙ ap₂ ◌+◌ (size_of a) (size_of (a + 1)),
      All-append IsLimb x y (swapped-IsLimb (to_limbs 4 a)) (swapped-IsLimb (to_limbs 4 (a + 1))),
      ap (λ t. be_value (bytes_of t)) split.0 ∙ coordinate a (omega (arith, small)),
      ap (λ t. be_value (bytes_of t)) split.1 ∙ coordinate (a + 1) small,
    )

pub machine_order : IsOrder machine p256_group (to_limbs 4 p256_order)
unfolding base_pow
machine_order = (
  to_limbs-IsVli 4 p256_order,
  value-to_limbs 4 p256_order (omega arith),
  omega arith,
  omega arith,
)

pub one_value : value (to_limbs 4 1) ≡ 1
unfolding to_limbs value
one_value = refl

machine_curve_law :
    (c : Curve) (n : Vli)
    → some machine_curve ≡ some c
    → c.n ≡ some n
    → IsOrder machine p256_group n
machine_curve_law c n e f =
    let same_curve : machine_curve ≡ c = cc in
    let found : some (to_limbs 4 p256_order) ≡ some n = ap (λ (x : Curve). x.n) same_curve ∙ f in
    let same : to_limbs 4 p256_order ≡ n = cc in
    subst (λ n. IsOrder machine p256_group n) same machine_order

pub machine_keys : KeyContract machine p256_group
machine_keys = record {
  alloc_law = λ w p e hx hy. ground arith;
  privkey_law = λ w h. (to_limbs-IsVli 4 1, (1, ap (λ (t : ℕ). t * 1 % p256_order) one_value));
  pubkey_law = λ k w hk h. public_key_lem (value k);
  curve_law = λ c n e f. machine_curve_law c n e f;
}
