-- ===== src/Vli/Order.antt =====
-- What the wrappers of the vli helpers compute, on the numbers that the limbs stand for.
use tarako_module.Shared.{
  ℕ, zero, suc, ◌+◌, ◌-◌, ◌*◌, ◌≤◌, ◌<◌, ◌≡◌, refl, sym, ap, ap₂, ◌∙◌, ◌↔◌, leb, ◌==◌, true, false,
  [], ◌∷◌, length, All, arith, List, ok, err, einval, Bool, ℤ, ◌≢◌, some, ==_iff,
}
use tarako_module.Bytes.{IsByte, be_value, u64_mod}
use tarako_module.Ffi.{Kernel}
use tarako_module.Vli.{
  Vli, vli_cmp_to_ordering, is_zero, sub_with_borrow, eq, ge, is_some_ge, equal, from_be_bytes,
}
use tarako_module.Vli.Value.{value, IsVli}
use tarako_module.Vli.Add.{base_pow, value-lt}
use tarako_module.Contract.{VliContract, cmp_sign}

-- A limb array is determined by its number.
pub value_injective : (n : ℕ) (v w : Vli) → IsVli n v → IsVli n w → value v ≡ value w → v ≡ w
unfolding value
value_injective zero [] [] hv hw e = refl
value_injective zero [] (r ∷ w) hv hw e = absurd (omega (arith, hw.0))
value_injective zero (l ∷ v) w hv hw e = absurd (omega (arith, hv.0))
value_injective (suc n) [] w hv hw e = absurd (omega (arith, hv.0))
value_injective (suc n) (l ∷ v) [] hv hw e = absurd (omega (arith, hw.0))
value_injective (suc n) (l ∷ v) (r ∷ w) hv hw e = ap₂ ◌∷◌ (omega (arith, hv.1.0, hw.1.0, e)) (
    value_injective n v w (omega (arith, hv.0), hv.1.1) (omega (arith, hw.0), hw.1.1)
      (omega (arith, hv.1.0, hw.1.0, e)))

-- The tests on an ordering, as functions of the result of `vli_cmp`.
abbrev is_ge : ℤ → Bool
unfolding vli_cmp_to_ordering
is_ge r = is_some_ge (some (vli_cmp_to_ordering r))

abbrev is_eq : ℤ → Bool
unfolding vli_cmp_to_ordering
is_eq r = elim (vli_cmp_to_ordering r) [ equal ↦ true | _ ↦ false ]

is_ge-cmp_sign : (a b : ℕ) → is_ge (cmp_sign a b) ≡ leb b a
unfolding vli_cmp_to_ordering
is_ge-cmp_sign a b = ground arith

is_eq-cmp_sign : (a b : ℕ) → is_eq (cmp_sign a b) ≡ (a == b)
unfolding vli_cmp_to_ordering
is_eq-cmp_sign a b = ground arith

no_borrow : (a b r c B : ℕ) → b ≤ a → r < B → r + b ≡ a + B * c → c ≤ 1 → (r ≡ a - b) × (c ≡ 0)
no_borrow a b r zero B h lt e k = (omega arith, refl)
no_borrow a b r (suc zero) B h lt e k = absurd (omega arith)
no_borrow a b r (suc (suc c)) B h lt e k = absurd (omega arith)

module _ {W : Type 0} (K : Kernel W) (n : ℕ) (C : VliContract K n) where
  pub is_zero-eq : (v : Vli) → IsVli n v → is_zero K n v ≡ (value v == 0)
  unfolding is_zero
  is_zero-eq v h = C.is_zero_law v h

  -- `>=` compares the numbers of two arrays of `n` limbs, under the contract of `vli_cmp`.
  pub ge-eq : (v w : Vli) → IsVli n v → IsVli n w → ge K n v w ≡ leb (value w) (value v)
  unfolding ge
  ge-eq v w hv hw = ap is_ge (C.cmp_law v w hv hw) ∙ is_ge-cmp_sign (value v) (value w)

  pub eq-eq : (v w : Vli) → IsVli n v → IsVli n w → eq K n v w ≡ (value v == value w)
  unfolding eq
  eq-eq v w hv hw = ap is_eq (C.cmp_law v w hv hw) ∙ is_eq-cmp_sign (value v) (value w)

  -- `==` decides equality of two arrays of `n` limbs, under the contract of `vli_cmp`.
  pub eq_iff : (v w : Vli) → IsVli n v → IsVli n w → (eq K n v w ≡ true) ↔ (v ≡ w)
  eq_iff v w hv hw = (
    λ h. value_injective n v w hv hw ((==_iff (value v) (value w)).0 (sym (eq-eq v w hv hw) ∙ h)),
    λ e. eq-eq v w hv hw ∙ (==_iff (value v) (value w)).1 (ap value e),
  )

  -- `-` of a larger and a smaller array of `n` limbs is the difference of their numbers, without
  -- a borrow, under the contract of `vli_sub`.
  pub sub_lem :
      (v w : Vli)
      → IsVli n v
      → IsVli n w
      → value w ≤ value v
      → IsVli n (sub_with_borrow K n v w).0
        × (value (sub_with_borrow K n v w).0 ≡ value v - value w)
        × ((sub_with_borrow K n v w).1 ≡ 0)
  unfolding sub_with_borrow
  sub_lem v w hv hw h =
      let law = C.sub_law v w hv hw in
      let facts =
        no_borrow (value v) (value w) (value (K.vli_sub v w n).0) (K.vli_sub v w n).1 (base_pow n) h
          (value-lt n (K.vli_sub v w n).0 law.0) law.2 law.1 in
      (law.0, facts.0, facts.1)

  -- `from_be_bytes` reads an array of `8 * n` bytes as its big-endian number, in `n` limbs, under the
  -- contract of `ecc_digits_from_bytes`, where `8 * n` does not overflow.
  pub from_be_bytes_lem :
      (bytes : List ℕ)
      → length bytes ≡ n * 8
      → n * 8 < u64_mod
      → All IsByte bytes
      → (v : Vli) × (from_be_bytes K n bytes ≡ ok v) × IsVli n v × (value v ≡ be_value bytes)
  unfolding from_be_bytes
  from_be_bytes_lem bytes h small hb =
      let law = C.digits_law bytes h hb in
      (K.ecc_digits_from_bytes bytes (n * 8) n, ground arith, law.0, law.1)

  pub from_be_bytes_refuses :
      (bytes : List ℕ) → length bytes ≢ n * 8 → from_be_bytes K n bytes ≡ err einval
  unfolding from_be_bytes
  from_be_bytes_refuses bytes h = ground arith
