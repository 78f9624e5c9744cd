-- ===== src/Ioctl/Sign/Steps.antt =====
-- The arithmetic steps of a signing round, on the numbers that the scalars stand for.
use native.Mathlib.Nat.{mod-eq_of_lt, mod-eq-sub-mod}
use tarako_module.Shared.{
  ℕ, ◌+◌, ◌-◌, ◌*◌, ◌%◌, ◌≤◌, ◌<◌, ◌≡◌, refl, sym, ap, ◌∙◌, true, false, inl, inr, arith, leb,
  leb→le, Bool-cases, ◌==◌, ◌||◌, not, Bool, zero, suc,
}
use tarako_module.Ffi.{Kernel, State}
use tarako_module.Ffi.Returns.{Returns}
use tarako_module.Vli.{Vli, ge, carrying_add, sub_with_borrow}
use tarako_module.Vli.Value.{value, IsVli}
use tarako_module.Vli.Add.{base_pow, value-lt, carrying_add_lem}
use tarako_module.Vli.Order.{ge-eq, sub_lem}
use tarako_module.Contract.{VliContract}
use tarako_module.Ecc.{p256_digits}
use tarako_module.Ioctl.Sign.{sub, reduce, add_mod}

mod_once : (a m : ℕ) → m ≤ a → a < 2 * m → a % m ≡ a - m
mod_once a m h k = mod-eq-sub-mod h ∙ mod-eq_of_lt (omega arith)

-- The subtraction that follows an addition of two reduced numbers: it borrows exactly when the
-- addition carried, so its result is the sum less the modulus.
sum_less_modulus :
    (z s n sum r c b B : ℕ)
    → z < n
    → s < n
    → n < B
    → sum + B * c ≡ z + s
    → c ≤ 1
    → r + n ≡ sum + B * b
    → b ≤ 1
    → r < B
    → ((c ≡ 0) → n ≤ sum)
    → r ≡ (z + s) % n
sum_less_modulus z s n sum r zero zero B hz hs hn e hc e' hb hr t =
    let low : n ≤ sum = t refl in
    let exact : r ≡ z + s - n = omega arith in
    exact ∙ sym (mod_once (z + s) n (omega arith) (omega arith))
sum_less_modulus z s n sum r zero (suc zero) B hz hs hn e hc e' hb hr t =
    let low : n ≤ sum = t refl in absurd (omega arith)
sum_less_modulus z s n sum r (suc zero) zero B hz hs hn e hc e' hb hr t = absurd (omega arith)
sum_less_modulus z s n sum r (suc zero) (suc zero) B hz hs hn e hc e' hb hr t =
    let exact : r ≡ z + s - n = omega arith in
    exact ∙ sym (mod_once (z + s) n (omega arith) (omega arith))
sum_less_modulus z s n sum r zero (suc (suc b)) B hz hs hn e hc e' hb hr t = absurd (omega arith)
sum_less_modulus z s n sum r (suc zero) (suc (suc b)) B hz hs hn e hc e' hb hr t =
    absurd (omega arith)
sum_less_modulus z s n sum r (suc (suc c)) b B hz hs hn e hc e' hb hr t = absurd (omega arith)

no_carry_test : (c : ℕ) (big : Bool) → c ≡ 0 → (not (c == 0) || big) ≡ true → big ≡ true
no_carry_test c big h e = ground arith

no_carry :
    (z s n sum c B : ℕ) (big : Bool)
    → sum + B * c ≡ z + s
    → (not (c == 0) || big) ≡ false
    → big ≡ leb n sum
    → sum ≡ (z + s) % n
no_carry z s n sum zero B big e t h =
    let below : sum < n = ground arith in
    let whole : sum ≡ z + s = omega arith in sym (mod-eq_of_lt below) ∙ ap (λ (t : ℕ). t % n) whole
no_carry z s n sum (suc c) B big e t h = ground arith

module _ {W : Type 0} (K : Kernel W) (C : VliContract K p256_digits) (n : Vli)
    (hn : IsVli p256_digits n) (top : base_pow p256_digits ≤ 2 * value n) where
  -- The conditional subtraction reduces any scalar of four limbs modulo the order, and does not
  -- panic, where the order has its top bit set and under the contract of the vli helpers.
  pub reduce_lem :
      (v : Vli) (s : State W)
      → IsVli p256_digits v
      → Returns (λ r _. IsVli p256_digits r × (value r ≡ value v % value n)) (reduce K v n s)
  unfolding reduce sub
  reduce_lem v s hv = elim (Bool-cases (ge K p256_digits v n)) [
    | inl e ↦
        let above = leb→le (value n) (value v) (sym (ge-eq K p256_digits C v n hv hn) ∙ e) in
        let law = sub_lem K p256_digits C v n hv hn above in
        let bound = value-lt p256_digits v hv in
        rw e (law.0, law.1 ∙ sym (mod_once (value v) (value n) above (omega arith)))
    | inr e ↦
        let eq = sym (ge-eq K p256_digits C v n hv hn) ∙ e in
        rw e (hv, sym (mod-eq_of_lt (ground arith)))
  ]

  -- The sum of two reduced scalars is their sum modulo the order, reduced, also where the addition
  -- carries out of the four limbs; it does not panic. The order has its top bit set, and the vli
  -- helpers meet their contract.
  pub add_mod_lem :
      (z w : Vli) (s : State W)
      → IsVli p256_digits z
      → IsVli p256_digits w
      → value z < value n
      → value w < value n
      → Returns
          (λ r _. IsVli p256_digits r × (value r ≡ (value z + value w) % value n))
          (add_mod K z w n s)
  unfolding add_mod sub sub_with_borrow
  add_mod_lem z w s hz hw lz lw = elim (Bool-cases (not (carry == 0) || ge K p256_digits sum n)) [
    | inl e ↦
        let law = C.sub_law sum n add.0 hn in
        rw e (
          law.0,
          sum_less_modulus (value z) (value w) (value n) (value sum)
              (value (K.vli_sub sum n p256_digits).0) carry (K.vli_sub sum n p256_digits).1
              (base_pow p256_digits) lz lw (value-lt p256_digits n hn) (omega (arith, add.2)) add.1
              law.2 law.1 (value-lt p256_digits (K.vli_sub sum n p256_digits).0 law.0)
              (λ none_carried.
                leb→le (value n) (value sum)
                  (sym ge_sum ∙ no_carry_test carry (ge K p256_digits sum n) none_carried e)),
        )
    | inr e ↦ rw e (
      add.0,
      no_carry (value z) (value w) (value n) (value sum) carry (base_pow p256_digits)
          (ge K p256_digits sum n) (omega (arith, add.2)) e ge_sum,
    )
  ]
    where
      sum : Vli
      sum = (carrying_add z w 0).0

      carry : ℕ
      carry = (carrying_add z w 0).1

      add :
          IsVli p256_digits sum
          × (carry ≤ 1)
          × (value sum + base_pow p256_digits * carry ≡ value z + value w + 0)
      add = carrying_add_lem p256_digits z w 0 hz hw (omega arith)

      ge_sum : ge K p256_digits sum n ≡ leb (value n) (value sum)
      ge_sum = ge-eq K p256_digits C sum n add.0 hn
