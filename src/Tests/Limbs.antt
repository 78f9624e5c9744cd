-- ===== src/Tests/Limbs.antt =====
-- Arithmetic on limb arrays by way of their numbers, and a modular inverse by search.
use native.Mathlib.Nat.{mod-eq_of_lt, add-mod_right}
use mathlib.Core.Path.{subst}
use tarako_module.Shared.{
  ℕ, zero, suc, ◌+◌, ◌-◌, ◌*◌, ◌/◌, ◌%◌, ◌^◌, ◌≤◌, ◌<◌, ◌≡◌, ◌≢◌, refl, ap, ◌∙◌, true, false, inl,
  inr, List, [], ◌∷◌, map, reverse, length, All, arith, Bool-cases, ◌==◌, ==_iff, ltb,
  if◌then◌else◌, length-reverse, length-map, All-reverse,
}
use tarako_module.Bytes.{IsByte, IsLimb, be_value, bytes_of, from_be, le_value}
use tarako_module.Bytes.Laws.{
  bytes_of-swap, be_value-reverse, from_be-IsLimb, be_value-eq, le_value-lt,
}
use tarako_module.Vli.{Vli}
use tarako_module.Vli.Value.{value, IsVli}
use tarako_module.Vli.Add.{base_pow}
use tarako_module.Vli.Swap.{le_value-bytes_of}

unfoldable pub to_limbs : ℕ → ℕ → Vli
to_limbs zero x = []
to_limbs (suc n) x = (x % 2 ^ 64) ∷ to_limbs n (x / 2 ^ 64)

pub to_limbs-IsVli : (n x : ℕ) → IsVli n (to_limbs n x)
unfolding to_limbs
to_limbs-IsVli zero x = (refl, tt)
to_limbs-IsVli (suc n) x =
    let ih = to_limbs-IsVli n (x / 2 ^ 64) in (ap suc ih.0, (omega arith, ih.1))

pub value-to_limbs : (n x : ℕ) → x < base_pow n → value (to_limbs n x) ≡ x
unfolding to_limbs value base_pow
value-to_limbs zero x h = omega arith
value-to_limbs (suc n) x h = omega (arith, value-to_limbs n (x / 2 ^ 64) (omega arith))

-- The subtraction with borrow.
pub wrapped : (a b B : ℕ) → a < B → b < B → (a + B - b) % B + b ≡ a + B * (if ltb a b then 1 else 0)
wrapped a b B ha hb = elim (Bool-cases (ltb a b)) [
  | inl e ↦ rw e (omega (arith, mod-eq_of_lt {n = a + B - b} {m = B} (ground arith)))
  | inr e ↦
      let le : b ≤ a = ground arith in
      let moved : a + B - b ≡ a - b + B = omega arith in
      let reduced =
        ap (λ (t : ℕ). t % B) moved ∙ add-mod_right (a - b) B ∙ mod-eq_of_lt (omega (arith, ha)) in
      rw e (omega (arith, reduced))
]

-- The first inverse of `a` from `i` on.
unfoldable pub find_inv : ℕ → ℕ → ℕ → ℕ → ℕ
find_inv zero i a m = 0
find_inv (suc f) i a m = elim (a * i % m == 1) [ true ↦ i | false ↦ find_inv f (i + 1) a m ]

pub find_inv_lem :
    (f i a m b : ℕ)
    → i ≤ b
    → b < i + f
    → a * b % m ≡ 1
    → (a * find_inv f i a m % m ≡ 1) × (find_inv f i a m < i + f)
unfolding find_inv
find_inv_lem zero i a m b h k e = absurd (omega arith)
find_inv_lem (suc f) i a m b h k e = elim (Bool-cases (a * i % m == 1)) [
  | inl found ↦ rw (found, find_inv) ((==_iff _ _).0 found, omega arith)
  | inr other ↦
      rw (other, find_inv)
        (let ih = find_inv_lem f (i + 1) a m b (later other) (omega arith) e in
          (ih.0, omega (arith, ih.1)))
]
  where
    later : (a * i % m == 1) ≡ false → i + 1 ≤ b
    later other = let ne : i ≢ b = λ p. ground (arith, ap (λ (t : ℕ). a * t % m) p) in omega arith

-- The digits of a number as `ecc_swap_digits` leaves them.
unfoldable pub swapped : Vli → Vli
swapped v = map from_be (reverse v)

pub be_value-swapped : (v : Vli) → All IsLimb v → be_value (bytes_of (swapped v)) ≡ value v
unfolding swapped
be_value-swapped v h =
    ap be_value (bytes_of-swap v) ∙ be_value-reverse (bytes_of v) ∙ le_value-bytes_of v h

pub length-swapped : (v : Vli) → length (swapped v) ≡ length v
unfolding swapped
length-swapped v = length-map from_be (reverse v) ∙ length-reverse v

pub swapped-IsLimb : (v : Vli) → All IsLimb (swapped v)
unfolding swapped
swapped-IsLimb v = go (reverse v)
  where
    go : (w : Vli) → All IsLimb (map from_be w)
    go [] = tt
    go (l ∷ w) = (from_be-IsLimb l, go w)

pub be_value-lt : (bs : List ℕ) → length bs ≡ 32 → All IsByte bs → be_value bs < base_pow 4
unfolding base_pow
be_value-lt bs n h = rw (be_value-eq bs) (
    subst (λ k. le_value (reverse bs) < 256 ^ k) (length-reverse bs ∙ n)
      (le_value-lt (reverse bs) (All-reverse IsByte bs h)))
