-- ===== src/Vli/Add.antt =====
-- `carrying_add` is addition with a carry in and a carry out.
use tarako_module.Shared.{ℕ, zero, suc, ◌+◌, ◌*◌, ◌^◌, ◌≤◌, ◌<◌, ◌≡◌, refl, ap, [], ◌∷◌, arith}
use tarako_module.Bytes.{IsLimb}
use tarako_module.Vli.{Vli, add_limb, carrying_add}
use tarako_module.Vli.Value.{value, IsVli}

-- `2 ^ (64 * n)`, by recursion.
unfoldable pub base_pow : ℕ → ℕ
base_pow zero = 1
base_pow (suc n) = 2 ^ 64 * base_pow n

pub value-lt : (n : ℕ) (v : Vli) → IsVli n v → value v < base_pow n
unfolding value base_pow
value-lt zero [] h = omega arith
value-lt zero (l ∷ ls) h = absurd (omega (arith, h.0))
value-lt (suc n) [] h = absurd (omega (arith, h.0))
value-lt (suc n) (l ∷ ls) h = omega (arith, h.1.0, value-lt n ls (omega (arith, h.0), h.1.1))

pub add_limb_lem :
    (l r c : ℕ)
    → IsLimb l
    → IsLimb r
    → c ≤ 1
    → (IsLimb (add_limb l r c).0)
      × ((add_limb l r c).1 ≤ 1)
      × ((add_limb l r c).0 + 2 ^ 64 * (add_limb l r c).1 ≡ l + r + c)
unfolding add_limb
add_limb_lem l r c hl hr hc = ground arith

-- `carrying_add` is addition: for arrays of `n` limbs and a carry in of at most 1, the sum of the
-- numbers and the carry is the result with the carry out, at most 1, as its digit of weight
-- `2 ^ (64 * n)`, and the result is `n` limbs.
pub carrying_add_lem :
    (n : ℕ) (v w : Vli) (c : ℕ)
    → IsVli n v
    → IsVli n w
    → c ≤ 1
    → IsVli n (carrying_add v w c).0
      × ((carrying_add v w c).1 ≤ 1)
      × (value (carrying_add v w c).0 + base_pow n * (carrying_add v w c).1 ≡ value v + value w + c)
unfolding carrying_add value base_pow
carrying_add_lem zero [] [] c hv hw hc = ((refl, tt), hc, omega arith)
carrying_add_lem zero [] (r ∷ w) c hv hw hc = absurd (omega (arith, hw.0))
carrying_add_lem zero (l ∷ v) w c hv hw hc = absurd (omega (arith, hv.0))
carrying_add_lem (suc n) [] w c hv hw hc = absurd (omega (arith, hv.0))
carrying_add_lem (suc n) (l ∷ v) [] c hv hw hc = absurd (omega (arith, hw.0))
carrying_add_lem (suc n) (l ∷ v) (r ∷ w) c hv hw hc =
    let a = add_limb_lem l r c hv.1.0 hw.1.0 hc in
    let ih =
      carrying_add_lem n v w (add_limb l r c).1 (omega (arith, hv.0), hv.1.1)
        (omega (arith, hw.0), hw.1.1) a.1 in
    ((ap suc ih.0.0, (a.0, ih.0.1)), ih.1, omega (arith, a.2, ih.2))
