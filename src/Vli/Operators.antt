-- ===== src/Vli/Operators.antt =====
-- The operators of a limb array: its order, and addition and subtraction that wrap around.
use tarako_module.Shared.{
  inl, inr, Bool-cases, ltb, ◌==◌, ℕ, zero, suc, ◌+◌, ◌*◌, ◌%◌, ◌≤◌, ◌<◌, ◌≡◌, refl, sym, ap, ◌∙◌,
  arith, ok, ◌∷◌,
}
use mathlib.Core.Path.{subst}
use native.Mathlib.Nat.{mod-eq_of_lt, add-mul-mod_self_left}
use tarako_module.Ffi.{Kernel, State, ◌>>=◌, wipe}
use tarako_module.Vli.{
  Vli, Ordering, less, equal, greater, vli_cmp_to_ordering, cmp, add, sub_owned, carrying_add,
  sub_with_borrow,
}
use tarako_module.Vli.Value.{value, IsVli}
use tarako_module.Vli.Add.{base_pow, value-lt, carrying_add_lem}
use tarako_module.Vli.Order.{value_injective}
use tarako_module.Contract.{VliContract, cmp_sign}

-- The comparison of two numbers, independent of the code.
abbrev pub Compares : Ordering → ℕ → ℕ → Type 0
Compares less a b = a < b
Compares equal a b = a ≡ b
Compares greater a b = b < a

cmp_sign-Compares : (a b : ℕ) → Compares (vli_cmp_to_ordering (cmp_sign a b)) a b
unfolding vli_cmp_to_ordering
cmp_sign-Compares a b = elim (Bool-cases (ltb a b)) [
  | inl e ↦ rw (e, vli_cmp_to_ordering) (ground arith)
  | inr e ↦ elim (Bool-cases (a == b)) [
    | inl f ↦ rw (e, f, vli_cmp_to_ordering) (ground arith)
    | inr f ↦ rw (e, f, vli_cmp_to_ordering) (ground arith)
  ]
]

-- A number below `B` that is another one up to a carry of 0 or 1.
wraps : (x r c B : ℕ) → r < B → c ≤ 1 → r + B * c ≡ x → r ≡ x % B
wraps x r c B lt one e =
    sym (mod-eq_of_lt lt) ∙ sym (add-mul-mod_self_left r B c) ∙ ap (λ (t : ℕ). t % B) e

cancel : (x y B c d : ℕ) → x < B → y < B → c ≤ 1 → d ≤ 1 → x + B * c ≡ y + B * d → x ≡ y
cancel x y B zero zero hx hy hc hd e = omega arith
cancel x y B zero (suc zero) hx hy hc hd e = absurd (omega arith)
cancel x y B (suc zero) zero hx hy hc hd e = absurd (omega arith)
cancel x y B (suc zero) (suc zero) hx hy hc hd e = omega arith
cancel x y B (suc (suc c)) d hx hy hc hd e = absurd (omega arith)
cancel x y B c (suc (suc d)) hx hy hc hd e = absurd (omega arith)

-- `+` is addition modulo `2 ^ (64 * n)`: it gives `n` limbs, and wipes both operands.
pub add_lem :
    {W : Type 0} (n : ℕ) (v w : Vli) (s : State W)
    → IsVli n v
    → IsVli n w
    → (r : Vli) × (add v w s ≡ (ok r, record s { calls = wipe v ∷ wipe w ∷ s.calls }))
      × IsVli n r
      × (value r ≡ (value v + value w) % base_pow n)
unfolding add
add_lem n v w s hv hw =
    let law = carrying_add_lem n v w 0 hv hw (omega arith) in
    let r = (carrying_add v w 0).0 in
    (
      r,
      refl,
      law.0,
      wraps (value v + value w) (value r) (carrying_add v w 0).1 (base_pow n) (value-lt n r law.0)
          law.1 (omega (arith, law.2)),
    )

module _ {W : Type 0} (K : Kernel W) (n : ℕ) (C : VliContract K n) where
  -- The order of two arrays of `n` limbs is the order of their numbers, whichever of the three it
  -- is, under the contract of `vli_cmp`.
  pub cmp-Compares :
      (v w : Vli) → IsVli n v → IsVli n w → Compares (cmp K n v w) (value v) (value w)
  unfolding cmp
  cmp-Compares v w hv hw =
      subst (λ r. Compares (vli_cmp_to_ordering r) (value v) (value w)) (sym (C.cmp_law v w hv hw))
        (cmp_sign-Compares (value v) (value w))

  -- Adding an array of `n` limbs and subtracting it again gives the first array back, also where
  -- the sum wraps around, under the contract of `vli_sub`.
  pub sub_owned-add :
      (v w : Vli) (s : State W)
      → IsVli n v
      → IsVli n w
      → ((add v w >>= λ t. sub_owned K n t w) s).0 ≡ ok v
  unfolding add sub_owned
  sub_owned-add v w s hv hw =
      let (l, one, law) = carrying_add_lem n v w 0 hv hw (omega arith) in
      let (l', one', law') = C.sub_law (carrying_add v w 0).0 w l hw in
      let d = (sub_with_borrow K n (carrying_add v w 0).0 w).0 in
      ap ok (
        value_injective n d v l' hv (
          cancel (value d) (value v) (base_pow n) (carrying_add v w 0).1
            (sub_with_borrow K n (carrying_add v w 0).0 w).1 (value-lt n d l') (value-lt n v hv) one
            one' (omega (arith, law, law'))))
