-- ===== src/Ioctl/Handlers/Errors/Slices.antt =====
-- The steps of `handle_sign_data` on slices panic out of range, and give no error.
use tarako_module.Shared.{
  ℕ, ◌+◌, ◌*◌, ◌≢◌, refl, inl, inr, List, [], ◌∷◌, length, Error, Outcome, ok, err, panic,
  copy_from_slice, arith, Bool-cases, leb, ◌&&◌, ◌-◌, ◌==◌,
}
use tarako_module.Bytes.{to_be_bytes}
use tarako_module.Ioctl.Handlers.{write_limbs}

copy_from_slice-err :
    (dst : List ℕ) (from to : ℕ) (src : List ℕ) (e : Error)
    → copy_from_slice dst from to src ≢ err e
unfolding copy_from_slice
copy_from_slice-err dst from to src e h =
    elim (Bool-cases (leb from to && (leb to (length dst) && to - from == length src))) [
      | inl f ↦ absurd (ground arith)
      | inr f ↦ absurd (ground arith)
    ]

chain-err :
    {A B : Type 0} (x : Outcome A) (f : A → Outcome B)
    → ((e : Error) → x ≢ err e)
    → ((a : A) (e : Error) → f a ≢ err e)
    → (e : Error) → (elim x [ ok a ↦ f a | err e ↦ err e | panic ↦ panic ]) ≢ err e
chain-err (ok a) f h k e p = k a e p
chain-err (err e') f h k e p = h e' refl
chain-err panic f h k e p = absurd (ground arith)

pub write_limbs-err : (i : ℕ) (limbs sig : List ℕ) (e : Error) → write_limbs i limbs sig ≢ err e
unfolding write_limbs
write_limbs-err i [] sig e h = absurd (ground arith)
write_limbs-err i (limb ∷ limbs) sig e h =
    chain-err (copy_from_slice sig (i * 8) ((i + 1) * 8) (to_be_bytes limb))
      (λ sig'. write_limbs (i + 1) limbs sig')
      (copy_from_slice-err sig (i * 8) ((i + 1) * 8) (to_be_bytes limb))
      (λ sig'. write_limbs-err (i + 1) limbs sig') e h
