-- ===== src/Ioctl/Keys/Parity.antt =====
-- The tag of a compressed public key.
use Prim.Native.Nat.{bit_and, bit_or}
use mathlib.Core.Path.{subst}
use tarako_module.Shared.{
  ℕ, zero, suc, ◌+◌, ◌*◌, ◌%◌, ◌<◌, ◌≡◌, refl, ap, ◌∙◌, ◌==◌, ==_iff, Bool, if◌then◌else◌, true,
  false, List, [], ◌∷◌, length, get_or, All, arith, inl, inr, Bool-cases,
}
use tarako_module.Bytes.{IsByte, be_value, be_value_from}
use tarako_module.Ecc.{p256_bytes}
use tarako_module.Ioctl.Keys.{compress}

-- Two functions agree on the first `n` numbers.
unfoldable agree : (ℕ → ℕ) → (ℕ → ℕ) → ℕ → Bool
agree f g zero = true
agree f g (suc n) = if f n == g n then agree f g n else false

agree-eq : (f g : ℕ → ℕ) (n b : ℕ) → agree f g n ≡ true → b < n → f b ≡ g b
unfolding agree
agree-eq f g zero b h lt = absurd (omega arith)
agree-eq f g (suc n) b h lt = elim (Bool-cases (f n == g n)) [
  | inl e ↦ elim (Bool-cases (n == b)) [
    | inl here ↦ subst (λ x. f x ≡ g x) ((==_iff n b).0 here) ((==_iff (f n) (g n)).0 e)
    | inr away ↦ agree-eq f g n b (ground arith) (ground arith)
  ]
  | inr e ↦ absurd (ground arith)
]

tags_agree : agree (λ b. bit_or 2 (bit_and b 1)) (λ b. 2 + b % 2) 256 ≡ true
unfolding agree
tags_agree = refl

tag_lem : (b : ℕ) → IsByte b → bit_or 2 (bit_and b 1) ≡ 2 + b % 2
tag_lem b h = agree-eq (λ b. bit_or 2 (bit_and b 1)) (λ b. 2 + b % 2) 256 b tags_agree h

last_parity :
    (acc n : ℕ) (bs : List ℕ) → length bs ≡ suc n → be_value_from acc bs % 2 ≡ get_or bs n 0 % 2
unfolding be_value_from
last_parity acc n [] h = absurd (omega arith)
last_parity acc zero (b ∷ []) h = omega arith
last_parity acc zero (b ∷ (c ∷ bs)) h = absurd (omega arith)
last_parity acc (suc n) (b ∷ bs) h = last_parity (acc * 256 + b) n bs (omega arith)

get_or-IsByte : (bs : List ℕ) (i : ℕ) → All IsByte bs → IsByte (get_or bs i 0)
get_or-IsByte [] i h = omega arith
get_or-IsByte (b ∷ bs) zero h = h.0
get_or-IsByte (b ∷ bs) (suc i) h = get_or-IsByte bs i h.1

-- The compressed form is a tag that carries the parity of Y, and X.
pub compress_lem :
    (x y : List ℕ) → length y ≡ p256_bytes → All IsByte y → compress x y ≡ (2 + be_value y % 2) ∷ x
unfolding compress be_value
compress_lem x y n h =
    ap (λ t. t ∷ x)
      (tag_lem (get_or y 31 0) (get_or-IsByte y 31 h) ∙ omega (arith, last_parity 0 31 y n))
