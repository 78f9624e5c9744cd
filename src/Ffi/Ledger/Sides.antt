-- ===== src/Ffi/Ledger/Sides.antt =====
-- The comparison of two sides of an account.
use tarako_module.Shared.{ℕ, ◌+◌, ◌≤◌, ◌≡◌, Bool, true, false, arith}

-- Equality for an exact account, and `≤` where more may be given back than was taken.
abbrev pub Rel : Bool → ℕ → ℕ → Type 0
Rel true a b = a ≡ b
Rel false a b = a ≤ b

pub Rel-refl : (exact : Bool) (a b : ℕ) → a ≡ b → Rel exact a b
Rel-refl true a b e = e
Rel-refl false a b e = omega arith

-- Two accounts in a row: `o` taken, `b` given back, at three moments.
pub Rel-trans :
    (exact : Bool) (o₀ o₁ o₂ b₀ b₁ b₂ pre mid post : ℕ)
    → Rel exact (o₁ + b₀ + pre) (b₁ + o₀ + mid)
    → Rel exact (o₂ + b₁ + mid) (b₂ + o₁ + post)
    → Rel exact (o₂ + b₀ + pre) (b₂ + o₀ + post)
Rel-trans true o₀ o₁ o₂ b₀ b₁ b₂ pre mid post p q = omega arith
Rel-trans false o₀ o₁ o₂ b₀ b₁ b₂ pre mid post p q = omega arith

-- The same where the second account gives back `d` of what is held.
pub Rel-give :
    (exact : Bool) (o₀ o₁ o₂ b₀ b₁ b₂ pre post d : ℕ)
    → Rel exact (o₁ + b₀ + pre) (b₁ + o₀ + (post + d))
    → Rel exact (o₂ + b₁ + d) (b₂ + o₁)
    → Rel exact (o₂ + b₀ + pre) (b₂ + o₀ + post)
Rel-give true o₀ o₁ o₂ b₀ b₁ b₂ pre post d p q = omega arith
Rel-give false o₀ o₁ o₂ b₀ b₁ b₂ pre post d p q = omega arith

pub Rel-frame :
    (exact : Bool) (a b c pre post : ℕ)
    → Rel exact (a + pre) (b + post)
    → Rel exact (a + (pre + c)) (b + (post + c))
Rel-frame true a b c pre post p = omega arith
Rel-frame false a b c pre post p = omega arith

pub Rel-log :
    (exact : Bool) (o b d x y : ℕ) → Rel exact (o + d) b → Rel exact (o + x + y + d) (b + y + x)
Rel-log true o b d x y p = omega arith
Rel-log false o b d x y p = omega arith

pub Rel-zeros : (exact : Bool) (a b : ℕ) → Rel exact (a + 0) (b + 0) → Rel exact a b
Rel-zeros true a b p = omega arith
Rel-zeros false a b p = omega arith

pub Rel-zero : (exact : Bool) (a b : ℕ) → Rel exact (a + 0) b → Rel exact (a + 0) (b + 0)
Rel-zero true a b p = omega arith
Rel-zero false a b p = omega arith

pub Rel-two :
    (exact : Bool) (o₀ o₁ o₂ b₀ b₁ b₂ c d : ℕ)
    → Rel exact (o₁ + b₀ + c) (b₁ + o₀)
    → Rel exact (o₂ + b₁ + d) (b₂ + o₁)
    → Rel exact (o₂ + b₀ + (c + d)) (b₂ + o₀)
Rel-two true o₀ o₁ o₂ b₀ b₁ b₂ c d p q = omega arith
Rel-two false o₀ o₁ o₂ b₀ b₁ b₂ c d p q = omega arith

pub Rel-plus : (exact : Bool) (a b c d : ℕ) → c ≡ d → Rel exact (a + c) b → Rel exact (a + d) b
Rel-plus true a b c d e p = omega arith
Rel-plus false a b c d e p = omega arith

pub Rel-start : (exact : Bool) (a b : ℕ) → Rel exact (a + 0) b → Rel exact a b
Rel-start true a b p = omega arith
Rel-start false a b p = omega arith

pub Rel-split : (exact : Bool) (a b c : ℕ) → Rel exact a (b + c) → Rel exact a (b + (0 + c))
Rel-split true a b c p = omega arith
Rel-split false a b c p = omega arith

-- The same account after a call that weighs `p` on both sides.
pub Rel-even :
    (exact : Bool) (o o' b b' x y c d p : ℕ)
    → o' ≡ p + o
    → b' ≡ p + b
    → Rel exact (o + x + c) (b + y + d)
    → Rel exact (o' + x + c) (b' + y + d)
Rel-even true o o' b b' x y c d p e f r = omega arith
Rel-even false o o' b b' x y c d p e f r = omega arith

pub Rel-end : (exact : Bool) (a b : ℕ) → Rel exact a b → Rel exact a (b + 0)
Rel-end true a b p = omega arith
Rel-end false a b p = omega arith

pub Rel-drop : (exact : Bool) (a b : ℕ) → Rel exact a (b + 0) → Rel exact a b
Rel-drop true a b p = omega arith
Rel-drop false a b p = omega arith

pub Rel-join :
    (exact : Bool) (o₀ o₁ o₂ b₀ b₁ b₂ : ℕ)
    → Rel exact (o₁ + b₀) (b₁ + o₀)
    → Rel exact (o₂ + b₁) (b₂ + o₁)
    → Rel exact (o₂ + b₀) (b₂ + o₀)
Rel-join true o₀ o₁ o₂ b₀ b₁ b₂ p q = omega arith
Rel-join false o₀ o₁ o₂ b₀ b₁ b₂ p q = omega arith
