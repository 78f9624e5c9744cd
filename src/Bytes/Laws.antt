-- ===== src/Bytes/Laws.antt =====
-- Lengths, ranges and round trips of the byte conversions.
use mathlib.Core.List.{
  append-nil, append_assoc, map-append, reverse-append, reverse-cons, reverse-reverse,
}
use mathlib.Core.Path.{subst}
use native.Mathlib.Nat.{pow-suc}
use tarako_module.Shared.{
  ℕ, zero, suc, ◌+◌, ◌*◌, ◌/◌, ◌^◌, ◌<◌, ◌≡◌, refl, sym, ap, ap₂, ◌∙◌, List, [], ◌∷◌, ◌++◌, map,
  reverse, arith, length, length-append, length-reverse, All, All-append, All-reverse,
}
use tarako_module.Bytes.{
  IsByte, IsLimb, le_bytes, le_value, be_value_from, be_value, from_be, bytes_of,
}

pub length-le_bytes : (k x : ℕ) → length (le_bytes k x) ≡ k
unfolding le_bytes
length-le_bytes zero x = refl
length-le_bytes (suc k) x = ap suc (length-le_bytes k (x / 256))

pub le_bytes-IsByte : (k x : ℕ) → All IsByte (le_bytes k x)
unfolding le_bytes
le_bytes-IsByte zero x = tt
le_bytes-IsByte (suc k) x = (omega arith, le_bytes-IsByte k (x / 256))

pub le_value-le_bytes : (k x : ℕ) → x < 256 ^ k → le_value (le_bytes k x) ≡ x
unfolding le_bytes le_value
le_value-le_bytes zero x h = omega arith
le_value-le_bytes (suc k) x h =
    omega (arith, le_value-le_bytes k (x / 256) (omega (arith, pow-suc 256 k)))

pub le_bytes-le_value : (bs : List ℕ) → All IsByte bs → le_bytes (length bs) (le_value bs) ≡ bs
unfolding le_bytes le_value
le_bytes-le_value [] h = refl
le_bytes-le_value (b ∷ bs) h =
    let quotient : (b + 256 * le_value bs) / 256 ≡ le_value bs = omega (arith, h.0) in
    ap₂ ◌∷◌ (omega (arith, h.0)) (ap (le_bytes (length bs)) quotient ∙ le_bytes-le_value bs h.1)

pub le_value-lt : (bs : List ℕ) → All IsByte bs → le_value bs < 256 ^ length bs
unfolding le_value
le_value-lt [] h = omega arith
le_value-lt (b ∷ bs) h = omega (arith, h.0, pow-suc 256 (length bs), le_value-lt bs h.1)

pub le_value-append :
    (xs ys : List ℕ) → le_value (xs ++ ys) ≡ le_value xs + 256 ^ length xs * le_value ys
unfolding le_value
le_value-append [] ys = omega arith
le_value-append (x ∷ xs) ys =
    omega (arith, le_value-append xs ys, ap (λ (t : ℕ). t * le_value ys) (pow-suc 256 (length xs)))

be_value_from_last :
    (acc : ℕ) (xs : List ℕ) (b : ℕ)
    → be_value_from acc (xs ++ (b ∷ [])) ≡ be_value_from acc xs * 256 + b
unfolding be_value_from
be_value_from_last acc [] b = refl
be_value_from_last acc (x ∷ xs) b = be_value_from_last (acc * 256 + x) xs b

-- Read from the other end, a byte array stands for the same number.
pub be_value-reverse : (bs : List ℕ) → be_value (reverse bs) ≡ le_value bs
unfolding be_value le_value
be_value-reverse [] = refl
be_value-reverse (b ∷ bs) =
    rw (reverse-cons, be_value_from_last) (omega (arith, be_value-reverse bs))

pub be_value-eq : (bs : List ℕ) → be_value bs ≡ le_value (reverse bs)
be_value-eq bs = ap be_value (sym (reverse-reverse bs)) ∙ be_value-reverse (reverse bs)

pub be_value-append :
    (xs ys : List ℕ) → be_value (xs ++ ys) ≡ be_value xs * 256 ^ length ys + be_value ys
be_value-append xs ys =
    rw (be_value-eq (xs ++ ys), reverse-append, le_value-append, length-reverse)
      (omega (arith, be_value-eq ys, ap (λ (t : ℕ). 256 ^ length ys * t) (be_value-eq xs)))

-- `from_be` undoes `to_be_bytes`, and its result is a limb.
pub le_bytes-from_be : (x : ℕ) → le_bytes 8 (from_be x) ≡ reverse (le_bytes 8 x)
unfolding from_be
le_bytes-from_be x =
    let bs = reverse (le_bytes 8 x) in
    let n : length bs ≡ 8 = length-reverse (le_bytes 8 x) ∙ length-le_bytes 8 x in
    ap (λ k. le_bytes k (le_value bs)) (sym n)
    ∙ le_bytes-le_value bs (All-reverse IsByte (le_bytes 8 x) (le_bytes-IsByte 8 x))

le_value-IsLimb : (bs : List ℕ) → All IsByte bs → length bs ≡ 8 → IsLimb (le_value bs)
le_value-IsLimb bs h n = subst (λ k. le_value bs < 256 ^ k) n (le_value-lt bs h)

pub from_be-IsLimb : (x : ℕ) → IsLimb (from_be x)
unfolding from_be
from_be-IsLimb x =
    le_value-IsLimb (reverse (le_bytes 8 x))
      (All-reverse IsByte (le_bytes 8 x) (le_bytes-IsByte 8 x))
      (length-reverse (le_bytes 8 x) ∙ length-le_bytes 8 x)

pub length-bytes_of : (v : List ℕ) → length (bytes_of v) ≡ length v * 8
unfolding bytes_of
length-bytes_of [] = refl
length-bytes_of (l ∷ ls) =
    omega
      (arith, length-append (le_bytes 8 l) (bytes_of ls), length-le_bytes 8 l, length-bytes_of ls)

pub bytes_of-IsByte : (v : List ℕ) → All IsByte (bytes_of v)
unfolding bytes_of
bytes_of-IsByte [] = tt
bytes_of-IsByte (l ∷ ls) =
    All-append IsByte (le_bytes 8 l) (bytes_of ls) (le_bytes-IsByte 8 l) (bytes_of-IsByte ls)

bytes_of-append : (v w : List ℕ) → bytes_of (v ++ w) ≡ bytes_of v ++ bytes_of w
unfolding bytes_of
bytes_of-append [] w = refl
bytes_of-append (l ∷ v) w =
    ap (λ t. le_bytes 8 l ++ t) (bytes_of-append v w)
    ∙ sym (append_assoc (le_bytes 8 l) (bytes_of v) (bytes_of w))

bytes_of-cons : (l : ℕ) (v : List ℕ) → bytes_of (l ∷ v) ≡ le_bytes 8 l ++ bytes_of v
unfolding bytes_of
bytes_of-cons l v = refl

bytes_of-nil : bytes_of [] ≡ []
unfolding bytes_of
bytes_of-nil = refl

-- Reversing the limbs and the bytes of each limb reverses the bytes in memory.
pub bytes_of-swap : (v : List ℕ) → bytes_of (map from_be (reverse v)) ≡ reverse (bytes_of v)
bytes_of-swap [] = unfold bytes_of in refl
bytes_of-swap (l ∷ v) = rw (
  reverse-cons,
  map-append,
  bytes_of-append,
  bytes_of-cons,
  bytes_of-swap v,
  bytes_of-cons,
  bytes_of-nil,
  le_bytes-from_be,
  append-nil,
  reverse-append,
)
