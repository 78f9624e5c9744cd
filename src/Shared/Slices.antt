-- ===== src/Shared/Slices.antt =====
-- Rust's slicing and `copy_from_slice`, which panic out of range.
use Prim.Native.Nat.{ℕ, ◌+◌, ◌-◌}
use mathlib.Core.Path.{◌≡◌, ap, ap₂}
use mathlib.Core.Bool.{◌&&◌, true}
use mathlib.Core.List.{List, ◌++◌}
use native.Mathlib.Omega.{arith}
use tarako_module.Shared.Tests.{leb, ◌==◌, if◌then◌else◌}
use tarako_module.Shared.Lists.{length, take, drop, length-append, take-append_all, drop-append_add}
use tarako_module.Shared.Results.{Outcome, ok, panic}

module _ {A : Type 0} where
  -- `&xs[..n]`
  unfoldable pub slice_to : ℕ → List A → Outcome (List A)
  slice_to n xs = if leb n (length xs) then ok (take n xs) else panic

  -- `dst[from..to].copy_from_slice(src)`: what `dst` then holds.
  unfoldable pub copy_from_slice : List A → ℕ → ℕ → List A → Outcome (List A)
  copy_from_slice dst from to src =
      if leb from to && (leb to (length dst) && to - from == length src)
      then ok (take from dst ++ (src ++ drop to dst))
      else panic

  -- A copy over the middle part of an array.
  pub copy_from_slice-append :
      (a b c src : List A) (from to : ℕ)
      → from ≡ length a
      → to ≡ length a + length b
      → length src ≡ length b
      → copy_from_slice (a ++ (b ++ c)) from to src ≡ ok (a ++ (src ++ c))
  unfolding copy_from_slice
  copy_from_slice-append a b c src from to hf ht hs =
      rw (hf, ht, in_range) (ap₂ (λ x y. ok (x ++ (src ++ y))) (take-append_all a (b ++ c)) after)
    where
      in_range :
          (leb (length a) (length a + length b)
            && (leb (length a + length b) (length (a ++ (b ++ c)))
                && length a + length b - length a == length src))
          ≡ true
      in_range = ground (arith, length-append a (b ++ c), length-append b c)

      after : drop (length a + length b) (a ++ (b ++ c)) ≡ c
      after = drop-append_add a b c

  pub slice_to-append : (a b : List A) (n : ℕ) → n ≡ length a → slice_to n (a ++ b) ≡ ok a
  unfolding slice_to
  slice_to-append a b n h = rw (h, in_range) (ap ok (take-append_all a b))
    where
      in_range : leb (length a) (length (a ++ b)) ≡ true
      in_range = ground (arith, length-append a b)
