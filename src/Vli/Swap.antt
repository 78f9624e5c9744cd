-- ===== src/Vli/Swap.antt =====
-- `unswap` turns the limbs that hold a big-endian number in memory into that number.
use mathlib.Core.List.{reverse-cons, append_assoc}
use mathlib.Core.Path.{subst}
use tarako_module.Shared.{
  replicate, ℕ, zero, suc, ◌+◌, ◌*◌, ◌^◌, ◌<◌, ◌-◌, ◌≡◌, refl, sym, ap, ◌∙◌, List, [], ◌∷◌, ◌++◌,
  map, reverse, length, length-map, length-reverse, length-append, length-replicate, get_or, set,
  All, arith,
}
use tarako_module.Bytes.{IsLimb, le_value, le_bytes, be_value, bytes_of, from_be}
use tarako_module.Bytes.Laws.{
  bytes_of-swap, from_be-IsLimb, be_value-eq, le_value-append, le_value-le_bytes, length-le_bytes,
}
use tarako_module.Vli.{Vli, zero_vli, unswap, unswap_from}
use tarako_module.Vli.Value.{value, IsVli}

-- The little-endian bytes of the limbs stand for the same number as the limbs.
pub le_value-bytes_of : (v : Vli) → All IsLimb v → le_value (bytes_of v) ≡ value v
unfolding bytes_of value
le_value-bytes_of [] h = unfold le_value in refl
le_value-bytes_of (l ∷ v) h = omega (
  arith,
  le_value-append (le_bytes 8 l) (bytes_of v),
  ap (λ (k : ℕ). 256 ^ k * le_value (bytes_of v)) (length-le_bytes 8 l),
  le_value-le_bytes 8 l (omega (arith, h.0)),
  le_value-bytes_of v h.1,
)

map-from_be-All : (v : Vli) → All IsLimb (map from_be v)
map-from_be-All [] = tt
map-from_be-All (l ∷ v) = (from_be-IsLimb l, map-from_be-All v)

-- The reversed and byte-swapped limbs stand for the big-endian number of the bytes in memory.
pub value-swap : (v : Vli) → value (map from_be (reverse v)) ≡ be_value (bytes_of v)
value-swap v =
    sym (le_value-bytes_of (map from_be (reverse v)) (map-from_be-All (reverse v)))
    ∙ ap le_value (bytes_of-swap v)
    ∙ sym (be_value-eq (bytes_of v))

get_or-append_left :
    (xs ys : List ℕ) (i : ℕ) → i < length xs → get_or (xs ++ ys) i 0 ≡ get_or xs i 0
get_or-append_left [] ys i h = absurd (omega arith)
get_or-append_left (x ∷ xs) ys zero h = refl
get_or-append_left (x ∷ xs) ys (suc i) h = get_or-append_left xs ys i (omega arith)

get_or-append_at :
    (xs : List ℕ) (y : ℕ) (ys : List ℕ) (i : ℕ) → i ≡ length xs → get_or (xs ++ (y ∷ ys)) i 0 ≡ y
get_or-append_at [] y ys zero h = refl
get_or-append_at [] y ys (suc i) h = absurd (omega arith)
get_or-append_at (x ∷ xs) y ys zero h = absurd (omega arith)
get_or-append_at (x ∷ xs) y ys (suc i) h = get_or-append_at xs y ys i (omega arith)

-- Index `i` from the end is index `i` of the reversed list.
get_or-reverse :
    (v : List ℕ) (i j : ℕ) → i + j + 1 ≡ length v → get_or v j 0 ≡ get_or (reverse v) i 0
get_or-reverse [] i j h = absurd (omega arith)
get_or-reverse (l ∷ v) i zero h =
    rw (reverse-cons, get_or-append_at (reverse v) l [] i (omega (arith, length-reverse v)))
get_or-reverse (l ∷ v) i (suc j) h =
    rw (reverse-cons, get_or-append_left (reverse v) (l ∷ []) i (omega (arith, length-reverse v)))
      (get_or-reverse v i j (omega arith))

set-append :
    (xs : List ℕ) (y z : ℕ) (ys : List ℕ)
    → set (xs ++ (z ∷ ys)) (length xs) y ≡ (xs ++ (y ∷ [])) ++ ys
set-append [] y z ys = refl
set-append (x ∷ xs) y z ys = ap (λ t. x ∷ t) (set-append xs y z ys)

unswap_from-suc :
    (n left i : ℕ) (v out : Vli)
    → unswap_from n (suc left) i v out
      ≡ unswap_from n left (i + 1) v (set out i (from_be (get_or v (n - 1 - i) 0)))
unfolding unswap_from
unswap_from-suc n left i v out = refl

module _ (v : Vli) where
  -- After `length done` rounds the first limbs of `out` are final.
  unswap_from_lem :
      (rest todo done pre : List ℕ)
      → length done ≡ length pre
      → length todo ≡ length rest
      → reverse v ≡ pre ++ rest
      → unswap_from (length v) (length rest) (length done) v (done ++ todo)
        ≡ done ++ map from_be rest
  unswap_from_lem [] [] done pre hd ht hr = unfold unswap_from in refl
  unswap_from_lem [] (t ∷ todo) done pre hd ht hr = absurd (omega arith)
  unswap_from_lem (x ∷ rest) [] done pre hd ht hr = absurd (omega arith)
  unswap_from_lem (x ∷ rest) (t ∷ todo) done pre hd ht hr =
      rw
        (
          unswap_from-suc,
          limb,
          set-append done (from_be x) t todo,
          sym (length-append done (from_be x ∷ [])),
        )
        (unswap_from_lem rest todo (done ++ (from_be x ∷ [])) (pre ++ (x ∷ []))
            (omega (arith, length-append done (from_be x ∷ []), length-append pre (x ∷ [])))
            (omega arith) (hr ∙ sym (append_assoc pre (x ∷ []) rest))
          ∙ append_assoc done (from_be x ∷ []) (map from_be rest))
    where
      size : length v ≡ length pre + suc (length rest)
      size = sym (length-reverse v) ∙ ap length hr ∙ length-append pre (x ∷ rest)

      limb : get_or v (length v - 1 - length done) 0 ≡ x
      limb =
          get_or-reverse v (length pre) (length v - 1 - length done) (omega (arith, size))
          ∙ ap (λ (t : List ℕ). get_or t (length pre) 0) hr
          ∙ get_or-append_at pre x rest (length pre) refl

-- The loop computes the reversed array of byte-swapped limbs.
pub unswap-eq : (n : ℕ) (v : Vli) → length v ≡ n → unswap n v ≡ map from_be (reverse v)
unfolding unswap zero_vli
unswap-eq n v h =
    subst (λ k. unswap_from k k 0 v (replicate k 0) ≡ map from_be (reverse v)) h
      (subst (λ k. unswap_from (length v) k 0 v (replicate (length v) 0) ≡ map from_be (reverse v))
        (length-reverse v)
        (unswap_from_lem v (reverse v) (replicate (length v) 0) [] [] refl
          (length-replicate (length v) 0 ∙ sym (length-reverse v)) refl))

-- `unswap` of `n` words gives `n` limbs of the number that the bytes of the words in memory stand for
-- in big-endian order.
pub value-unswap :
    (n : ℕ) (v : Vli)
    → length v ≡ n
    → IsVli n (unswap n v) × (value (unswap n v) ≡ be_value (bytes_of v))
value-unswap n v h = rw (unswap-eq n v h) (
  (length-map from_be (reverse v) ∙ length-reverse v ∙ h, map-from_be-All (reverse v)),
  value-swap v,
)
