-- ===== src/Vli.antt =====
-- driver/src/vli.rs: the little-endian limb arrays of the ECC helpers. A `Vli<N>` is its list of
-- limbs (the struct is `repr(transparent)`), and `n` stands for the const parameter `N`.
pub mod Value
pub mod Add
pub mod Swap
pub mod Order
pub mod Operators
use tarako_module.Shared.{
  ℕ, zero, suc, ◌+◌, ◌-◌, ◌*◌, ◌%◌, ◌^◌, ◌<◌, ltb, ◌==◌, if◌then◌else◌, Bool, true, false, List, [],
  ◌∷◌, length, get_or, set, replicate, Option, none, some, ℤ, pos, negsuc, Outcome, ok, err, einval,
}
use tarako_module.Bytes.{u64_mod, from_be}
use tarako_module.Ffi.{Kernel, M, pure, ◌>>=◌, ◌>>◌, log, wipe}

abbrev pub Vli : Type 0
Vli = List ℕ

-- `usize::checked_mul` and `checked_add`
abbrev pub checked : ℕ → Option ℕ
checked x = if ltb x u64_mod then some x else none

unfoldable pub zero_vli : ℕ → Vli
zero_vli n = replicate n 0

-- `u64::overflowing_add`
abbrev pub overflowing_add : ℕ → ℕ → ℕ × Bool
overflowing_add a b = ((a + b) % u64_mod, ltb ((a + b) % u64_mod) a)

abbrev pub from_bool : Bool → ℕ
from_bool true = 1
from_bool false = 0

abbrev pub from_limbs : List ℕ → Vli
from_limbs limbs = limbs

-- `Clone::clone`: an array of the same limbs. Dropping one of the two leaves the other as it is.
unfoldable pub clone : Vli → Vli
clone v = v

-- `Deref::deref` and `DerefMut::deref_mut`, and the memory behind `as_ptr` and `as_mut_ptr`
unfoldable pub deref : Vli → List ℕ
deref v = v

-- One round of the loop: the limb of the result, and the carry.
unfoldable pub add_limb : ℕ → ℕ → ℕ → ℕ × ℕ
add_limb left right carry =
    let (sum, left_carry) = overflowing_add left right in
    let (sum', carry_carry) = overflowing_add sum carry in
    (sum', from_bool left_carry + from_bool carry_carry)

-- The loop over the zipped limbs.
unfoldable pub carrying_add : Vli → Vli → ℕ → Vli × ℕ
carrying_add [] rs carry = ([], carry)
carrying_add (l ∷ ls) [] carry = ([], carry)
carrying_add (l ∷ ls) (r ∷ rs) carry =
    let (sum, carry') = add_limb l r carry in
    let (limbs, out) = carrying_add ls rs carry' in (sum ∷ limbs, out)

-- The loop of `unswap` at index `i`, with `left` rounds to go.
unfoldable pub unswap_from : ℕ → ℕ → ℕ → Vli → Vli → Vli
unswap_from n zero i v out = out
unswap_from n (suc left) i v out =
    unswap_from n left (i + 1) v (set out i (from_be (get_or v (n - 1 - i) 0)))

unfoldable pub unswap : ℕ → Vli → Vli
unfolding unswap_from zero_vli
unswap n v = unswap_from n n 0 v (zero_vli n)

-- `Drop for Vli`: what the memory of the value holds afterwards.
unfoldable pub zeroed : Vli → Vli
zeroed [] = []
zeroed (l ∷ ls) = 0 ∷ zeroed ls

pub data Ordering : Type 0 where
  less equal greater : Ordering

unfoldable pub vli_cmp_to_ordering : ℤ → Ordering
vli_cmp_to_ordering (pos zero) = equal
vli_cmp_to_ordering (pos (suc r)) = greater
vli_cmp_to_ordering (negsuc r) = less

-- The default method `PartialOrd::ge` of the language's library, on the result of `partial_cmp`.
abbrev pub is_some_ge : Option Ordering → Bool
is_some_ge none = false
is_some_ge (some less) = false
is_some_ge (some equal) = true
is_some_ge (some greater) = true

module _ {W : Type 0} (K : Kernel W) (n : ℕ) where
  unfoldable pub is_zero : Vli → Bool
  is_zero v = K.vli_is_zero v n

  unfoldable pub sub_with_borrow : Vli → Vli → Vli × ℕ
  sub_with_borrow v right = K.vli_sub v right n

  unfoldable pub mod_inv : Vli → Vli → Vli
  mod_inv v modulus = K.vli_mod_inv v modulus n

  unfoldable pub mod_mult : Vli → Vli → Vli → Vli
  mod_mult v right modulus = K.vli_mod_mult_slow v right modulus n

  unfoldable pub cmp_ffi : Vli → Vli → Ordering
  unfolding vli_cmp_to_ordering
  cmp_ffi v other = vli_cmp_to_ordering (K.vli_cmp v other n)

  -- `PartialEq::eq`, for `Self` and for `&Self`
  unfoldable pub eq : Vli → Vli → Bool
  unfolding cmp_ffi
  eq v other = elim (cmp_ffi v other) [ equal ↦ true | _ ↦ false ]

  -- `Ord::cmp`
  unfoldable pub cmp : Vli → Vli → Ordering
  unfolding cmp_ffi
  cmp v other = cmp_ffi v other

  -- `PartialOrd::partial_cmp`, for `Self` and for `&Self`
  unfoldable pub partial_cmp : Vli → Vli → Option Ordering
  unfolding cmp
  partial_cmp v other = some (cmp v other)

  -- The operator `>=`
  unfoldable pub ge : Vli → Vli → Bool
  unfolding partial_cmp
  ge v other = is_some_ge (partial_cmp v other)

  unfoldable pub from_be_bytes : List ℕ → Outcome Vli
  from_be_bytes bytes = elim (checked (n * 8)) [
    | none ↦ err einval
    | some expected_len ↦
        if length bytes == expected_len
        then ok (K.ecc_digits_from_bytes bytes expected_len n)
        else err einval
  ]

-- `Drop for Vli`, as the call that a scope makes at its end.
abbrev pub drop_vli : {W : Type 0} → Vli → M W (Unit {0})
drop_vli v = log (wipe v)

-- `Add for Vli`: both operands are moved in, and dropped on return, the last one first.
unfoldable pub add : {W : Type 0} → Vli → Vli → M W Vli
unfolding carrying_add
add v rhs = do drop_vli rhs; drop_vli v; pure (carrying_add v rhs 0).0

-- `Sub for Vli`, likewise.
unfoldable pub sub_owned : {W : Type 0} → Kernel W → ℕ → Vli → Vli → M W Vli
unfolding sub_with_borrow
sub_owned K n v rhs = do drop_vli rhs; drop_vli v; pure (sub_with_borrow K n v rhs).0
