-- ===== src/Ioctl/Sign/Account.antt =====
-- `ecdsa_sign` gives back what it takes, on every path.
use tarako_module.Shared.{
  ℕ, zero, suc, ◌+◌, ◌≤◌, ◌≡◌, refl, Bool, true, false, none, some, List, err, einval, Bool-cases,
  inl, inr, ok, NoPanic, length, not, ◌==◌, ◌||◌, Option, if◌then◌else◌,
}
use tarako_module.Ffi.{Call, Kernel, State, M, ◌>>=◌, finally, unless_returned, wipe, pure}
use tarako_module.Ffi.Ledger.{total}
use tarako_module.Ffi.Ledger.Balanced.{
  Balanced, Balanced-scope, Balanced-unless_returned, Balanced-lift, Balanced-quiet,
  Balanced-of_Gives, Balanced-total, Balanced-NoPanic, Balanced-bind,
}
use tarako_module.Vli.{
  Vli, drop_vli, is_zero, ge, unswap, carrying_add, from_be_bytes, sub_with_borrow, mod_mult,
  mod_inv,
}
use tarako_module.Ecc.{
  p256_digits, x_scalar, sha256_hash, generate_private_key, drop_point, make_public_key,
}
use tarako_module.Ecc.Account.{
  allocated, freed, drawn, wiped, Accounts, point_accounts, key_accounts,
}
use tarako_module.Ioctl.Sign.{sub, reduce, add_mod, finish, attempt, rounds, ecdsa_sign}

from_be_bytes-NoPanic :
    {W : Type 0} (K : Kernel W) (h : List ℕ) → NoPanic (from_be_bytes K p256_digits h)
unfolding from_be_bytes
from_be_bytes-NoPanic K h = elim (Bool-cases (length h == 32)) [ inl e ↦ rw e tt | inr e ↦ rw e tt ]

module _ {W : Type 0} (K : Kernel W) (exact : Bool) (out back : Call → ℕ)
    (acc : Accounts K exact out back) where
  open acc use {key_weight, point_weight, generate, make, free, wipe_key, wipe_any}

  abbrev Bal : {A : Type 0} → M W A → Type 0
  Bal = Balanced exact out back

  pure_balanced : {A : Type 0} (a : A) → Bal {A = A} (pure a)
  pure_balanced a = Balanced-lift exact out back (ok a) tt

  sub_balanced : (v n : Vli) → Bal (sub K v n)
  unfolding sub
  sub_balanced v n =
      Balanced-bind exact out back (drop_vli v) (λ _. pure (sub_with_borrow K p256_digits v n).0)
        (Balanced-of_Gives exact out back (wipe v) (wipe_any v))
        (λ _. pure_balanced (sub_with_borrow K p256_digits v n).0)

  reduce_balanced : (v n : Vli) → Bal (reduce K v n)
  unfolding reduce
  reduce_balanced v n = elim (Bool-cases (ge K p256_digits v n)) [
    | inl e ↦ rw e (sub_balanced v n)
    | inr e ↦ rw e (pure_balanced v)
  ]

  add_mod_balanced : (z s n : Vli) → Bal (add_mod K z s n)
  unfolding add_mod
  add_mod_balanced z s n =
      let sum = carrying_add z s 0 in
      elim (Bool-cases (not (sum.1 == 0) || ge K p256_digits sum.0 n)) [
        | inl e ↦ rw e (sub_balanced sum.0 n)
        | inr e ↦ rw e (pure_balanced sum.0)
      ]

  -- A local scalar that the account does not name.
  scope_balanced :
      {A : Type 0} (m : M W Vli) (f : Vli → M W A)
      → Bal m
      → ((v : Vli) → Bal (f v))
      → Bal (m >>= λ v. finally (f v) (drop_vli v))
  scope_balanced m f h k =
      Balanced-scope exact out back (λ _. 0) m f (λ v. drop_vli v) h.settles k (λ v. wipe_any v)

  returning_balanced :
      {A : Type 0} (m : M W Vli) (f : Vli → M W (Option A))
      → Bal m
      → ((v : Vli) → Bal (f v))
      → Bal (m >>= λ v. unless_returned (f v) (drop_vli v))
  returning_balanced m f h k =
      Balanced-bind exact out back m (λ v. unless_returned (f v) (drop_vli v)) h
        (λ v. Balanced-unless_returned exact out back (f v) (drop_vli v) (k v) (wipe_any v))

  choice_balanced : {A : Type 0} (b : Bool) (x y : M W A) → Bal x → Bal y → Bal (if b then x else y)
  choice_balanced true x y p q = p
  choice_balanced false x y p q = q

  finish_balanced : (h d n k r : Vli) → Bal (finish K h d n k r)
  unfolding finish
  finish_balanced h d n k r =
      scope_balanced _ _
        (Balanced-bind exact out back _ (λ z. reduce K z n)
          (Balanced-lift exact out back (from_be_bytes K p256_digits h) (from_be_bytes-NoPanic K h))
          (λ z. reduce_balanced z n))
        λ z. scope_balanced _ _ (pure_balanced (mod_mult K p256_digits r d n)) λ s.
          scope_balanced _ _ (add_mod_balanced z s n) λ sum.
            scope_balanced _ _ (pure_balanced (mod_inv K p256_digits k n)) λ k_inv.
              returning_balanced _ _ (pure_balanced (mod_mult K p256_digits sum k_inv n)) λ s'.
                choice_balanced (is_zero K p256_digits s') _ _ (pure_balanced none)
                  (pure_balanced (some (r, s')))

  pub attempt_balanced : (h d n : Vli) → Bal (attempt K h d n)
  unfolding attempt
  attempt_balanced h d n =
      Balanced-scope exact out back key_weight (generate_private_key K) _ (λ v. drop_vli v) generate
        (λ k.
          Balanced-scope exact out back point_weight (make_public_key K k) _ (drop_point K) (make k)
            (λ p.
              scope_balanced (x_scalar K p) _
                (Balanced-quiet exact out back (x_scalar K p) (λ s. unfold x_scalar in (tt, refl)))
                λ x. returning_balanced _ _ (reduce_balanced (unswap p256_digits x) n) λ r.
                  choice_balanced (is_zero K p256_digits r) _ _ (pure_balanced none)
                    (finish_balanced h d n k r))
            free)
        wipe_key

  rounds_balanced : (left : ℕ) (h d n : Vli) → Bal (rounds K left h d n)
  unfolding rounds
  rounds_balanced zero h d n = Balanced-lift exact out back (err einval) tt
  rounds_balanced (suc left) h d n =
      Balanced-bind exact out back (attempt K h d n)
        (λ o. elim o [ some rs ↦ pure rs | none ↦ rounds K left h d n ]) (attempt_balanced h d n)
        (elim [ none ↦ rounds_balanced left h d n | some rs ↦ pure_balanced rs ])

  pub ecdsa_sign-Balanced : (bytes d n : List ℕ) → Bal (ecdsa_sign K bytes d n)
  unfolding ecdsa_sign
  ecdsa_sign-Balanced bytes d n = rounds_balanced 100 (sha256_hash K bytes) d n

module _ {W : Type 0} (K : Kernel W) (bytes d n : List ℕ) (s : State W) where
  -- Signing frees every point that it allocates, exactly once: for any weight of the addresses,
  -- the weight of the points freed during the call is that of the points allocated in it. It
  -- ends without a panic, whatever the kernel's helpers return.
  pub ecdsa_sign-frees :
      (w : ℕ → ℕ)
      → let (r, t) = ecdsa_sign K bytes d n s in
        NoPanic r
        × (total (allocated w) t.calls + total (freed w) s.calls
            ≡ total (freed w) t.calls + total (allocated w) s.calls)
  ecdsa_sign-frees w =
      let b = ecdsa_sign-Balanced K true (allocated w) (freed w) (point_accounts K w) bytes d n in
      (
        Balanced-NoPanic true (allocated w) (freed w) (ecdsa_sign K bytes d n) s b,
        Balanced-total true (allocated w) (freed w) (ecdsa_sign K bytes d n) s b,
      )

  -- Signing wipes every key that it draws: for any weight of the limbs, the weight of the scalars
  -- wiped during the call is at least that of the keys that the kernel drew in it, failed draws
  -- included.
  pub ecdsa_sign-wipes :
      (w : List ℕ → ℕ)
      → let t = (ecdsa_sign K bytes d n s).1 in
        total (drawn w) t.calls + total (wiped w) s.calls
        ≤ total (wiped w) t.calls + total (drawn w) s.calls
  ecdsa_sign-wipes w =
      Balanced-total false (drawn w) (wiped w) (ecdsa_sign K bytes d n) s
        (ecdsa_sign-Balanced K false (drawn w) (wiped w) (key_accounts K w) bytes d n)
