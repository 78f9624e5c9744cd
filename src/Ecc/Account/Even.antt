-- ===== src/Ecc/Account/Even.antt =====
-- An account that no call of the ECC wrappers changes.
use Prim.Native.String.{String}
use tarako_module.Shared.{
  ℕ, ◌≡◌, Bool, true, List, inl, inr, arith, Bool-cases, Option-cases, is_negative, ◌==◌, ◌||◌, err,
  efault, if◌then◌else◌,
}
use tarako_module.Ffi.{
  Call, Message, Point, Kernel, alloc_point, free_point, gen_privkey, make_pub_key, wipe,
  ima_measure, print, M, lift, log, ◌>>◌,
}
use tarako_module.Ffi.Ledger.{total, Owns, Gives, Gives-log, Owns-bind, Owns-log}
use tarako_module.Vli.{Vli}
use tarako_module.Ecc.{drop_point, generate_private_key, fill_point, make_public_key}
use tarako_module.Ecc.Account.{Accounts}

-- The calls of the wrappers weigh the same on both sides.
pub record Even (out back : Call → ℕ) : Type 0 where
  pub allocs : (a : ℕ) → out (alloc_point a) ≡ back (alloc_point a)
  pub frees : (a : ℕ) → out (free_point a) ≡ back (free_point a)
  pub keys : (k : List ℕ) → out (gen_privkey k) ≡ back (gen_privkey k)
  pub pubs : (k : List ℕ) → out (make_pub_key k) ≡ back (make_pub_key k)
  pub wipes : (v : List ℕ) → out (wipe v) ≡ back (wipe v)
  pub imas :
      (l n : String) (bytes : List ℕ) (hash : Bool)
      → out (ima_measure l n bytes hash) ≡ back (ima_measure l n bytes hash)
  pub prints : (m : Message) → out (print m) ≡ back (print m)

module _ {W : Type 0} (K : Kernel W) (out back : Call → ℕ) (even : Even out back) where
  generate_even : Owns true out back 0 (λ _. 0) 0 (generate_private_key K)
  unfolding generate_private_key total
  generate_even s =
      let (ret, key) = (K.ecc_gen_privkey 2 4 s.world).0 in
      elim (Bool-cases (is_negative ret)) [
        | inl e ↦ rw e (omega (arith, even.keys key, even.wipes key))
        | inr e ↦ rw e (omega (arith, even.keys key))
      ]

  fill_even : (p : Point) (k : Vli) → Owns true out back 0 (λ _. 0) 0 (fill_point K p k)
  unfolding fill_point drop_point total
  fill_even p k s = elim (Bool-cases (is_negative (K.ecc_make_pub_key 2 4 k s.world).0.0)) [
    | inl e ↦ rw e (omega (arith, even.pubs k, even.frees p.address))
    | inr e ↦ rw e (omega (arith, even.pubs k))
  ]

  free_even : (p : Point) → Gives true out back 0 (drop_point K p)
  unfolding drop_point total
  free_even p s = omega (arith, even.frees p.address)

  -- The part of `make_public_key` that owns a point.
  checked_even :
      (p : Point) (k : Vli)
      → Owns true out back 0
          (λ _. 0)
          0
          (if p.x == 0 || p.y == 0 then (drop_point K p >> lift (err efault)) else fill_point K p k)
  unfolding drop_point total
  checked_even p k s = elim (Bool-cases (p.x == 0 || p.y == 0)) [
    | inl e ↦ rw e (omega (arith, even.frees p.address))
    | inr e ↦ rw e (fill_even p k s)
  ]

  make_even : (k : Vli) → Owns true out back 0 (λ _. 0) 0 (make_public_key K k)
  unfolding make_public_key
  make_even k s = elim (Option-cases (K.ecc_alloc_point 4 s.world).0) [
    | inl e ↦ rw e (omega arith)
    | inr (p, e) ↦ rw e (
        Owns-bind true out back (λ _. 0) 0 (λ _. 0) 0 (log (alloc_point p.address)) (λ _. owned p)
          (Owns-log true out back (alloc_point p.address) 0 (even.allocs p.address))
          (λ _. checked_even p k) (record s { world = (K.ecc_alloc_point 4 s.world).1 }))
  ]
    where
      owned : Point → M W Point
      owned p =
          if p.x == 0 || p.y == 0 then (drop_point K p >> lift (err efault)) else fill_point K p k

  unfoldable pub even_accounts : Accounts K true out back
  unfolding generate_even fill_even checked_even make_even free_even
  even_accounts = record {
    key_weight = λ _. 0;
    point_weight = λ _. 0;
    generate = generate_even;
    make = make_even;
    free = free_even;
    wipe_key = λ v. Gives-log true out back (wipe v) 0 (omega (arith, even.wipes v));
    wipe_any = λ v. Gives-log true out back (wipe v) 0 (omega (arith, even.wipes v));
    measure = even.imas;
    printed = even.prints;
  }
