-- ===== src/Ecc/Account.antt =====
-- What the ECC wrappers take and give back: every point that is allocated is freed or returned,
-- and every private key that is drawn is wiped or returned.
pub mod Even
use Prim.Native.String.{String}
use tarako_module.Shared.{
  ℕ, ◌≡◌, refl, Bool, true, false, List, inl, inr, arith, Bool-cases, is_negative,
}
use tarako_module.Ffi.{
  Call, Message, print, Point, Kernel, alloc_point, free_point, gen_privkey, wipe, ima_measure,
}
use tarako_module.Ffi.Ledger.{total, Owns, Gives, Gives-log}
use tarako_module.Vli.{Vli, drop_vli}
use tarako_module.Ecc.{drop_point, generate_private_key, fill_point, make_public_key}

-- A weight for the address of a point, on its allocation and on its release.
abbrev pub allocated : (ℕ → ℕ) → Call → ℕ
allocated w (alloc_point a) = w a
allocated w _ = 0

abbrev pub freed : (ℕ → ℕ) → Call → ℕ
freed w (free_point a) = w a
freed w _ = 0

-- A weight for the limbs of a scalar, where the kernel draws a key and where one is wiped.
abbrev pub drawn : (List ℕ → ℕ) → Call → ℕ
drawn w (gen_privkey key) = w key
drawn w _ = 0

abbrev pub wiped : (List ℕ → ℕ) → Call → ℕ
wiped w (wipe v) = w v
wiped w _ = 0

-- What an account needs of the calls of the wrappers: the weight of a key and of a point.
pub record Accounts {W : Type 0} (K : Kernel W) (exact : Bool) (out back : Call → ℕ) : Type 0 where
  pub key_weight : Vli → ℕ
  pub point_weight : Point → ℕ
  pub generate : Owns exact out back 0 key_weight 0 (generate_private_key K)
  pub make : (k : Vli) → Owns exact out back 0 point_weight 0 (make_public_key K k)
  pub free : (p : Point) → Gives exact out back (point_weight p) (drop_point K p)
  pub wipe_key : (v : Vli) → Gives exact out back (key_weight v) (drop_vli {W = W} v)
  pub wipe_any : (v : Vli) → Gives exact out back 0 (drop_vli {W = W} v)
  pub measure :
      (l n : String) (bytes : List ℕ) (hash : Bool)
      → out (ima_measure l n bytes hash) ≡ back (ima_measure l n bytes hash)
  pub printed : (m : Message) → out (print m) ≡ back (print m)

module _ {W : Type 0} (K : Kernel W) (w : ℕ → ℕ) where
  pub gen_points : Owns true (allocated w) (freed w) 0 (λ _. 0) 0 (generate_private_key K)
  unfolding generate_private_key total
  gen_points s = elim (Bool-cases (is_negative (K.ecc_gen_privkey 2 4 s.world).0.0)) [
    | inl e ↦ rw e (omega arith)
    | inr e ↦ rw e (omega arith)
  ]

  pub make_points :
      (k : Vli) → Owns true (allocated w) (freed w) 0 (λ p. w p.address) 0 (make_public_key K k)
  unfolding make_public_key fill_point drop_point total
  make_points k s = ground arith

  pub free_points : (p : Point) → Gives true (allocated w) (freed w) (w p.address) (drop_point K p)
  unfolding drop_point total
  free_points p s = omega arith

module _ {W : Type 0} (K : Kernel W) (w : List ℕ → ℕ) where
  pub gen_keys : Owns false (drawn w) (wiped w) 0 w 0 (generate_private_key K)
  unfolding generate_private_key total
  gen_keys s = elim (Bool-cases (is_negative (K.ecc_gen_privkey 2 4 s.world).0.0)) [
    | inl e ↦ rw e (omega arith)
    | inr e ↦ rw e (omega arith)
  ]

  pub make_keys : (k : Vli) → Owns false (drawn w) (wiped w) 0 (λ _. 0) 0 (make_public_key K k)
  unfolding make_public_key fill_point drop_point total
  make_keys k s = ground arith

  pub free_keys : (p : Point) → Gives false (drawn w) (wiped w) 0 (drop_point K p)
  unfolding drop_point total
  free_keys p s = omega arith

module _ {W : Type 0} (K : Kernel W) where
  unfoldable pub point_accounts : (w : ℕ → ℕ) → Accounts K true (allocated w) (freed w)
  point_accounts w = record {
    key_weight = λ _. 0;
    point_weight = λ p. w p.address;
    generate = gen_points K w;
    make = make_points K w;
    free = free_points K w;
    wipe_key = λ v. Gives-log true (allocated w) (freed w) (wipe v) 0 refl;
    wipe_any = λ v. Gives-log true (allocated w) (freed w) (wipe v) 0 refl;
    measure = λ l n bytes hash. refl;
    printed = λ m. refl;
  }

  unfoldable pub key_accounts : (w : List ℕ → ℕ) → Accounts K false (drawn w) (wiped w)
  key_accounts w = record {
    key_weight = w;
    point_weight = λ _. 0;
    generate = gen_keys K w;
    make = make_keys K w;
    free = free_keys K w;
    wipe_key = λ v. Gives-log false (drawn w) (wiped w) (wipe v) (w v) (omega arith);
    wipe_any = λ v. Gives-log false (drawn w) (wiped w) (wipe v) 0 (omega arith);
    measure = λ l n bytes hash. refl;
    printed = λ m. refl;
  }
