-- ===== src/Ioctl/Keys/Compressed.antt =====
-- The key pair that `generate_key_pair` makes.
use mathlib.Core.Path.{subst}
use tarako_module.Shared.{
  ℕ, suc, ◌+◌, ◌%◌, ◌≡◌, refl, sym, ap, Bool, true, false, not, List, ◌∷◌, length, All, arith, some,
  inl, inr, ◌⊎◌, Outcome, ok, err, panic, ℤ, Bool-cases, Option-cases, is_negative,
}
use tarako_module.Bytes.{IsByte, be_value, bytes_of}
use tarako_module.Bytes.Laws.{length-bytes_of, bytes_of-IsByte}
use tarako_module.Ffi.{
  Kernel, Point, State, pure, on_error, match_result, log, print, key_measured, key_unmeasured,
  ◌>>◌,
}
use tarako_module.Ffi.Returns.{Returns, Returns-bind, Returns-scope, Returns-on_error}
use tarako_module.Vli.{Vli, drop_vli}
use tarako_module.Vli.Value.{value}
use tarako_module.Contract.{CurveGroup, KeyContract, IsOrder}
use tarako_module.Ecc.{
  p256_bytes, x_as_bytes, y_as_bytes, drop_point, get_curve_n, generate_private_key,
  make_public_key, ima_measure_pubkey,
}
use tarako_module.Ecc.Keys.{
  IsPrivateKey, HoldsPublicKey, ArePublicKey, generate_private_key_lem, make_public_key_lem,
}
use tarako_module.Ioctl.Types.{KeyPair}
use tarako_module.Ioctl.Keys.{
  compress, measured, assemble, read_point, with_private, generate_key_pair,
}
use tarako_module.Ioctl.Keys.Parity.{compress_lem}

module _ {W P : Type 0} (K : Kernel W) (G : CurveGroup P) (C : KeyContract K G) where
  -- A private key with its public key in the compressed form of SEC1, the order of the curve, and
  -- whether IMA measured exactly these 33 bytes, as data and not as a hash.
  pub record IsKeyPair (kp : KeyPair) : Type 0 where
    pub private_ok : IsPrivateKey K G C kp.private
    pub order_ok : IsOrder K G kp.curve_n
    pub x : List ℕ
    pub x_size : length x ≡ p256_bytes
    pub x_bytes : All IsByte x
    pub x_eq : be_value x ≡ G.x_of (G.times (value kp.private) G.base)
    pub pubkey_eq : kp.pubkey ≡ (2 + G.y_of (G.times (value kp.private) G.base) % 2) ∷ x
    pub world : W
    pub measured_eq :
        kp.ima_measured
        ≡ not (
            is_negative
              (K.ima_measure_critical_data "tarako_pubkey" "public-key-generate" kp.pubkey 33 false
                world).0)

  order_of : (n : Vli) → get_curve_n K ≡ some n → IsOrder K G n
  unfolding get_curve_n
  order_of n h = elim (Option-cases (K.ecc_get_curve 2)) [
    | inl e ↦ absurd (ground arith)
    | inr (c, e) ↦ C.curve_law c n e (ground arith)
  ]

  -- What IMA says of the public key in the world `w`.
  abbrev pub ima_accepts : List ℕ → W → Bool
  ima_accepts pubkey w = not (
      is_negative
        (K.ima_measure_critical_data "tarako_pubkey" "public-key-generate" pubkey (length pubkey)
          false w).0)

  -- The answer of IMA decides between the two arms.
  ima_measure_pubkey_lem :
      (pubkey : List ℕ) (s : State W)
      → let ret =
          (K.ima_measure_critical_data "tarako_pubkey" "public-key-generate" pubkey
            (length pubkey)
            false
            s.world).0 in
        let (r, t) = ima_measure_pubkey K pubkey s in
        ((is_negative ret ≡ false) × (r ≡ ok tt))
        ⊎ ((is_negative ret ≡ true) × (r ≡ err (K.from_errno ret)))
  unfolding ima_measure_pubkey
  ima_measure_pubkey_lem pubkey s =
      elim (Bool-cases (
        is_negative
          (K.ima_measure_critical_data "tarako_pubkey" "public-key-generate" pubkey (length pubkey)
            false s.world).0)) [ inl e ↦ inr (e, rw e refl) | inr e ↦ inl (e, rw e refl) ]

  measured_lem :
      (pubkey : List ℕ) (s : State W)
      → Returns (λ b _. b ≡ ima_accepts pubkey s.world) (measured K pubkey s)
  unfolding measured
  measured_lem pubkey s = go (ima_measure_pubkey K pubkey s) (ima_measure_pubkey_lem pubkey s)
    where
      ret : ℤ
      ret =
          (K.ima_measure_critical_data "tarako_pubkey" "public-key-generate" pubkey (length pubkey)
            false s.world).0

      go :
          (x : Outcome (Unit {0}) × State W)
          → ((is_negative ret ≡ false) × (x.0 ≡ ok tt))
            ⊎ ((is_negative ret ≡ true) × (x.0 ≡ err (K.from_errno ret)))
          → Returns
              (λ b _. b ≡ ima_accepts pubkey s.world)
              (match_result
                (λ _. x)
                (λ _. log (print (key_measured pubkey)) >> pure true)
                (λ error. log (print (key_unmeasured error)) >> pure false)
                s)
      go (ok _, t) (inl h) = sym (ap not h.0)
      go (ok _, t) (inr h) = absurd (ground arith)
      go (err e, t) (inl h) = absurd (ground arith)
      go (err e, t) (inr h) = sym (ap not h.0)
      go (panic, t) (inl h) = absurd (ground arith)
      go (panic, t) (inr h) = absurd (ground arith)

  assemble_lem :
      (k : Vli) (x : List ℕ) (y : ℕ) (s : State W)
      → IsPrivateKey K G C k
      → length x ≡ p256_bytes
      → All IsByte x
      → be_value x ≡ G.x_of (G.times (value k) G.base)
      → y ≡ G.y_of (G.times (value k) G.base)
      → Returns (λ kp _. IsKeyPair kp) (assemble K k ((2 + y % 2) ∷ x) s)
  unfolding assemble
  assemble_lem k x y s hk n hx e ey = elim (Option-cases (get_curve_n K)) [
    | inl f ↦ rw f tt
    | inr (order, f) ↦ rw f (
        Returns-bind (λ b _. b ≡ ima_accepts pubkey s.world) (λ kp _. IsKeyPair kp)
          (measured K pubkey) (λ b. pure (with_flag order b)) s (measured_lem pubkey s)
          (λ b t g. pair order f b g))
  ]
    where
      pubkey : List ℕ
      pubkey = (2 + y % 2) ∷ x

      with_flag : Vli → Bool → KeyPair
      with_flag order b = record { private = k; pubkey = pubkey; curve_n = order; ima_measured = b }

      pair :
          (order : Vli)
          → get_curve_n K ≡ some order
          → (b : Bool) → b ≡ ima_accepts pubkey s.world
          → IsKeyPair (with_flag order b)
      pair order f b g = record {
        private_ok = hk;
        order_ok = order_of order f;
        x = x;
        x_size = n;
        x_bytes = hx;
        x_eq = e;
        pubkey_eq = ap (λ (t : ℕ). (2 + t % 2) ∷ x) ey;
        world = s.world;
        measured_eq =
            subst
              (λ m.
                b
                ≡ not (
                    is_negative
                      (K.ima_measure_critical_data "tarako_pubkey" "public-key-generate" pubkey m
                        false s.world).0))
              (ap suc n) g;
      }

  -- The part after both keys are made.
  from_point :
      (k : Vli) (x y : List ℕ) (s : State W)
      → IsPrivateKey K G C k
      → ArePublicKey K G C k x y
      → Returns (λ kp _. IsKeyPair kp) (assemble K k (compress (bytes_of x) (bytes_of y)) s)
  from_point k x y s hk h =
      let size : (v : List ℕ) → length v ≡ 4 → length (bytes_of v) ≡ 32 =
        λ v e. omega (arith, length-bytes_of v, e) in
      subst (λ p. Returns (λ kp _. IsKeyPair kp) (assemble K k p s))
        (sym (compress_lem (bytes_of x) (bytes_of y) (size y h.1) (bytes_of-IsByte y)))
        (assemble_lem k (bytes_of x) (be_value (bytes_of y)) s hk (size x h.0) (bytes_of-IsByte x)
          h.2 h.3)

  read_point_lem :
      (k : Vli) (p : Point) (s : State W)
      → IsPrivateKey K G C k
      → HoldsPublicKey K G C k p s
      → Returns (λ kp _. IsKeyPair kp) (read_point K k p s)
  unfolding read_point x_as_bytes y_as_bytes
  read_point_lem k p s hk h = from_point k (s.buffers p.x) (s.buffers p.y) s hk h

  with_private_lem :
      (k : Vli) (s : State W)
      → IsPrivateKey K G C k
      → Returns (λ kp _. IsKeyPair kp) (with_private K k s)
  unfolding with_private
  with_private_lem k s hk =
      Returns-scope (HoldsPublicKey K G C k) IsKeyPair (make_public_key K k) (read_point K k)
        (drop_point K) s (make_public_key_lem K G C k s hk.0) (λ p t h. read_point_lem k p t hk h)

  -- Under the contract of the key helpers, a key pair that `generate_key_pair` returns is a
  -- private key with its own public key in SEC1's compressed form, 33 bytes, the order of the
  -- curve, and `ima_measured` set exactly where IMA accepted a measurement of those bytes. It
  -- ends without a panic, whatever fails on the way.
  pub generate_key_pair-IsKeyPair :
      (s : State W) → Returns (λ kp _. IsKeyPair kp) (generate_key_pair K s)
  unfolding generate_key_pair
  generate_key_pair-IsKeyPair s =
      Returns-bind (λ k _. IsPrivateKey K G C k) (λ kp _. IsKeyPair kp) (generate_private_key K)
        (λ k. on_error (with_private K k) (drop_vli k)) s (generate_private_key_lem K G C s)
        λ k t hk.
          Returns-on_error IsKeyPair (with_private K k) (drop_vli k) t (with_private_lem k t hk)
