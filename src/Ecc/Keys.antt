-- ===== src/Ecc/Keys.antt =====
-- The key helpers under their contract: what a success of the wrappers gives.
use mathlib.Core.Path.{subst, subst₂}
use tarako_module.Shared.{
  ℕ, ◌*◌, ◌%◌, ◌≡◌, ◌≢◌, refl, sym, ap, ◌∙◌, inl, inr, List, length, take, drop, length-take,
  length-drop, arith, Bool-cases, Option-cases, is_negative, err, ◌==◌, ◌||◌, take_all, All,
  if◌then◌else◌, efault,
}
use tarako_module.Bytes.{be_value, bytes_of, IsLimb}
use tarako_module.Ffi.{Kernel, Point, State, ◌>>◌, lift, update}
use tarako_module.Ffi.Returns.{Returns}
use tarako_module.Vli.{Vli}
use tarako_module.Vli.Value.{value, IsVli}
use tarako_module.Contract.{CurveGroup, KeyContract}
use tarako_module.Ecc.{
  p256, p256_digits, generate_private_key, fill_point, make_public_key, drop_point,
}

update_two :
    (b : ℕ → List ℕ) (x y : ℕ) (u v : List ℕ)
    → x ≢ y
    → (update (update b x u) y v x ≡ u) × (update (update b x u) y v y ≡ v)
update_two b x y u v ne = ground arith

module _ {W P : Type 0} (K : Kernel W) (G : CurveGroup P) (C : KeyContract K G) where
  -- A private key of P-256, and a unit modulo the order.
  abbrev pub IsPrivateKey : Vli → Type 0
  IsPrivateKey k = IsVli p256_digits k × ((b : ℕ) × (value k * b % G.order ≡ 1))

  pub generate_private_key_lem :
      (s : State W) → Returns (λ k _. IsPrivateKey k) (generate_private_key K s)
  unfolding generate_private_key
  generate_private_key_lem s =
      elim (Bool-cases (is_negative (K.ecc_gen_privkey p256 p256_digits s.world).0.0)) [
        | inl e ↦ rw e tt
        | inr e ↦ rw e (C.privkey_law s.world e)
      ]

  -- A private key that the kernel gave when it was asked for one in the state `s`.
  abbrev pub IsDrawn : State W → Vli → Type 0
  IsDrawn s k = IsPrivateKey k × (k ≡ (K.ecc_gen_privkey p256 p256_digits s.world).0.1)

  pub generate_private_key-IsDrawn :
      (s : State W) → Returns (λ k _. IsDrawn s k) (generate_private_key K s)
  unfolding generate_private_key
  generate_private_key-IsDrawn s =
      elim (Bool-cases (is_negative (K.ecc_gen_privkey p256 p256_digits s.world).0.0)) [
        | inl e ↦ rw e tt
        | inr e ↦ rw e (C.privkey_law s.world e, refl)
      ]

  -- The buffers of the point hold the public key of `k`, in big-endian order in memory.
  abbrev pub ArePublicKey : Vli → List ℕ → List ℕ → Type 0
  ArePublicKey k x y =
      (length x ≡ p256_digits)
      × (length y ≡ p256_digits)
      × (be_value (bytes_of x) ≡ G.x_of (G.times (value k) G.base))
      × (be_value (bytes_of y) ≡ G.y_of (G.times (value k) G.base))

  abbrev pub HoldsPublicKey : Vli → Point → State W → Type 0
  HoldsPublicKey k p t = ArePublicKey k (t.buffers p.x) (t.buffers p.y)

  raw_halves :
      (k : Vli) (raw : List ℕ)
      → (length raw ≡ 2 * p256_digits)
        × All IsLimb raw
        × (be_value (bytes_of (take p256_digits raw)) ≡ G.x_of (G.times (value k) G.base))
        × (be_value (bytes_of (drop p256_digits raw)) ≡ G.y_of (G.times (value k) G.base))
      → ArePublicKey k (take 4 raw) (take 4 (drop 4 raw))
  raw_halves k raw h = (
    length-take 4 raw (omega (arith, h.0)),
    ap length second ∙ rest,
    h.2,
    ap (λ t. be_value (bytes_of t)) second ∙ h.3,
  )
    where
      rest : length (drop 4 raw) ≡ 4
      rest = omega (arith, length-drop 4 raw, h.0)

      second : take 4 (drop 4 raw) ≡ drop 4 raw
      second = subst (λ n. take n (drop 4 raw) ≡ drop 4 raw) rest (take_all (drop 4 raw))

  fill_point_lem :
      (p : Point) (k : Vli) (s : State W)
      → p.x ≢ p.y
      → IsVli p256_digits k
      → Returns (HoldsPublicKey k) (fill_point K p k s)
  unfolding fill_point
  fill_point_lem p k s ne hk =
      elim (Bool-cases (is_negative (K.ecc_make_pub_key p256 p256_digits k s.world).0.0)) [
        | inl e ↦ rw e tt
        | inr e ↦ rw e (
            let raw = (K.ecc_make_pub_key p256 p256_digits k s.world).0.1 in
            let bufs = update_two s.buffers p.x p.y (take 4 raw) (take 4 (drop 4 raw)) ne in
            subst₂ (λ x y. ArePublicKey k x y) (sym bufs.0) (sym bufs.1)
              (raw_halves k raw (C.pubkey_law k s.world hk e)))
      ]

  -- What `make_public_key` does with a point that was allocated.
  checked_point :
      (k : Vli) (p : Point) (s : State W)
      → IsVli p256_digits k
      → (p.x ≢ 0 → p.y ≢ 0 → p.x ≢ p.y)
      → Returns (HoldsPublicKey k) (
          (if p.x == 0 || p.y == 0 then (drop_point K p >> lift (err efault)) else fill_point K p k)
            s)
  unfolding drop_point
  checked_point k p s hk distinct = elim (Bool-cases (p.x == 0 || p.y == 0)) [
    | inl e ↦ rw e tt
    | inr e ↦
        let nulls : (p.x ≢ 0) × (p.y ≢ 0) = (ground arith, ground arith) in
        rw e (fill_point_lem p k s (distinct nulls.0 nulls.1) hk)
  ]

  pub make_public_key_lem :
      (k : Vli) (s : State W)
      → IsVli p256_digits k
      → Returns (HoldsPublicKey k) (make_public_key K k s)
  unfolding make_public_key
  make_public_key_lem k s hk = elim (Option-cases (K.ecc_alloc_point p256_digits s.world).0) [
    | inl e ↦ rw e tt
    | inr (p, e) ↦ rw e (checked_point k p _ hk (C.alloc_law s.world p e))
  ]
