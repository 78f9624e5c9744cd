-- ===== src/Ioctl/Sign/Round.antt =====
-- One round of `ecdsa_sign` from its `r` on.
use native.Mathlib.Nat.{mod-lt, add-mod}
use tarako_module.Shared.{
  ℕ, ◌+◌, ◌*◌, ◌%◌, ◌≤◌, ◌<◌, ◌≡◌, ◌≢◌, sym, ap, ap₂, ◌∙◌, inl, inr, ◌⊎◌, none, some, Option, arith,
  List, length, Bool-cases, if◌then◌else◌, mod-mul-mod, All,
}
use tarako_module.Bytes.{IsByte, be_value, bytes_of}
use tarako_module.Ffi.{Kernel, State, pure, lift, ◌>>=◌}
use tarako_module.Ffi.Returns.{Returns, Returns-scope, Returns-returning, Returns-mono}
use tarako_module.Vli.{Vli, is_zero, unswap, mod_mult, mod_inv, from_be_bytes, drop_vli}
use tarako_module.Vli.Value.{value, IsVli}
use tarako_module.Vli.Add.{base_pow}
use tarako_module.Vli.Order.{is_zero-eq, from_be_bytes_lem}
use tarako_module.Contract.{VliContract, KeyContract, CurveGroup, IsOrder}
use tarako_module.Ecc.{p256_digits, p256_bytes}
use tarako_module.Ecc.Keys.{IsPrivateKey, IsDrawn}
use tarako_module.Ecdsa.{IsSignature, IsSignature-of_nonce}
use tarako_module.Ioctl.Sign.{reduce, add_mod, finish}
use tarako_module.Ioctl.Sign.Steps.{reduce_lem, add_mod_lem}

module _ {W P : Type 0} (K : Kernel W) (G : CurveGroup P) (V : VliContract K p256_digits)
    (C : KeyContract K G) (n d : Vli) (order : IsOrder K G n) (private : IsVli p256_digits d) where
  -- The digest is 32 bytes.
  abbrev pub IsDigest : List ℕ → Type 0
  IsDigest h = (length h ≡ p256_bytes) × All IsByte h

  -- What the verifier makes of a pair of scalars.
  abbrev pub Signs : List ℕ → Vli × Vli → Type 0
  Signs h (r, s) =
      IsVli p256_digits r
      × IsVli p256_digits s
      × IsSignature G (G.times (value d) G.base) (be_value h) (value r) (value s)

  -- The nonce that is drawn in the state `o` gives no signature: its `r`, or its `s` for an inverse
  -- of it, is zero modulo the order.
  abbrev pub Skipped : State W → List ℕ → Type 0
  Skipped o h =
      (k : Vli) × IsDrawn K G C o k
      × ((G.x_of (G.times (value k) G.base) % G.order ≡ 0)
          ⊎ ((k_inv : ℕ) × (value k * k_inv % G.order ≡ 1)
              × ((be_value h + G.x_of (G.times (value k) G.base) % G.order * value d)
                    * k_inv
                    % G.order
                  ≡ 0)))

  -- What a round that starts in `o` gives.
  abbrev pub SignsIfAny : State W → List ℕ → Option (Vli × Vli) → Type 0
  SignsIfAny o h none = Skipped o h
  SignsIfAny o h (some rs) = Signs h rs

  -- The scalar `r` of a nonce `k`.
  record IsR (k r : Vli) : Type 0 where
    fits : IsVli p256_digits r
    is_x : value r ≡ G.x_of (G.times (value k) G.base) % G.order
    r_pos : 0 < value r

  -- A scalar that is reduced modulo the order.
  abbrev pub Residue : ℕ → Vli → State W → Type 0
  Residue a v _ = IsVli p256_digits v × (value v ≡ a % value n)

  order_pos : 0 < value n
  order_pos = omega (arith, order.1, order.3)

  pub top : base_pow p256_digits ≤ 2 * value n
  top = omega (arith, order.1, order.2)

  z_lem :
      (h : List ℕ) (s : State W)
      → IsDigest h
      → Returns
          (Residue (be_value h))
          ((lift (from_be_bytes K p256_digits h) >>= λ z. reduce K z n) s)
  z_lem h s hh =
      let (v, eq, fits, reads) = from_be_bytes_lem K p256_digits V h hh.0 (omega arith) hh.1 in
      rw (eq, ◌>>=◌)
        (Returns-mono (Residue (value v)) (Residue (be_value h)) (reduce K v n s)
          (λ r _ q. (q.0, q.1 ∙ ap (λ (t : ℕ). t % value n) reads))
          (reduce_lem K V n order.0 top v s fits))

  k_inv_lem :
      (k : Vli)
      → IsPrivateKey K G C k
      → IsVli p256_digits (mod_inv K p256_digits k n)
        × (value k * value (mod_inv K p256_digits k n) % G.order ≡ 1)
  unfolding mod_inv
  k_inv_lem k ((fits), (b, unit)) =
      let law =
        V.mod_inv_law k n b fits order.0 (omega (arith, order.1, order.3))
          (ap (λ (t : ℕ). value k * b % t) order.1 ∙ unit) in
      (
        law.0,
        ap (λ (t : ℕ). value k * value (K.vli_mod_inv k n p256_digits) % t) (sym order.1) ∙ law.1,
      )

  mult_lem :
      (v w : Vli)
      → IsVli p256_digits v
      → IsVli p256_digits w
      → IsVli p256_digits (mod_mult K p256_digits v w n)
        × (value (mod_mult K p256_digits v w n) ≡ value v * value w % value n)
  unfolding mod_mult
  mult_lem v w hv hw = V.mod_mult_law v w n hv hw order.0 top

  -- The equation that the last scalar of a round satisfies.
  last_equation :
      (h : List ℕ) (r z s sum k_inv s' : Vli)
      → value z ≡ be_value h % value n
      → value s ≡ value r * value d % value n
      → value sum ≡ (value z + value s) % value n
      → value s' ≡ value sum * value k_inv % value n
      → value s' ≡ (be_value h + value r * value d) * value k_inv % G.order
  last_equation h r z s sum k_inv s' ez es esum es' =
      es'
      ∙ ap (λ (t : ℕ). t * value k_inv % value n) reduced_sum
      ∙ mod-mul-mod (be_value h + value r * value d) (value k_inv) (value n)
      ∙ ap (λ (t : ℕ). (be_value h + value r * value d) * value k_inv % t) order.1
    where
      reduced_sum : value sum ≡ (be_value h + value r * value d) % value n
      reduced_sum =
          esum
          ∙ ap₂ (λ (x y : ℕ). (x + y) % value n) ez es
          ∙ sym (add-mod (be_value h) (value r * value d) (value n))

  signature_lem :
      (h : List ℕ) (k r k_inv s' : Vli)
      → IsR k r
      → value k * value k_inv % G.order ≡ 1
      → IsVli p256_digits s'
      → value s' ≡ (be_value h + value r * value d) * value k_inv % G.order
      → value s' ≢ 0
      → Signs h (r, s')
  signature_lem h k r k_inv s' hr ek fits equation ne = (
    hr.fits,
    fits,
    IsSignature-of_nonce G (be_value h) (value d) (value r) (value k) (value k_inv) (value s')
        hr.r_pos (omega arith) (omega (arith, order.3)) ek hr.is_x equation,
  )

  below_order : (a b : ℕ) → a ≡ b % value n → a < value n
  below_order a b e = omega (arith, e, mod-lt b {m = value n} order_pos)

  -- The end of a round: `continue` on a zero `s`, and a signature otherwise.
  last :
      (h : List ℕ) (k r z s sum k_inv s' : Vli) (o t : State W)
      → IsDrawn K G C o k
      → IsR k r
      → value z ≡ be_value h % value n
      → value s ≡ value r * value d % value n
      → value sum ≡ (value z + value s) % value n
      → value k * value k_inv % G.order ≡ 1
      → IsVli p256_digits s'
      → value s' ≡ value sum * value k_inv % value n
      → Returns
          (λ x _. SignsIfAny o h x)
          ((if is_zero K p256_digits s' then pure none else pure (some (r, s'))) t)
  last h k r z s sum k_inv s' o t hk hr ez es esum ek fits es' =
      elim (Bool-cases (is_zero K p256_digits s')) [
        | inl e ↦
            let test = sym (is_zero-eq K p256_digits V s' fits) ∙ e in
            let zero_s : value s' ≡ 0 = ground arith in
            let at_x = ap (λ (x : ℕ). (be_value h + x * value d) * value k_inv % G.order) hr.is_x in
            rw e (k, hk, inr (value k_inv, ek, sym at_x ∙ sym equation ∙ zero_s))
        | inr e ↦
            let test = sym (is_zero-eq K p256_digits V s' fits) ∙ e in
            rw e (signature_lem h k r k_inv s' hr ek fits equation (ground arith))
      ]
    where
      equation : value s' ≡ (be_value h + value r * value d) * value k_inv % G.order
      equation = last_equation h r z s sum k_inv s' ez es esum es'

  finish_lem :
      (h : List ℕ) (k r : Vli) (o s : State W)
      → IsDigest h
      → IsDrawn K G C o k
      → IsR k r
      → Returns (λ x _. SignsIfAny o h x) (finish K h d n k r s)
  unfolding finish
  finish_lem h k r o s₀ hh hk hr =
      Returns-scope (Residue (be_value h)) (SignsIfAny o h)
        (lift (from_be_bytes K p256_digits h) >>= λ z. reduce K z n) _ drop_vli s₀ (z_lem h s₀ hh)
        λ z s₁ hz.
          Returns-scope (Residue (value r * value d)) (SignsIfAny o h)
            (pure (mod_mult K p256_digits r d n)) _ drop_vli s₁ (mult_lem r d hr.fits private)
            λ s s₂ hs.
              Returns-scope (Residue (value z + value s)) (SignsIfAny o h) (add_mod K z s n) _
                drop_vli s₂
                (add_mod_lem K V n order.0 top z s s₂ hz.0 hs.0
                  (below_order (value z) (be_value h) hz.1)
                  (below_order (value s) (value r * value d) hs.1))
                λ sum s₃ hsum.
                  Returns-scope (λ v _. IsVli p256_digits v × (value k * value v % G.order ≡ 1))
                    (SignsIfAny o h) (pure (mod_inv K p256_digits k n)) _ drop_vli s₃
                    (k_inv_lem k hk.0)
                    λ k_inv s₄ hinv.
                      Returns-returning (Residue (value sum * value k_inv)) (SignsIfAny o h)
                        (pure (mod_mult K p256_digits sum k_inv n)) _ drop_vli s₄
                        (mult_lem sum k_inv hsum.0 hinv.0)
                        λ s' s₅ hs'.
                          last h k r z s sum k_inv s' o s₅ hk hr hz.1 hs.1 hsum.1 hinv.1 hs'.0 hs'.1

  pub r_is_x :
      (k x : Vli)
      → value (unswap p256_digits x) ≡ be_value (bytes_of x)
      → be_value (bytes_of x) ≡ G.x_of (G.times (value k) G.base)
      → value (unswap p256_digits x) % value n ≡ G.x_of (G.times (value k) G.base) % G.order
  r_is_x k x e f = ap₂ (λ (a b : ℕ). a % b) (e ∙ f) order.1

  -- A round after `r`: `continue` on a zero `r`.
  pub after_r :
      (h : List ℕ) (k r : Vli) (o s : State W)
      → IsDigest h
      → IsDrawn K G C o k
      → IsVli p256_digits r
      → value r ≡ G.x_of (G.times (value k) G.base) % G.order
      → Returns
          (λ x _. SignsIfAny o h x)
          ((if is_zero K p256_digits r then pure none else finish K h d n k r) s)
  after_r h k r o s hh hk fits is_x = elim (Bool-cases (is_zero K p256_digits r)) [
    | inl e ↦
        let test = sym (is_zero-eq K p256_digits V r fits) ∙ e in
        let zero_r : value r ≡ 0 = ground arith in rw e (k, hk, inl (sym is_x ∙ zero_r))
    | inr e ↦
        let test = sym (is_zero-eq K p256_digits V r fits) ∙ e in
        rw e
          (finish_lem h k r o s hh hk (record { fits = fits; is_x = is_x; r_pos = ground arith }))
  ]
