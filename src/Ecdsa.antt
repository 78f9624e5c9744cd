-- ===== src/Ecdsa.antt =====
-- ECDSA over an abstract group: what a signature is, independent of how the module computes one.
use tarako_module.Shared.{ℕ, ◌+◌, ◌*◌, ◌%◌, ◌<◌, ◌≡◌, sym, ap, ◌∙◌, arith, mod-mul-mod, mul-mod-mod}
use native.Mathlib.Nat.{add-mod, mod-add-mod, mod-lt}
use tarako_module.Contract.{CurveGroup}

module _ {P : Type 0} (G : CurveGroup P) where
  open G use {order, base, plus, times, x_of}

  -- The verifier's test of `(r, s)` for the digest `e` and the public key `q`: both parts are in
  -- range, and with an inverse `w` of `s` the point `(e w) G + (r w) Q` has the coordinate `r`.
  pub record IsSignature (q : P) (e r s : ℕ) : Type 0 where
    pub r_pos : 0 < r
    pub r_lt : r < order
    pub s_pos : 0 < s
    pub s_lt : s < order
    pub accepts :
        (w : ℕ)
        → s * w % order ≡ 1
        → x_of (plus (times (e * w % order) base) (times (r * w % order) q)) % order ≡ r

-- The steps of the algebra, modulo `n`.
module _ (n : ℕ) where
  -- The point that the verifier computes is the nonce times the base point.
  pub nonce_recovered :
      (e d r k k_inv s w : ℕ)
      → k * k_inv % n ≡ 1
      → s ≡ (e + r * d) * k_inv % n
      → s * w % n ≡ 1
      → (e * w % n + (r * w % n) * d) % n ≡ k % n
  nonce_recovered e d r k k_inv s w hk hs hw =
      scalars
      ∙ ap (λ (t : ℕ). t % n) one
      ∙ ap (λ (t : ℕ). w * (e + r * d) * t % n) (sym hk)
      ∙ mul-mod-mod (w * (e + r * d)) (k * k_inv) n
      ∙ ap (λ (t : ℕ). t % n) regroup
      ∙ sym (mul-mod-mod (k * w) ((e + r * d) * k_inv) n)
      ∙ ap (λ (t : ℕ). k * w * t % n) (sym hs)
      ∙ ap (λ (t : ℕ). t % n) by_inverse
      ∙ sym (mul-mod-mod k (s * w) n)
      ∙ ap (λ (t : ℕ). k * t % n) hw
      ∙ ap (λ (t : ℕ). t % n) unit
    where
      scalars : (e * w % n + (r * w % n) * d) % n ≡ w * (e + r * d) % n
      scalars =
          mod-add-mod (e * w) n ((r * w % n) * d)
          ∙ add-mod (e * w) ((r * w % n) * d) n
          ∙ ap (λ (t : ℕ). (e * w % n + t) % n) (mod-mul-mod (r * w) d n)
          ∙ sym (add-mod (e * w) (r * w * d) n)
          ∙ ap (λ (t : ℕ). t % n) (omega arith)

      one : w * (e + r * d) ≡ w * (e + r * d) * 1
      one = omega arith

      regroup : w * (e + r * d) * (k * k_inv) ≡ k * w * ((e + r * d) * k_inv)
      regroup = omega arith

      by_inverse : k * w * s ≡ k * (s * w)
      by_inverse = omega arith

      unit : k * 1 ≡ k
      unit = omega arith

module _ {P : Type 0} (G : CurveGroup P) where
  open G use {order, base, times, x_of, times_add, times_times, times_order}

  -- The signing equation gives a signature that the verifier accepts.
  pub IsSignature-of_nonce :
      (e d r k k_inv s : ℕ)
      → 0 < r
      → 0 < s
      → 1 < order
      → k * k_inv % order ≡ 1
      → r ≡ x_of (times k base) % order
      → s ≡ (e + r * d) * k_inv % order
      → IsSignature G (times d base) e r s
  IsSignature-of_nonce e d r k k_inv s hr hs big hk er es = record {
    r_pos = hr;
    r_lt = omega (arith, er, mod-lt (x_of (times k base)) {m = order} (omega arith));
    s_pos = hs;
    s_lt = omega (arith, es, mod-lt ((e + r * d) * k_inv) {m = order} (omega arith));
    accepts = λ w hw.
        let u₁ = e * w % order in
        let u₂ = r * w % order in
        ap (λ p. x_of (G.plus (times u₁ base) p) % order) (times_times u₂ d base)
        ∙ ap (λ p. x_of p % order) (sym (times_add u₁ (u₂ * d) base))
        ∙ ap (λ p. x_of p % order) (sym (times_order (u₁ + u₂ * d)))
        ∙ ap (λ t. x_of (times t base) % order) (nonce_recovered order e d r k k_inv s w hk es hw)
        ∙ ap (λ p. x_of p % order) (times_order k)
        ∙ sym er;
  }
