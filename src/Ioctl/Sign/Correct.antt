-- ===== src/Ioctl/Sign/Correct.antt =====
-- Every signature that `ecdsa_sign` returns is an ECDSA signature of the data.
use tarako_module.Shared.{ℕ, zero, suc, ◌≡◌, ◌∙◌, none, some, List, length}
use tarako_module.Bytes.{be_value, bytes_of}
use tarako_module.Ffi.{Kernel, State, pure}
use tarako_module.Ffi.Returns.{Returns, Returns-bind, Returns-scope, Returns-returning}
use tarako_module.Vli.{Vli, unswap, drop_vli}
use tarako_module.Vli.Value.{value, IsVli}
use tarako_module.Vli.Swap.{value-unswap}
use tarako_module.Contract.{VliContract, HashContract, KeyContract, CurveGroup, IsOrder}
use tarako_module.Ecc.{
  p256_digits, x_scalar, drop_point, generate_private_key, make_public_key, sha256_hash,
}
use tarako_module.Ecc.Keys.{
  IsDrawn, HoldsPublicKey, generate_private_key-IsDrawn, make_public_key_lem,
}
use tarako_module.Ioctl.Sign.{reduce, attempt, rounds, ecdsa_sign}
use tarako_module.Ioctl.Sign.Steps.{reduce_lem}
use tarako_module.Ioctl.Sign.Round.{Signs, SignsIfAny, IsDigest, Residue, after_r, r_is_x, top}

module _ {W P : Type 0} (K : Kernel W) (G : CurveGroup P) (V : VliContract K p256_digits)
    (C : KeyContract K G) (n d : Vli) (order : IsOrder K G n) (private : IsVli p256_digits d) where
  -- A round does not panic, and where it does not fail with an error of a helper, it gives a signature
  -- of the hash that the verifier accepts, or, for the nonce that it drew, `r` is zero modulo the order
  -- or `s` is: no other nonce is given up. The hash has 32 bytes; the contracts of the vli helpers and
  -- of the key helpers hold, the private key has four limbs and the modulus is the order.
  pub attempt_lem :
      (h : List ℕ) (s : State W)
      → IsDigest K G V C n d order private h
      → Returns (λ o _. SignsIfAny K G V C n d order private s h o) (attempt K h d n s)
  unfolding attempt
  attempt_lem h s₀ hh =
      Returns-scope (λ k _. IsDrawn K G C s₀ k) (SignsIfAny K G V C n d order private s₀ h)
        (generate_private_key K) _ drop_vli s₀ (generate_private_key-IsDrawn K G C s₀)
        λ k s₁ hk.
          Returns-scope (HoldsPublicKey K G C k) (SignsIfAny K G V C n d order private s₀ h)
            (make_public_key K k) _ (drop_point K) s₁ (make_public_key_lem K G C k s₁ hk.0.0)
            λ p s₂ hp.
              Returns-scope
                (λ v _.
                  (length v ≡ p256_digits)
                  × (be_value (bytes_of v) ≡ G.x_of (G.times (value k) G.base)))
                (SignsIfAny K G V C n d order private s₀ h) (x_scalar K p) _ drop_vli s₂
                (unfold x_scalar in (hp.0, hp.2))
                λ x s₃ hx.
                  let swapped = value-unswap p256_digits x hx.0 in
                  Returns-returning
                    (Residue K G V C n d order private (value (unswap p256_digits x)))
                    (SignsIfAny K G V C n d order private s₀ h) (reduce K (unswap p256_digits x) n)
                    _ drop_vli s₃
                    (reduce_lem K V n order.0 (top K G V C n d order private) (unswap p256_digits x)
                      s₃ swapped.0)
                    λ r s₄ hr.
                      (after_r K G V C n d order private) h k r s₀ s₄ hh hk hr.0
                        (hr.1 ∙ r_is_x K G V C n d order private k x swapped.1 hx.1)

  rounds_lem :
      (left : ℕ) (h : List ℕ) (s : State W)
      → IsDigest K G V C n d order private h
      → Returns (λ rs _. Signs K G V C n d order private h rs) (rounds K left h d n s)
  unfolding rounds
  rounds_lem zero h s hh = tt
  rounds_lem (suc left) h s hh =
      Returns-bind (λ o _. SignsIfAny K G V C n d order private s h o)
        (λ rs _. Signs K G V C n d order private h rs) (attempt K h d n)
        (λ o. elim o [ some rs ↦ pure rs | none ↦ rounds K left h d n ]) s (attempt_lem h s hh)
        (elim [ none ↦ λ t _. rounds_lem left h t hh | some rs ↦ λ t q. q ])

  -- Signing never panics, and every pair that it returns is a signature of the SHA-256 hash of
  -- the data that the verifier accepts for the public key of `d`: both scalars are in range and
  -- not zero, and the verifier's point has the coordinate `r`. This holds under the contracts of
  -- the vli helpers, the key helpers and SHA-256, for a private key of four limbs and a modulus
  -- that is the order of the group.
  pub ecdsa_sign-IsSignature :
      (H : HashContract K) (bytes : List ℕ) (s : State W)
      → Returns
          (λ rs _. Signs K G V C n d order private (K.sha256 bytes (length bytes)) rs)
          (ecdsa_sign K bytes d n s)
  unfolding ecdsa_sign sha256_hash
  ecdsa_sign-IsSignature H bytes s =
      rounds_lem 100 (K.sha256 bytes (length bytes)) s (H.sha256_law bytes)
