-- ===== src/Ioctl/Sign/Errors.antt =====
-- The errors of a round of `ecdsa_sign` and of the loop.
use mathlib.Core.Path.{subst}
use tarako_module.Shared.{
  ℕ, arith, Error, ◌≡◌, refl, sym, none, some, Option, List, length, ◌==◌, einval, ok, err, Outcome,
  panic, ◌⊎◌, inl, inr, ◌||◌, not,
}
use tarako_module.Ffi.{Kernel, State, M, pure, lift}
use tarako_module.Ffi.Errors.{
  ErrsBy, Fails, Fails-bind, Fails-scope, Fails-returning, Fails-if, Fails-pure,
}
use tarako_module.Vli.{
  Vli, drop_vli, is_zero, ge, unswap, carrying_add, from_be_bytes, mod_mult, mod_inv,
}
use tarako_module.Vli.Value.{IsVli}
use tarako_module.Contract.{VliContract, HashContract, KeyContract, CurveGroup, IsOrder}
use tarako_module.Ecc.{
  p256_digits, x_scalar, sha256_hash, generate_private_key, drop_point, make_public_key,
}
use tarako_module.Ecc.Failure.{Failure, generate_private_key-Fails, make_public_key-Fails}
use tarako_module.Ioctl.Sign.{sub, reduce, add_mod, finish, attempt, ecdsa_sign}
use tarako_module.Ioctl.Sign.Rounds.{Ends, ecdsa_sign-Ends}
use tarako_module.Ioctl.Sign.Round.{Signs}
use tarako_module.Ioctl.Sign.Correct.{ecdsa_sign-IsSignature}
use tarako_module.Ioctl.Sign.Nonces.{BadNonces, Skips-BadNonces}
use tarako_module.Ffi.Returns.{Returns}

module _ {W : Type 0} (K : Kernel W) (h : List ℕ) (size : length h ≡ 32) (d n : Vli) where
  abbrev Sound : {A : Type 0} → M W A → Type 0
  Sound = Fails (Failure K)

  pure-Sound : {A : Type 0} (a : A) → Sound {A = A} (pure a)
  pure-Sound a = Fails-pure (Failure K) a

  nothing : Sound {A = Option (Vli × Vli)} (pure none)
  nothing = pure-Sound none

  reduce-Sound : (v : Vli) → Sound (reduce K v n)
  unfolding reduce sub
  reduce-Sound v =
      Fails-if (Failure K) (ge K p256_digits v n) _ _ (λ _. record { errs = λ s. tt })
        (λ _. pure-Sound _)

  add_mod-Sound : (z s : Vli) → Sound (add_mod K z s n)
  unfolding add_mod sub
  add_mod-Sound z s =
      Fails-if (Failure K)
        (not ((carrying_add z s 0).1 == 0) || ge K p256_digits (carrying_add z s 0).0 n) _ _
        (λ _. record { errs = λ s. tt }) (λ _. pure-Sound _)

  digits-Sound : Sound (lift (from_be_bytes K p256_digits h))
  unfolding from_be_bytes
  digits-Sound = rw (size, from_be_bytes) (pure-Sound _)

  finish-Sound : (k r : Vli) → Sound (finish K h d n k r)
  unfolding finish
  finish-Sound k r =
      Fails-scope (Failure K) _ _ (λ z. drop_vli z)
        (Fails-bind (Failure K) _ (λ z. reduce K z n) digits-Sound reduce-Sound)
        λ z.
          Fails-scope (Failure K) _ _ (λ s. drop_vli s) (pure-Sound (mod_mult K p256_digits r d n))
            λ s.
              Fails-scope (Failure K) _ _ (λ t. drop_vli t) (add_mod-Sound z s)
                λ sum.
                  Fails-scope (Failure K) _ _ (λ t. drop_vli t)
                    (pure-Sound (mod_inv K p256_digits k n))
                    λ k_inv.
                      Fails-returning (Failure K) _ _ (λ t. drop_vli t)
                        (pure-Sound (mod_mult K p256_digits sum k_inv n))
                        λ s'.
                          Fails-if (Failure K) (is_zero K p256_digits s') (pure none)
                            (pure (some (r, s'))) (λ _. nothing) (λ _. pure-Sound (some (r, s')))

  x_scalar-Fails : (p : _) → Sound (x_scalar K p)
  unfolding x_scalar
  x_scalar-Fails p = record { errs = λ s. tt }

  pub attempt-Fails : Sound (attempt K h d n)
  unfolding attempt
  attempt-Fails =
      Fails-scope (Failure K) (generate_private_key K) _ (λ v. drop_vli v)
        (generate_private_key-Fails K)
        λ k.
          Fails-scope (Failure K) (make_public_key K k) _ (drop_point K) (make_public_key-Fails K k)
            λ p.
              Fails-scope (Failure K) (x_scalar K p) _ (λ v. drop_vli v) (x_scalar-Fails p)
                λ x.
                  Fails-returning (Failure K) _ _ (λ v. drop_vli v)
                    (reduce-Sound (unswap p256_digits x))
                    λ r.
                      Fails-if (Failure K) (is_zero K p256_digits r) (pure none)
                        (finish K h d n k r) (λ _. nothing) (λ _. finish-Sound k r)

module _ {W P : Type 0} (K : Kernel W) (G : CurveGroup P) (V : VliContract K p256_digits)
    (C : KeyContract K G) (n d : Vli) (order : IsOrder K G n) (private : IsVli p256_digits d)
    (H : HashContract K) (bytes : List ℕ) (s : State W) where
  -- How signing ends: with a signature, with the error of a helper that failed, or with EINVAL after
  -- a hundred rounds whose nonces give no signature.
  abbrev pub SignEnds : Outcome (Vli × Vli) × State W → Type 0
  SignEnds (ok rs, t) = Signs K G V C n d order private (sha256_hash K bytes) rs
  SignEnds (err e, t) =
      Failure K e
      ⊎ ((e ≡ einval) × BadNonces K G V C n d order private (sha256_hash K bytes) 100 s t)
  SignEnds (panic, t) = ⊥

  -- Signing gives a signature of the SHA-256 hash of the data that the verifier accepts, or fails
  -- with the error of a helper of the kernel that failed, or fails with EINVAL after a hundred rounds
  -- in a row, each of which drew a nonce that cannot sign: the coordinate `r` of that very nonce is
  -- zero modulo the order, or the scalar `s` is that it gives with the hash. It does not panic. This
  -- holds under the contracts of the vli helpers, the key helpers and SHA-256, for a private key of
  -- four limbs and a modulus that is the order of the group.
  pub ecdsa_sign-SignEnds : SignEnds (ecdsa_sign K bytes d n s)
  unfolding sha256_hash
  ecdsa_sign-SignEnds =
      cases (ecdsa_sign K bytes d n s) (ecdsa_sign-IsSignature K G V C n d order private H bytes s)
        (ecdsa_sign-Ends K h d n bytes s refl)
    where
      h : List ℕ
      h = K.sha256 bytes (length bytes)

      failed :
          (m : ℕ) (u t t' : State W) (e e' : Error)
          → attempt K h d n u ≡ (err e, t)
          → ◌≡◌ {A = Outcome (Vli × Vli) × State W} (err e', t') (err e, t)
          → SignEnds (err e', t')
      failed m u t t' e e' a x = subst SignEnds (sym x) (
          inl
            (subst (ErrsBy (Failure K)) a ((attempt-Fails K h (H.sha256_law bytes).0 d n).errs u)))

      cases :
          (x : Outcome (Vli × Vli) × State W)
          → Returns (λ rs _. Signs K G V C n d order private h rs) x
          → Ends K h d n 100 s x
          → SignEnds x
      cases (ok rs, t) sound ends = sound
      cases (err e, t) sound (inl (m, u, v, rs, lt, skips, a, x)) = absurd (ground arith)
      cases (err e, t) sound (inr (inl (m, u, v, e', lt, skips, a, x))) = failed m u v t e' e a x
      cases (err e, t) sound (inr (inr (u, skips, x))) = subst SignEnds (sym x) (
          inr
            (refl, Skips-BadNonces K G V C n d order private h 100 s u (H.sha256_law bytes) skips))
      cases (panic, t) sound ends = sound
