-- ===== src/Ioctl/Keys/NotMade.antt =====
-- Why there is no key pair.
use tarako_module.Shared.{
  ℕ, ◌≡◌, refl, none, some, List, Error, einval, err, ok, ok_or, Bool, true, false, Outcome, arith,
}
use mathlib.Core.Path.{subst}
use tarako_module.Bytes.{bytes_of}
use tarako_module.Ffi.{
  Kernel, State, Point, M, pure, lift, log, print, key_measured, key_unmeasured, ◌>>=◌, ◌>>◌,
  on_error,
}
use tarako_module.Ffi.Errors.{
  ErrsBy, Fails, Fails-bind, Fails-on_error, Fails-scope, Fails-lift, Fails-pure,
  Fails-match_result, Fails-mono,
}
use tarako_module.Vli.{Vli, drop_vli}
use tarako_module.Ecc.{
  x_as_bytes, y_as_bytes, drop_point, get_curve_n, generate_private_key, make_public_key,
  ima_measure_pubkey,
}
use tarako_module.Ecc.Failure.{Failure, generate_private_key-Fails, make_public_key-Fails}
use tarako_module.Ioctl.Types.{KeyPair}
use tarako_module.Ioctl.Keys.{
  compress, measured, assemble, read_point, with_private, generate_key_pair,
}

module _ {W : Type 0} (K : Kernel W) where
  -- A helper of the kernel failed, or it does not know the curve. That IMA refuses the key is no
  -- reason.
  pub data NotMade : Error → Type 0 where
    helper_failed : (e : Error) → Failure K e → NotMade e
    no_curve : get_curve_n K ≡ none → NotMade einval

  measured-Fails : (pubkey : List ℕ) → Fails NotMade (measured K pubkey)
  unfolding measured
  measured-Fails pubkey =
      Fails-match_result NotMade (λ _. Unit {0}) (ima_measure_pubkey K pubkey)
        (λ _. log (print (key_measured pubkey)) >> pure true)
        (λ error. log (print (key_unmeasured error)) >> pure false)
        (record { errs = λ s. any (ima_measure_pubkey K pubkey s) })
        (λ _. record { errs = λ s. tt }) (λ e _. record { errs = λ s. tt })
    where
      any : (x : Outcome (Unit {0}) × State W) → ErrsBy (λ _. Unit {0}) x
      any (ok a, t) = tt
      any (err e, t) = tt
      any (Outcome.panic, t) = tt

  curve-Fails : Fails {W = W} NotMade (lift (ok_or (get_curve_n K) einval))
  curve-Fails = Fails-lift NotMade (ok_or (get_curve_n K) einval) (go (get_curve_n K) refl)
    where
      go : (o : _) → get_curve_n K ≡ o → (e : Error) → ok_or o einval ≡ err e → NotMade e
      go none h e f = let same : einval ≡ e = cc in subst NotMade same (no_curve h)
      go (some n) h e f = absurd (ground arith)

  assemble-Fails : (private : Vli) (pubkey : List ℕ) → Fails NotMade (assemble K private pubkey)
  unfolding assemble
  assemble-Fails private pubkey =
      Fails-bind NotMade (lift (ok_or (get_curve_n K) einval)) with_order curve-Fails λ n.
        Fails-bind NotMade (measured K pubkey) (λ b. pure (pair n b)) (measured-Fails pubkey)
          (λ b. Fails-pure NotMade (pair n b))
    where
      pair : Vli → Bool → KeyPair
      pair n b = record { private = private; pubkey = pubkey; curve_n = n; ima_measured = b }

      with_order : Vli → M W KeyPair
      with_order n = measured K pubkey >>= λ b. pure (pair n b)

  read_point-Fails : (private : Vli) (p : Point) → Fails NotMade (read_point K private p)
  unfolding read_point x_as_bytes y_as_bytes
  read_point-Fails private p = record {
    errs = λ s.
        (assemble-Fails private
            (compress (bytes_of (s.buffers p.x)) (bytes_of (s.buffers p.y)))).errs
          s;
  }

  -- No key pair is made only where a helper of the kernel failed, with its error, or with EINVAL where
  -- the kernel does not know the curve.
  pub generate_key_pair-Fails : Fails NotMade (generate_key_pair K)
  unfolding generate_key_pair with_private
  generate_key_pair-Fails =
      Fails-bind NotMade (generate_private_key K) (λ k. on_error (with_private K k) (drop_vli k))
        (Fails-mono (Failure K) NotMade (generate_private_key K) helper_failed
          (generate_private_key-Fails K))
        λ k. Fails-on_error NotMade (with_private K k) (drop_vli k) (
          Fails-scope NotMade (make_public_key K k) (read_point K k) (drop_point K)
            (Fails-mono (Failure K) NotMade (make_public_key K k) helper_failed
              (make_public_key-Fails K k))
            (read_point-Fails k))
