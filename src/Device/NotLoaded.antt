-- ===== src/Device/NotLoaded.antt =====
-- Why the module is not loaded.
use tarako_module.Shared.{◌≡◌, some, inl, inr, Error, err, Option-cases}
use tarako_module.Ffi.{
  Kernel, State, M, pure, lift, log, print, loading, init_failed, ◌>>=◌, ◌>>◌, on_error,
}
use tarako_module.Ffi.Errors.{
  ErrsBy, Fails, Fails-bind, Fails-on_error, Fails-pure, Fails-match_result,
}
use tarako_module.Ioctl.Types.{KeyPair}
use tarako_module.Ioctl.Keys.{generate_key_pair}
use tarako_module.Ioctl.Keys.NotMade.{NotMade, generate_key_pair-Fails}
use tarako_module.Device.{drop_local, register_device, generate_logged, ready}

module _ {W : Type 0} (K : Kernel W) where
  -- There is no key pair, or the device could not be registered.
  pub data NotLoaded : Error → Type 0 where
    not_made : (e : Error) → NotMade K e → NotLoaded e
    not_registered : (w : W) (e : Error) → (K.register w).0 ≡ some e → NotLoaded e

  register_errs : (s : State W) → ErrsBy NotLoaded (register_device K s)
  unfolding register_device
  register_errs s = elim (Option-cases (K.register s.world).0) [
    | inl e ↦ rw e tt
    | inr (x, e) ↦ rw e (not_registered s.world x e)
  ]

  generate_logged-Fails : Fails NotLoaded (generate_logged K)
  unfolding generate_logged
  generate_logged-Fails =
      Fails-match_result NotLoaded (NotMade K) (generate_key_pair K) pure
        (λ error. log (print (init_failed error)) >> lift (err error)) (generate_key_pair-Fails K)
        (λ kp. Fails-pure NotLoaded kp) (λ e h. record { errs = λ s. not_made e h })

  -- The part of `init` before the cell fails only for one of these reasons.
  pub ready-Fails : Fails NotLoaded (ready K)
  unfolding ready
  ready-Fails =
      Fails-bind NotLoaded (log (print loading)) (λ _. generate_logged K >>= rest)
        (record { errs = λ s. tt })
        λ _. Fails-bind NotLoaded (generate_logged K) rest generate_logged-Fails λ kp.
          Fails-on_error NotLoaded (register_device K >> pure kp) (drop_local kp) (
            Fails-bind NotLoaded (register_device K) (λ _. pure kp)
              (record { errs = register_errs }) (λ _. Fails-pure NotLoaded kp))
    where
      rest : KeyPair → M W KeyPair
      rest kp = on_error (register_device K >> pure kp) (drop_local kp)
