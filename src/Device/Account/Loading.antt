-- ===== src/Device/Account/Loading.antt =====
-- An account of loading the module, for any weight of keys and of the registration.
use native.Mathlib.Nat.{zero-add}
use mathlib.Core.Path.{subst}
use tarako_module.Shared.{
  List, ℕ, ◌+◌, ◌≡◌, sym, Bool, none, some, ◌∷◌, inl, inr, ok, err, panic, arith, Bool-cases,
  Option-cases, Outcome, ◌==◌,
}
use tarako_module.Ffi
use tarako_module.Ffi.{
  Call, Message, print, loading, init_failed, key_ready, already_initialized, lift, match_result,
  Kernel, State, M, pure, log, wipe, ◌>>=◌, ◌>>◌, on_error,
}
use tarako_module.Ffi.Ledger.{
  Account, Gives, Owns, Owns-bind, Owns-lift_err, Owns-log, Owns-match_result, Owns-on_error,
  Owns-pure, Rel, Rel-drop, Rel-end, Rel-even, Rel-give, Rel-plus, Rel-refl, Rel-split, Rel-start,
  Rel-two, Settles, total, total-cons,
}
use tarako_module.SetOnce.{populate, cmpxchg, write_value, store_init}
use tarako_module.Ecc.Account.{Accounts}
use tarako_module.Ioctl.Types.{KeyPair}
use tarako_module.Ioctl.Keys.{generate_key_pair}
use tarako_module.Ioctl.Keys.Account.{generate_key_pair-Owns}
use tarako_module.Device.{
  Module, drop_local, register_device, drop_registration, publish, generate_logged, ready, conclude,
  module_init,
}

module _ {W : Type 0} (K : Kernel W) (exact : Bool) (out back : Call → ℕ)
    (acc : Accounts K exact out back) (reg : ℕ) (taken : out Ffi.register ≡ back Ffi.register + reg)
    (given : Gives exact out back reg (log {W = W} Ffi.deregister)) where
  open acc use {key_weight, wipe_key, wipe_any, printed}

  -- A loaded module holds its private key and its registration.
  abbrev pub loaded_weight : KeyPair → ℕ
  loaded_weight kp = key_weight kp.private + reg

  drop_local-Gives :
      (kp : KeyPair) → Gives exact out back (key_weight kp.private) (drop_local {W = W} kp)
  drop_local-Gives kp s =
      let t : State W = record s { calls = wipe kp.private ∷ s.calls } in
      Rel-plus exact _ _ (key_weight kp.private + 0) (key_weight kp.private) (omega arith) (
        Rel-two exact (total out s.calls) (total out t.calls)
          (total out (wipe kp.curve_n ∷ t.calls)) (total back s.calls) (total back t.calls)
          (total back (wipe kp.curve_n ∷ t.calls)) (key_weight kp.private) 0 (wipe_key kp.private s)
          (wipe_any kp.curve_n t))

  register_device-Owns : (c : ℕ) → Owns exact out back c (λ _. c + reg) c (register_device K)
  unfolding register_device total
  register_device-Owns c s = elim (Option-cases (K.register s.world).0) [
    | inl e ↦ rw (e, register_device) (Rel-refl exact _ _ (omega (arith, taken)))
    | inr (x, e) ↦ rw (e, register_device) (Rel-refl exact _ _ (omega arith))
  ]

  register-Owns :
      (kp : KeyPair)
      → Owns exact out back
          (key_weight kp.private)
          loaded_weight
          (key_weight kp.private)
          (register_device K >> pure kp)
  register-Owns kp =
      let c = key_weight kp.private in
      Owns-bind exact out back (λ _. c + reg) c loaded_weight c (register_device K) (λ _. pure kp)
        (register_device-Owns c)
        λ a s.
          Rel-refl exact (total out s.calls + total back s.calls + (c + reg))
            (total back s.calls + total out s.calls + (c + reg)) (omega arith)

  logged-Owns : Owns exact out back 0 (λ kp. key_weight kp.private) 0 (generate_logged K)
  unfolding generate_logged
  logged-Owns =
      Owns-match_result exact out back (λ kp. key_weight kp.private) 0 0
        (λ kp. key_weight kp.private) 0 (generate_key_pair K) pure
        (λ error. log (print (init_failed error)) >> lift (err error))
        (generate_key_pair-Owns K exact out back acc)
        (λ kp. Owns-pure exact out back kp (λ (kp : KeyPair). key_weight kp.private) 0)
        λ error.
          Owns-bind exact out back (λ _. 0) 0 (λ (kp : KeyPair). key_weight kp.private) 0
            (log (print (init_failed error))) (λ _. lift (err error))
            (Owns-log exact out back (print (init_failed error)) 0 (printed (init_failed error)))
            (λ _. Owns-lift_err exact out back error (λ (kp : KeyPair). key_weight kp.private) 0)

  ready-Owns : Owns exact out back 0 loaded_weight 0 (ready K)
  unfolding ready
  ready-Owns =
      Owns-bind exact out back {B = KeyPair} (λ _. 0) 0 loaded_weight 0 (log (print loading))
        (λ _. generate_logged K >>= rest)
        (Owns-log exact out back (print loading) 0 (printed loading))
        λ _.
          Owns-bind exact out back (λ (kp : KeyPair). key_weight kp.private) 0 loaded_weight 0
            (generate_logged K) rest logged-Owns
            λ kp.
              Owns-on_error exact out back (key_weight kp.private) (key_weight kp.private)
                loaded_weight 0 (register_device K >> pure kp) (drop_local kp)
                (subst
                  (λ c.
                    Owns exact out back (key_weight kp.private) loaded_weight c
                      (register_device K >> pure kp))
                  (sym (zero-add (key_weight kp.private))) (register-Owns kp))
                (drop_local-Gives kp)
    where
      rest : KeyPair → M W KeyPair
      rest kp = on_error (register_device K >> pure kp) (drop_local kp)

  after_print :
      (m : Message) (cs : List Call) (x y c d : ℕ)
      → Rel exact (total out cs + x + c) (total back cs + y + d)
      → Rel exact (total out (print m ∷ cs) + x + c) (total back (print m ∷ cs) + y + d)
  after_print m cs x y c d =
      Rel-even exact (total out cs) (total out (print m ∷ cs)) (total back cs)
        (total back (print m ∷ cs)) x y c d (out (print m)) (total-cons out (print m) cs)
        (omega (arith, total-cons back (print m) cs, printed m))

  -- A line of the log after the locals are dropped.
  local_and_log-Gives :
      (kp : KeyPair) (m : Message)
      → Gives exact out back (key_weight kp.private) (drop_local {W = W} kp >> log (print m))
  local_and_log-Gives kp m s = Rel-drop exact _ _ (
      after_print m (drop_local kp s).1.calls (total back s.calls) (total out s.calls)
        (key_weight kp.private) 0 (Rel-end exact _ _ (drop_local-Gives kp s)))

  unpublish-Gives :
      (kp : KeyPair)
      → Gives exact out back
          (loaded_weight kp)
          (drop_local kp >> log (print already_initialized) >> drop_registration K)
  unfolding drop_registration
  unpublish-Gives kp s =
      let t : State W = ((drop_local kp >> log (print already_initialized)) s).1 in
      let u : State W = record t { world = K.deregister t.world } in
      Rel-two exact (total out s.calls) (total out t.calls) (total out (Ffi.deregister ∷ t.calls))
        (total back s.calls) (total back t.calls) (total back (Ffi.deregister ∷ t.calls))
        (key_weight kp.private) reg (local_and_log-Gives kp already_initialized s) (given u)

  -- What the result of loading holds: the key and the registration of a success, or nothing.
  abbrev pub in_cell : Outcome (Unit {0}) × Module W → ℕ
  in_cell (ok _, m) = elim m.key_pair.value [ some kp ↦ loaded_weight kp | none ↦ 0 ]
  in_cell (err e, m) = 0
  in_cell (panic, m) = 0

  -- Loading from a state `s` accounts for what its result holds.
  abbrev pub Accounted : State W → Outcome (Unit {0}) × Module W → Type 0
  Accounted s x =
      Rel exact (total out x.1.kernel.calls + total back s.calls)
        (total back x.1.kernel.calls + total out s.calls + in_cell x)

  publish-Accounted :
      (kp : KeyPair) (m : Module W) (s : State W)
      → Account exact out back s m.kernel 0 (loaded_weight kp)
      → Accounted s (publish K kp m)
  unfolding publish populate cmpxchg write_value store_init
  publish-Accounted kp m s h = elim (Bool-cases (m.key_pair.init == 0)) [
    | inl e ↦ rw e (
        Rel-start exact _ _ (
          after_print key_ready m.kernel.calls (total back s.calls) (total out s.calls) 0
            (loaded_weight kp) h))
    | inr e ↦ rw e (
        Rel-start exact _ _ (
          Rel-give exact _ _ _ _ _ _ 0 0 (loaded_weight kp)
            (Rel-split exact _ _ (loaded_weight kp) h) (unpublish-Gives kp m.kernel)))
  ]

  pub module_init-Accounted : (m : Module W) → Accounted m.kernel (module_init K m)
  unfolding module_init conclude
  module_init-Accounted m = go (ready K m.kernel) (ready-Owns m.kernel)
    where
      go :
          (x : Outcome KeyPair × State W)
          → Settles exact out back m.kernel 0 loaded_weight 0 x
          → Accounted m.kernel (conclude K x.0 (record m { kernel = x.1 }))
      go (ok kp, t) h = publish-Accounted kp (record m { kernel = t }) m.kernel h
      go (err e, t) h = Rel-start exact _ _ h
      go (panic, t) h = absurd h
