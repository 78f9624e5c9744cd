-- ===== src/Device/Lifecycle.antt =====
-- Loading and unloading the module.
use tarako_module.Shared.{
  ℕ, ◌≡◌, refl, ap, ◌⊎◌, inl, inr, ◌==◌, some, Error, Outcome, ok, err, panic, enxio, ebusy,
  replicate, ◌∷◌, arith, Bool-cases, Option-cases, [], length,
}
use tarako_module.Ffi.{
  wipe, Kernel, State, M, pure, ◌>>=◌, ◌>>◌, on_error, kernel_call, log, lift, print, loading,
  init_failed,
}
use tarako_module.Ffi
use tarako_module.Ffi.Returns.{Returns, Returns-bind, Returns-on_error, Returns-match_result}
use tarako_module.Vli.{Vli, zeroed}
use tarako_module.Contract.{CurveGroup, KeyContract}
use tarako_module.SetOnce.{as_ref, populate, cmpxchg, write_value, store_init, drop_in_place, clear}
use tarako_module.Ioctl.Types.{KeyPair, drop_key_pair}
use tarako_module.Ioctl.Keys.{generate_key_pair}
use tarako_module.Ioctl.Keys.Compressed.{IsKeyPair, generate_key_pair-IsKeyPair}
use tarako_module.Ioctl.Handlers.{handle_get_pubkey, handle_sign_data}
use tarako_module.Ioctl.Handlers.Gate.{Holds}
use tarako_module.Device.{
  Module, drop_local, register_device, publish, module_init, module_drop, ready, conclude,
  drop_registration, drop_key_cleanup, drop_stored, generate_logged,
}

-- What holds of every key pair that is generated holds of the one that `init` stores.
module _ {W : Type 0} (K : Kernel W) (P : KeyPair → Type 0)
    (made : (s : State W) → Returns (λ kp _. P kp) (generate_key_pair K s)) where
  register_lem :
      (kp : KeyPair) (s : State W) → P kp → Returns (λ q _. P q) ((register_device K >> pure kp) s)
  unfolding register_device
  register_lem kp s h = elim (Option-cases (K.register s.world).0) [
    | inl e ↦ rw e h
    | inr (x, e) ↦ rw e tt
  ]

  logged_lem : (s : State W) → Returns (λ kp _. P kp) (generate_logged K s)
  unfolding generate_logged
  logged_lem s =
      Returns-match_result (λ kp _. P kp) (λ kp _. P kp) (generate_key_pair K) pure
        (λ error. log (print (init_failed error)) >> lift (err error)) s (made s) (λ kp t h. h)
        (λ e t. tt)

  pub ready_lem : (s : State W) → Returns (λ kp _. P kp) (ready K s)
  unfolding ready
  ready_lem s =
      let t : State W = record s { calls = print loading ∷ s.calls } in
      Returns-bind (λ kp _. P kp) (λ kp _. P kp) (generate_logged K)
        (λ kp. on_error (register_device K >> pure kp) (drop_local kp)) t (logged_lem t)
        λ kp u h.
          Returns-on_error P (register_device K >> pure kp) (drop_local kp) u (register_lem kp u h)

module _ {W P : Type 0} (K : Kernel W) (G : CurveGroup P) (C : KeyContract K G) where
  -- What loading gives: a success in an empty cell, or an error and the same cell.
  abbrev pub Loaded : Module W → Outcome (Unit {0}) × Module W → Type 0
  Loaded m (r, m') =
      ((m.key_pair.init ≡ 0)
        × (r ≡ ok tt)
        × ((kp : KeyPair) × Holds m'.key_pair kp × IsKeyPair K G C kp))
      ⊎ ((e : Error) × (r ≡ err e) × (m'.key_pair ≡ m.key_pair))

  publish_lem : (kp : KeyPair) (m : Module W) → IsKeyPair K G C kp → Loaded m (publish K kp m)
  unfolding publish populate cmpxchg write_value store_init
  publish_lem kp m h = elim (Bool-cases (m.key_pair.init == 0)) [
    | inl e ↦ rw e (inl (ground arith, refl, (kp, (refl, refl), h)))
    | inr e ↦ rw e (inr (ebusy, refl, refl))
  ]

  -- Loading the module: where it succeeds, `KEY_PAIR` was empty and now holds a key pair that
  -- `generate_key_pair` made, with all that holds of one; otherwise it fails and `KEY_PAIR` is
  -- unchanged. It never panics, under the contract of the key helpers.
  pub module_init_lem : (m : Module W) → Loaded m (module_init K m)
  unfolding module_init conclude
  module_init_lem m =
      go (ready K m.kernel)
        (ready_lem K (IsKeyPair K G C) (generate_key_pair-IsKeyPair K G C) m.kernel)
    where
      go :
          (x : Outcome KeyPair × State W)
          → Returns (λ kp _. IsKeyPair K G C kp) x
          → Loaded m (conclude K x.0 (record m { kernel = x.1 }))
      go (ok kp, s) h = publish_lem kp (record m { kernel = s }) h
      go (err e, s) h = inr (e, refl, refl)
      go (panic, s) h = absurd h

zeroed-eq : (v : Vli) → zeroed v ≡ replicate (length v) 0
unfolding zeroed
zeroed-eq [] = refl
zeroed-eq (l ∷ ls) = ap (λ t. 0 ∷ t) (zeroed-eq ls)

module _ {W : Type 0} (K : Kernel W) (m : Module W) where
  -- Unloading the module, where `KEY_PAIR` holds a key pair: the cell is empty, with zeros for
  -- the private key and the order in the memory that held them; the device is deregistered first,
  -- and only then are the private key and the order wiped, with no other call; and both handlers then
  -- answer ENXIO and leave the state as it is.
  pub module_drop_lem :
      (kp : KeyPair)
      → Holds m.key_pair kp
      → let n = module_drop K m in
        (n.key_pair ≡ record {
          init = 0;
          value = some (record kp {
            private = replicate (length kp.private) 0;
            curve_n = replicate (length kp.curve_n) 0;
          });
        })
        × (n.kernel.calls ≡ wipe kp.curve_n ∷ wipe kp.private ∷ Ffi.deregister ∷ m.kernel.calls)
        × ((arg cmd : ℕ) → handle_get_pubkey K n.key_pair arg cmd n.kernel ≡ (err enxio, n.kernel))
        × ((arg cmd : ℕ) → handle_sign_data K n.key_pair arg cmd n.kernel ≡ (err enxio, n.kernel))
  unfolding module_drop drop_key_cleanup drop_stored clear cmpxchg drop_in_place store_init
      drop_key_pair drop_registration handle_get_pubkey handle_sign_data as_ref
  module_drop_lem kp h = (
    rw (h.0, h.1, zeroed-eq kp.private, zeroed-eq kp.curve_n) refl,
    rw (h.0, h.1) refl,
    λ arg cmd. rw h.0 refl,
    λ arg cmd. rw h.0 refl,
  )
