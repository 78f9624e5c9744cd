-- ===== src/Device/Account/Life.antt =====
-- What the module has taken and given back when it is unloaded.
use mathlib.Core.Path.{subst}
use tarako_module.Shared.{ℕ, ◌+◌, ◌≤◌, ◌≡◌, refl, List, [], ◌∷◌, ok, inl, inr, arith}
use tarako_module.Ffi.{Kernel, State}
use tarako_module.Ffi.Ledger.{total}
use tarako_module.Ecc.Account.{drawn, wiped}
use tarako_module.Contract.{CurveGroup, KeyContract}
use tarako_module.SetOnce.{SetOnce, cmpxchg}
use tarako_module.Ioctl.Types.{KeyPair}
use tarako_module.Ioctl.Handlers.Gate.{Holds}
use tarako_module.Device.{
  Module, ioctl, drop_registration, drop_stored, drop_key_cleanup, module_init, module_drop,
}
use tarako_module.Device.Lifecycle.{Loaded, module_init_lem}
use tarako_module.Device.Account.{key_left, module_init-wipes}
use tarako_module.Device.Account.Commands.{ioctl-wipes}

module _ {W : Type 0} (K : Kernel W) where
  -- Any ioctls, as pairs of a command and an argument, each in the state that the one before leaves.
  abbrev pub after_ioctls : SetOnce KeyPair → List (ℕ × ℕ) → State W → State W
  after_ioctls cell [] s = s
  after_ioctls cell ((cmd, arg) ∷ rest) s = after_ioctls cell rest (ioctl K cell cmd arg s).1

  ioctls-wipes :
      (cell : SetOnce KeyPair) (cmds : List (ℕ × ℕ)) (s : State W) (w : List ℕ → ℕ)
      → let t = after_ioctls cell cmds s in
        total (drawn w) t.calls + total (wiped w) s.calls
        ≤ total (wiped w) t.calls + total (drawn w) s.calls
  ioctls-wipes cell [] s w = omega arith
  ioctls-wipes cell ((cmd, arg) ∷ rest) s w =
      omega
        (arith, ioctl-wipes K cell cmd arg s w, ioctls-wipes cell rest (ioctl K cell cmd arg s).1 w)

  drop-wipes :
      (m : Module W) (kp : KeyPair) (w : List ℕ → ℕ)
      → Holds m.key_pair kp
      → let u = module_drop K m in
        total (drawn w) u.kernel.calls + (w kp.private + total (wiped w) m.kernel.calls)
        ≤ total (wiped w) u.kernel.calls + total (drawn w) m.kernel.calls
  unfolding module_drop drop_key_cleanup drop_stored drop_registration cmpxchg total
  drop-wipes m kp w h = rw (h.0, h.1) (omega arith)

module _ {W P : Type 0} (K : Kernel W) (G : CurveGroup P) (C : KeyContract K G) where
  -- When the module is unloaded, after it was loaded and has served any ioctls, every scalar that was
  -- drawn since before the load is wiped, the nonces and the private key alike: for any weight of the
  -- limbs, the scalars wiped weigh at least what the scalars drawn do. This holds under the contract
  -- of the key helpers.
  pub module_drop-wipes :
      (m n : Module W) (cmds : List (ℕ × ℕ)) (w : List ℕ → ℕ)
      → module_init K m ≡ (ok tt, n)
      → let u = module_drop K (record n { kernel = after_ioctls K n.key_pair cmds n.kernel }) in
        total (drawn w) u.kernel.calls + total (wiped w) m.kernel.calls
        ≤ total (wiped w) u.kernel.calls + total (drawn w) m.kernel.calls
  module_drop-wipes m n cmds w e = cases loaded
    where
      loaded : Loaded K G C m (ok tt, n)
      loaded = subst (Loaded K G C m) e (module_init_lem K G C m)

      left :
          total (drawn w) n.kernel.calls + total (wiped w) m.kernel.calls
          ≤ total (wiped w) n.kernel.calls + total (drawn w) m.kernel.calls + key_left w (ok tt, n)
      left =
          subst
            (λ x.
              total (drawn w) x.1.kernel.calls + total (wiped w) m.kernel.calls
              ≤ total (wiped w) x.1.kernel.calls + total (drawn w) m.kernel.calls + key_left w x)
            e (module_init-wipes K m w)

      served : Module W
      served = record n { kernel = after_ioctls K n.key_pair cmds n.kernel }

      cases :
          Loaded K G C m (ok tt, n)
          → total (drawn w) (module_drop K served).kernel.calls + total (wiped w) m.kernel.calls
            ≤ total (wiped w) (module_drop K served).kernel.calls + total (drawn w) m.kernel.calls
      cases (inl (empty, _, (kp, holds, pair))) =
          let kept : key_left w (ok tt, n) ≡ w kp.private + 0 = rw (holds.1) refl in
          omega (
            arith,
            left,
            kept,
            ioctls-wipes K n.key_pair cmds n.kernel w,
            drop-wipes K served kp w holds,
          )
      cases (inr (x, fails, _)) = absurd (ground arith)
