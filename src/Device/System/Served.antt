-- ===== src/Device/System/Served.antt =====
-- What the ioctls answer in every state of the module's life.
use mathlib.Core.Path.{subst}
use tarako_module.Shared.{ℕ, ◌≡◌, sym, inl, inr, true, NoPanic, ℤ}
use tarako_module.Ffi.{Kernel, State}
use tarako_module.Ffi.Returns.{Returns, Returns-mono}
use tarako_module.Contract.{
  VliContract, HashContract, DigestContract, UserContract, KeyContract, CurveGroup,
}
use tarako_module.Ecc.{p256_digits}
use tarako_module.Ioctl.Types.{KeyPair}
use tarako_module.Ioctl.Keys.Compressed.{IsKeyPair, generate_key_pair-IsKeyPair}
use tarako_module.Ioctl.Handlers.{handle_sign_data}
use tarako_module.Ioctl.Handlers.Gate.{Holds, handle_sign_data-refuses}
use tarako_module.Ioctl.Handlers.Signed.{DeliversFor, handle_sign_data-IsEvidence}
use tarako_module.Device.{ioctl}
use tarako_module.Device.Dispatch.{IoctlContract}
use tarako_module.Device.Total.{ioctl-NoPanic}
use tarako_module.Device.System.{Site, IsMade, Reached}
use tarako_module.Device.System.Safe.{Reached-IsSound, Reached-Holds}

module _ {W P : Type 0} (K : Kernel W) (G : CurveGroup P) (C : KeyContract K G) where
  -- Under the contract of the key helpers, what was made is a key pair.
  IsMade-IsKeyPair : (kp : KeyPair) → IsMade K kp → IsKeyPair K G C kp
  IsMade-IsKeyPair kp (s, t, e) =
      subst (Returns (λ kp _. IsKeyPair K G C kp)) e (generate_key_pair-IsKeyPair K G C s)

  module _ (V : VliContract K p256_digits) (H : HashContract K) (D : DigestContract K)
      (U : UserContract K) (site : Site) (reached : Reached K site) where
    pair_of : (kp : KeyPair) → Holds site.cell.cell kp → IsKeyPair K G C kp
    pair_of kp holds = IsMade-IsKeyPair kp (Reached-Holds K site kp reached holds)

    -- In every state of the module's life no ioctl panics, under the contracts of the kernel's
    -- helpers.
    pub Reached-NoPanic :
        (E : IoctlContract K) (cmd arg : ℕ) (s : State W)
        → NoPanic (ioctl K site.cell.cell cmd arg s).0
    Reached-NoPanic E cmd arg s =
        ioctl-NoPanic K G V C H D U E site.cell.cell (Reached-IsSound K site reached) pair_of cmd
          arg s

    -- The success of a signing ioctl, with the key pair that it used.
    abbrev pub Attests : State W → ℕ → ℕ → ℤ → State W → Type 0
    Attests s arg cmd ret t =
        (kp : KeyPair) × IsMade K kp
        × (kp.ima_measured ≡ true)
        × ((pair : IsKeyPair K G C kp) × DeliversFor K G V C H D U kp pair.order_ok
              pair.private_ok.0 s arg cmd ret t)

    -- In every state of the module's life, `handle_sign_data` ends with an error or with evidence
    -- for the caller, signed with a key pair that `generate_key_pair` made and that IMA measured,
    -- under the contracts of the kernel's helpers.
    pub Reached-Attests :
        (arg cmd : ℕ) (s : State W)
        → Returns (Attests s arg cmd) (handle_sign_data K site.cell.cell arg cmd s)
    Reached-Attests arg cmd s =
        elim (handle_sign_data-refuses K site.cell.cell (Reached-IsSound K site reached) arg cmd
          s) [
            | inl (kp, holds, measured) ↦
                let pair = pair_of kp holds in
                Returns-mono
                  (DeliversFor K G V C H D U kp pair.order_ok pair.private_ok.0 s arg cmd)
                  (Attests s arg cmd) (handle_sign_data K site.cell.cell arg cmd s)
                  (λ ret t q. (kp, Reached-Holds K site kp reached holds, measured, (pair, q)))
                  (handle_sign_data-IsEvidence K G V C H D U kp pair.order_ok pair.private_ok.0
                    site.cell.cell arg cmd s holds.0 holds.1 measured)
            | inr (inl (kp, holds, unmeasured, e)) ↦ subst (Returns (Attests s arg cmd)) (sym e) tt
            | inr (inr (unset, e)) ↦ subst (Returns (Attests s arg cmd)) (sym e) tt
          ]
