-- ===== src/Device/Total.antt =====
-- The ioctl always ends with a result or an error.
use mathlib.Core.Path.{subst}
use tarako_module.Shared.{ℕ, ◌≡◌, sym, inl, inr, Outcome, ok, err, panic, NoPanic, Option-cases, ℤ}
use tarako_module.Ffi.{Kernel, State}
use tarako_module.Ffi.Returns.{Returns}
use tarako_module.Contract.{
  VliContract, HashContract, DigestContract, UserContract, KeyContract, CurveGroup,
}
use tarako_module.Ecc.{p256_digits}
use tarako_module.SetOnce.{SetOnce}
use tarako_module.Ioctl.Types.{KeyPair}
use tarako_module.Ioctl.Keys.Compressed.{IsKeyPair}
use tarako_module.Ioctl.Handlers.{handle_sign_data, handle_get_pubkey}
use tarako_module.Ioctl.Handlers.Gate.{
  IsSound, Holds, handle_sign_data-refuses, handle_get_pubkey_lem,
}
use tarako_module.Ioctl.Handlers.Signed.{handle_sign_data-IsEvidence}
use tarako_module.Device.{ioctl}
use tarako_module.Device.Dispatch.{IoctlContract, ioctl_lem}

Returns-NoPanic :
    {W A : Type 0} (P : A → State W → Type 0) (x : Outcome A × State W) → Returns P x → NoPanic x.0
Returns-NoPanic P (ok a, s) h = tt
Returns-NoPanic P (err e, s) h = tt
Returns-NoPanic P (panic, s) h = h

module _ {W P : Type 0} (K : Kernel W) (G : CurveGroup P) (V : VliContract K p256_digits)
    (C : KeyContract K G) (H : HashContract K) (D : DigestContract K) (U : UserContract K)
    (E : IoctlContract K) (cell : SetOnce KeyPair) (sound : IsSound cell)
    (keys : (kp : KeyPair) → Holds cell kp → IsKeyPair K G C kp) where
  at : (x y : Outcome ℤ × State W) → x ≡ y → NoPanic y.0 → NoPanic x.0
  at x y e h = subst (λ z. NoPanic z.0) (sym e) h

  sign_data-NoPanic : (arg cmd : ℕ) (s : State W) → NoPanic (handle_sign_data K cell arg cmd s).0
  sign_data-NoPanic arg cmd s = elim (handle_sign_data-refuses K cell sound arg cmd s) [
    | inl (kp, holds, measured) ↦
        let pair = keys kp holds in
        Returns-NoPanic _ (handle_sign_data K cell arg cmd s) (
          handle_sign_data-IsEvidence K G V C H D U kp pair.order_ok pair.private_ok.0 cell arg cmd
            s holds.0 holds.1 measured)
    | inr (inl (kp, holds, unmeasured, e)) ↦ at _ _ e tt
    | inr (inr (unset, e)) ↦ at _ _ e tt
  ]

  get_pubkey-NoPanic : (arg cmd : ℕ) (s : State W) → NoPanic (handle_get_pubkey K cell arg cmd s).0
  get_pubkey-NoPanic arg cmd s = elim (handle_get_pubkey_lem K cell sound arg cmd s) [
    | inl (kp, holds, fits, e) ↦
        elim (Option-cases (K.write_slice arg (K.ioc_size cmd) kp.pubkey s.world).0) [
          | inl f ↦ at _ _ e (rw f tt)
          | inr (x, f) ↦ at _ _ e (rw f tt)
        ]
    | inr (inl (short, e)) ↦ at _ _ e tt
    | inr (inr (unset, e)) ↦ at _ _ e tt
  ]

  -- No ioctl panics, whatever its command, its argument and the state, and whether its cell is
  -- empty, busy or set, if the storage of a set cell is initialised and what it holds is a key
  -- pair as `generate_key_pair` makes it, and the kernel's helpers meet their contracts: no index
  -- is out of range and no uninitialised storage is read.
  pub ioctl-NoPanic : (cmd arg : ℕ) (s : State W) → NoPanic (ioctl K cell cmd arg s).0
  ioctl-NoPanic cmd arg s = elim (ioctl_lem K E cell cmd arg s) [
    | inl (c, e) ↦ at _ _ e tt
    | inr (inl (c, n, e)) ↦ at _ _ e (get_pubkey-NoPanic arg cmd s)
    | inr (inr (inl (c, n, e))) ↦ at _ _ e (sign_data-NoPanic arg cmd s)
    | inr (inr (inr (a, b, c, e))) ↦ at _ _ e tt
  ]
