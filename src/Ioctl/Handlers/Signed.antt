-- ===== src/Ioctl/Handlers/Signed.antt =====
-- What `handle_sign_data` hands to user space.
use mathlib.Core.Path.{subst}
use tarako_module.Shared.{
  ℕ, ◌≤◌, ◌≡◌, sym, ap, some, true, List, length, take, arith, ℤ, length-take,
}
use tarako_module.Ffi.{Kernel, State, ◌>>=◌, lift}
use tarako_module.Ffi.Returns.{Returns, Returns-bind, Returns-mono}
use tarako_module.Vli.Value.{IsVli}
use tarako_module.Contract.{
  VliContract, HashContract, DigestContract, UserContract, KeyContract, CurveGroup, IsOrder,
}
use tarako_module.Ecc.{p256_digits}
use tarako_module.SetOnce.{SetOnce}
use tarako_module.Ioctl.Types.{KeyPair}
use tarako_module.Ioctl.Digest.{FsverityDigest, current_exe_fsverity_digest}
use tarako_module.Ioctl.Digest.Caller.{
  IsCallerDigest, IsDigestAt, current_exe_fsverity_digest_lem, digest_lem,
}
use tarako_module.Ioctl.Handlers.{sign_request, handle_sign_data}
use tarako_module.Ioctl.Handlers.Gate.{after_digest, handle_sign_data-opened}
use tarako_module.Ioctl.Handlers.Answer.{Delivers, sign_request_lem}

module _ {W P : Type 0} (K : Kernel W) (G : CurveGroup P) (V : VliContract K p256_digits)
    (C : KeyContract K G) (H : HashContract K) (D : DigestContract K) (U : UserContract K)
    (kp : KeyPair) (order : IsOrder K G kp.curve_n) (private : IsVli p256_digits kp.private) where
  -- The same for the digest of the caller.
  abbrev pub DeliversFor : State W → ℕ → ℕ → ℤ → State W → Type 0
  DeliversFor s arg cmd ret t =
      (digest_bytes : List ℕ) × IsCallerDigest K s.world digest_bytes
      × Delivers K G V C H D U kp order private arg (K.ioc_size cmd) digest_bytes ret t

  length-digest :
      (w : W) (d : FsverityDigest) → IsDigestAt K D w d → length (take d.size d.buffer) ≤ 64
  length-digest w d h = omega (arith, length-take d.size d.buffer h.1, h.1, h.2)

  -- With a measured key in the cell, `handle_sign_data` never panics, and if it succeeds it
  -- returns 0 and the last thing that it wrote to user space, at `arg`, is evidence: the user
  -- data read from `arg`, the SHA-256 hash of the fs-verity digest of the caller's executable
  -- followed by that data, an ECDSA signature of that hash for the public key of the private key
  -- in big-endian wire format, and the public key in the cell. This holds under the contracts of
  -- the kernel's helpers, for a private key of four limbs and the order of the curve.
  pub handle_sign_data-IsEvidence :
      (cell : SetOnce KeyPair) (arg cmd : ℕ) (s : State W)
      → cell.init ≡ 2
      → cell.value ≡ some kp
      → kp.ima_measured ≡ true
      → Returns (DeliversFor s arg cmd) (handle_sign_data K cell arg cmd s)
  handle_sign_data-IsEvidence cell arg cmd s set has measured =
      subst (Returns (DeliversFor s arg cmd))
        (sym (handle_sign_data-opened K kp cell arg cmd s set has measured))
        (Returns-bind (λ d _. IsDigestAt K D s.world d) (DeliversFor s arg cmd)
          (current_exe_fsverity_digest K) (after_digest K kp arg cmd) s
          (current_exe_fsverity_digest_lem K D s)
          λ d t hd.
            subst (Returns (DeliversFor s arg cmd))
              (sym (
                ap (λ r. (lift r >>= λ bytes. sign_request K kp bytes arg (K.ioc_size cmd)) t)
                  (digest_lem K D s.world d hd)))
              (Returns-mono
                (Delivers K G V C H D U kp order private arg (K.ioc_size cmd)
                  (take d.size d.buffer))
                (DeliversFor s arg cmd) _ (λ ret u q. (take d.size d.buffer, hd.0, q))
                (sign_request_lem K G V C H D U kp order private (take d.size d.buffer) arg
                  (K.ioc_size cmd) t (length-digest s.world d hd))))
