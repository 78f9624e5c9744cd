-- ===== src/Ioctl/Sign/Nonces.antt =====
-- The rounds of `ecdsa_sign` that give no signature, and their nonces.
use mathlib.Core.Path.{subst}
use tarako_module.Shared.{ℕ, suc, ◌≡◌, none, List, ok}
use tarako_module.Ffi.{Kernel, State}
use tarako_module.Ffi.Returns.{Returns}
use tarako_module.Vli.{Vli}
use tarako_module.Vli.Value.{IsVli}
use tarako_module.Contract.{VliContract, KeyContract, CurveGroup, IsOrder}
use tarako_module.Ecc.{p256_digits}
use tarako_module.Ioctl.Sign.{attempt}
use tarako_module.Ioctl.Sign.Rounds.{Skips, stop, skip}
use tarako_module.Ioctl.Sign.Round.{Skipped, SignsIfAny, IsDigest}
use tarako_module.Ioctl.Sign.Correct.{attempt_lem}

module _ {W P : Type 0} (K : Kernel W) (G : CurveGroup P) (V : VliContract K p256_digits)
    (C : KeyContract K G) (n d : Vli) (order : IsOrder K G n) (private : IsVli p256_digits d)
    (h : List ℕ) where
  -- So many rounds in a row, each of which drew a nonce that gives no signature of `h`.
  pub data BadNonces : ℕ → State W → State W → Type 0 where
    no_more : (s : State W) → BadNonces 0 s s
    bad :
        (m : ℕ) (s t u : State W)
        → Skipped K G V C n d order private s h
        → attempt K h d n s ≡ (ok none, t)
        → BadNonces m t u
        → BadNonces (suc m) s u

  -- A round that gives no signature drew such a nonce.
  pub Skips-BadNonces :
      (m : ℕ) (s u : State W)
      → IsDigest K G V C n d order private h
      → Skips K h d n m s u
      → BadNonces m s u
  Skips-BadNonces _ s _ hh (stop _) = no_more s
  Skips-BadNonces _ s u hh (skip m _ t _ e rest) =
      let reason =
        subst (Returns (λ x _. SignsIfAny K G V C n d order private s h x)) e
          (attempt_lem K G V C n d order private h s hh) in
      bad m s t u reason e (Skips-BadNonces m t u hh rest)
