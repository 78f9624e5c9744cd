-- ===== src/Ioctl/Keys.antt =====
-- `generate_key_pair`.
pub mod Parity
pub mod Compressed
pub mod NotMade
pub mod Account
use Prim.Native.Nat.{bit_and, bit_or}
use tarako_module.Shared.{
  ℕ, ◌-◌, Bool, true, false, List, ◌∷◌, get_or, ok, err, panic, einval, ok_or,
}
use tarako_module.Ffi.{
  Kernel, Point, M, pure, lift, ◌>>=◌, finally, on_error, log, print, key_measured, key_unmeasured,
  match_result, ◌>>◌,
}
use tarako_module.Vli.{Vli, drop_vli}
use tarako_module.Ecc.{
  p256_bytes, x_as_bytes, y_as_bytes, drop_point, get_curve_n, generate_private_key,
  make_public_key, ima_measure_pubkey,
}
use tarako_module.Ioctl.Types.{KeyPair}

-- SEC1 compressed form: `pubkey[0]`, then X.
unfoldable pub compress : List ℕ → List ℕ → List ℕ
compress public_x public_y = bit_or 0x02 (bit_and (get_or public_y (p256_bytes - 1) 0) 1) ∷ public_x

module _ {W : Type 0} (K : Kernel W) where
  -- The `match` on the result of `ima_measure_pubkey`.
  unfoldable pub measured : List ℕ → M W Bool
  measured pubkey =
      match_result (ima_measure_pubkey K pubkey)
        (λ _. log (print (key_measured pubkey)) >> pure true)
        (λ error. log (print (key_unmeasured error)) >> pure false)

  -- The part of `generate_key_pair` that owns both keys.
  unfoldable pub assemble : Vli → List ℕ → M W KeyPair
  unfolding measured
  assemble private pubkey = do
    curve_n ← lift (ok_or (get_curve_n K) einval)
    ima_measured ← measured pubkey
    pure (record {
      private = private;
      pubkey = pubkey;
      curve_n = curve_n;
      ima_measured = ima_measured;
    })

  -- The part that reads the coordinates of the public key.
  unfoldable pub read_point : Vli → Point → M W KeyPair
  read_point private public = do
    public_x ← x_as_bytes K public
    public_y ← y_as_bytes K public
    assemble private (compress public_x public_y)

  -- The part that owns the private key.
  unfoldable pub with_private : Vli → M W KeyPair
  unfolding read_point
  with_private private = do
    public ← make_public_key K private
    finally (read_point private public) (drop_point K public)

  unfoldable pub generate_key_pair : M W KeyPair
  unfolding with_private
  generate_key_pair = do
    private ← generate_private_key K
    on_error (with_private private) (drop_vli private)
