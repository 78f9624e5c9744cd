-- ===== src/Ioctl/Handlers/Binding.antt =====
-- What the two formats of `handle_sign_data` determine: the signed message its digest and user
-- data, and the wire format of a scalar its number.
use tarako_module.Shared.{
  ℕ, ◌+◌, ◌≤◌, ◌≡◌, sym, ap, ap₂, ◌∙◌, List, ◌++◌, length, take, drop, reverse, length-append,
  length-reverse, take-append_all, drop-append_all, ok, err, panic, Outcome, arith, slice_to,
  All-reverse,
}
use tarako_module.Bytes.{be_value, bytes_of, IsByte}
use tarako_module.Bytes.Laws.{length-bytes_of, bytes_of-IsByte}
use tarako_module.Ffi.{Kernel}
use tarako_module.Vli.{Vli, from_be_bytes}
use tarako_module.Vli.Value.{value, IsVli}
use tarako_module.Vli.Order.{value_injective, from_be_bytes_lem}
use tarako_module.Contract.{VliContract}
use tarako_module.Ecc.{p256_digits, p256_bytes}
use tarako_module.Ioctl.Types.{user_data_bytes, fs_verity_max_digest_size}
use tarako_module.Ioctl.Handlers.{write_limbs, message_buffer}
use tarako_module.Ioctl.Handlers.Wire.{write_limbs_lem, be_value-scalar, message_lem}

-- The bytes that are hashed and signed.
abbrev pub message : List ℕ → List ℕ → Outcome (List ℕ)
message digest user_data =
    elim (message_buffer digest user_data (length digest + user_data_bytes)) [
      | ok to_sign ↦ slice_to (length digest + user_data_bytes) to_sign
      | err e ↦ err e
      | panic ↦ panic
    ]

-- A digest of at most 64 bytes with 128 bytes of user data.
abbrev pub Fit : List ℕ → List ℕ → Type 0
Fit digest user_data =
    (length digest ≤ fs_verity_max_digest_size) × (length user_data ≡ user_data_bytes)

message-eq :
    (digest user_data : List ℕ)
    → Fit digest user_data
    → message digest user_data ≡ ok (digest ++ user_data)
message-eq digest user_data h =
    let (buffer, filled, sliced) = message_lem digest user_data h.0 h.1 in
    rw (filled, message) sliced

content : Outcome (List ℕ) → List ℕ → List ℕ
content (ok xs) d = xs
content (err e) d = d
content panic d = d

-- The message that is signed determines the digest and the user data: for digests of at most 64
-- bytes and user data of 128 bytes, two requests whose messages are the same have the same
-- digest, of whatever length, and the same user data.
pub message_injective :
    (d e u v : List ℕ) → Fit d u → Fit e v → message d u ≡ message e v → (d ≡ e) × (u ≡ v)
unfolding content
message_injective d e u v hd he same =
    let appended : d ++ u ≡ e ++ v =
      ap (λ o. content o d) (sym (message-eq d u hd) ∙ same ∙ message-eq e v he) in
    let n : length d ≡ length e =
      omega (arith, length-append d u, length-append e v, ap length appended, hd.1, he.1) in
    (
      sym (take-append_all d u) ∙ ap₂ take n appended ∙ take-append_all e v,
      sym (drop-append_all d u) ∙ ap₂ drop n appended ∙ drop-append_all e v,
    )

module _ {W : Type 0} (K : Kernel W) (C : VliContract K p256_digits) where
  -- A scalar of four limbs that is written in wire format into 32 bytes fills them with its
  -- number in big-endian order, and `from_be_bytes` reads the same scalar back, under the
  -- contract of `ecc_digits_from_bytes`.
  pub from_be_bytes-write_limbs :
      (v : Vli) (sig : List ℕ)
      → IsVli p256_digits v
      → length sig ≡ p256_bytes
      → (bytes : List ℕ) × (write_limbs 0 (reverse v) sig ≡ ok bytes)
        × (length bytes ≡ p256_bytes)
        × (be_value bytes ≡ value v)
        × (from_be_bytes K p256_digits bytes ≡ ok v)
  from_be_bytes-write_limbs v sig hv n =
      let bytes = reverse (bytes_of v) in
      let size : length bytes ≡ 32 =
        omega (arith, length-reverse (bytes_of v), length-bytes_of v, hv.0) in
      let number = be_value-scalar v hv.1 in
      let (w, read, hw, same) =
        from_be_bytes_lem K p256_digits C bytes size (omega arith)
          (All-reverse IsByte (bytes_of v) (bytes_of-IsByte v)) in
      (
        bytes,
        write_limbs_lem v sig (omega (arith, n, hv.0)),
        size,
        number,
        read ∙ ap ok (value_injective p256_digits w v hw hv (same ∙ number)),
      )
