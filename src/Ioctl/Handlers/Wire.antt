-- ===== src/Ioctl/Handlers/Wire.antt =====
-- The byte layout of what `handle_sign_data` signs and returns.
use mathlib.Core.List.{append_assoc, append-nil, reverse-append, reverse-cons}
use mathlib.Core.Path.{subst}
use tarako_module.Shared.{
  ℕ, ◌+◌, ◌-◌, ◌*◌, ◌≤◌, ◌≡◌, refl, sym, ap, ◌∙◌, List, [], ◌∷◌, ◌++◌, reverse, length, take, drop,
  replicate, length-take, length-drop, length-append, length-reverse, take-append-drop, ok, arith,
  copy_from_slice, copy_from_slice-append, slice_to, slice_to-append, All,
}
use tarako_module.Bytes.{IsLimb, le_bytes, to_be_bytes, bytes_of, be_value}
use tarako_module.Bytes.Laws.{length-le_bytes, be_value-reverse}
use tarako_module.Vli.{Vli}
use tarako_module.Vli.Value.{value}
use tarako_module.Vli.Swap.{le_value-bytes_of}
use tarako_module.Ioctl.Types.{user_data_bytes, fs_verity_max_digest_size}
use tarako_module.Ioctl.Handlers.{write_limbs, message_buffer}

-- The big-endian bytes of limbs given from the highest down.
unfoldable be_concat : List ℕ → List ℕ
be_concat [] = []
be_concat (l ∷ ls) = to_be_bytes l ++ be_concat ls

length-to_be_bytes : (l : ℕ) → length (to_be_bytes l) ≡ 8
unfolding to_be_bytes
length-to_be_bytes l = length-reverse (le_bytes 8 l) ∙ length-le_bytes 8 l

be_concat-append : (v w : List ℕ) → be_concat (v ++ w) ≡ be_concat v ++ be_concat w
unfolding be_concat
be_concat-append [] w = refl
be_concat-append (l ∷ v) w =
    ap (λ t. to_be_bytes l ++ t) (be_concat-append v w)
    ∙ sym (append_assoc (to_be_bytes l) (be_concat v) (be_concat w))

be_concat-one : (l : ℕ) → be_concat (l ∷ []) ≡ reverse (le_bytes 8 l)
unfolding be_concat to_be_bytes
be_concat-one l = append-nil (reverse (le_bytes 8 l))

bytes_of-cons : (l : ℕ) (v : List ℕ) → bytes_of (l ∷ v) ≡ le_bytes 8 l ++ bytes_of v
unfolding bytes_of
bytes_of-cons l v = refl

be_concat-reverse : (v : List ℕ) → be_concat (reverse v) ≡ reverse (bytes_of v)
be_concat-reverse [] = unfold be_concat bytes_of in refl
be_concat-reverse (l ∷ v) = rw (
  reverse-cons,
  be_concat-append,
  be_concat-reverse v,
  be_concat-one,
  bytes_of-cons,
  reverse-append,
)

-- A copy to the end of what is done, over the first of what is to do.
copy_next :
    (done todo src : List ℕ) (from to : ℕ)
    → length done ≡ from
    → to ≡ length done + length src
    → length src ≤ length todo
    → copy_from_slice (done ++ todo) from to src ≡ ok (done ++ (src ++ drop (length src) todo))
copy_next done todo src from to hf ht hs =
    subst
      (λ t. copy_from_slice (done ++ t) from to src ≡ ok (done ++ (src ++ drop (length src) todo)))
      (take-append-drop (length src) todo)
      (copy_from_slice-append done (take (length src) todo) (drop (length src) todo) src from to
        (sym hf) (omega (arith, ht, room)) (sym room))
  where
    room : length (take (length src) todo) ≡ length src
    room = length-take (length src) todo hs

write_limbs-cons :
    (i l : ℕ) (limbs sig sig' : List ℕ)
    → copy_from_slice sig (i * 8) ((i + 1) * 8) (to_be_bytes l) ≡ ok sig'
    → write_limbs i (l ∷ limbs) sig ≡ write_limbs (i + 1) limbs sig'
unfolding write_limbs
write_limbs-cons i l limbs sig sig' e = rw (e, write_limbs)

-- The loop fills the array with the bytes of the limbs, in the order in which they come.
write_limbs-append :
    (i : ℕ) (limbs done todo : List ℕ)
    → length done ≡ i * 8
    → length todo ≡ length limbs * 8
    → write_limbs i limbs (done ++ todo) ≡ ok (done ++ be_concat limbs)
unfolding write_limbs be_concat
write_limbs-append i [] done [] hd ht = refl
write_limbs-append i [] done (t ∷ todo) hd ht = absurd (omega arith)
write_limbs-append i (l ∷ limbs) done todo hd ht =
    write_limbs-cons i l limbs (done ++ todo) (done ++ (to_be_bytes l ++ drop 8 todo)) copied
    ∙ ap (write_limbs (i + 1) limbs) (sym (append_assoc done (to_be_bytes l) (drop 8 todo)))
    ∙ write_limbs-append (i + 1) limbs (done ++ to_be_bytes l) (drop 8 todo)
        (omega (arith, hd, length-append done (to_be_bytes l), length-to_be_bytes l))
        (omega (arith, ht, length-drop 8 todo))
    ∙ ap ok (append_assoc done (to_be_bytes l) (be_concat limbs))
  where
    copied :
        copy_from_slice (done ++ todo) (i * 8) ((i + 1) * 8) (to_be_bytes l)
        ≡ ok (done ++ (to_be_bytes l ++ drop 8 todo))
    copied =
        copy_next done todo (to_be_bytes l) (i * 8) ((i + 1) * 8) hd
          (omega (arith, hd, length-to_be_bytes l)) (omega (arith, ht, length-to_be_bytes l))
        ∙ ap (λ k. ok (done ++ (to_be_bytes l ++ drop k todo))) (length-to_be_bytes l)

-- Scalars are written in the big-endian wire format.
pub write_limbs_lem :
    (v : Vli) (sig : List ℕ)
    → length sig ≡ length v * 8
    → write_limbs 0 (reverse v) sig ≡ ok (reverse (bytes_of v))
write_limbs_lem v sig h =
    write_limbs-append 0 (reverse v) [] sig refl (omega (arith, length-reverse v))
    ∙ ap ok (be_concat-reverse v)

pub be_value-scalar : (v : Vli) → All IsLimb v → be_value (reverse (bytes_of v)) ≡ value v
be_value-scalar v h = be_value-reverse (bytes_of v) ∙ le_value-bytes_of v h

-- What is signed: the digest, then the user data.
pub message_lem :
    (digest user_data : List ℕ)
    → length digest ≤ fs_verity_max_digest_size
    → length user_data ≡ user_data_bytes
    → (buffer : List ℕ) × (message_buffer digest user_data (length digest + user_data_bytes)
        ≡ ok buffer)
      × (slice_to (length digest + user_data_bytes) buffer ≡ ok (digest ++ user_data))
unfolding message_buffer
message_lem digest user_data hd hu =
    (digest ++ (user_data ++ drop (length user_data) rest), filled, sliced)
  where
    zeros : List ℕ
    zeros = replicate (fs_verity_max_digest_size + user_data_bytes) 0

    rest : List ℕ
    rest = drop (length digest) zeros

    room : length rest ≡ fs_verity_max_digest_size + user_data_bytes - length digest
    room = length-drop (length digest) zeros

    first : copy_from_slice zeros 0 (length digest) digest ≡ ok (digest ++ rest)
    first = copy_next [] zeros digest 0 (length digest) refl (omega arith) (omega (arith, hd))

    filled :
        message_buffer digest user_data (length digest + user_data_bytes)
        ≡ ok (digest ++ (user_data ++ drop (length user_data) rest))
    filled =
        rw (first, message_buffer)
          (copy_next digest rest user_data (length digest) (length digest + user_data_bytes) refl
            (omega (arith, hu)) (omega (arith, hu, hd, room)))

    sliced :
        slice_to
          (length digest + user_data_bytes)
          (digest ++ (user_data ++ drop (length user_data) rest))
        ≡ ok (digest ++ user_data)
    sliced =
        ap (slice_to (length digest + user_data_bytes))
          (sym (append_assoc digest user_data (drop (length user_data) rest)))
        ∙ slice_to-append (digest ++ user_data) (drop (length user_data) rest)
            (length digest + user_data_bytes) (omega (arith, length-append digest user_data, hu))
