-- ===== src/Tests/Numbers.antt =====
-- The theorems on limb arrays and byte formats, at concrete inputs.
use tarako_module.Shared.{
  ℕ, ◌+◌, ◌-◌, ◌*◌, ◌≤◌, ◌≡◌, refl, List, [], ◌∷◌, length, replicate, reverse, ok, arith,
  length-replicate, ◌^◌,
}
use tarako_module.Bytes.{be_value, bytes_of}
use tarako_module.Ffi.{State, ◌>>=◌}
use tarako_module.Vli.Operators.{Compares, cmp-Compares, sub_owned-add}
use tarako_module.Vli.{cmp, add, sub_owned, Vli, carrying_add, unswap, from_be_bytes}
use tarako_module.Vli.Value.{value, IsVli}
use tarako_module.Vli.Add.{base_pow, carrying_add_lem}
use tarako_module.Vli.Swap.{value-unswap}
use tarako_module.Ioctl.Types.{SignDataReq}
use tarako_module.Ioctl.Handlers.{write_limbs}
use tarako_module.Ioctl.Handlers.Binding.{message_injective, from_be_bytes-write_limbs}
use tarako_module.Tests.Limbs.{to_limbs, to_limbs-IsVli}
use tarako_module.Tests.Machine.{machine}
use tarako_module.Tests.Contracts.{machine_vli}

abbrev nines : List ℕ
nines = replicate 32 9

abbrev fives : List ℕ
fives = replicate 128 5

abbrev full_limbs : Vli
full_limbs = to_limbs 4 (2 ^ 256 - 1)

carrying_add_lem_example :
    IsVli 4 (carrying_add full_limbs (to_limbs 4 1) 1).0
    × ((carrying_add full_limbs (to_limbs 4 1) 1).1 ≤ 1)
    × (value (carrying_add full_limbs (to_limbs 4 1) 1).0
          + base_pow 4 * (carrying_add full_limbs (to_limbs 4 1) 1).1
        ≡ value full_limbs + value (to_limbs 4 1) + 1)
carrying_add_lem_example =
    carrying_add_lem 4 full_limbs (to_limbs 4 1) 1 (to_limbs-IsVli 4 (2 ^ 256 - 1))
      (to_limbs-IsVli 4 1) (omega arith)

value-unswap_example :
    IsVli 2 (unswap 2 (1 ∷ 2 ∷ []))
    × (value (unswap 2 (1 ∷ 2 ∷ [])) ≡ be_value (bytes_of (1 ∷ 2 ∷ [])))
value-unswap_example = value-unswap 2 (1 ∷ 2 ∷ []) refl

abbrev test_req : SignDataReq
test_req = record {
  user_data = replicate 128 5;
  hash = replicate 32 1;
  sig_r = replicate 32 2;
  sig_s = replicate 32 3;
  pubkey = replicate 33 4;
}

thirty_two : length (nines) ≤ 64
thirty_two = omega (arith, length-replicate {A = ℕ} 32 9)

message_injective_example : (nines ≡ nines) × (fives ≡ fives)
message_injective_example =
    message_injective (nines) (nines) fives fives (thirty_two, length-replicate {A = ℕ} 128 5)
      (thirty_two, length-replicate {A = ℕ} 128 5) refl

from_be_bytes-write_limbs_example :
    (bytes : List ℕ) × (write_limbs 0 (reverse (to_limbs 4 77)) (replicate 32 0) ≡ ok bytes)
    × (length bytes ≡ 32)
    × (be_value bytes ≡ value (to_limbs 4 77))
    × (from_be_bytes machine 4 bytes ≡ ok (to_limbs 4 77))
from_be_bytes-write_limbs_example =
    from_be_bytes-write_limbs machine machine_vli (to_limbs 4 77) (replicate 32 0)
      (to_limbs-IsVli 4 77) (length-replicate {A = ℕ} 32 0)

abbrev small_state : State ℕ
small_state = record { world = 0; buffers = λ _. []; calls = [] }

cmp-Compares_example :
    Compares
      (cmp machine 4 (to_limbs 4 7) (to_limbs 4 3))
      (value (to_limbs 4 7))
      (value (to_limbs 4 3))
cmp-Compares_example =
    cmp-Compares machine 4 machine_vli (to_limbs 4 7) (to_limbs 4 3) (to_limbs-IsVli 4 7)
      (to_limbs-IsVli 4 3)

sub_owned-add_example :
    ((add full_limbs (to_limbs 4 5) >>= λ t. sub_owned machine 4 t (to_limbs 4 5)) small_state).0
    ≡ ok full_limbs
sub_owned-add_example =
    sub_owned-add machine 4 machine_vli full_limbs (to_limbs 4 5) small_state
      (to_limbs-IsVli 4 (2 ^ 256 - 1)) (to_limbs-IsVli 4 5)
