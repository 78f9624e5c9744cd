-- ===== src/Tests/Fixtures.antt =====
-- The inputs of the tests: a state, key pairs, cells and the module.
use tarako_module.Shared.{ℕ, refl, true, false, none, some, List, [], ◌∷◌, replicate}
use tarako_module.Ffi.{State}
use tarako_module.Tests.Limbs.{to_limbs}
use tarako_module.Tests.Machine.{p256_order, machine}
use tarako_module.SetOnce.{SetOnce}
use tarako_module.Ioctl.Types.{KeyPair}
use tarako_module.Device.{Module}
use tarako_module.Device.Dispatch.{IoctlContract}

abbrev pub start_state : State ℕ
start_state = record { world = 0; buffers = λ _. []; calls = [] }

abbrev pub test_pubkey : List ℕ
test_pubkey = 2 ∷ replicate 32 7

abbrev pub test_pair : KeyPair
test_pair = record {
  private = to_limbs 4 1;
  pubkey = test_pubkey;
  curve_n = to_limbs 4 p256_order;
  ima_measured = true;
}

abbrev pub unmeasured_pair : KeyPair
unmeasured_pair = record test_pair { ima_measured = false }

abbrev pub cell_of : KeyPair → SetOnce KeyPair
cell_of kp = record { init = 2; value = some kp }

abbrev pub empty_module : Module ℕ
empty_module = record { key_pair = record { init = 0; value = none }; kernel = start_state }

abbrev pub full_module : Module ℕ
full_module = record { key_pair = cell_of test_pair; kernel = start_state }

pub machine_ioctl : IoctlContract machine
machine_ioctl = record {
  io_law = λ t n. refl;
  ior_law = λ s t n h. refl;
  iowr_law = λ s t n h. refl;
  size_law = λ c. refl;
}
