-- ===== src/Tests/Lives.antt =====
-- The theorems on the life of the module, at a concrete run.
use tarako_module.Shared.{
  ℕ, ◌+◌, ◌≡◌, ◌≢◌, refl, ◌⊎◌, true, false, some, [], ok, err, enomem, arith,
}
use tarako_module.Bytes.{le_bytes, le_value, from_be, bytes_of}
use tarako_module.Ffi.{State}
use tarako_module.Ffi.Returns.{Returns}
use tarako_module.Ffi.Ledger.{total}
use tarako_module.Vli.Value.{value}
use tarako_module.Ecc.{
  x_as_bytes, y_as_bytes, get_curve_n, ima_measure_pubkey, generate_private_key, make_public_key,
  fill_point, drop_point,
}
use tarako_module.SetOnce.{new, cmpxchg, write_value, store_init}
use tarako_module.SetOnce.Threads
use tarako_module.SetOnce.Threads.{moved, put, initial, idle, writing, publishing, holding, faulted}
use tarako_module.Ioctl.Types.{KeyPair}
use tarako_module.Ioctl.Keys.{
  generate_key_pair, with_private, read_point, assemble, measured, compress,
}
use tarako_module.Ioctl.Handlers.{handle_sign_data}
use tarako_module.Device.{TarakoDevice, open_device, release_device, module_init}
use tarako_module.Device.Files.{taken, returned, open_device_lem}
use tarako_module.Device.System
use tarako_module.Device.System.{
  Site, IsMade, Reached, booted, moves, before_load, live, dropping, refused, unloaded,
}
use tarako_module.Device.System.Safe.{Reached-safe}
use tarako_module.Device.System.Served.{Attests, Reached-Attests}
use tarako_module.Device.System.Loading.{IsLoad, module_init-IsLoad}
use tarako_module.Tests.Limbs.{to_limbs, swapped}
use tarako_module.Tests.Machine.{machine, public_key, p256_group}
use tarako_module.Tests.Contracts.{
  machine_vli, machine_hash, machine_digest, machine_user, machine_keys,
}
use tarako_module.Tests.Fixtures.{start_state, empty_module}
use tarako_module.Tests.Devices.{one_pair}

one_pair-IsMade : IsMade machine one_pair
unfolding generate_key_pair generate_private_key make_public_key x_as_bytes y_as_bytes assemble
    get_curve_n ima_measure_pubkey with_private read_point measured compress public_key to_limbs
    swapped le_bytes le_value from_be bytes_of fill_point drop_point value
one_pair-IsMade = (start_state, _, refl)

abbrev made : Site
unfolding initial new
made = record { cell = initial; phase = System.generated one_pair; files = λ _. false }

abbrev offered : Site
offered = record made { phase = System.registered one_pair }

-- User thread 1 opens the device before the key pair is stored.
abbrev opened : Site
opened = record offered { files = put offered.files 1 true }

abbrev won : Site
unfolding cmpxchg
won = record opened {
  cell = moved opened.cell (cmpxchg 0 1 opened.cell.cell).0 0 (writing one_pair);
  phase = System.storing;
}

abbrev written : Site
unfolding write_value
written = record won { cell = moved won.cell (write_value one_pair won.cell.cell) 0 publishing }

abbrev stored : Site
unfolding store_init
stored = record written {
  cell = moved written.cell (store_init 2 written.cell.cell) 0 idle;
  phase = live;
}

abbrev looked : Site
looked = record stored { cell = moved stored.cell stored.cell.cell 1 Threads.loaded }

abbrev in_use : Site
in_use = record looked { cell = moved looked.cell looked.cell.cell 1 (holding one_pair) }

in_use-Reached : Reached machine in_use
unfolding initial new cmpxchg write_value store_init
in_use-Reached =
    moves looked in_use
      (moves stored looked
        (moves written stored
          (moves won written
            (moves opened won
              (moves offered opened
                (moves made offered
                  (moves (before_load machine) made booted
                    (System.generate one_pair refl one_pair-IsMade))
                  (System.register one_pair refl))
                (System.open_file 1 (omega arith) tt))
              (System.win one_pair refl refl))
            (System.write one_pair refl refl))
          (System.publish refl refl))
        (System.access 1 looked.cell (Threads.load_set refl refl) tt refl))
      (System.access 1 in_use.cell (Threads.refer one_pair refl refl) tt refl)

Reached-safe_example :
    (in_use.phase ≢ refused)
    × ((i : ℕ) → in_use.cell.threads i ≢ faulted)
    × (in_use.phase ≡ dropping → (i : ℕ) → in_use.cell.threads i ≡ idle)
    × ((i : ℕ) (kp : KeyPair)
        → in_use.cell.threads i ≡ holding kp
        → (in_use.phase ≡ live) × (in_use.cell.cell.value ≡ some kp) × IsMade machine kp)
Reached-safe_example = Reached-safe machine in_use in_use-Reached

Reached-Attests_example :
    Returns
      (Attests machine p256_group machine_keys machine_vli machine_hash machine_digest machine_user
        in_use in_use-Reached start_state 4096 0xC1015302)
      (handle_sign_data machine in_use.cell.cell 4096 0xC1015302 start_state)
Reached-Attests_example =
    Reached-Attests machine p256_group machine_keys machine_vli machine_hash machine_digest
      machine_user in_use in_use-Reached 4096 0xC1015302 start_state

empty_new : empty_module.key_pair ≡ new
unfolding new
empty_new = refl

module_init-IsLoad_example : IsLoad machine (module_init machine empty_module)
module_init-IsLoad_example = module_init-IsLoad machine empty_module empty_new

abbrev weigh_box : ℕ → ℕ
weigh_box p = p + 1

open_device_lem_example :
    let (x, t) = open_device machine start_state in
    ((x ≡ err enomem)
      × (total (taken 1 weigh_box) t.calls + total (returned 1 weigh_box) []
          ≡ total (returned 1 weigh_box) t.calls + total (taken 1 weigh_box) []))
    ⊎ ((me : TarakoDevice) × (x ≡ ok me)
        × (total (taken 1 weigh_box) t.calls + total (returned 1 weigh_box) []
            ≡ total (returned 1 weigh_box) t.calls
              + total (taken 1 weigh_box) []
              + (1 + weigh_box me.box))
        × ((u : State ℕ)
            → let v = (release_device machine me u).1 in
              total (taken 1 weigh_box) v.calls
                + total (returned 1 weigh_box) u.calls
                + (1 + weigh_box me.box)
              ≡ total (returned 1 weigh_box) v.calls + total (taken 1 weigh_box) u.calls))
open_device_lem_example = open_device_lem machine 1 weigh_box start_state
