-- ===== src/Tests/Cells.antt =====
-- The theorems on `SetOnce` and on the module, at concrete inputs.
use tarako_module.Shared.{
  ℕ, ◌≡◌, ◌≢◌, refl, ◌⊎◌, none, some, [], ◌∷◌, length, replicate, ok, err, enxio, enotty, pos,
}
use tarako_module.Ffi
use tarako_module.Ffi.{State, wipe}
use tarako_module.SetOnce.{new, cmpxchg, write_value, store_init}
use tarako_module.SetOnce.Threads.{
  step, load_set, System, moved, Step, win, write, publish, Runs, done, initial, Reachable, start,
  next, idle, writing, publishing, loaded, holding, faulted,
}
use tarako_module.SetOnce.Threads.Invariant.{IsWriter, IsReader}
use tarako_module.SetOnce.Threads.Safe.{Reachable-safe, Runs-keeps, Reachable-finishes}
use tarako_module.SetOnce.Threads.Calls.{Populates, Refers, populate-Visits, as_ref-Visits}
use tarako_module.Ioctl.Handlers.{handle_sign_data, handle_get_pubkey}
use tarako_module.Device.{ioctl, module_init, module_drop}
use tarako_module.Device.Dispatch.{ioctl_lem}
use tarako_module.Device.Lifecycle.{Loaded, module_init_lem, module_drop_lem}
use tarako_module.Tests.Machine.{p256_group, machine}
use tarako_module.Tests.Contracts.{machine_keys}
use tarako_module.Tests.Fixtures.{
  start_state, test_pair, cell_of, empty_module, full_module, machine_ioctl,
}

-- A run in which thread 1 populates the cell with 5.
abbrev first : System ℕ
first = moved initial (record { init = 1; value = none }) 1 (writing 5)

abbrev second : System ℕ
second = moved first (record { init = 1; value = some 5 }) 1 publishing

abbrev third : System ℕ
third = moved second (record { init = 2; value = some 5 }) 1 idle

first_step : Step initial 1 first
unfolding initial new cmpxchg
first_step = win 5 refl refl

second_step : Step first 1 second
unfolding initial new write_value
second_step = write 5 refl

third_step : Step second 1 third
unfolding initial new store_init
third_step = publish refl

at_first : Reachable (λ v. v) first
at_first = next initial first 1 start first_step

at_third : Reachable (λ v. v) third
at_third = next second third 1 (next first second 1 at_first second_step) third_step

idle_two : third.threads 2 ≡ idle
unfolding initial new
idle_two = refl

Reachable-safe_example :
    ((i : ℕ) → third.threads i ≢ faulted)
    × ((i j : ℕ) → IsWriter (third.threads i) → IsReader (third.threads j) → ⊥)
    × ((i j : ℕ) → IsWriter (third.threads i) → IsWriter (third.threads j) → i ≡ j)
    × ((i v : ℕ) → third.threads i ≡ holding v → some 5 ≡ some v)
Reachable-safe_example = Reachable-safe (λ v. v) third at_third

Reachable-finishes_example : (t : System ℕ) × Runs first t × (t.cell.init ≡ 2)
Reachable-finishes_example = Reachable-finishes (λ v. v) first at_first refl

-- Thread 2 loads the state of the cell.
abbrev fourth : System ℕ
fourth = moved third third.cell 2 loaded

Runs-keeps_example : fourth.cell ≡ third.cell
Runs-keeps_example =
    Runs-keeps (λ v. v) third fourth at_third refl
      (step third fourth fourth 2 (load_set idle_two refl) (done fourth))

populate-Visits_example : Populates {T = ℕ} initial 3 7
unfolding initial
populate-Visits_example = populate-Visits initial 3 7 refl

as_ref-Visits_example : Refers third 2
as_ref-Visits_example = as_ref-Visits third 2 idle_two

module_init_lem_example :
    Loaded machine p256_group machine_keys empty_module (module_init machine empty_module)
module_init_lem_example = module_init_lem machine p256_group machine_keys empty_module

module_drop_lem_example :
    let n = module_drop machine full_module in
    (n.key_pair ≡ record {
      init = 0;
      value = some (record test_pair {
        private = replicate (length test_pair.private) 0;
        curve_n = replicate (length test_pair.curve_n) 0;
      });
    })
    × (n.kernel.calls ≡ wipe test_pair.curve_n ∷ wipe test_pair.private ∷ Ffi.deregister ∷ [])
    × ((arg cmd : ℕ)
        → handle_get_pubkey machine n.key_pair arg cmd n.kernel ≡ (err enxio, n.kernel))
    × ((arg cmd : ℕ) → handle_sign_data machine n.key_pair arg cmd n.kernel ≡ (err enxio, n.kernel))
module_drop_lem_example = module_drop_lem machine full_module test_pair (refl, refl)

abbrev test_cmd : ℕ
test_cmd = 0x80215301

ioctl_lem_example :
    ((test_cmd ≡ 0x5300)
      × (ioctl machine (cell_of test_pair) test_cmd 4096 start_state ≡ (ok (pos 0), start_state)))
    ⊎ ((test_cmd ≡ test_cmd)
        × (machine.ioc_size test_cmd ≡ 33)
        × (ioctl machine (cell_of test_pair) test_cmd 4096 start_state
            ≡ handle_get_pubkey machine (cell_of test_pair) 4096 test_cmd start_state))
    ⊎ ((test_cmd ≡ 0xC1015302)
        × (machine.ioc_size test_cmd ≡ 257)
        × (ioctl machine (cell_of test_pair) test_cmd 4096 start_state
            ≡ handle_sign_data machine (cell_of test_pair) 4096 test_cmd start_state))
    ⊎ ((test_cmd ≢ 0x5300)
        × (test_cmd ≢ test_cmd)
        × (test_cmd ≢ 0xC1015302)
        × (ioctl machine (cell_of test_pair) test_cmd 4096 start_state ≡ (err enotty, start_state)))
ioctl_lem_example = ioctl_lem machine machine_ioctl (cell_of test_pair) test_cmd 4096 start_state
