-- ===== src/Device/System.antt =====
-- The life of the module with any number of user threads: driver/src/lib.rs and the accesses of
-- driver/src/set_once.rs, interleaved. The loader is thread 0; it runs `init` and, later, the drop
-- of the module. A file can be opened from the registration of the device on, so before the key
-- pair is stored, and what a user thread does to the cell in its ioctls is `as_ref`, with the
-- reference held until the ioctl ends. Two rules are the kernel's: a file stays open while an ioctl
-- on it runs, and a module is unloaded only while none of its files is open.
pub mod Invariant
pub mod Preserved
pub mod Safe
pub mod Served
pub mod Loading
use tarako_module.Shared.{ℕ, ◌≡◌, ◌≢◌, Bool, true, false, ok}
use tarako_module.Ffi.{Kernel, State}
use tarako_module.SetOnce.{cmpxchg, write_value, store_init}
use tarako_module.SetOnce.Threads
use tarako_module.SetOnce.Threads.{System, put, moved, cleared, initial, idle, writing, publishing}
use tarako_module.Ioctl.Types.{KeyPair, drop_key_pair}
use tarako_module.Ioctl.Keys.{generate_key_pair}

-- How far the loader is: not loaded, with a key pair before and after the registration, inside
-- `populate`, loaded, past the drop of the registration, or refused by `populate` with EBUSY.
pub data Phase : Type 0 where
  unloaded : Phase
  generated : KeyPair → Phase
  registered : KeyPair → Phase
  storing : Phase
  live : Phase
  dropping : Phase
  refused : Phase

-- The cell with its threads, and which thread has the device open.
pub record Site : Type 0 where
  pub cell : System KeyPair
  pub phase : Phase
  pub files : ℕ → Bool

-- The device is registered.
abbrev pub Serves : Phase → Type 0
Serves (registered kp) = Unit
Serves storing = Unit
Serves live = Unit
Serves _ = ⊥

-- The accesses of `as_ref` and of its reference.
abbrev pub IsRead : {s : System KeyPair} {i : ℕ} {t : System KeyPair} → Threads.Step s i t → Type 0
IsRead (Threads.load_set e f) = Unit
IsRead (Threads.load_unset e f) = Unit
IsRead (Threads.refer v e f) = Unit
IsRead (Threads.refer_uninit e f) = Unit
IsRead (Threads.release v e) = Unit
IsRead _ = ⊥

module _ {W : Type 0} (K : Kernel W) where
  -- A key pair that `generate_key_pair` gave.
  abbrev pub IsMade : KeyPair → Type 0
  IsMade kp = (s : State W) × (t : State W) × (generate_key_pair K s ≡ (ok kp, t))

  pub data Move (s : Site) : Site → Type 0 where
    -- The loader. A load starts from a new image, with the static in its initial state.
    generate :
        (kp : KeyPair)
        → s.phase ≡ unloaded
        → IsMade kp
        → Move s (record { cell = initial; phase = generated kp; files = λ _. false })
    not_registered :
        (kp : KeyPair) → s.phase ≡ generated kp → Move s (record s { phase = unloaded })
    register : (kp : KeyPair) → s.phase ≡ generated kp → Move s (record s { phase = registered kp })
    win :
        (kp : KeyPair)
        → s.phase ≡ registered kp
        → (cmpxchg 0 1 s.cell.cell).1 ≡ true
        → Move s (record s {
          cell = moved s.cell (cmpxchg 0 1 s.cell.cell).0 0 (writing kp);
          phase = storing;
        })
    lose :
        (kp : KeyPair)
        → s.phase ≡ registered kp
        → (cmpxchg 0 1 s.cell.cell).1 ≡ false
        → Move s (record s { phase = refused })
    write :
        (kp : KeyPair)
        → s.phase ≡ storing
        → s.cell.threads 0 ≡ writing kp
        → Move s (record s { cell = moved s.cell (write_value kp s.cell.cell) 0 publishing })
    publish :
        s.phase ≡ storing
        → s.cell.threads 0 ≡ publishing
        → Move s (record s { cell = moved s.cell (store_init 2 s.cell.cell) 0 idle; phase = live })
    deregister :
        s.phase ≡ live → ((i : ℕ) → s.files i ≡ false) → Move s (record s { phase = dropping })
    clear :
        s.phase ≡ dropping
        → Move s (record s { cell = cleared drop_key_pair s.cell; phase = unloaded })
    -- The user threads.
    open_file : (i : ℕ) → i ≢ 0 → Serves s.phase → Move s (record s { files = put s.files i true })
    close_file :
        (i : ℕ)
        → s.files i ≡ true
        → s.cell.threads i ≡ idle
        → Move s (record s { files = put s.files i false })
    access :
        (i : ℕ) (c : System KeyPair) (m : Threads.Step s.cell i c)
        → IsRead m
        → s.files i ≡ true
        → Move s (record s { cell = c })

  abbrev pub before_load : Site
  unfolding initial
  before_load = record { cell = initial; phase = unloaded; files = λ _. false }

  pub data Reached : Site → Type 0 where
    booted : Reached before_load
    moves : (s t : Site) → Reached s → Move s t → Reached t
