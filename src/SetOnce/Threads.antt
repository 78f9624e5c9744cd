-- ===== src/SetOnce/Threads.antt =====
-- The cell under any number of threads: each call is cut at its accesses to the cell, and the
-- accesses of different threads interleave freely, in one order that all threads see. `clear` is
-- one step, and only where no thread is inside a call or holds a reference, as its safety comment
-- demands of the caller.
pub mod Invariant
pub mod Safe
pub mod Calls
use tarako_module.Shared.{ℕ, ◌≡◌, ◌==◌, if◌then◌else◌, true, false, none, some}
use tarako_module.SetOnce.{SetOnce, new, cmpxchg, write_value, store_init, clear}

-- Where a thread is: outside, in `populate` before its write or before its store of 2, in `as_ref`
-- after its load of 2, outside with a reference to this value, or past a read of storage that was
-- not initialised.
pub data Pc (T : Type 0) : Type 0 where
  idle : Pc T
  writing : T → Pc T
  publishing : Pc T
  loaded : Pc T
  holding : T → Pc T
  faulted : Pc T

pub record System (T : Type 0) : Type 0 where
  pub cell : SetOnce T
  pub threads : ℕ → Pc T

abbrev pub put {ℓ} : {A : Type ℓ} → (ℕ → A) → ℕ → A → ℕ → A
put f i a j = if i == j then a else f j

-- The state after thread `i` went to `pc` and left the cell as `c`.
abbrev pub moved : {T : Type 0} → System T → SetOnce T → ℕ → Pc T → System T
moved s c i pc = record { cell = c; threads = put s.threads i pc }

-- A step of thread `i`.
pub data Step {T : Type 0} (s : System T) (i : ℕ) : System T → Type 0 where
  win :
      (v : T)
      → s.threads i ≡ idle
      → (cmpxchg 0 1 s.cell).1 ≡ true
      → Step s i (moved s (cmpxchg 0 1 s.cell).0 i (writing v))
  lose :
      s.threads i ≡ idle
      → (cmpxchg 0 1 s.cell).1 ≡ false
      → Step s i (moved s (cmpxchg 0 1 s.cell).0 i idle)
  write : (v : T) → s.threads i ≡ writing v → Step s i (moved s (write_value v s.cell) i publishing)
  publish : s.threads i ≡ publishing → Step s i (moved s (store_init 2 s.cell) i idle)
  load_set : s.threads i ≡ idle → (s.cell.init == 2) ≡ true → Step s i (moved s s.cell i loaded)
  load_unset : s.threads i ≡ idle → (s.cell.init == 2) ≡ false → Step s i (moved s s.cell i idle)
  refer :
      (v : T)
      → s.threads i ≡ loaded
      → s.cell.value ≡ some v
      → Step s i (moved s s.cell i (holding v))
  refer_uninit : s.threads i ≡ loaded → s.cell.value ≡ none → Step s i (moved s s.cell i faulted)
  release : (v : T) → s.threads i ≡ holding v → Step s i (moved s s.cell i idle)

-- The state after `clear`.
abbrev pub cleared : {T : Type 0} → (T → T) → System T → System T
cleared drop_glue s = record s { cell = clear drop_glue s.cell }

-- Any number of steps, without `clear`.
pub data Runs {T : Type 0} : System T → System T → Type 0 where
  done : (s : System T) → Runs s s
  step : (s t u : System T) (i : ℕ) → Step s i t → Runs t u → Runs s u

unfoldable pub initial : {T : Type 0} → System T
unfolding new
initial = record { cell = new; threads = λ _. idle }

-- What the program can reach.
pub data Reachable {T : Type 0} (drop_glue : T → T) : System T → Type 0 where
  start : Reachable drop_glue initial
  next : (s t : System T) (i : ℕ) → Reachable drop_glue s → Step s i t → Reachable drop_glue t
  clear_alone :
      (s : System T)
      → Reachable drop_glue s
      → ((i : ℕ) → s.threads i ≡ idle)
      → Reachable drop_glue (cleared drop_glue s)
