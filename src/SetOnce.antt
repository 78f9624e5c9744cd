-- ===== src/SetOnce.antt =====
-- driver/src/set_once.rs: the cell behind the static `KEY_PAIR`. The functions below are each
-- call on its own; `SetOnce.Threads` has the same calls as the steps of threads.
pub mod Laws
pub mod Threads
pub mod Weak
use tarako_module.Shared.{
  ℕ, ◌==◌, if◌then◌else◌, Bool, true, false, Option, none, some, Outcome, ok, panic,
}

-- `value` is `none` where the storage is uninitialised. `init` is 0 (empty), 1 (busy) or 2 (set).
pub record SetOnce (T : Type 0) : Type 0 where
  pub init : ℕ
  pub value : Option T

module _ {T : Type 0} where
  unfoldable pub new : SetOnce T
  new = record { init = 0; value = none }

  -- The read behind the pointer; `panic` stands for the undefined behaviour of a read of
  -- uninitialised storage.
  unfoldable pub deref : SetOnce T → Outcome (Option T)
  deref c = elim c.value [ some v ↦ ok (some v) | none ↦ panic ]

  unfoldable pub as_ref : SetOnce T → Outcome (Option T)
  unfolding deref
  as_ref c = if c.init == 2 then deref c else ok none

  -- `Atomic::cmpxchg`: the new cell, and whether the exchange was made.
  unfoldable pub cmpxchg : ℕ → ℕ → SetOnce T → SetOnce T × Bool
  cmpxchg old next c = if c.init == old then (record c { init = next }, true) else (c, false)

  unfoldable pub write_value : T → SetOnce T → SetOnce T
  write_value v c = record c { value = some v }

  unfoldable pub store_init : ℕ → SetOnce T → SetOnce T
  store_init i c = record c { init = i }

  unfoldable pub populate : T → SetOnce T → SetOnce T × Bool
  unfolding cmpxchg write_value store_init
  populate v c =
      let (c', won) = cmpxchg 0 1 c in
      if won then (store_init 2 (write_value v c'), true) else (c', false)

  -- `drop_glue` is what dropping a value leaves in its memory.
  unfoldable pub drop_in_place : (T → T) → SetOnce T → SetOnce T
  drop_in_place drop_glue c = record c {
    value = elim c.value [ some v ↦ some (drop_glue v) | none ↦ none ];
  }

  unfoldable pub clear : (T → T) → SetOnce T → SetOnce T
  unfolding cmpxchg drop_in_place store_init
  clear drop_glue c =
      let (c', won) = cmpxchg 2 1 c in if won then store_init 0 (drop_in_place drop_glue c') else c'

  -- `Drop for SetOnce`
  unfoldable pub drop_cell : (T → T) → SetOnce T → SetOnce T
  unfolding drop_in_place
  drop_cell drop_glue c = if c.init == 2 then drop_in_place drop_glue c else c
