-- ===== src/SetOnce/Weak.antt =====
-- The cell under weak memory: the orderings that `as_ref` and `populate` give to their atomic
-- accesses, with release and acquire as the only way in which one thread learns of another's write.
-- `init` is the list of the messages written to it, the newest first. A load may read any of them,
-- old ones too, a compare-and-exchange that succeeds reads the newest, and the one plain store comes
-- after its thread's own exchange. `value` is not atomic: a thread that reads it without having
-- learned of the write races with it. `clear` has no part in this, since its caller excludes all
-- other threads.
pub mod Shape
pub mod Steps
pub mod Safe
use tarako_module.Shared.{
  ℕ, ◌≡◌, ◌==◌, ◌||◌, ◌⊎◌, Bool, true, false, Option, none, some, List, [], ◌∷◌,
}
use tarako_module.SetOnce.Threads.{Pc, put, idle, writing, publishing, loaded, holding, faulted}

-- `kernel::sync::atomic::ordering`
pub data Order : Type 0 where
  relaxed acquire release : Order

-- The orderings in the source: of the load in `as_ref`, and of the exchange and the store in
-- `populate`.
unfoldable pub load_order : Order
load_order = acquire

unfoldable pub cmpxchg_order : Order
cmpxchg_order = relaxed

unfoldable pub store_order : Order
store_order = release

-- A value of `init`, and whether who acquires it learns of the write of `value`.
pub record InitWrite : Type 0 where
  pub val : ℕ
  pub tells : Bool

-- What a write carries, of what its thread knows.
abbrev pub carried : Order → Bool → Bool
carried release knows = knows
carried _ knows = false

-- What a thread knows after it has read a message.
abbrev pub learned : Order → Bool → Bool → Bool
learned acquire tells knows = knows || tells
learned _ tells knows = knows

pub record Thread (T : Type 0) : Type 0 where
  pub pc : Pc T
  pub knows : Bool

pub record Memory (T : Type 0) : Type 0 where
  pub history : List InitWrite
  pub value : Option T
  pub threads : ℕ → Thread T

abbrev pub Reads : List InitWrite → InitWrite → Type 0
Reads [] m = ⊥
Reads (x ∷ xs) m = (x ≡ m) ⊎ Reads xs m

abbrev pub zero_message : InitWrite
zero_message = record { val = 0; tells = false }

module _ {T : Type 0} where
  abbrev pub at : Memory T → ℕ → Thread T → ℕ → Thread T
  at s i t = put s.threads i t

  -- An access of thread `i`.
  pub data Access (s : Memory T) (i : ℕ) : Memory T → Type 0 where
    win :
        (v : T) (m : InitWrite) (rest : List InitWrite)
        → (s.threads i).pc ≡ idle
        → s.history ≡ m ∷ rest
        → (m.val == 0) ≡ true
        → Access s i (record s {
          history =
              record { val = 1; tells = m.tells || carried cmpxchg_order (s.threads i).knows }
              ∷ s.history;
          threads = at s i (record {
            pc = writing v;
            knows = learned cmpxchg_order m.tells (s.threads i).knows;
          });
        })
    lose :
        (m : InitWrite)
        → (s.threads i).pc ≡ idle
        → Reads s.history m
        → (m.val == 0) ≡ false
        → Access s i (record s {
          threads =
              at s i
                (record { pc = idle; knows = learned cmpxchg_order m.tells (s.threads i).knows });
        })
    write :
        (v : T)
        → (s.threads i).pc ≡ writing v
        → Access s i (record s {
          value = some v;
          threads = at s i (record { pc = publishing; knows = true });
        })
    publish :
        (s.threads i).pc ≡ publishing
        → Access s i (record s {
          history = record { val = 2; tells = carried store_order (s.threads i).knows } ∷ s.history;
          threads = at s i (record { pc = idle; knows = (s.threads i).knows });
        })
    load_set :
        (m : InitWrite)
        → (s.threads i).pc ≡ idle
        → Reads s.history m
        → (m.val == 2) ≡ true
        → Access s i (record s {
          threads =
              at s i
                (record { pc = loaded; knows = learned load_order m.tells (s.threads i).knows });
        })
    load_unset :
        (m : InitWrite)
        → (s.threads i).pc ≡ idle
        → Reads s.history m
        → (m.val == 2) ≡ false
        → Access s i (record s {
          threads =
              at s i (record { pc = idle; knows = learned load_order m.tells (s.threads i).knows });
        })
    refer :
        (v : T)
        → (s.threads i).pc ≡ loaded
        → (s.threads i).knows ≡ true
        → s.value ≡ some v
        → Access s i (record s { threads = at s i (record { pc = holding v; knows = true }) })
    -- The read races with the write, or there was none.
    race :
        (s.threads i).pc ≡ loaded
        → (s.threads i).knows ≡ false
        → Access s i (record s { threads = at s i (record { pc = faulted; knows = false }) })
    uninit :
        (s.threads i).pc ≡ loaded
        → s.value ≡ none
        → Access s i
            (record s { threads = at s i (record { pc = faulted; knows = (s.threads i).knows }) })
    leave :
        (v : T)
        → (s.threads i).pc ≡ holding v
        → Access s i
            (record s { threads = at s i (record { pc = idle; knows = (s.threads i).knows }) })

  abbrev pub fresh : Memory T
  fresh = record {
    history = zero_message ∷ [];
    value = none;
    threads = λ _. record { pc = idle; knows = false };
  }

  pub data Seen : Memory T → Type 0 where
    start : Seen fresh
    then : (s t : Memory T) (i : ℕ) → Seen s → Access s i t → Seen t
