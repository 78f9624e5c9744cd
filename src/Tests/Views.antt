-- ===== src/Tests/Views.antt =====
-- The cell under weak memory, at a concrete run: thread 1 stores a value and thread 2 reads it.
use tarako_module.Shared.{ℕ, refl, none, some, [], ◌∷◌, inl, true, false}
use tarako_module.SetOnce.Threads.{put, idle, writing, publishing, loaded, holding}
use tarako_module.SetOnce.Weak.{
  Memory, Thread, Seen, start, then, fresh, zero_message, win, write, publish, load_set, refer,
  load_order, cmpxchg_order, store_order,
}
use tarako_module.SetOnce.Weak.Shape.{busy_message, set_message}
use tarako_module.SetOnce.Weak.Safe.{Safe, Seen-Safe}

abbrev outside : Thread ℕ
outside = record { pc = idle; knows = false }

abbrev won : Memory ℕ
won = record {
  history = busy_message ∷ zero_message ∷ [];
  value = none;
  threads = put (λ _. outside) 1 (record { pc = writing 5; knows = false });
}

abbrev written : Memory ℕ
written = record won {
  value = some 5;
  threads = put won.threads 1 (record { pc = publishing; knows = true });
}

abbrev told_all : Memory ℕ
told_all = record written {
  history = set_message ∷ busy_message ∷ zero_message ∷ [];
  threads = put written.threads 1 (record { pc = idle; knows = true });
}

abbrev read_once : Memory ℕ
read_once = record told_all {
  threads = put told_all.threads 2 (record { pc = loaded; knows = true });
}

abbrev shared : Memory ℕ
shared = record read_once {
  threads = put read_once.threads 2 (record { pc = holding 5; knows = true });
}

shared-Seen : Seen shared
unfolding load_order cmpxchg_order store_order
shared-Seen =
    then read_once shared 2
      (then told_all read_once 2
        (then written told_all 1
          (then won written 1 (then fresh won 1 start (win 5 zero_message [] refl refl refl))
            (write 5 refl))
          (publish refl))
        (load_set set_message refl (inl refl) refl))
      (refer 5 refl refl refl)

Seen-Safe_example : Safe shared
Seen-Safe_example = Seen-Safe shared shared-Seen
