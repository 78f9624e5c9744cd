-- ===== src/SetOnce/Threads/Calls.antt =====
-- A call on its own is a run of the steps of its thread.
use mathlib.Core.Path.{fun_ext, subst}
use tarako_module.Shared.{
  ℕ, ◌≡◌, ◌≢◌, List, [], ◌∷◌, arith, false, refl, sym, ap, ◌∙◌, ◌==◌, true, none, some, inl, inr,
  Bool-cases, ==_iff, ok, panic, ◌⊎◌, Option-cases,
}
use tarako_module.SetOnce.{SetOnce, cmpxchg, write_value, store_init, populate, as_ref, deref}
use tarako_module.SetOnce.Threads.{
  Pc, System, put, moved, win, lose, write, publish, load_set, load_unset, refer, refer_uninit,
  faulted, Step, idle, writing, publishing, loaded, holding,
}
use tarako_module.SetOnce.Threads.Invariant.{put-same}

module _ {T : Type 0} where
  put_one : (f : ℕ → Pc T) (i : ℕ) → f i ≡ idle → put f i idle ≡ f
  put_one f i e = fun_ext λ j. elim (Bool-cases (i == j)) [
    | inl h ↦ rw h (sym e ∙ ap f ((==_iff i j).0 h))
    | inr h ↦ rw h refl
  ]

  put_last : (f : ℕ → Pc T) (i : ℕ) (a b : Pc T) → put (put f i a) i b ≡ put f i b
  put_last f i a b =
      fun_ext λ j. elim (Bool-cases (i == j)) [ inl h ↦ rw h refl | inr h ↦ rw h refl ]

  -- Steps of thread `i` alone, with where each of them leaves it.
  pub data Visits (i : ℕ) : List (Pc T) → System T → System T → Type 0 where
    stay : (s : System T) → Visits i [] s s
    visit :
        (pc : Pc T) (pcs : List (Pc T)) (s t u : System T)
        → Step s i t
        → t.threads i ≡ pc
        → Visits i pcs t u
        → Visits i (pc ∷ pcs) s u

  -- A call of `populate` with `v` by thread `i`: whether the cell is empty decides both what it
  -- returns and which steps it is.
  abbrev pub Populates : System T → ℕ → T → Type 0
  Populates s i v =
      let (c, populated) = populate v s.cell in
      ((s.cell.init ≡ 0)
        × (populated ≡ true)
        × (c ≡ record { init = 2; value = some v })
        × Visits i (writing v ∷ publishing ∷ idle ∷ []) s (record s { cell = c }))
      ⊎ ((s.cell.init ≢ 0)
          × (populated ≡ false)
          × (c ≡ s.cell)
          × Visits i (idle ∷ []) s (record s { cell = c }))

  -- `populate` by an idle thread: where the cell is empty it returns success, and is three steps of
  -- that thread, one after which it is to write the value, one after which it is to publish it, and
  -- one after which it is idle again, that leave the cell set with the value; otherwise it returns
  -- failure, and is one step of that thread that leaves the cell as it was. Every other thread is
  -- where it was.
  pub populate-Visits : (s : System T) (i : ℕ) (v : T) → s.threads i ≡ idle → Populates s i v
  unfolding populate cmpxchg write_value store_init
  populate-Visits s i v e = elim (Bool-cases (s.cell.init == 0)) [
    | inl empty ↦ inl (
      (==_iff s.cell.init 0).0 empty,
      rw empty refl,
      rw empty refl,
      rw empty (subst (Visits i (writing v ∷ publishing ∷ idle ∷ []) s) back (run empty)),
    )
    | inr full ↦ inr (
      ground arith,
      rw full refl,
      rw full refl,
      rw full (
          subst (λ f. Visits i (idle ∷ []) s (record { cell = s.cell; threads = f }))
            (put_one s.threads i e)
            (visit idle [] s lost lost
              (subst (Step s i) (ap with_cell (kept full)) (lose e (rw full refl)))
              (put-same s.threads i idle) (stay lost))),
    )
  ]
    where
      with_cell : SetOnce T → System T
      with_cell c = moved s c i idle

      lost : System T
      lost = moved s s.cell i idle

      kept : (s.cell.init == 0) ≡ false → (cmpxchg 0 1 s.cell).0 ≡ s.cell
      kept full = rw full refl

      taken : System T
      taken = moved s (cmpxchg 0 1 s.cell).0 i (writing v)

      written : System T
      written = moved taken (write_value v taken.cell) i publishing

      end : System T
      end = moved written (store_init 2 written.cell) i idle

      run : (s.cell.init == 0) ≡ true → Visits i (writing v ∷ publishing ∷ idle ∷ []) s end
      run empty =
          visit (writing v) (publishing ∷ idle ∷ []) s taken end (win v e (rw empty refl))
            (put-same s.threads i (writing v))
            (visit publishing (idle ∷ []) taken written end
              (write v (put-same s.threads i (writing v))) (put-same taken.threads i publishing)
              (visit idle [] written end end (publish (put-same taken.threads i publishing))
                (put-same written.threads i idle) (stay end)))

      set_with : (ℕ → Pc T) → System T
      set_with f = record { cell = record { init = 2; value = some v }; threads = f }

      back : end ≡ set_with s.threads
      back = ap set_with (
          put_last (put s.threads i (writing v)) i publishing idle
          ∙ put_last s.threads i (writing v) idle
          ∙ put_one s.threads i e)

  -- A call of `as_ref` by thread `i`: what the cell is decides both what it gives and which steps
  -- it is.
  abbrev pub Refers : System T → ℕ → Type 0
  Refers s i =
      ((v : T) × (s.cell.init ≡ 2)
        × (s.cell.value ≡ some v)
        × (as_ref s.cell ≡ ok (some v))
        × Visits i (loaded ∷ holding v ∷ []) s (moved s s.cell i (holding v)))
      ⊎ ((s.cell.init ≢ 2)
          × (as_ref s.cell ≡ ok none)
          × Visits i (idle ∷ []) s (moved s s.cell i idle))
      ⊎ ((s.cell.init ≡ 2)
          × (s.cell.value ≡ none)
          × (as_ref s.cell ≡ panic)
          × Visits i (loaded ∷ faulted ∷ []) s (moved s s.cell i faulted))

  -- `as_ref` by an idle thread: where the cell is set it is two steps of that thread, the load of 2
  -- and the read of the storage, and gives a reference to the value, which the thread then holds, or
  -- is the read of uninitialised storage where there is no value; where the cell is not set it is one
  -- step of that thread and gives nothing. The cell and every other thread are as they were.
  pub as_ref-Visits : (s : System T) (i : ℕ) → s.threads i ≡ idle → Refers s i
  unfolding as_ref deref
  as_ref-Visits s i e = elim (Bool-cases (s.cell.init == 2)) [
    | inl set ↦ elim (Option-cases s.cell.value) [
      | inl uninit ↦ inr (
          inr (
            (==_iff s.cell.init 2).0 set,
            uninit,
            rw (set, uninit) refl,
            then_at faulted set (refer_uninit (put-same s.threads i loaded) uninit),
          ))
      | inr (v, f) ↦ inl (
        v,
        (==_iff s.cell.init 2).0 set,
        f,
        rw (set, f) refl,
        then_at (holding v) set (refer v (put-same s.threads i loaded) f),
      )
    ]
    | inr unset ↦ inr (
        inl (
          ground arith,
          rw unset refl,
          visit idle [] s last last (load_unset e unset) (put-same s.threads i idle) (stay last),
        ))
  ]
    where
      last : System T
      last = moved s s.cell i idle

      mid : System T
      mid = moved s s.cell i loaded

      then_at :
          (pc : Pc T)
          → (s.cell.init == 2) ≡ true
          → Step mid i (moved mid s.cell i pc)
          → Visits i (loaded ∷ pc ∷ []) s (moved s s.cell i pc)
      then_at pc set m =
          let end : System T = moved mid s.cell i pc in
          subst (λ f. Visits i (loaded ∷ pc ∷ []) s (record { cell = s.cell; threads = f }))
            (put_last s.threads i loaded pc)
            (visit loaded (pc ∷ []) s mid end (load_set e set) (put-same s.threads i loaded)
              (visit pc [] mid end end m (put-same mid.threads i pc) (stay end)))
