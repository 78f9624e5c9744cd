-- ===== src/SetOnce/Threads/Safe.antt =====
-- What holds of the cell in every state that the program reaches.
use tarako_module.Shared.{ℕ, ◌≡◌, ◌≢◌, refl, ap, ◌∙◌, some, arith}
use mathlib.Core.Path.{subst}
use tarako_module.SetOnce.{SetOnce, cmpxchg, write_value, store_init}
use tarako_module.SetOnce.Threads.{
  Pc, System, moved, Step, win, lose, write, publish, load_set, load_unset, refer, refer_uninit,
  release, Runs, done, step, Reachable, idle, writing, publishing, loaded, holding, faulted,
}
use tarako_module.SetOnce.Threads.Invariant.{
  Fits, IsWriter, IsReader, Inv, put-same, Step-Inv, Reachable-Inv,
}

module _ {T : Type 0} where
  reader_set : (c : SetOnce T) (pc : Pc T) → Fits c pc → IsReader pc → c.init ≡ 2
  reader_set c loaded fit x = fit
  reader_set c (holding v) fit x = fit.0
  reader_set c idle fit x = absurd x
  reader_set c (writing v) fit x = absurd x
  reader_set c publishing fit x = absurd x
  reader_set c faulted fit x = absurd x

  writer_busy : (c : SetOnce T) (pc : Pc T) → Fits c pc → IsWriter pc → c.init ≡ 1
  writer_busy c (writing v) fit x = fit
  writer_busy c publishing fit x = fit.0
  writer_busy c loaded fit x = absurd x
  writer_busy c (holding v) fit x = absurd x
  writer_busy c idle fit x = absurd x
  writer_busy c faulted fit x = absurd x

  -- In every state that the steps of any number of threads reach, with `clear` only where all are
  -- idle: no thread has read uninitialised storage, no thread writes the storage while another
  -- reads it or holds a reference to it, at most one thread writes it, and what a reference was
  -- taken to is still what the storage holds.
  pub Reachable-safe :
      (drop_glue : T → T) (s : System T)
      → Reachable drop_glue s
      → ((i : ℕ) → s.threads i ≢ faulted)
        × ((i j : ℕ) → IsWriter (s.threads i) → IsReader (s.threads j) → ⊥)
        × ((i j : ℕ) → IsWriter (s.threads i) → IsWriter (s.threads j) → i ≡ j)
        × ((i : ℕ) (v : T) → s.threads i ≡ holding v → s.cell.value ≡ some v)
  Reachable-safe drop_glue s r =
      let h = Reachable-Inv drop_glue s r in
      (
        λ i e. subst (Fits s.cell) e (h.fits i),
        λ i j x y. absurd (
            omega (
              arith,
              writer_busy s.cell (s.threads i) (h.fits i) x,
              reader_set s.cell (s.threads j) (h.fits j) y,
            )),
        h.one_writer,
        λ i v e. (subst (Fits s.cell) e (h.fits i)).1,
      )

  -- A step from a set cell leaves the cell as it is.
  set_step :
      (s : System T) (i : ℕ) (t : System T) → Inv s → s.cell.init ≡ 2 → Step s i t → t.cell ≡ s.cell
  unfolding cmpxchg
  set_step s i _ h set (win v e won) = absurd (ground arith)
  set_step s i _ h set (lose e lost) = ground arith
  set_step s i _ h set (write v e) = absurd (omega (arith, set, subst (Fits s.cell) e (h.fits i)))
  set_step s i _ h set (publish e) =
      absurd (omega (arith, set, (subst (Fits s.cell) e (h.fits i)).0))
  set_step s i _ h set (load_set e f) = refl
  set_step s i _ h set (load_unset e f) = refl
  set_step s i _ h set (refer v e f) = refl
  set_step s i _ h set (refer_uninit e f) = refl
  set_step s i _ h set (release v e) = refl

  Runs-set : (s t : System T) → Inv s → s.cell.init ≡ 2 → Runs s t → t.cell ≡ s.cell
  Runs-set s _ h set (done _) = refl
  Runs-set s _ h set (step _ t u i m rest) =
      let same : t.cell ≡ s.cell = set_step s i t h set m in
      Runs-set t u (Step-Inv s i t h m) (ap (λ (c : SetOnce T). c.init) same ∙ set) rest ∙ same

  -- Once a reachable cell is set, it keeps its value whatever calls of `populate` and `as_ref` the
  -- threads make: only `clear` ends that.
  pub Runs-keeps :
      (drop_glue : T → T) (s t : System T)
      → Reachable drop_glue s
      → s.cell.init ≡ 2
      → Runs s t
      → t.cell ≡ s.cell
  Runs-keeps drop_glue s t r set run = Runs-set s t (Reachable-Inv drop_glue s r) set run

  finish_owner :
      (s : System T) (i : ℕ) (pc : Pc T)
      → s.threads i ≡ pc
      → IsWriter pc
      → (t : System T) × Runs s t × (t.cell.init ≡ 2)
  unfolding store_init
  finish_owner s i (writing v) e x =
      let mid = moved s (write_value v s.cell) i publishing in
      let end = moved mid (store_init 2 mid.cell) i idle in
      (
        end,
        step s mid end i (write v e)
            (step mid end end i (publish (put-same s.threads i publishing)) (done end)),
        refl,
      )
  finish_owner s i publishing e x =
      let end = moved s (store_init 2 s.cell) i idle in
      (end, step s end end i (publish e) (done end), refl)
  finish_owner s i idle e x = absurd x
  finish_owner s i loaded e x = absurd x
  finish_owner s i (holding v) e x = absurd x
  finish_owner s i faulted e x = absurd x

  -- A reachable cell is never stuck busy: from a state where it is, a run sets it.
  pub Reachable-finishes :
      (drop_glue : T → T) (s : System T)
      → Reachable drop_glue s
      → s.cell.init ≡ 1
      → (t : System T) × Runs s t × (t.cell.init ≡ 2)
  Reachable-finishes drop_glue s r busy =
      let (i, x) = (Reachable-Inv drop_glue s r).busy_owned busy in
      finish_owner s i (s.threads i) refl x
