-- ===== src/SetOnce/Threads/Invariant.antt =====
-- The invariant of the cell and its threads, and that every step preserves it.
use tarako_module.Shared.{
  ℕ, ◌≡◌, ◌≢◌, refl, sym, ◌∙◌, ◌==◌, true, false, none, some, inl, inr, arith, Bool-cases, ==_iff,
}
use mathlib.Core.Path.{subst}
use tarako_module.SetOnce.{SetOnce, new, cmpxchg, write_value, store_init, drop_in_place, clear}
use tarako_module.SetOnce.Threads.{
  Pc, System, put, moved, Step, win, lose, write, publish, load_set, load_unset, refer,
  refer_uninit, release, cleared, initial, Reachable, start, next, clear_alone, idle, writing,
  publishing, loaded, holding, faulted,
}

pub put-same : {A : Type 0} (f : ℕ → A) (i : ℕ) (a : A) → put f i a i ≡ a
put-same f i a = ground arith

pub put_other : {A : Type 0} (f : ℕ → A) (i : ℕ) (a : A) (j : ℕ) → i ≢ j → put f i a j ≡ f j
put_other f i a j ne = elim (Bool-cases (i == j)) [
  | inl e ↦ absurd (ne ((==_iff i j).0 e))
  | inr e ↦ rw e refl
]

pub put-cases :
    {A : Type 0} (P : ℕ → A → Type 0) (f : ℕ → A) (i : ℕ) (a : A)
    → P i a
    → ((j : ℕ) → i ≢ j → P j (f j))
    → (j : ℕ) → P j (put f i a j)
put-cases P f i a h k j = elim (Bool-cases (i == j)) [
  | inl e ↦ rw e (subst (λ x. P x a) ((==_iff i j).0 e) h)
  | inr e ↦ rw e (k j (ground arith))
]

module _ {T : Type 0} where
  -- What the position of a thread says of the cell.
  abbrev pub Fits : SetOnce T → Pc T → Type 0
  Fits c idle = Unit
  Fits c (writing v) = c.init ≡ 1
  Fits c publishing = (c.init ≡ 1) × (c.value ≢ none)
  Fits c loaded = c.init ≡ 2
  Fits c (holding v) = (c.init ≡ 2) × (c.value ≡ some v)
  Fits c faulted = ⊥

  -- The thread owns the storage.
  abbrev pub IsWriter : Pc T → Type 0
  IsWriter (writing v) = Unit
  IsWriter publishing = Unit
  IsWriter _ = ⊥

  -- The thread is about to take a reference, or holds one.
  abbrev pub IsReader : Pc T → Type 0
  IsReader loaded = Unit
  IsReader (holding v) = Unit
  IsReader _ = ⊥

  pub record Inv (s : System T) : Type 0 where
    pub fits : (i : ℕ) → Fits s.cell (s.threads i)
    pub one_writer : (i j : ℕ) → IsWriter (s.threads i) → IsWriter (s.threads j) → i ≡ j
    pub initialised : s.cell.init ≡ 2 → s.cell.value ≢ none
    pub busy_owned : s.cell.init ≡ 1 → (i : ℕ) × IsWriter (s.threads i)

  -- Outside of the storage's own steps: the cell keeps its state, and the thread is no writer
  -- before or after.
  quiet_step :
      (s : System T) (i : ℕ) (pc : Pc T)
      → Inv s
      → Fits s.cell pc
      → ((x : IsWriter pc) → ⊥)
      → ((x : IsWriter (s.threads i)) → ⊥)
      → Inv (moved s s.cell i pc)
  quiet_step s i pc h fit after before = record {
    fits = put-cases (λ _ p. Fits s.cell p) s.threads i pc fit (λ j ne. h.fits j);
    one_writer = λ a b x y. h.one_writer a b (old a x) (old b y);
    initialised = h.initialised;
    busy_owned = λ e.
        let (a, x) = h.busy_owned e in
        (
          a,
          put-cases (λ j p. IsWriter (s.threads j) → IsWriter p) s.threads i pc
              (λ y. absurd (before y)) (λ j ne y. y) a x,
        );
  }
    where
      old : (j : ℕ) → IsWriter (put s.threads i pc j) → IsWriter (s.threads j)
      old =
          put-cases (λ j p. IsWriter p → IsWriter (s.threads j)) s.threads i pc
            (λ y. absurd (after y)) (λ j ne y. y)

  -- Where the cell is neither set nor owned by another thread, all other threads are idle.
  others_idle :
      (c : SetOnce T) (pc : Pc T)
      → Fits c pc
      → c.init ≢ 2
      → (c.init ≡ 1 → IsWriter pc → ⊥)
      → pc ≡ idle
  others_idle c idle fit unset none_other = refl
  others_idle c (writing v) fit unset none_other = absurd (none_other fit tt)
  others_idle c publishing fit unset none_other = absurd (none_other fit.0 tt)
  others_idle c loaded fit unset none_other = absurd (unset fit)
  others_idle c (holding v) fit unset none_other = absurd (unset fit.0)
  others_idle c faulted fit unset none_other = absurd fit

  -- A step on the storage by its only user.
  owner_step :
      (s : System T) (i : ℕ) (c : SetOnce T) (pc : Pc T)
      → ((j : ℕ) → i ≢ j → s.threads j ≡ idle)
      → Fits c pc
      → (c.init ≡ 2 → c.value ≢ none)
      → (c.init ≡ 1 → IsWriter pc)
      → Inv (moved s c i pc)
  owner_step s i c pc alone fit init_ok owned = record {
    fits =
        put-cases (λ _ p. Fits c p) s.threads i pc fit
          (λ j ne. subst (Fits c) (sym (alone j ne)) tt);
    one_writer = λ a b x y. sym (only a x) ∙ only b y;
    initialised = init_ok;
    busy_owned = λ e. (i, subst IsWriter (sym (put-same s.threads i pc)) (owned e));
  }
    where
      only : (j : ℕ) → IsWriter (put s.threads i pc j) → i ≡ j
      only =
          put-cases (λ j p. IsWriter p → i ≡ j) s.threads i pc (λ _. refl)
            (λ j ne x. absurd (subst IsWriter (alone j ne) x))

  -- The owner of the storage is its only user.
  alone_at :
      (s : System T) (i : ℕ)
      → Inv s
      → IsWriter (s.threads i)
      → s.cell.init ≢ 2
      → (j : ℕ) → i ≢ j
      → s.threads j ≡ idle
  alone_at s i h mine unset j ne =
      others_idle s.cell (s.threads j) (h.fits j) unset (λ _ x. ne (h.one_writer i j mine x))

  -- In an empty cell all threads are idle.
  alone_empty : (s : System T) → Inv s → s.cell.init ≡ 0 → (j : ℕ) → s.threads j ≡ idle
  alone_empty s h e j =
      others_idle s.cell (s.threads j) (h.fits j) (omega (arith, e))
        (λ one _. absurd (omega (arith, e, one)))

  idle-IsWriter : (pc : Pc T) → pc ≡ idle → IsWriter pc → ⊥
  idle-IsWriter pc e x = subst IsWriter e x

  pub Step-Inv : (s : System T) (i : ℕ) (t : System T) → Inv s → Step s i t → Inv t
  unfolding cmpxchg write_value store_init
  Step-Inv s i _ h (win v e won) =
      let empty : s.cell.init ≡ 0 = (==_iff s.cell.init 0).0 (won_at won) in
      subst (λ c. Inv (moved s c i (writing v))) (sym (exchanged empty))
        (owner_step s i (record s.cell { init = 1 }) (writing v) (λ j ne. alone_empty s h empty j)
          refl (λ x. absurd (omega (arith, x))) (λ _. tt))
    where
      won_at : (cmpxchg 0 1 s.cell).1 ≡ true → (s.cell.init == 0) ≡ true
      won_at w = ground arith

      exchanged : s.cell.init ≡ 0 → (cmpxchg 0 1 s.cell).0 ≡ record s.cell { init = 1 }
      exchanged z = rw (z, cmpxchg) refl
  Step-Inv s i _ h (lose e lost) =
      subst (λ c. Inv (moved s c i idle)) (sym (kept lost))
        (quiet_step s i idle h tt (λ x. x) (idle-IsWriter (s.threads i) e))
    where
      kept : (cmpxchg 0 1 s.cell).1 ≡ false → (cmpxchg 0 1 s.cell).0 ≡ s.cell
      kept w = ground arith
  Step-Inv s i _ h (write v e) =
      let busy : s.cell.init ≡ 1 = subst (Fits s.cell) e (h.fits i) in
      owner_step s i (write_value v s.cell) publishing
        (alone_at s i h (subst IsWriter (sym e) tt) (omega (arith, busy)))
        (busy, λ x. absurd (ground arith)) (λ x. absurd (omega (arith, busy, x))) (λ _. tt)
  Step-Inv s i _ h (publish e) =
      let busy : Fits s.cell publishing = subst (Fits s.cell) e (h.fits i) in
      owner_step s i (store_init 2 s.cell) idle
        (alone_at s i h (subst IsWriter (sym e) tt) (omega (arith, busy.0))) tt (λ _. busy.1)
        (λ x. absurd (omega (arith, x)))
  Step-Inv s i _ h (load_set e set) =
      quiet_step s i loaded h (ground arith) (λ x. x) (idle-IsWriter (s.threads i) e)
  Step-Inv s i _ h (load_unset e unset) =
      quiet_step s i idle h tt (λ x. x) (idle-IsWriter (s.threads i) e)
  Step-Inv s i _ h (refer v e f) =
      quiet_step s i (holding v) h (subst (Fits s.cell) e (h.fits i), f) (λ x. x)
        (λ x. subst IsWriter e x)
  Step-Inv s i _ h (refer_uninit e f) = absurd (h.initialised (subst (Fits s.cell) e (h.fits i)) f)
  Step-Inv s i _ h (release v e) = quiet_step s i idle h tt (λ x. x) (λ x. subst IsWriter e x)

  clear-Inv :
      (drop_glue : T → T) (s : System T)
      → Inv s
      → ((i : ℕ) → s.threads i ≡ idle)
      → Inv (cleared drop_glue s)
  unfolding clear cmpxchg drop_in_place store_init
  clear-Inv drop_glue s h alone = record {
    fits = λ i. subst (Fits (clear drop_glue s.cell)) (sym (alone i)) tt;
    one_writer = λ i j x y. absurd (subst IsWriter (alone i) x);
    initialised = after.0;
    busy_owned = λ e. absurd (after.1 e);
  }
    where
      not_busy : s.cell.init ≢ 1
      not_busy e = let (i, x) = h.busy_owned e in subst IsWriter (alone i) x

      after :
          ((clear drop_glue s.cell).init ≡ 2 → (clear drop_glue s.cell).value ≢ none)
          × ((clear drop_glue s.cell).init ≢ 1)
      after = elim (Bool-cases (s.cell.init == 2)) [
        | inl e ↦ rw (e, clear) (λ x. absurd (omega (arith, x)), λ x. absurd (omega (arith, x)))
        | inr e ↦ rw (e, clear) (h.initialised, not_busy)
      ]

  initial-Inv : Inv initial
  unfolding initial new
  initial-Inv = record {
    fits = λ i. tt;
    one_writer = λ i j x y. absurd x;
    initialised = λ e. absurd (omega (arith, e));
    busy_owned = λ e. absurd (omega (arith, e));
  }

  pub Reachable-Inv : (drop_glue : T → T) (s : System T) → Reachable drop_glue s → Inv s
  Reachable-Inv drop_glue _ start = initial-Inv
  Reachable-Inv drop_glue _ (next s t i r m) = Step-Inv s i t (Reachable-Inv drop_glue s r) m
  Reachable-Inv drop_glue _ (clear_alone s r alone) =
      clear-Inv drop_glue s (Reachable-Inv drop_glue s r) alone
