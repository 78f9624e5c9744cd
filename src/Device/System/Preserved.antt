-- ===== src/Device/System/Preserved.antt =====
-- Every move of the loader and of the user threads preserves the invariant of the module's life.
use mathlib.Core.Path.{subst}
use tarako_module.Shared.{
  ℕ, ◌≡◌, ◌≢◌, refl, sym, ◌∙◌, ◌⊎◌, inl, inr, ◌==◌, Bool, true, false, some, arith, Bool-cases,
  ==_iff,
}
use tarako_module.Ffi.{Kernel}
use tarako_module.SetOnce
use tarako_module.SetOnce.{SetOnce, drop_in_place, new, cmpxchg, write_value, store_init}
use tarako_module.SetOnce.Threads
use tarako_module.SetOnce.Threads.Invariant.{put_other}
use tarako_module.SetOnce.Threads.{
  Pc, System, put, moved, cleared, initial, idle, writing, publishing,
}
use tarako_module.Ioctl.Types.{KeyPair, drop_key_pair}
use tarako_module.Device.System.{
  unloaded, generated, registered, storing, live, dropping, Site, IsRead, IsMade, Move, generate,
  not_registered, register, win, lose, write, publish, deregister, clear, open_file, close_file,
  access, before_load, Reached, booted, moves,
}
use tarako_module.Device.System.Invariant.{
  read_keeps, AllClosed, Fits, Inv, serving_files, fewer_files, loader_step, phase_step, Fits-at,
}

-- `put` of `false` leaves what is closed closed.
put-false : (f : ℕ → Bool) (i j : ℕ) → f j ≡ false → put f i false j ≡ false
put-false f i j e = ground arith

put-true : (f : ℕ → Bool) (i j : ℕ) → put f i true j ≡ false → f j ≡ false
put-true f i j e = ground arith

true-false : true ≡ false → ⊥
true-false e = ground arith

module _ {W : Type 0} (K : Kernel W) where
  -- All threads are outside where all files are closed and the loader is outside.
  pub all_idle :
      (s : Site)
      → Inv K s
      → AllClosed s.files
      → s.cell.threads 0 ≡ idle
      → (i : ℕ) → s.cell.threads i ≡ idle
  all_idle s h closed loader i = elim (Bool-cases (0 == i)) [
    | inl e ↦ subst (λ j. s.cell.threads j ≡ idle) ((==_iff 0 i).0 e) loader
    | inr e ↦ h.closed_idle i (λ x. ground arith) (closed i)
  ]

  -- The exchange of `populate` is won in an empty cell.
  empty_wins : (c : SetOnce KeyPair) → c.init ≡ 0 → (cmpxchg 0 1 c).1 ≡ true
  unfolding cmpxchg
  empty_wins c e = rw e refl

  storing_kp :
      (c : SetOnce KeyPair) (pc : Pc KeyPair) (kp : KeyPair) (files : ℕ → Bool)
      → pc ≡ writing kp
      → Fits K storing c pc files
      → IsMade K kp
  storing_kp c pc kp files e (kp', made, inl f) =
      let same : kp' ≡ kp = cc in subst (IsMade K) same made
  storing_kp c pc kp files e (kp', made, inr f) = absurd (ground arith)

  publishing_kp :
      (c : SetOnce KeyPair) (pc : Pc KeyPair) (files : ℕ → Bool)
      → pc ≡ publishing
      → Fits K storing c pc files
      → (kp : KeyPair) × IsMade K kp × (c.value ≡ some kp)
  publishing_kp c pc files e (kp, made, inl f) = absurd (ground arith)
  publishing_kp c pc files e (kp, made, inr f) = (kp, made, f.1)

  access_Inv :
      (s : Site) (i : ℕ) (t : System KeyPair)
      → Inv K s
      → (m : Threads.Step s.cell i t) → IsRead m
      → s.files i ≡ true
      → Inv K (record s { cell = t })
  access_Inv s i t h m read opened =
      let (same, others) = read_keeps s.cell i t m read in
      record {
        cell_reached = Threads.next s.cell t i h.cell_reached m;
        loader_closed = h.loader_closed;
        closed_idle = λ j ne closed. others j (away j closed) ∙ h.closed_idle j ne closed;
        fits =
            subst (λ c. Fits K s.phase c (t.threads 0) s.files) (sym same)
              (subst (λ pc. Fits K s.phase s.cell.cell pc s.files)
                (sym (others 0 (away 0 h.loader_closed))) h.fits);
      }
    where
      away : (j : ℕ) → s.files j ≡ false → i ≢ j
      away j closed e = ground arith

  files_Inv :
      (s : Site) (f : ℕ → Bool)
      → Inv K s
      → f 0 ≡ false
      → ((i : ℕ) → 0 ≢ i → f i ≡ false → s.cell.threads i ≡ idle)
      → Fits K s.phase s.cell.cell (s.cell.threads 0) f
      → Inv K (record s { files = f })
  files_Inv s f h loader closed fit = record {
    cell_reached = h.cell_reached;
    loader_closed = loader;
    closed_idle = closed;
    fits = fit;
  }

  clear-empty : (c : SetOnce KeyPair) → c.init ≡ 2 → (SetOnce.clear drop_key_pair c).init ≡ 0
  unfolding SetOnce.clear cmpxchg drop_in_place store_init
  clear-empty c e = rw e refl

  clear_Inv :
      (s : Site)
      → Inv K s
      → s.phase ≡ dropping
      → Inv K (record s { cell = cleared drop_key_pair s.cell; phase = unloaded })
  clear_Inv s h e =
      let fit = Fits-at K s dropping h e in
      let idle_all = all_idle s h fit.0 (fit.1.4) in
      record {
        cell_reached = Threads.clear_alone s.cell h.cell_reached idle_all;
        loader_closed = h.loader_closed;
        closed_idle = h.closed_idle;
        fits = (fit.0, idle_all 0, clear-empty s.cell.cell fit.1.2);
      }

  pub Move-Inv : (s t : Site) → Inv K s → Move K s t → Inv K t
  unfolding initial new write_value store_init
  Move-Inv s _ h (generate kp e made) = record {
    cell_reached = Threads.start;
    loader_closed = refl;
    closed_idle = λ i ne closed. refl;
    fits = (λ i. refl, refl, refl, made);
  }
  Move-Inv s _ h (not_registered kp e) =
      let fit = Fits-at K s (generated kp) h e in phase_step K s unloaded h (fit.0, fit.1, fit.2)
  Move-Inv s _ h (register kp e) =
      let fit = Fits-at K s (generated kp) h e in
      phase_step K s (registered kp) h (fit.1, fit.2, fit.3)
  Move-Inv s _ h (win kp e won) =
      let fit = Fits-at K s (registered kp) h e in
      loader_step K s (cmpxchg 0 1 s.cell.cell).0 (writing kp) storing h (Threads.win kp fit.0 won)
        (kp, fit.2, inl refl)
  Move-Inv s _ h (lose kp e lost) =
      let fit = Fits-at K s (registered kp) h e in
      absurd (true-false (sym (empty_wins s.cell.cell fit.1) ∙ lost))
  Move-Inv s _ h (write kp e at) =
      let made =
        storing_kp s.cell.cell (s.cell.threads 0) kp s.files at (Fits-at K s storing h e) in
      subst
        (λ p. Inv K (record {
          cell = moved s.cell (write_value kp s.cell.cell) 0 publishing;
          phase = p;
          files = s.files;
        }))
        (sym e)
        (loader_step K s (write_value kp s.cell.cell) publishing storing h (Threads.write kp at)
          (kp, made, inr (refl, refl)))
  Move-Inv s _ h (publish e at) =
      let (kp, made, has) =
        publishing_kp s.cell.cell (s.cell.threads 0) s.files at (Fits-at K s storing h e) in
      loader_step K s (store_init 2 s.cell.cell) idle live h (Threads.publish at)
        (kp, made, refl, has, refl)
  Move-Inv s _ h (deregister e closed) = phase_step K s dropping h (closed, Fits-at K s live h e)
  Move-Inv s _ h (clear e) = clear_Inv s h e
  Move-Inv s _ h (open_file i ne serves) =
      files_Inv s (put s.files i true) h (put_other s.files i true 0 ne ∙ h.loader_closed)
        (λ j nz closed. h.closed_idle j nz (put-true s.files i j closed))
        (serving_files K s.phase s.cell.cell (s.cell.threads 0) s.files (put s.files i true) serves
          h.fits)
  Move-Inv s _ h (close_file i opened out) =
      files_Inv s (put s.files i false) h (put-false s.files i 0 h.loader_closed)
        (λ j nz closed. after j nz (Bool-cases (i == j)) closed)
        (fewer_files K s.phase s.cell.cell (s.cell.threads 0) s.files (put s.files i false)
          (put-false s.files i) h.fits)
    where
      after :
          (j : ℕ)
          → 0 ≢ j
          → ((i == j) ≡ true) ⊎ ((i == j) ≡ false)
          → put s.files i false j ≡ false
          → s.cell.threads j ≡ idle
      after j nz (inl f) closed = subst (λ k. s.cell.threads k ≡ idle) ((==_iff i j).0 f) out
      after j nz (inr f) closed = h.closed_idle j nz (ground arith)
  Move-Inv s _ h (access i c m read opened) = access_Inv s i c h m read opened

  before_load-Inv : Inv K (before_load K)
  unfolding initial new
  before_load-Inv = record {
    cell_reached = Threads.start;
    loader_closed = refl;
    closed_idle = λ i ne closed. refl;
    fits = (λ i. refl, refl, refl);
  }

  pub Reached-Inv : (s : Site) → Reached K s → Inv K s
  Reached-Inv _ booted = before_load-Inv
  Reached-Inv _ (moves s t r m) = Move-Inv s t (Reached-Inv s r) m
