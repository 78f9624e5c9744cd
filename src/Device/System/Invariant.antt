-- ===== src/Device/System/Invariant.antt =====
-- The invariant of the module's life.
use mathlib.Core.Path.{subst}
use tarako_module.Shared.{ℕ, ◌≡◌, ◌≢◌, refl, sym, ◌∙◌, ◌⊎◌, Bool, false, some}
use tarako_module.Ffi.{Kernel}
use tarako_module.SetOnce.{SetOnce}
use tarako_module.SetOnce.Threads
use tarako_module.SetOnce.Threads.{Pc, System, put, moved, initial, idle, writing, publishing}
use tarako_module.SetOnce.Threads.Invariant.{put-same, put_other}
use tarako_module.Ioctl.Types.{KeyPair, drop_key_pair}
use tarako_module.Device.System.{
  Phase, unloaded, generated, registered, storing, live, dropping, refused, Site, Serves, IsRead,
  IsMade,
}

-- A read leaves the cell and the other threads as they are.
pub read_keeps :
    (s : System KeyPair) (i : ℕ) (t : System KeyPair) (m : Threads.Step s i t)
    → IsRead m
    → (t.cell ≡ s.cell) × ((j : ℕ) → i ≢ j → t.threads j ≡ s.threads j)
read_keeps s i _ (Threads.load_set e f) x = (refl, put_other s.threads i Threads.loaded)
read_keeps s i _ (Threads.load_unset e f) x = (refl, put_other s.threads i idle)
read_keeps s i _ (Threads.refer v e f) x = (refl, put_other s.threads i (Threads.holding v))
read_keeps s i _ (Threads.refer_uninit e f) x = (refl, put_other s.threads i Threads.faulted)
read_keeps s i _ (Threads.release v e) x = (refl, put_other s.threads i idle)
read_keeps s i _ (Threads.win v e f) x = absurd x
read_keeps s i _ (Threads.lose e f) x = absurd x
read_keeps s i _ (Threads.write v e) x = absurd x
read_keeps s i _ (Threads.publish e) x = absurd x

abbrev pub AllClosed : (ℕ → Bool) → Type 0
AllClosed files = (i : ℕ) → files i ≡ false

module _ {W : Type 0} (K : Kernel W) where
  -- The cell holds a key pair that was made, and the loader is outside.
  abbrev pub IsStored : SetOnce KeyPair → Pc KeyPair → Type 0
  IsStored c pc = (kp : KeyPair) × IsMade K kp × (c.init ≡ 2) × (c.value ≡ some kp) × (pc ≡ idle)

  -- What the phase says of the cell, of the loader's position and of the files.
  abbrev pub Fits : Phase → SetOnce KeyPair → Pc KeyPair → (ℕ → Bool) → Type 0
  Fits unloaded c pc files = AllClosed files × (pc ≡ idle) × (c.init ≡ 0)
  Fits (generated kp) c pc files = AllClosed files × (pc ≡ idle) × (c.init ≡ 0) × IsMade K kp
  Fits (registered kp) c pc files = (pc ≡ idle) × (c.init ≡ 0) × IsMade K kp
  Fits storing c pc files =
      (kp : KeyPair) × IsMade K kp × ((pc ≡ writing kp) ⊎ ((pc ≡ publishing) × (c.value ≡ some kp)))
  Fits live c pc files = IsStored c pc
  Fits dropping c pc files = AllClosed files × IsStored c pc
  Fits refused c pc files = ⊥

  pub record Inv (s : Site) : Type 0 where
    pub cell_reached : Threads.Reachable drop_key_pair s.cell
    pub loader_closed : s.files 0 ≡ false
    pub closed_idle : (i : ℕ) → 0 ≢ i → s.files i ≡ false → s.cell.threads i ≡ idle
    pub fits : Fits s.phase s.cell.cell (s.cell.threads 0) s.files

  -- The phases in which a file can be opened say nothing of the files.
  pub serving_files :
      (p : Phase) (c : SetOnce KeyPair) (pc : Pc KeyPair) (f g : ℕ → Bool)
      → Serves p
      → Fits p c pc f
      → Fits p c pc g
  serving_files (registered kp) c pc f g x h = h
  serving_files storing c pc f g x h = h
  serving_files live c pc f g x h = h
  serving_files unloaded c pc f g x h = absurd x
  serving_files (generated kp) c pc f g x h = absurd x
  serving_files dropping c pc f g x h = absurd x
  serving_files refused c pc f g x h = absurd x

  pub fewer_files :
      (p : Phase) (c : SetOnce KeyPair) (pc : Pc KeyPair) (f g : ℕ → Bool)
      → ((i : ℕ) → f i ≡ false → g i ≡ false)
      → Fits p c pc f
      → Fits p c pc g
  fewer_files (registered kp) c pc f g x h = h
  fewer_files storing c pc f g x h = h
  fewer_files live c pc f g x h = h
  fewer_files unloaded c pc f g x h = (λ i. x i (h.0 i), h.1, h.2)
  fewer_files (generated kp) c pc f g x h = (λ i. x i (h.0 i), h.1, h.2, h.3)
  fewer_files dropping c pc f g x h = (λ i. x i (h.0 i), h.1)
  fewer_files refused c pc f g x h = h

  -- A step of the loader on the cell.
  pub loader_step :
      (s : Site) (c : SetOnce KeyPair) (pc : Pc KeyPair) (p : Phase)
      → Inv s
      → Threads.Step s.cell 0 (moved s.cell c 0 pc)
      → Fits p c pc s.files
      → Inv (record s { cell = moved s.cell c 0 pc; phase = p })
  loader_step s c pc p h m fit = record {
    cell_reached = Threads.next s.cell (moved s.cell c 0 pc) 0 h.cell_reached m;
    loader_closed = h.loader_closed;
    closed_idle = λ i ne closed. put_other s.cell.threads 0 pc i ne ∙ h.closed_idle i ne closed;
    fits = subst (λ x. Fits p c x s.files) (sym (put-same s.cell.threads 0 pc)) fit;
  }

  pub phase_step :
      (s : Site) (p : Phase)
      → Inv s
      → Fits p s.cell.cell (s.cell.threads 0) s.files
      → Inv (record s { phase = p })
  phase_step s p h fit = record {
    cell_reached = h.cell_reached;
    loader_closed = h.loader_closed;
    closed_idle = h.closed_idle;
    fits = fit;
  }

  pub Fits-at :
      (s : Site) (p : Phase) → Inv s → s.phase ≡ p → Fits p s.cell.cell (s.cell.threads 0) s.files
  Fits-at s p h e = subst (λ q. Fits q s.cell.cell (s.cell.threads 0) s.files) e h.fits
