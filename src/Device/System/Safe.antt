-- ===== src/Device/System/Safe.antt =====
-- What holds in every state of the module's life.
use mathlib.Core.Path.{subst}
use tarako_module.Shared.{ℕ, Bool, ◌≡◌, ◌≢◌, refl, sym, ◌∙◌, ◌⊎◌, inl, inr, some, arith}
use tarako_module.Ffi.{Kernel}
use tarako_module.SetOnce.{SetOnce}
use tarako_module.SetOnce.Threads.{Pc, idle, holding, faulted}
use tarako_module.SetOnce.Threads.Invariant
use tarako_module.SetOnce.Threads.Invariant.{Reachable-Inv}
use tarako_module.Ioctl.Types.{KeyPair, drop_key_pair}
use tarako_module.Ioctl.Handlers.Gate.{IsSound, Holds}
use tarako_module.Device.System.{
  Phase, unloaded, generated, registered, storing, live, dropping, refused, Site, IsMade, Reached,
}
use tarako_module.Device.System.Invariant.{Fits, Inv, IsStored, Fits-at}
use tarako_module.Device.System.Preserved.{all_idle, Reached-Inv}

module _ {W : Type 0} (K : Kernel W) where
  -- A set cell is that of a module that is loaded or about to be cleared.
  set-IsStored :
      (p : Phase) (c : SetOnce KeyPair) (pc : Pc KeyPair) (f : ℕ → Bool)
      → Invariant.Fits c pc
      → Fits K p c pc f
      → c.init ≡ 2
      → IsStored K c pc × ((p ≡ live) ⊎ (p ≡ dropping))
  set-IsStored unloaded c pc f fit h set = absurd (omega (arith, h.2, set))
  set-IsStored (generated kp) c pc f fit h set = absurd (omega (arith, h.2, set))
  set-IsStored (registered kp) c pc f fit h set = absurd (omega (arith, h.1, set))
  set-IsStored storing c pc f fit (kp, made, inl e) set =
      absurd (omega (arith, subst (Invariant.Fits c) e fit, set))
  set-IsStored storing c pc f fit (kp, made, inr e) set =
      absurd (omega (arith, (subst (Invariant.Fits c) e.0 fit).0, set))
  set-IsStored live c pc f fit h set = (h, inl refl)
  set-IsStored dropping c pc f fit h set = (h.1, inr refl)
  set-IsStored refused c pc f fit h set = absurd h

  IsStored-at :
      (s : Site) (h : Inv K s)
      → s.cell.cell.init ≡ 2
      → IsStored K s.cell.cell (s.cell.threads 0) × ((s.phase ≡ live) ⊎ (s.phase ≡ dropping))
  IsStored-at s h set =
      set-IsStored s.phase s.cell.cell (s.cell.threads 0) s.files
        ((Reachable-Inv drop_key_pair s.cell h.cell_reached).fits 0) h.fits set

  dropping_idle : (s : Site) → Inv K s → s.phase ≡ dropping → (i : ℕ) → s.cell.threads i ≡ idle
  dropping_idle s h e = let fit = Fits-at K s dropping h e in all_idle K s h fit.0 fit.1.4

  same-IsMade : (kp kp' : KeyPair) → some kp ≡ some kp' → IsMade K kp' → IsMade K kp
  same-IsMade kp kp' e made = let same : kp' ≡ kp = cc in subst (IsMade K) same made

  -- In every state that the loader and any number of user threads reach, opening, using and closing
  -- the device as they like: `populate` has not refused the key pair, so loading never ends with
  -- EBUSY; no thread has read uninitialised storage; when the cell is about to be cleared every
  -- thread is outside, as the safety comment of `clear` demands; and a thread that holds a
  -- reference does so in a loaded module, to the key pair that the cell holds and that
  -- `generate_key_pair` made.
  pub Reached-safe :
      (s : Site)
      → Reached K s
      → (s.phase ≢ refused)
        × ((i : ℕ) → s.cell.threads i ≢ faulted)
        × (s.phase ≡ dropping → (i : ℕ) → s.cell.threads i ≡ idle)
        × ((i : ℕ) (kp : KeyPair)
            → s.cell.threads i ≡ holding kp
            → (s.phase ≡ live) × (s.cell.cell.value ≡ some kp) × IsMade K kp)
  Reached-safe s r =
      let h = Reached-Inv K s r in
      let inner = Reachable-Inv drop_key_pair s.cell h.cell_reached in
      (
        λ e. Fits-at K s refused h e,
        λ i e. subst (Invariant.Fits s.cell.cell) e (inner.fits i),
        dropping_idle s h,
        λ i kp e.
            let held = subst (Invariant.Fits s.cell.cell) e (inner.fits i) in
            let (stored, phase) = IsStored-at s h held.0 in
            (
              elim phase [ inl f ↦ f | inr f ↦ absurd (busy kp (sym e ∙ dropping_idle s h f i)) ],
              held.1,
              same-IsMade kp stored.0 (sym held.1 ∙ stored.3) stored.1,
            ),
      )
    where
      busy : (kp : KeyPair) → holding kp ≡ idle → ⊥
      busy kp e = ground arith

  pub Reached-IsSound : (s : Site) → Reached K s → IsSound s.cell.cell
  Reached-IsSound s r set uninit =
      (Reachable-Inv drop_key_pair s.cell (Reached-Inv K s r).cell_reached).initialised set uninit

  pub Reached-Holds : (s : Site) (kp : KeyPair) → Reached K s → Holds s.cell.cell kp → IsMade K kp
  Reached-Holds s kp r holds =
      let (stored, phase) = IsStored-at s (Reached-Inv K s r) holds.0 in
      same-IsMade kp stored.0 (sym holds.1 ∙ stored.3) stored.1
