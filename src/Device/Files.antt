-- ===== src/Device/Files.antt =====
-- Opening and releasing the device file: the references to the device and the boxes that it takes.
use tarako_module.Shared.{
  ℕ, ◌+◌, ◌≡◌, refl, true, inl, inr, ◌⊎◌, Option-cases, arith, err, enomem, ok,
}
use tarako_module.Ffi.{Call, Kernel, State, get_device, put_device, alloc_box, free_box}
use tarako_module.Ffi.Ledger.{total, Gives}
use tarako_module.Device.{TarakoDevice, drop_dev, open_device, release_device}

-- A weight for a reference to the device and one for a box, where they are taken and given back.
abbrev pub taken : ℕ → (ℕ → ℕ) → Call → ℕ
taken r w get_device = r
taken r w (alloc_box p) = w p
taken r w _ = 0

abbrev pub returned : ℕ → (ℕ → ℕ) → Call → ℕ
returned r w put_device = r
returned r w (free_box p) = w p
returned r w _ = 0

module _ {W : Type 0} (K : Kernel W) (r : ℕ) (w : ℕ → ℕ) where
  release_device-Gives :
      (me : TarakoDevice)
      → Gives true (taken r w) (returned r w) (r + w me.box) (release_device K me)
  unfolding release_device drop_dev total
  release_device-Gives me s = omega arith

  -- Opening the device takes one reference to it and one box, or fails with ENOMEM and holds
  -- nothing: for any weight `r` of a reference and `w` of the boxes, what was taken and not given
  -- back grows by just those. Releasing the file, in whatever state that is done, gives back just
  -- those.
  pub open_device_lem :
      (s : State W)
      → let (x, t) = open_device K s in
        ((x ≡ err enomem)
          × (total (taken r w) t.calls + total (returned r w) s.calls
              ≡ total (returned r w) t.calls + total (taken r w) s.calls))
        ⊎ ((me : TarakoDevice) × (x ≡ ok me)
            × (total (taken r w) t.calls + total (returned r w) s.calls
                ≡ total (returned r w) t.calls + total (taken r w) s.calls + (r + w me.box))
            × ((u : State W)
                → let v = (release_device K me u).1 in
                  total (taken r w) v.calls + total (returned r w) u.calls + (r + w me.box)
                  ≡ total (returned r w) v.calls + total (taken r w) u.calls))
  unfolding open_device drop_dev total
  open_device_lem s = elim (Option-cases (K.kbox_alloc (K.get_device s.world)).0) [
    | inl e ↦ inl (rw e (refl, omega arith))
    | inr (p, e) ↦ inr (
      record { box = p },
      rw e refl,
      rw e (omega arith),
      release_device-Gives (record { box = p }),
    )
  ]
