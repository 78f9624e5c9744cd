-- ===== src/SetOnce/Laws.antt =====
-- `populate`, `as_ref` and `clear`, each call on its own.
use tarako_module.Shared.{
  ◌≡◌, ◌≢◌, refl, ◌⊎◌, inl, inr, ◌==◌, true, false, none, some, ok, arith, Bool-cases,
}
use tarako_module.SetOnce.{
  SetOnce, as_ref, deref, cmpxchg, write_value, store_init, populate, drop_in_place, clear,
}

module _ {T : Type 0} where
  -- The first `populate` of an empty cell stores its value, which `as_ref` then gives; on a cell that
  -- is busy or set it fails and changes nothing.
  pub populate_lem :
      (v : T) (c : SetOnce T)
      → ((c.init ≡ 0)
          × ((populate v c).1 ≡ true)
          × (as_ref (populate v c).0 ≡ ok (some v))
          × ((w : T) → populate w (populate v c).0 ≡ ((populate v c).0, false)))
        ⊎ ((c.init ≢ 0) × (populate v c ≡ (c, false)))
  unfolding populate cmpxchg write_value store_init as_ref deref
  populate_lem v c = elim (Bool-cases (c.init == 0)) [
    | inl e ↦ inl (ground arith, rw e refl, rw e refl, λ w. rw e refl)
    | inr e ↦ inr (ground arith, rw e refl)
  ]

  -- `clear` of a set cell leaves it empty, so that `as_ref` gives nothing and it can be populated
  -- again, and what stays in its storage is what dropping the value left there; on another cell
  -- it changes nothing.
  pub clear_lem :
      (drop_glue : T → T) (v : T) (c : SetOnce T)
      → ((c.init ≡ 2)
          × (clear drop_glue (record c { value = some v })
              ≡ record { init = 0; value = some (drop_glue v) })
          × (as_ref (clear drop_glue c) ≡ ok none)
          × ((populate v (clear drop_glue c)).1 ≡ true))
        ⊎ ((c.init ≢ 2) × (clear drop_glue c ≡ c))
  unfolding clear populate cmpxchg drop_in_place store_init as_ref deref
  clear_lem drop_glue v c = elim (Bool-cases (c.init == 2)) [
    | inl e ↦ inl (ground arith, rw e refl, rw e refl, rw e refl)
    | inr e ↦ inr (ground arith, rw e refl)
  ]
