-- ===== src/SetOnce/Weak/Safe.antt =====
-- The cell is free of races under weak memory.
use mathlib.Core.Path.{subst}
use tarako_module.Shared.{ℕ, ◌≡◌, ◌≢◌, refl, sym, ap, ◌∙◌, Bool, some}
use tarako_module.SetOnce.Threads.{Pc, idle, writing, publishing, loaded, holding, faulted}
use tarako_module.SetOnce.Threads.Invariant.{IsWriter, IsReader}
use tarako_module.SetOnce.Weak.{Memory, Seen}
use tarako_module.SetOnce.Weak.Shape.{Shape, blank, owned, stored, FitsAt, IsInside, elsewhere}
use tarako_module.SetOnce.Weak.Steps.{winner, position, writes, fits_at, Seen-Shape}

module _ {T : Type 0} where
  reader-IsInside : (q : Pc T) → IsReader q → IsInside q
  reader-IsInside loaded x = tt
  reader-IsInside (holding v) x = tt
  reader-IsInside idle x = x
  reader-IsInside (writing v) x = tt
  reader-IsInside publishing x = tt
  reader-IsInside faulted x = tt

  writer-IsInside : (q : Pc T) → IsWriter q → IsInside q
  writer-IsInside (writing v) x = tt
  writer-IsInside publishing x = tt
  writer-IsInside idle x = x
  writer-IsInside loaded x = tt
  writer-IsInside (holding v) x = tt
  writer-IsInside faulted x = tt

  -- No thread is both.
  not_both : (q : Pc T) → IsWriter q → IsReader q → ⊥
  not_both (writing v) x y = y
  not_both publishing x y = y
  not_both idle x y = x
  not_both loaded x y = x
  not_both (holding v) x y = x
  not_both faulted x y = x

  stored_writer : (v : T) (q : Pc T) (k : Bool) → FitsAt v q k → IsWriter q → ⊥
  stored_writer v (writing w) k h x = h
  stored_writer v publishing k h x = h
  stored_writer v idle k h x = x
  stored_writer v loaded k h x = x
  stored_writer v (holding w) k h x = x
  stored_writer v faulted k h x = x

  -- What safety is, as for the cell in one order of accesses.
  abbrev pub Safe : Memory T → Type 0
  Safe s =
      ((i : ℕ) → (s.threads i).pc ≢ faulted)
      × ((i j : ℕ) → IsWriter (s.threads i).pc → IsReader (s.threads j).pc → ⊥)
      × ((i j : ℕ) → IsWriter (s.threads i).pc → IsWriter (s.threads j).pc → i ≡ j)
      × ((i : ℕ) (v : T) → (s.threads i).pc ≡ holding v → s.value ≡ some v)

  Shape-Safe : (s : Memory T) → Shape s → Safe s
  Shape-Safe s (blank hist out) = (
    λ i e. elsewhere _ faulted (out i) e tt,
    λ i j x y. subst IsWriter (out i) x,
    λ i j x y. absurd (subst IsWriter (out i) x),
    λ i v e. absurd (elsewhere _ (holding v) (out i) e tt),
  )
  Shape-Safe s (owned i hist w others) = (
    λ j e.
        writes s i hist w others (s.threads j) faulted (position s i hist w others j faulted e tt)
          e,
    λ j k x y.
        let q = (s.threads k).pc in
        not_both q
          (writes s i hist w others (s.threads k) q
            (position s i hist w others k q refl (reader-IsInside q y)) refl)
          y,
    λ j k x y.
        sym (winner s i hist w others j (s.threads j).pc refl (writer-IsInside (s.threads j).pc x))
        ∙ winner s i hist w others k (s.threads k).pc refl (writer-IsInside (s.threads k).pc y),
    λ j v e. absurd (
        writes s i hist w others (s.threads j) (holding v)
          (position s i hist w others j (holding v) e tt) e),
  )
  Shape-Safe s (stored v hist has fits) = (
    λ j e. fits_at s v hist has fits j faulted e,
    λ j k x y. stored_writer v (s.threads j).pc (s.threads j).knows (fits j) x,
    λ j k x y. absurd (stored_writer v (s.threads j).pc (s.threads j).knows (fits j) x),
    λ j w e. has ∙ ap some (sym (fits_at s v hist has fits j (holding w) e)),
  )

  -- The orderings that the source gives to its atomic accesses are strong enough: in every state that
  -- any number of calls of `populate` and `as_ref` reach under weak memory, where a load may read any
  -- value that `init` has had and a thread learns of the write of the value only by acquiring what a
  -- release has published, no thread reads the value without having learned of the write, or
  -- uninitialised; none writes it while another reads it or holds a reference; at most one writes
  -- it; and what a reference was taken to is what is stored.
  pub Seen-Safe : (s : Memory T) → Seen s → Safe s
  Seen-Safe s r = Shape-Safe s (Seen-Shape s r)
