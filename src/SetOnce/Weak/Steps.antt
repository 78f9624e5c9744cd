-- ===== src/SetOnce/Weak/Steps.antt =====
-- Every access under weak memory keeps the cell in one of its shapes.
use mathlib.Core.Path.{subst}
use tarako_module.Shared.{
  ℕ, ◌≡◌, ◌≢◌, refl, sym, ap₂, ◌∙◌, ◌==◌, ◌||◌, inl, inr, Bool, true, false, some, List, [], ◌∷◌,
  arith,
}
use tarako_module.SetOnce.Threads.{Pc, idle, writing, publishing, loaded, holding}
use tarako_module.SetOnce.Threads.Invariant.{IsWriter, put-same, put-cases, put_other}
use tarako_module.SetOnce.Weak.{
  InitWrite, Thread, Memory, Access, Seen, start, then, zero_message, at, load_order, cmpxchg_order,
  store_order, win, lose, write, publish, load_set, load_unset, refer, race, uninit, leave,
}
use tarako_module.SetOnce.Weak.Shape.{
  busy_message, set_message, blank, owned, stored, Shape, IsIdle, Writes, FitsAt, idle_everywhere,
  fits_everywhere, is_winner, busy_idle, not_set, told, IsInside, elsewhere, idle_fits,
}

-- A front message that is not 0 cannot be exchanged from 0.
not_empty :
    (m : InitWrite) (rest : List InitWrite)
    → busy_message ∷ zero_message ∷ [] ≡ m ∷ rest
    → (m.val == 0) ≡ true
    → ⊥
not_empty m rest front z =
    let same : busy_message ≡ m = cc in
    let one : (1 == 0) ≡ true = subst (λ (x : InitWrite). (x.val == 0) ≡ true) (sym same) z in
    ground arith

not_empty_set :
    (m : InitWrite) (rest : List InitWrite)
    → set_message ∷ busy_message ∷ zero_message ∷ [] ≡ m ∷ rest
    → (m.val == 0) ≡ true
    → ⊥
not_empty_set m rest front z =
    let same : set_message ≡ m = cc in
    let two : (2 == 0) ≡ true = subst (λ (x : InitWrite). (x.val == 0) ≡ true) (sym same) z in
    ground arith

module _ {T : Type 0} where
  -- From a cell that no thread has won.
  from_blank :
      (s : Memory T) (i : ℕ) (t : Memory T)
      → s.history ≡ zero_message ∷ []
      → ((j : ℕ) → IsIdle (s.threads j))
      → Access s i t
      → Shape t
  unfolding cmpxchg_order
  from_blank s i _ hist out (win v m rest e h z) =
      let front : zero_message ∷ [] ≡ m ∷ rest = sym hist ∙ h in
      let same : zero_message ≡ m = cc in
      owned i
        (ap₂ (λ (x : InitWrite) h. record { val = 1; tells = x.tells || false } ∷ h) (sym same)
          hist)
        (subst (Writes s.value) (sym (put-same s.threads i _)) (inl (v, refl)))
        (λ j ne. subst IsIdle (sym (put_other s.threads i _ j ne)) (out j))
  from_blank s i _ hist out (lose m e r z) = blank hist (idle_everywhere s.threads i _ out)
  from_blank s i _ hist out (load_unset m e r z) = blank hist (idle_everywhere s.threads i _ out)
  from_blank s i _ hist out (load_set m e r z) = absurd (not_set s m (inl hist) r z)
  from_blank s i _ hist out (write v e) = absurd (elsewhere _ (writing v) (out i) e tt)
  from_blank s i _ hist out (publish e) = absurd (elsewhere _ publishing (out i) e tt)
  from_blank s i _ hist out (refer v e k has) = absurd (elsewhere _ loaded (out i) e tt)
  from_blank s i _ hist out (race e k) = absurd (elsewhere _ loaded (out i) e tt)
  from_blank s i _ hist out (uninit e has) = absurd (elsewhere _ loaded (out i) e tt)
  from_blank s i _ hist out (leave v e) = absurd (elsewhere _ (holding v) (out i) e tt)

  -- From a cell that thread `i` has won.
  module _ (s : Memory T) (i : ℕ) (hist : s.history ≡ busy_message ∷ zero_message ∷ [])
      (w : Writes s.value (s.threads i)) (others : (j : ℕ) → i ≢ j → IsIdle (s.threads j)) where
    pub winner : (j : ℕ) (q : Pc T) → (s.threads j).pc ≡ q → IsInside q → i ≡ j
    winner j q e x = is_winner s i j others (λ f. elsewhere (s.threads j).pc q f e x)

    -- The winner is writing or about to publish.
    pub position :
        (j : ℕ) (q : Pc T) → (s.threads j).pc ≡ q → IsInside q → Writes s.value (s.threads j)
    position j q e x = subst (λ k. Writes s.value (s.threads k)) (winner j q e x) w

    pub writes : (t : Thread T) (q : Pc T) → Writes s.value t → t.pc ≡ q → IsWriter q
    writes t q (inl (v, e)) f = subst IsWriter (sym e ∙ f) tt
    writes t q (inr (e, k, h)) f = subst IsWriter (sym e ∙ f) tt

    told_writer :
        (t : Thread T)
        → Writes s.value t
        → t.pc ≡ publishing
        → (t.knows ≡ true) × ((v : T) × (s.value ≡ some v))
    told_writer t (inl (v, e)) f = absurd (ground arith)
    told_writer t (inr (e, k, h)) f = (k, h)

    from_owned : (j : ℕ) (t : Memory T) → Access s j t → Shape t
    unfolding store_order
    from_owned j _ (win v m rest e h z) = absurd (not_empty m rest (sym hist ∙ h) z)
    from_owned j _ (lose m e r z) = busy_idle s i j _ hist w others e
    from_owned j _ (load_unset m e r z) = busy_idle s i j _ hist w others e
    from_owned j _ (load_set m e r z) = absurd (not_set s m (inr hist) r z)
    from_owned j _ (write v e) =
        let me = winner j (writing v) e tt in
        owned j hist
          (subst (Writes (some v)) (sym (put-same s.threads j _)) (inr (refl, refl, (v, refl))))
          (λ k ne.
            subst IsIdle (sym (put_other s.threads j _ k ne)) (others k (λ f. ne (sym me ∙ f))))
    from_owned j _ (publish e) =
        let me = winner j publishing e tt in
        let (knows, (v, has)) = told_writer (s.threads j) (position j publishing e tt) e in
        stored v (ap₂ (λ k h. record { val = 2; tells = k } ∷ h) knows hist) has (
          put-cases (λ _ x. FitsAt v x.pc x.knows) s.threads j
            (record { pc = idle; knows = (s.threads j).knows }) tt
            (λ k ne. idle_fits v (s.threads k) (others k (λ f. ne (sym me ∙ f)))))
    from_owned j _ (refer v e k has) =
        absurd (writes (s.threads j) loaded (position j loaded e tt) e)
    from_owned j _ (race e k) = absurd (writes (s.threads j) loaded (position j loaded e tt) e)
    from_owned j _ (uninit e has) = absurd (writes (s.threads j) loaded (position j loaded e tt) e)
    from_owned j _ (leave v e) =
        absurd (writes (s.threads j) (holding v) (position j (holding v) e tt) e)

  -- From a cell whose value is stored.
  module _ (s : Memory T) (v : T)
      (hist : s.history ≡ set_message ∷ busy_message ∷ zero_message ∷ []) (has : s.value ≡ some v)
      (fits : (i : ℕ) → FitsAt v (s.threads i).pc (s.threads i).knows) where
    pub fits_at : (i : ℕ) (q : Pc T) → (s.threads i).pc ≡ q → FitsAt v q (s.threads i).knows
    fits_at i q e = subst (λ p. FitsAt v p (s.threads i).knows) e (fits i)

    kept : (i : ℕ) (x : Thread T) → FitsAt v x.pc x.knows → Shape (record s { threads = at s i x })
    kept i x h = stored v hist has (fits_everywhere v s.threads i x h fits)

    or_true : (a b : Bool) → b ≡ true → (a || b) ≡ true
    or_true a b e = ground arith

    from_stored : (j : ℕ) (t : Memory T) → Access s j t → Shape t
    unfolding load_order
    from_stored j _ (win w m rest e h z) = absurd (not_empty_set m rest (sym hist ∙ h) z)
    from_stored j _ (lose m e r z) = kept j _ tt
    from_stored j _ (load_unset m e r z) = kept j _ tt
    from_stored j _ (load_set m e r z) =
        kept j _ (or_true (s.threads j).knows m.tells (told s m hist r z))
    from_stored j _ (write w e) = absurd (fits_at j (writing w) e)
    from_stored j _ (publish e) = absurd (fits_at j publishing e)
    from_stored j _ (refer w e k f) =
        let both : some v ≡ some w = sym has ∙ f in let same : w ≡ v = cc in kept j _ same
    from_stored j _ (race e k) = absurd (true_false (sym (fits_at j loaded e) ∙ k))
      where
        true_false : true ≡ false → ⊥
        true_false f = ground arith
    from_stored j _ (uninit e f) = absurd (ground arith)
    from_stored j _ (leave w e) = kept j _ tt

  Access-Shape : (s : Memory T) (i : ℕ) (t : Memory T) → Shape s → Access s i t → Shape t
  Access-Shape s i t (blank hist out) m = from_blank s i t hist out m
  Access-Shape s i t (owned j hist w others) m = from_owned s j hist w others i t m
  Access-Shape s i t (stored v hist has fits) m = from_stored s v hist has fits i t m

  pub Seen-Shape : (s : Memory T) → Seen s → Shape s
  Seen-Shape _ start = blank refl (λ i. refl)
  Seen-Shape _ (then s t i r m) = Access-Shape s i t (Seen-Shape s r) m
