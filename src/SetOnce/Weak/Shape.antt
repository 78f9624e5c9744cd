-- ===== src/SetOnce/Weak/Shape.antt =====
-- The shapes that the cell takes under weak memory.
use mathlib.Core.Path.{subst}
use tarako_module.Shared.{
  ℕ, ◌≡◌, ◌≢◌, refl, sym, ap, ◌∙◌, ◌==◌, ◌⊎◌, inl, inr, Bool, true, false, Option, some, [], ◌∷◌,
  arith, Bool-cases, ==_iff,
}
use tarako_module.SetOnce.Threads.{Pc, put, idle, writing, publishing, loaded, holding, faulted}
use tarako_module.SetOnce.Threads.Invariant.{put-cases, put_other}
use tarako_module.SetOnce.Weak.{InitWrite, Thread, Memory, Reads, zero_message, at}

abbrev pub busy_message : InitWrite
busy_message = record { val = 1; tells = false }

abbrev pub set_message : InitWrite
set_message = record { val = 2; tells = true }

module _ {T : Type 0} where
  abbrev pub IsIdle : Thread T → Type 0
  IsIdle t = t.pc ≡ idle

  -- A thread that is about to write, or has written.
  abbrev pub Writes : Option T → Thread T → Type 0
  Writes value t =
      ((v : T) × (t.pc ≡ writing v))
      ⊎ ((t.pc ≡ publishing) × (t.knows ≡ true) × ((v : T) × (value ≡ some v)))

  -- A thread of a cell that holds `v`.
  abbrev pub FitsAt : T → Pc T → Bool → Type 0
  FitsAt v idle k = Unit
  FitsAt v loaded k = k ≡ true
  FitsAt v (holding w) k = w ≡ v
  FitsAt v (writing w) k = ⊥
  FitsAt v publishing k = ⊥
  FitsAt v faulted k = ⊥

  -- Nothing is written; or one thread won and all others are outside; or the value is set and told.
  pub data Shape (s : Memory T) : Type 0 where
    blank : s.history ≡ zero_message ∷ [] → ((i : ℕ) → IsIdle (s.threads i)) → Shape s
    owned :
        (i : ℕ)
        → s.history ≡ busy_message ∷ zero_message ∷ []
        → Writes s.value (s.threads i)
        → ((j : ℕ) → i ≢ j → IsIdle (s.threads j))
        → Shape s
    stored :
        (v : T)
        → s.history ≡ set_message ∷ busy_message ∷ zero_message ∷ []
        → s.value ≡ some v
        → ((i : ℕ) → FitsAt v (s.threads i).pc (s.threads i).knows)
        → Shape s

  pub idle_everywhere :
      (f : ℕ → Thread T) (i : ℕ) (k : Bool)
      → ((j : ℕ) → IsIdle (f j))
      → (j : ℕ) → IsIdle (put f i (record { pc = idle; knows = k }) j)
  idle_everywhere f i k h =
      put-cases (λ _ t. IsIdle t) f i (record { pc = idle; knows = k }) refl (λ j _. h j)

  pub fits_everywhere :
      (v : T) (f : ℕ → Thread T) (i : ℕ) (t : Thread T)
      → FitsAt v t.pc t.knows
      → ((j : ℕ) → FitsAt v (f j).pc (f j).knows)
      → (j : ℕ) → FitsAt v (put f i t j).pc (put f i t j).knows
  fits_everywhere v f i t h k = put-cases (λ _ x. FitsAt v x.pc x.knows) f i t h (λ j _. k j)

  -- A thread that is not outside is the one that won.
  pub is_winner :
      (s : Memory T) (i j : ℕ)
      → ((k : ℕ) → i ≢ k → IsIdle (s.threads k))
      → (s.threads j).pc ≢ idle
      → i ≡ j
  is_winner s i j others out = elim (Bool-cases (i == j)) [
    | inl e ↦ (==_iff i j).0 e
    | inr e ↦ absurd (out (others j (λ x. ground arith)))
  ]

  pub winner_out : (value : Option T) (t : Thread T) → Writes value t → t.pc ≢ idle
  winner_out value t (inl w) e = absurd (ground arith)
  winner_out value t (inr w) e = absurd (ground arith)

  -- A thread of a busy cell that is outside stays outside.
  pub busy_idle :
      (s : Memory T) (i j : ℕ) (k : Bool)
      → s.history ≡ busy_message ∷ zero_message ∷ []
      → Writes s.value (s.threads i)
      → ((l : ℕ) → i ≢ l → IsIdle (s.threads l))
      → IsIdle (s.threads j)
      → Shape (record s { threads = at s j (record { pc = idle; knows = k }) })
  busy_idle s i j k hist w others out =
      owned i hist
        (subst (Writes s.value)
          (sym (put_other s.threads j (record { pc = idle; knows = k }) i apart)) w)
        (λ l ne.
          put-cases (λ x t. i ≢ x → IsIdle t) s.threads j (record { pc = idle; knows = k })
            (λ _. refl) (λ x _. others x) l ne)
    where
      apart : j ≢ i
      apart e = winner_out s.value (s.threads i) w (subst (λ x. IsIdle (s.threads x)) e out)

  -- What a load of a message of such a history can see.
  pub not_set :
      (s : Memory T) (m : InitWrite)
      → (s.history ≡ zero_message ∷ []) ⊎ (s.history ≡ busy_message ∷ zero_message ∷ [])
      → Reads s.history m
      → (m.val == 2) ≡ true
      → ⊥
  not_set s m (inl e) r two = holds (subst (λ h. Reads h m) e r)
    where
      holds : Reads (zero_message ∷ []) m → ⊥
      holds (inl f) = absurd (ground arith)
      holds (inr f) = f
  not_set s m (inr e) r two = holds (subst (λ h. Reads h m) e r)
    where
      holds : Reads (busy_message ∷ zero_message ∷ []) m → ⊥
      holds (inl f) = absurd (ground arith)
      holds (inr (inl f)) = absurd (ground arith)
      holds (inr (inr f)) = f

  pub told :
      (s : Memory T) (m : InitWrite)
      → s.history ≡ set_message ∷ busy_message ∷ zero_message ∷ []
      → Reads s.history m
      → (m.val == 2) ≡ true
      → m.tells ≡ true
  told s m e r two = tells (subst (λ h. Reads h m) e r)
    where
      tells : Reads (set_message ∷ busy_message ∷ zero_message ∷ []) m → m.tells ≡ true
      tells (inl f) = ap (λ (x : InitWrite). x.tells) (sym f)
      tells (inr (inl f)) = absurd (ground arith)
      tells (inr (inr (inl f))) = absurd (ground arith)
      tells (inr (inr (inr f))) = absurd f

  -- A thread cannot be outside and inside.
  abbrev pub IsInside : Pc T → Type 0
  IsInside idle = ⊥
  IsInside _ = Unit

  pub elsewhere : (pc q : Pc T) → pc ≡ idle → pc ≡ q → IsInside q → ⊥
  elsewhere pc q e f x = subst IsInside (sym f ∙ e) x

  pub idle_fits : (v : T) (t : Thread T) → IsIdle t → FitsAt v t.pc t.knows
  idle_fits v t e = subst (λ p. FitsAt v p t.knows) (sym e) tt
