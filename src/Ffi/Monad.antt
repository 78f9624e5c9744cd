-- ===== src/Ffi/Monad.antt =====
-- A call of the module: state passing with Rust's early return by `?`, and with the drop of a
-- local at the end of its scope.
use Prim.Native.String.{String}
use tarako_module.Shared.{
  Error, ℕ, ◌==◌, Bool, Option, none, some, List, ◌∷◌, Outcome, ok, err, panic, if◌then◌else◌,
}

-- A line of the kernel log, with what it prints.
pub data Message : Type 0 where
  loading : Message
  init_failed : Error → Message
  already_initialized : Message
  key_ready : Message
  key_measured : List ℕ → Message
  key_unmeasured : Error → Message

-- What the module does to its surroundings, in the order of the calls.
pub data Call : Type 0 where
  alloc_point : ℕ → Call
  free_point : ℕ → Call
  gen_privkey : List ℕ → Call
  make_pub_key : List ℕ → Call
  wipe : List ℕ → Call
  ima_measure : String → String → List ℕ → Bool → Call
  rcu_lock : Call
  rcu_unlock : Call
  get_digest : ℕ → Call
  copy_from_user : ℕ → ℕ → Call
  copy_to_user : ℕ → List ℕ → Call
  register : Call
  deregister : Call
  get_device : Call
  put_device : Call
  alloc_box : ℕ → Call
  free_box : ℕ → Call
  print : Message → Call

-- The rest of the kernel, the limbs in the coordinate buffers by address, and the calls made so
-- far, the last one first.
pub record State (W : Type 0) : Type 0 where
  pub world : W
  pub buffers : ℕ → List ℕ
  pub calls : List Call

abbrev pub M : Type 0 → Type 0 → Type 0
M W A = State W → Outcome A × State W

abbrev pub update : (ℕ → List ℕ) → ℕ → List ℕ → ℕ → List ℕ
update f p v q = if p == q then v else f q

module _ {W : Type 0} where
  abbrev pub pure : {A : Type 0} → A → M W A
  pure a s = (ok a, s)

  abbrev pub lift : {A : Type 0} → Outcome A → M W A
  lift r s = (r, s)

  infixl 5 ◌>>=◌ ◌>>◌
  abbrev pub ◌>>=◌ : {A B : Type 0} → M W A → (A → M W B) → M W B
  ◌>>=◌ m f s =
      let (r, t) = m s in elim r [ ok a ↦ f a t | err e ↦ (err e, t) | panic ↦ (panic, t) ]

  abbrev pub ◌>>◌ : {A B : Type 0} → M W A → M W B → M W B
  m >> k = m >>= λ _. k

  abbrev pub log : Call → M W (Unit {0})
  log c s = (ok tt, record s { calls = c ∷ s.calls })

  -- A call of the kernel.
  abbrev pub kernel_call : {A : Type 0} → (W → A × W) → M W A
  kernel_call f s = let (a, w) = f s.world in (ok a, record s { world = w })

  abbrev pub kernel_effect : (W → W) → M W (Unit {0})
  kernel_effect f s = (ok tt, record s { world = f s.world })

  abbrev pub kernel_read : {A : Type 0} → (W → A) → M W A
  kernel_read f s = (ok (f s.world), s)

  abbrev pub load : ℕ → M W (List ℕ)
  load p s = (ok (s.buffers p), s)

  abbrev pub store : ℕ → List ℕ → M W (Unit {0})
  store p v s = (ok tt, record s { buffers = update s.buffers p v })

  -- A `match` on the `Result` of a call.
  abbrev pub match_result : {A B : Type 0} → M W A → (A → M W B) → (Error → M W B) → M W B
  match_result m f g s =
      let (r, t) = m s in elim r [ ok a ↦ f a t | err e ↦ g e t | panic ↦ (panic, t) ]

  -- The end of a scope that owns a value: `cleanup` drops it on a return and on an error alike. A
  -- panic does not unwind in the kernel.
  abbrev pub finally : {A : Type 0} → M W A → M W (Unit {0}) → M W A
  finally m cleanup s =
      let (r, t) = m s in
      elim r [ ok a ↦ (ok a, (cleanup t).1) | err e ↦ (err e, (cleanup t).1) | panic ↦ (panic, t) ]

  -- A scope whose value is moved out by `return`: it is dropped on any other way out.
  abbrev pub unless_returned : {A : Type 0} → M W (Option A) → M W (Unit {0}) → M W (Option A)
  unless_returned m cleanup s =
      let (r, t) = m s in
      elim r [
        | ok o ↦ elim o [ some a ↦ (ok (some a), t) | none ↦ (ok none, (cleanup t).1) ]
        | err e ↦ (err e, (cleanup t).1)
        | panic ↦ (panic, t)
      ]

  -- A value that a successful return moves out: it is dropped on an error.
  abbrev pub on_error : {A : Type 0} → M W A → M W (Unit {0}) → M W A
  on_error m cleanup s =
      let (r, t) = m s in
      elim r [ ok a ↦ (ok a, t) | err e ↦ (err e, (cleanup t).1) | panic ↦ (panic, t) ]
