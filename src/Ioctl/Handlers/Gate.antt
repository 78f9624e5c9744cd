-- ===== src/Ioctl/Handlers/Gate.antt =====
-- The guards of the two handlers, and `handle_get_pubkey`.
use tarako_module.Shared.{
  ℕ, ◌≤◌, ◌<◌, ◌≡◌, ◌≢◌, refl, ◌⊎◌, inl, inr, none, some, Option, true, false, ltb, arith, ok, err,
  Outcome, ◌==◌, ℤ, pos, enxio, eperm, e2big, Bool-cases, Option-cases, List, ◌∷◌, Error, ◌∙◌,
}
use tarako_module.Ffi.{Kernel, State, M, copy_to_user, ◌>>=◌, ◌>>◌, lift, pure, log, kernel_call}
use tarako_module.Ecc.{p256_pubkey_bytes}
use tarako_module.SetOnce.{SetOnce, as_ref}
use tarako_module.Ioctl.Types.{KeyPair}
use tarako_module.Ioctl.Digest.{FsverityDigest, digest, current_exe_fsverity_digest}
use tarako_module.Ioctl.Handlers.{sign_request, write_user, handle_get_pubkey, handle_sign_data}

-- A cell whose storage is initialised whenever it is set.
abbrev pub IsSound : {T : Type 0} → SetOnce T → Type 0
IsSound c = c.init ≡ 2 → c.value ≢ none

-- The cell holds this key pair.
abbrev pub Holds : SetOnce KeyPair → KeyPair → Type 0
Holds cell kp = (cell.init ≡ 2) × (cell.value ≡ some kp)

module _ {W : Type 0} (K : Kernel W) (kp : KeyPair) where
  -- `handle_sign_data` behind its two guards.
  abbrev pub after_digest : ℕ → ℕ → FsverityDigest → M W ℤ
  after_digest arg cmd d = lift (digest d) >>= λ bytes. sign_request K kp bytes arg (K.ioc_size cmd)

  pub handle_sign_data-opened :
      (cell : SetOnce KeyPair) (arg cmd : ℕ) (s : State W)
      → cell.init ≡ 2
      → cell.value ≡ some kp
      → kp.ima_measured ≡ true
      → handle_sign_data K cell arg cmd s
        ≡ (current_exe_fsverity_digest K >>= after_digest arg cmd) s
  unfolding handle_sign_data as_ref
  handle_sign_data-opened cell arg cmd s set has measured = rw (set, has, measured)

pub Holds-cases :
    (cell : SetOnce KeyPair)
    → IsSound cell
    → (as_ref cell ≡ ok none) ⊎ ((kp : KeyPair) × Holds cell kp × (as_ref cell ≡ ok (some kp)))
unfolding as_ref
Holds-cases cell sound = elim (Bool-cases (cell.init == 2)) [
  | inl set ↦ elim (Option-cases cell.value) [
    | inl uninit ↦ absurd (sound (ground arith) uninit)
    | inr (kp, e) ↦ inr (kp, (ground arith, e), rw (set, e))
  ]
  | inr unset ↦ inl (rw unset)
]

module _ {W : Type 0} (K : Kernel W) (cell : SetOnce KeyPair) (sound : IsSound cell) (arg cmd : ℕ)
    (s : State W) where
  -- For a cell whose storage is initialised wherever it is set: either the cell holds a key pair
  -- that IMA has measured, or `handle_sign_data` fails and leaves the state as it was, having
  -- called nothing: with EPERM where the key pair is not measured, and with ENXIO where the cell
  -- is not set.
  pub handle_sign_data-refuses :
      ((kp : KeyPair) × Holds cell kp × (kp.ima_measured ≡ true))
      ⊎ ((kp : KeyPair) × Holds cell kp
          × (kp.ima_measured ≡ false)
          × (handle_sign_data K cell arg cmd s ≡ (err eperm, s)))
      ⊎ ((cell.init ≢ 2) × (handle_sign_data K cell arg cmd s ≡ (err enxio, s)))
  unfolding handle_sign_data as_ref
  handle_sign_data-refuses = elim (Bool-cases (cell.init == 2)) [
    | inl set ↦ elim (Option-cases cell.value) [
      | inl uninit ↦ absurd (sound (ground arith) uninit)
      | inr (kp, e) ↦ elim (Bool-cases kp.ima_measured) [
        | inl yes_measured ↦ inl (kp, (ground arith, e), yes_measured)
        | inr no_measured ↦ inr (inl (kp, (ground arith, e), no_measured, rw (set, e, no_measured)))
      ]
    ]
    | inr unset ↦ inr (inr (ground arith, rw unset))
  ]

  -- The state after the public key `pubkey` was offered to user space.
  abbrev pub offered : List ℕ → State W
  offered pubkey = record {
    world = (K.write_slice arg (K.ioc_size cmd) pubkey s.world).1;
    buffers = s.buffers;
    calls = copy_to_user arg pubkey ∷ s.calls;
  }

  abbrev pub length_or : Option Error → Outcome ℤ
  length_or none = ok (pos p256_pubkey_bytes)
  length_or (some e) = err e

  -- The last two steps of `handle_get_pubkey`.
  abbrev pub deliver : List ℕ → M W ℤ
  deliver pubkey = write_user K arg (K.ioc_size cmd) pubkey >> pure (pos p256_pubkey_bytes)

  pub deliver_lem :
      (pubkey : List ℕ)
      → deliver pubkey s
        ≡ (length_or (K.write_slice arg (K.ioc_size cmd) pubkey s.world).0, offered pubkey)
  unfolding write_user
  deliver_lem pubkey = go (K.write_slice arg (K.ioc_size cmd) pubkey s.world)
    where
      go :
          (x : Option Error × W)
          → (kernel_call (λ _. x) >>= (λ r.
                log (copy_to_user arg pubkey)
                >> (elim r [ some e ↦ lift (err e) | none ↦ pure tt ])
                >> pure (pos p256_pubkey_bytes)))
              s
            ≡ (
              length_or x.0,
              record {
                world = x.1;
                buffers = s.buffers;
                calls = copy_to_user arg pubkey ∷ s.calls;
              },
            )
      go (none, w) = refl
      go (some e, w) = refl

  pub handle_get_pubkey-fits :
      (kp : KeyPair)
      → cell.init == 2 ≡ true
      → cell.value ≡ some kp
      → ltb (K.ioc_size cmd) p256_pubkey_bytes ≡ false
      → handle_get_pubkey K cell arg cmd s ≡ deliver kp.pubkey s
  unfolding handle_get_pubkey as_ref
  handle_get_pubkey-fits kp set e fits = rw (set, e, fits)

  -- For a cell whose storage is initialised wherever it is set: `handle_get_pubkey` offers
  -- exactly the public key of the cell to user space, in one write, and returns its length, 33,
  -- or the error of that write. Where the buffer is shorter than 33 bytes it returns E2BIG, and
  -- where the cell is not set ENXIO, and the state is as it was.
  pub handle_get_pubkey_lem :
      ((kp : KeyPair) × Holds cell kp
        × (p256_pubkey_bytes ≤ K.ioc_size cmd)
        × (handle_get_pubkey K cell arg cmd s ≡ (
          length_or (K.write_slice arg (K.ioc_size cmd) kp.pubkey s.world).0,
          offered kp.pubkey,
        )))
      ⊎ ((K.ioc_size cmd < p256_pubkey_bytes)
          × (handle_get_pubkey K cell arg cmd s ≡ (err e2big, s)))
      ⊎ ((cell.init ≢ 2) × (handle_get_pubkey K cell arg cmd s ≡ (err enxio, s)))
  unfolding handle_get_pubkey as_ref
  handle_get_pubkey_lem = elim (Bool-cases (cell.init == 2)) [
    | inl set ↦ elim (Option-cases cell.value) [
      | inl uninit ↦ absurd (sound (ground arith) uninit)
      | inr (kp, e) ↦ elim (Bool-cases (ltb (K.ioc_size cmd) p256_pubkey_bytes)) [
        | inl short ↦ inr (inl (ground arith, rw (set, e, short)))
        | inr fits ↦ inl (
          kp,
          (ground arith, e),
          ground arith,
          handle_get_pubkey-fits kp set e fits ∙ deliver_lem kp.pubkey,
        )
      ]
    ]
    | inr unset ↦ inr (inr (ground arith, rw unset))
  ]
