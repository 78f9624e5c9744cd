-- ===== src/Device/System/Loading.antt =====
-- `init` on its own is a run of the loader's moves.
use mathlib.Core.Path.{subst}
use tarako_module.Shared.{◌≡◌, refl, sym, true, false, Outcome, ok, err, panic}
use tarako_module.Ffi.{Kernel, State}
use tarako_module.Ffi.Returns.{Returns}
use tarako_module.Ffi.Ledger.{Settles}
use tarako_module.Ecc.Account.{allocated, freed, point_accounts}
use tarako_module.SetOnce.{new, populate, cmpxchg, write_value, store_init}
use tarako_module.SetOnce.Threads.{moved, initial, idle, writing, publishing}
use tarako_module.Ioctl.Types.{KeyPair}
use tarako_module.Ioctl.Keys.{generate_key_pair}
use tarako_module.Ioctl.Keys.Account.{generate_key_pair-Owns}
use tarako_module.Device
use tarako_module.Device.{Module, ready, conclude, module_init, module_drop}
use tarako_module.Ffi.Errors.{ErrsBy}
use tarako_module.Device.NotLoaded.{NotLoaded, ready-Fails}
use tarako_module.Device.Lifecycle.{ready_lem}
use tarako_module.Device.System.{
  generated, registered, storing, live, Site, IsMade, Move, Reached, moves, before_load, generate,
  register, win, write, publish,
}

module _ {W : Type 0} (K : Kernel W) where
  -- Any number of moves.
  pub data Goes : Site → Site → Type 0 where
    stay : (s : Site) → Goes s s
    go : (s t u : Site) → Move K s t → Goes t u → Goes s u

  -- What a reached state goes to is reached.
  pub Goes-Reached : (s t : Site) → Reached K s → Goes s t → Reached K t
  Goes-Reached s _ r (stay _) = r
  Goes-Reached s _ r (go _ t u m rest) = Goes-Reached t u (moves s t r m) rest

  generate_key_pair-IsMade : (s : State W) → Returns (λ kp _. IsMade K kp) (generate_key_pair K s)
  unfolding point_accounts
  generate_key_pair-IsMade s = cases (generate_key_pair K s) refl (
      generate_key_pair-Owns K true (allocated (λ _. 0)) (freed (λ _. 0))
        (point_accounts K (λ _. 0)) s)
    where
      cases :
          (x : Outcome KeyPair × State W)
          → generate_key_pair K s ≡ x
          → Settles true (allocated (λ _. 0)) (freed (λ _. 0)) s 0 (λ _. 0) 0 x
          → Returns (λ kp _. IsMade K kp) x
      cases (ok kp, t) e h = (s, t, e)
      cases (err e', t) e h = tt
      cases (panic, t) e h = h

  -- From the generated key pair to the loaded module, by the loader alone.
  loads :
      (kp : KeyPair)
      → IsMade K kp
      → (t : Site) × Goes (before_load K) t × (t.phase ≡ live) × (t.cell.cell ≡ (populate kp new).0)
  unfolding initial new populate cmpxchg write_value store_init
  loads kp made = (
    s5,
    go (before_load K) s1 s5 (generate kp refl made) (
        go s1 s2 s5 (register kp refl) (
          go s2 s3 s5 (win kp refl refl)
            (go s3 s4 s5 (write kp refl refl) (go s4 s5 s5 (publish refl refl) (stay s5))))),
    refl,
    refl,
  )
    where
      s1 : Site
      s1 = record { cell = initial; phase = generated kp; files = λ _. false }

      s2 : Site
      s2 = record s1 { phase = registered kp }

      s3 : Site
      s3 = record s2 {
        cell = moved initial (cmpxchg 0 1 initial.cell).0 0 (writing kp);
        phase = storing;
      }

      s4 : Site
      s4 = record s3 { cell = moved s3.cell (write_value kp s3.cell.cell) 0 publishing }

      s5 : Site
      s5 = record s4 { cell = moved s4.cell (store_init 2 s4.cell.cell) 0 idle; phase = live }

  -- What loading is in the life of the module.
  abbrev pub IsLoad : Outcome (Unit {0}) × Module W → Type 0
  IsLoad (ok _, m) =
      (t : Site) × Goes (before_load K) t × (t.phase ≡ live) × (t.cell.cell ≡ m.key_pair)
  IsLoad (err e, m) = (m.key_pair ≡ new) × NotLoaded K e
  IsLoad (panic, m) = ⊥

  publish-IsLoad :
      (kp : KeyPair) (m : Module W)
      → m.key_pair ≡ new
      → IsMade K kp
      → IsLoad (Device.publish K kp m)
  unfolding Device.publish new populate cmpxchg
  publish-IsLoad kp m e made =
      subst (λ c. IsLoad (Device.publish K kp (record m { key_pair = c }))) (sym e) (loads kp made)

  -- Loading the module as one call, from a new image, is a run of the loader's moves where it
  -- succeeds: it ends loaded, with the cell that the call gives. Where it fails, the cell is still
  -- as it was, and there is a reason: a helper of the kernel failed, with its error, or the kernel
  -- does not know the curve, with EINVAL, or the device could not be registered, with the error of
  -- that. It never panics, and never fails for what IMA answers or with EBUSY from `populate`.
  pub module_init-IsLoad : (m : Module W) → m.key_pair ≡ new → IsLoad (module_init K m)
  unfolding module_init conclude
  module_init-IsLoad m e =
      cases (ready K m.kernel) (ready_lem K (IsMade K) generate_key_pair-IsMade m.kernel)
        ((ready-Fails K).errs m.kernel)
    where
      cases :
          (x : Outcome KeyPair × State W)
          → Returns (λ kp _. IsMade K kp) x
          → ErrsBy (NotLoaded K) x
          → IsLoad (conclude K x.0 (record m { kernel = x.1 }))
      cases (ok kp, s) made h = publish-IsLoad kp (record m { kernel = s }) e made
      cases (err x, s) made h = (e, h)
      cases (panic, s) made h = made
