-- ===== src/Ioctl/Keys/Account.antt =====
-- What `generate_key_pair` takes and gives back.
use mathlib.Core.Path.{subst, fun_ext}
use native.Mathlib.Nat.{add_comm, zero-add}
use tarako_module.Shared.{
  ℕ, ◌+◌, ◌≤◌, ◌≡◌, sym, Bool, true, false, List, ok, err, panic, inl, inr, arith, Bool-cases,
  Option-cases, is_negative, Outcome, length,
}
use tarako_module.Ffi.{
  Call, Kernel, Point, State, Message, print, log, key_measured, key_unmeasured, ◌>>◌, pure,
  finally, on_error,
}
use tarako_module.Ffi.Ledger.{
  total, Rel-refl, Owns, Owns-bind, Owns-finally, Owns-on_error, Owns-frame, Settles, Owns-log,
  Owns-pure, Owns-match_result,
}
use tarako_module.Bytes.{bytes_of}
use tarako_module.Vli.{Vli, drop_vli}
use tarako_module.Ecc.{
  x_as_bytes, y_as_bytes, drop_point, get_curve_n, generate_private_key, make_public_key,
  ima_measure_pubkey,
}
use tarako_module.Ecc.Account.{
  allocated, freed, drawn, wiped, Accounts, point_accounts, key_accounts,
}
use tarako_module.Ioctl.Types.{KeyPair}
use tarako_module.Ioctl.Keys.{
  compress, measured, assemble, read_point, with_private, generate_key_pair,
}

module _ {W : Type 0} (K : Kernel W) (exact : Bool) (out back : Call → ℕ)
    (acc : Accounts K exact out back) where
  open acc use {key_weight, point_weight, generate, make, free, wipe_key, measure, printed}

  abbrev pub kept : KeyPair → ℕ
  kept kp = key_weight kp.private

  ima_measure_pubkey-Owns :
      (pubkey : List ℕ) (c : ℕ) → Owns exact out back c (λ _. c) c (ima_measure_pubkey K pubkey)
  unfolding ima_measure_pubkey total
  ima_measure_pubkey-Owns pubkey c s =
      let even = measure "tarako_pubkey" "public-key-generate" pubkey false in
      elim (Bool-cases (
        is_negative
          (K.ima_measure_critical_data "tarako_pubkey" "public-key-generate" pubkey (length pubkey)
            false s.world).0)) [
              | inl e ↦ rw e (Rel-refl exact _ _ (omega (arith, even)))
              | inr e ↦ rw e (Rel-refl exact _ _ (omega (arith, even)))
            ]

  measured-Owns : (pubkey : List ℕ) (c : ℕ) → Owns exact out back c (λ _. c) c (measured K pubkey)
  unfolding measured
  measured-Owns pubkey c =
      Owns-match_result exact out back (λ _. c) c c (λ _. c) c (ima_measure_pubkey K pubkey)
        (λ _. log (print (key_measured pubkey)) >> pure true)
        (λ error. log (print (key_unmeasured error)) >> pure false)
        (ima_measure_pubkey-Owns pubkey c) (λ _. said (key_measured pubkey) true)
        (λ error. said (key_unmeasured error) false)
    where
      said :
          (m : Message) (b : Bool)
          → Owns exact out back c (λ _. c) c (log {W = W} (print m) >> pure b)
      said m b =
          Owns-bind exact out back (λ _. c) c (λ _. c) c (log (print m)) (λ _. pure b)
            (Owns-log exact out back (print m) c (printed m))
            (λ _. Owns-pure exact out back b (λ _. c) c)

  assemble-Owns :
      (private : Vli) (pubkey : List ℕ)
      → Owns exact out back
          (key_weight private)
          kept
          (key_weight private)
          (assemble K private pubkey)
  unfolding assemble
  assemble-Owns private pubkey s = elim (Option-cases (get_curve_n K)) [
    | inl e ↦ rw e (Rel-refl exact _ _ (omega arith))
    | inr (n, e) ↦ rw e (
        Owns-bind exact out back (λ _. key_weight private) (key_weight private) kept
          (key_weight private) (measured K pubkey)
          (λ b. pure (record { private = private; pubkey = pubkey; curve_n = n; ima_measured = b }))
          (measured-Owns pubkey (key_weight private))
          (λ b t.
            Rel-refl exact (total out t.calls + total back t.calls + key_weight private)
              (total back t.calls + total out t.calls + key_weight private) (omega arith))
          s)
  ]

  read_point-Owns :
      (private : Vli) (p : Point)
      → Owns exact out back
          (key_weight private + point_weight p)
          (λ kp. kept kp + point_weight p)
          (key_weight private + point_weight p)
          (read_point K private p)
  unfolding read_point x_as_bytes y_as_bytes
  read_point-Owns private p s =
      let pubkey = compress (bytes_of (s.buffers p.x)) (bytes_of (s.buffers p.y)) in
      Owns-frame exact out back (point_weight p) (key_weight private) kept (key_weight private)
        (assemble K private pubkey) (assemble-Owns private pubkey) s

  with_private-Owns :
      (private : Vli)
      → Owns exact out back (key_weight private) kept (key_weight private) (with_private K private)
  unfolding with_private
  with_private-Owns private =
      let c = key_weight private in
      Owns-bind exact out back (λ p. c + point_weight p) c kept c (make_public_key K private)
        (λ p. finally (read_point K private p) (drop_point K p)) (made c)
        λ p.
          Owns-finally exact out back (point_weight p) (c + point_weight p) kept c
            (read_point K private p) (drop_point K p) (read_point-Owns private p) (free p)
    where
      made : (c : ℕ) → Owns exact out back c (λ p. c + point_weight p) c (make_public_key K private)
      made c =
          subst (λ q. Owns exact out back c q c (make_public_key K private))
            (fun_ext (λ p. add_comm (point_weight p) c))
            (subst
              (λ x. Owns exact out back x (λ p. point_weight p + c) x (make_public_key K private))
              (zero-add c)
              (Owns-frame exact out back c 0 point_weight 0 (make_public_key K private)
                (make private)))

  pub generate_key_pair-Owns : Owns exact out back 0 kept 0 (generate_key_pair K)
  unfolding generate_key_pair
  generate_key_pair-Owns =
      Owns-bind exact out back key_weight 0 kept 0 (generate_private_key K)
        (λ k. on_error (with_private K k) (drop_vli k)) generate
        λ k.
          Owns-on_error exact out back (key_weight k) (key_weight k) kept 0 (with_private K k)
            (drop_vli k)
            (subst (λ c. Owns exact out back (key_weight k) kept c (with_private K k))
              (sym (zero-add (key_weight k))) (with_private-Owns k))
            (wipe_key k)

-- The weight of the private key that a call returns.
abbrev pub returned : (Vli → ℕ) → Outcome KeyPair → ℕ
returned w (ok kp) = w kp.private
returned w (err e) = 0
returned w panic = 0

module _ {W : Type 0} (K : Kernel W) (s : State W) where
  -- Making the key pair frees every point that it allocates, exactly once, whatever its outcome:
  -- for any weight of the addresses, the weight of the points freed is that of the points allocated.
  pub generate_key_pair-frees :
      (w : ℕ → ℕ)
      → let t = (generate_key_pair K s).1 in
        total (allocated w) t.calls + total (freed w) s.calls
        ≡ total (freed w) t.calls + total (allocated w) s.calls
  unfolding point_accounts
  generate_key_pair-frees w =
      go (generate_key_pair K s)
        (generate_key_pair-Owns K true (allocated w) (freed w) (point_accounts K w) s)
    where
      go :
          (x : Outcome KeyPair × State W)
          → Settles true (allocated w) (freed w) s 0 (λ _. 0) 0 x
          → total (allocated w) x.1.calls + total (freed w) s.calls
            ≡ total (freed w) x.1.calls + total (allocated w) s.calls
      go (ok kp, t) p = omega (arith, p)
      go (err e, t) p = omega (arith, p)
      go (panic, t) p = absurd p

  -- Making the key pair wipes every key that the kernel drew, other than the private key that it
  -- returns: for any weight of the limbs, the weight of the scalars wiped, and of the private key
  -- that a success returns, is at least that of the keys drawn. After an error none is left.
  pub generate_key_pair-wipes :
      (w : List ℕ → ℕ)
      → let (r, t) = generate_key_pair K s in
        total (drawn w) t.calls + total (wiped w) s.calls
        ≤ total (wiped w) t.calls + total (drawn w) s.calls + returned w r
  unfolding key_accounts
  generate_key_pair-wipes w =
      go (generate_key_pair K s)
        (generate_key_pair-Owns K false (drawn w) (wiped w) (key_accounts K w) s)
    where
      go :
          (x : Outcome KeyPair × State W)
          → Settles false (drawn w) (wiped w) s 0 (λ kp. w kp.private) 0 x
          → total (drawn w) x.1.calls + total (wiped w) s.calls
            ≤ total (wiped w) x.1.calls + total (drawn w) s.calls + returned w x.0
      go (ok kp, t) p = omega (arith, p)
      go (err e, t) p = omega (arith, p)
      go (panic, t) p = absurd p
