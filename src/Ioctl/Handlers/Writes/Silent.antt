-- ===== src/Ioctl/Handlers/Writes/Silent.antt =====
-- The parts of `handle_sign_data` that copy nothing to user space.
use tarako_module.Shared.{
  ℕ, Error, ◌≡◌, refl, ◌⊎◌, inl, inr, true, List, ◌∷◌, err, [], arith, Bool-cases, Option-cases,
  ◌==◌,
}
use tarako_module.Ffi.{
  Call, Kernel, State, M, pure, lift, log, finally, copy_from_user, rcu_lock, rcu_unlock,
}
use tarako_module.Ffi.Ledger.{total}
use tarako_module.Ffi.Ledger.Balanced.{Balanced-total}
use tarako_module.Ecc.Account.Even.{Even, even_accounts}
use tarako_module.Ioctl.Types.{KeyPair, SignDataReq, size_of_req, sign_data_req_of_bytes}
use tarako_module.Ioctl.Sign.{sign}
use tarako_module.Ioctl.Sign.Account.{ecdsa_sign-Balanced}
use tarako_module.Ioctl.Digest.{read_digest, current_exe_fsverity_digest}
use tarako_module.Ioctl.Handlers.{read_sign_data_req}
use tarako_module.Ioctl.Handlers.Writes.{
  copied, none_back, writes, Quiet, Quiet-bind, Quiet-log, Quiet-finally,
}

module _ {W : Type 0} (K : Kernel W) where
  pub read_digest-Quiet : (mm : ℕ) (s : State W) → Quiet s (read_digest K mm s)
  unfolding read_digest writes total
  read_digest-Quiet mm s =
      let exe = K.exe_file mm s.world in
      elim (Bool-cases (exe == 0)) [
        | inl e ↦ rw e refl
        | inr e ↦ elim (Bool-cases (K.f_inode exe s.world == 0)) [
          | inl f ↦ rw (e, f) refl
          | inr f ↦ rw (e, f) (omega arith)
        ]
      ]

  pub digest-Quiet : (s : State W) → Quiet s (current_exe_fsverity_digest K s)
  unfolding current_exe_fsverity_digest
  digest-Quiet s = elim (Option-cases (K.current_mm s.world)) [
    | inl e ↦ rw e refl
    | inr (mm, e) ↦ elim (Bool-cases (mm == 0)) [
      | inl f ↦ rw (e, f) refl
      | inr f ↦
          rw (e, f)
            (Quiet-bind K (log rcu_lock) (λ _. finally (read_digest K mm) (log rcu_unlock)) s
              (Quiet-log K rcu_lock s refl)
              (λ _ t.
                Quiet-finally K (read_digest K mm) rcu_unlock t (read_digest-Quiet mm t) refl))
    ]
  ]

  pub read_sign_data_req-Quiet :
      (arg size : ℕ) (s : State W) → Quiet s (read_sign_data_req K arg size s)
  unfolding read_sign_data_req writes total
  read_sign_data_req-Quiet arg size s =
      go (K.read_slice arg size size_of_req s.world).0
        (record {
          world = (K.read_slice arg size size_of_req s.world).1;
          buffers = s.buffers;
          calls = copy_from_user arg size_of_req ∷ s.calls;
        })
        (omega arith)
    where
      arm : Error ⊎ List ℕ → M W SignDataReq
      arm r = elim r [ inl e ↦ lift (err e) | inr bytes ↦ pure (sign_data_req_of_bytes bytes) ]

      go : (r : Error ⊎ List ℕ) (t : State W) → writes t ≡ writes s → Quiet s (arm r t)
      go (inl e) t h = h
      go (inr bytes) t h = h

  pub none_back-total : (cs : List Call) → total none_back cs ≡ 0
  unfolding total
  none_back-total [] = refl
  none_back-total (c ∷ cs) = omega (arith, none_back-total cs)

  pub Even-copies : Even copied none_back
  Even-copies = record {
    allocs = λ a. refl;
    frees = λ a. refl;
    keys = λ k. refl;
    pubs = λ k. refl;
    wipes = λ v. refl;
    imas = λ l n bytes hash. refl;
    prints = λ m. refl;
  }

  pub sign-Quiet : (kp : KeyPair) (bytes : List ℕ) (s : State W) → Quiet s (sign K kp bytes s)
  unfolding sign writes
  sign-Quiet kp bytes s =
      let account = Balanced-total true copied none_back (sign K kp bytes) s (
        ecdsa_sign-Balanced K true copied none_back (even_accounts K copied none_back Even-copies)
          bytes kp.private kp.curve_n) in
      omega (arith, account, none_back-total s.calls, none_back-total (sign K kp bytes s).1.calls)
