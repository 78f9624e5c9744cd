-- ===== src/Ioctl/Digest/Caller.antt =====
-- The digest is that of the caller's executable, and is read under the RCU guard.
use tarako_module.Shared.{
  ℕ, ◌≤◌, ◌<◌, ◌≡◌, ◌≢◌, ap, some, inl, inr, List, ◌∷◌, length, take, ltb, arith, Bool-cases,
  Option-cases, ok, ◌==◌, ℤ, pos, negsuc, slice_to, NoPanic,
}
use tarako_module.Ffi.{Kernel, State, log, rcu_lock, rcu_unlock}
use tarako_module.Ffi.Returns.{Returns, Returns-finally, Returns-outcome}
use tarako_module.Contract.{DigestContract}
use tarako_module.Ioctl.Digest.{
  FsverityDigest, digest, check_digest, read_digest, current_exe_fsverity_digest,
}

-- The bytes are the fs-verity digest of the file that the current task executes, in the world `w`.
pub record IsCallerDigest {W : Type 0} (K : Kernel W) (w : W) (bytes : List ℕ) : Type 0 where
  pub mm : ℕ
  pub has_mm : K.current_mm w ≡ some mm
  pub mm_set : mm ≢ 0
  pub exe_set : K.exe_file mm w ≢ 0
  pub inode_set : K.f_inode (K.exe_file mm w) w ≢ 0
  pub size : ℕ
  pub size_pos : 0 < size
  pub size_le : size ≤ 64
  pub returned : (K.fsverity_get_digest (K.f_inode (K.exe_file mm w) w) w).0.0 ≡ pos size
  pub bytes_eq : bytes ≡ take size (K.fsverity_get_digest (K.f_inode (K.exe_file mm w) w) w).0.1

module _ {W : Type 0} (K : Kernel W) where
  pub check_digest-NoPanic : (ret : ℤ) (buffer : List ℕ) → NoPanic (check_digest K ret buffer)
  unfolding check_digest
  check_digest-NoPanic (negsuc m) buffer = tt
  check_digest-NoPanic (pos size) buffer = elim (Bool-cases (size == 0)) [
    | inl e ↦ rw e tt
    | inr e ↦ elim (Bool-cases (ltb (length buffer) size)) [
      | inl f ↦ rw (e, f) tt
      | inr f ↦ rw (e, f) tt
    ]
  ]

module _ {W : Type 0} (K : Kernel W) (D : DigestContract K) where
  check_digest_lem :
      (ret : ℤ) (buffer : List ℕ) (d : FsverityDigest)
      → check_digest K ret buffer ≡ ok d
      → (ret ≡ pos d.size) × (0 < d.size) × (d.size ≤ length buffer) × (d.buffer ≡ buffer)
  unfolding check_digest
  check_digest_lem (pos size) buffer d h = ground arith
  check_digest_lem (negsuc m) buffer d h = cc

  -- A digest in the state of the call.
  abbrev pub IsDigestAt : W → FsverityDigest → Type 0
  IsDigestAt w d =
      IsCallerDigest K w (take d.size d.buffer)
      × (d.size ≤ length d.buffer)
      × (length d.buffer ≡ 64)

  read_digest_lem :
      (mm : ℕ) (s : State W)
      → K.current_mm s.world ≡ some mm
      → mm ≢ 0
      → Returns (λ d _. IsDigestAt s.world d) (read_digest K mm s)
  unfolding read_digest
  read_digest_lem mm s has_mm mm_set = elim (Bool-cases (exe == 0)) [
    | inl e ↦ rw e tt
    | inr e ↦ rw e (elim (Bool-cases (K.f_inode exe s.world == 0)) [
      | inl f ↦ rw f tt
      | inr f ↦ rw f (
          Returns-outcome _ (check_digest K found.0 found.1) _
            (check_digest-NoPanic K found.0 found.1)
            (λ d h.
              is_digest d (ground arith) (ground arith) (check_digest_lem found.0 found.1 d h)))
    ])
  ]
    where
      exe : ℕ
      exe = K.exe_file mm s.world

      found : ℤ × List ℕ
      found = (K.fsverity_get_digest (K.f_inode exe s.world) s.world).0

      is_digest :
          (d : FsverityDigest)
          → exe ≢ 0
          → K.f_inode exe s.world ≢ 0
          → (found.0 ≡ pos d.size) × (0 < d.size) × (d.size ≤ length found.1) × (d.buffer ≡ found.1)
          → IsDigestAt s.world d
      is_digest d exe_set inode_set h =
          let n = D.buffer_law (K.f_inode exe s.world) s.world in
          (
            record {
              mm = mm;
              has_mm = has_mm;
              mm_set = mm_set;
              exe_set = exe_set;
              inode_set = inode_set;
              size = d.size;
              size_pos = h.1;
              size_le = omega (arith, h.2, n);
              returned = h.0;
              bytes_eq = ap (take d.size) h.3;
            },
            rw h.3 h.2,
            rw h.3 n,
          )

  -- A digest that `current_exe_fsverity_digest` returns is, in the state of the call, what the helper
  -- gave for the inode of the current task's executable, none of mm, file and inode null, with a
  -- size from 1 to 64 that the buffer has; it does not panic. The helper writes into 64 bytes.
  pub current_exe_fsverity_digest_lem :
      (s : State W) → Returns (λ d _. IsDigestAt s.world d) (current_exe_fsverity_digest K s)
  unfolding current_exe_fsverity_digest
  current_exe_fsverity_digest_lem s = elim (Option-cases (K.current_mm s.world)) [
    | inl e ↦ rw e tt
    | inr (mm, e) ↦ rw e (elim (Bool-cases (mm == 0)) [
      | inl f ↦ rw f tt
      | inr f ↦ rw f (
          Returns-finally (λ d. IsDigestAt s.world d) (read_digest K mm) (log rcu_unlock)
            (record s { calls = rcu_lock ∷ s.calls })
            (read_digest_lem mm (record s { calls = rcu_lock ∷ s.calls }) e (ground arith)))
    ])
  ]

  pub digest_lem :
      (w : W) (d : FsverityDigest) → IsDigestAt w d → digest d ≡ ok (take d.size d.buffer)
  unfolding digest slice_to
  digest_lem w d h = ground arith
