-- ===== src/Ioctl/Handlers/Account/Parts.antt =====
-- What the parts of the handlers that call the kernel take and give back.
use tarako_module.Shared.{
  ℕ, Bool, none, some, Option, inl, inr, ◌⊎◌, List, Error, ok, err, ok_or, eperm, ℤ, ◌==◌,
  if◌then◌else◌,
}
use tarako_module.Ffi.{
  Call, Kernel, M, pure, lift, log, ◌>>=◌, ◌>>◌, finally, copy_to_user, copy_from_user, rcu_lock,
  rcu_unlock, get_digest, kernel_call, kernel_read,
}
use tarako_module.Ffi.Keeps.{Keeps-bind, Keeps-finally, Keeps-lift, Keeps-if}
use tarako_module.Ioctl.Types.{SignDataReq, size_of_req, sign_data_req_of_bytes}
use tarako_module.Ioctl.Digest.{
  FsverityDigest, check_digest, read_digest, current_exe_fsverity_digest,
}
use tarako_module.Ioctl.Handlers.{read_sign_data_req, write_user}
use tarako_module.Ioctl.Handlers.Account.{Calm, settled, Even, log-Even, call-Even, read-Even}

module _ {W : Type 0} (K : Kernel W) (exact : Bool) (out back : Call → ℕ)
    (calm : Calm out back) where
  open calm use {copies_in, copies_out, locks, unlocks, digests}

  pub read_digest-Even : (mm : ℕ) → Even exact out back (read_digest K mm)
  unfolding read_digest
  read_digest-Even mm =
      Keeps-bind (settled exact out back) (kernel_read (K.exe_file mm)) with_exe
        (read-Even exact out back (K.exe_file mm))
        λ exe.
          Keeps-if (settled exact out back) (exe == 0) (lift (err eperm))
            (kernel_read (K.f_inode exe) >>= with_inode)
            (Keeps-lift (settled exact out back) (err eperm))
            (Keeps-bind (settled exact out back) (kernel_read (K.f_inode exe)) with_inode
              (read-Even exact out back (K.f_inode exe))
              λ inode.
                Keeps-if (settled exact out back) (inode == 0) (lift (err eperm)) (measured inode)
                  (Keeps-lift (settled exact out back) (err eperm))
                  (Keeps-bind (settled exact out back) (kernel_call (K.fsverity_get_digest inode))
                    (checked_digest inode) (call-Even exact out back (K.fsverity_get_digest inode))
                    λ r.
                      Keeps-bind (settled exact out back) (log (get_digest inode))
                        (λ _. lift (check_digest K r.0 r.1))
                        (log-Even exact out back (get_digest inode) (digests inode))
                        (λ _. Keeps-lift (settled exact out back) (check_digest K r.0 r.1))))
    where
      checked_digest : ℕ → ℤ × List ℕ → M W FsverityDigest
      checked_digest inode r = log (get_digest inode) >> lift (check_digest K r.0 r.1)

      measured : ℕ → M W FsverityDigest
      measured inode = kernel_call (K.fsverity_get_digest inode) >>= checked_digest inode

      with_inode : ℕ → M W FsverityDigest
      with_inode inode = if inode == 0 then lift (err eperm) else measured inode

      with_exe : ℕ → M W FsverityDigest
      with_exe exe =
          if exe == 0 then lift (err eperm) else (kernel_read (K.f_inode exe) >>= with_inode)

  pub digest-Even : Even exact out back (current_exe_fsverity_digest K)
  unfolding current_exe_fsverity_digest
  digest-Even =
      Keeps-bind (settled exact out back) (kernel_read K.current_mm)
        (λ mm. lift (ok_or mm eperm) >>= with_mm) (read-Even exact out back K.current_mm)
        λ mm.
          Keeps-bind (settled exact out back) (lift (ok_or mm eperm)) with_mm
            (Keeps-lift (settled exact out back) (ok_or mm eperm))
            λ p.
              Keeps-if (settled exact out back) (p == 0) (lift (err eperm)) (guarded p)
                (Keeps-lift (settled exact out back) (err eperm))
                (Keeps-bind (settled exact out back) (log rcu_lock)
                  (λ _. finally (read_digest K p) (log rcu_unlock))
                  (log-Even exact out back rcu_lock locks)
                  (λ _.
                    Keeps-finally (settled exact out back) (read_digest K p) (log rcu_unlock)
                      (read_digest-Even p) (log-Even exact out back rcu_unlock unlocks)))
    where
      guarded : ℕ → M W FsverityDigest
      guarded p = log rcu_lock >> finally (read_digest K p) (log rcu_unlock)

      with_mm : ℕ → M W FsverityDigest
      with_mm p = if p == 0 then lift (err eperm) else guarded p

  pub read_sign_data_req-Even : (arg size : ℕ) → Even exact out back (read_sign_data_req K arg size)
  unfolding read_sign_data_req
  read_sign_data_req-Even arg size =
      Keeps-bind (settled exact out back) (kernel_call (K.read_slice arg size size_of_req))
        (λ r. log (copy_from_user arg size_of_req) >> arm r)
        (call-Even exact out back (K.read_slice arg size size_of_req))
        λ r.
          Keeps-bind (settled exact out back) (log (copy_from_user arg size_of_req)) (λ _. arm r)
            (log-Even exact out back (copy_from_user arg size_of_req) (copies_in arg size_of_req))
            (λ _. go r)
    where
      arm : Error ⊎ List ℕ → M W SignDataReq
      arm r = elim r [ inl e ↦ lift (err e) | inr bytes ↦ pure (sign_data_req_of_bytes bytes) ]

      go : (r : Error ⊎ List ℕ) → Even exact out back (arm r)
      go (inl e) = Keeps-lift (settled exact out back) (err e)
      go (inr bytes) = Keeps-lift (settled exact out back) (ok (sign_data_req_of_bytes bytes))

  pub write_user-Even :
      (arg size : ℕ) (bytes : List ℕ) → Even exact out back (write_user K arg size bytes)
  unfolding write_user
  write_user-Even arg size bytes =
      Keeps-bind (settled exact out back) (kernel_call (K.write_slice arg size bytes))
        (λ r. log (copy_to_user arg bytes) >> arm r)
        (call-Even exact out back (K.write_slice arg size bytes))
        λ r.
          Keeps-bind (settled exact out back) (log (copy_to_user arg bytes)) (λ _. arm r)
            (log-Even exact out back (copy_to_user arg bytes) (copies_out arg bytes)) (λ _. go r)
    where
      arm : Option Error → M W (Unit {0})
      arm r = elim r [ some e ↦ lift (err e) | none ↦ pure tt ]

      go : (r : Option Error) → Even exact out back (arm r)
      go (some e) = Keeps-lift (settled exact out back) (err e)
      go none = Keeps-lift (settled exact out back) (ok tt)
