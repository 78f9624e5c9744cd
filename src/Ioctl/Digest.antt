-- ===== src/Ioctl/Digest.antt =====
-- `current_exe_fsverity_digest`.
pub mod Caller
pub mod Guard
pub mod Refused
use tarako_module.Shared.{
  ℕ, ltb, ◌==◌, if◌then◌else◌, List, length, ℤ, is_negative, as_usize, Outcome, err, eperm, enoent,
  eoverflow, ok_or, slice_to,
}
use tarako_module.Ffi.{
  Kernel, M, pure, lift, ◌>>=◌, ◌>>◌, log, kernel_call, kernel_read, finally, rcu_lock, rcu_unlock,
  get_digest,
}

pub record FsverityDigest : Type 0 where
  pub size : ℕ
  pub buffer : List ℕ

-- `FsverityDigest::digest`
unfoldable pub digest : FsverityDigest → Outcome (List ℕ)
digest d = slice_to d.size d.buffer

module _ {W : Type 0} (K : Kernel W) where
  -- The checks of what `fsverity_get_digest` returned.
  unfoldable pub check_digest : ℤ → List ℕ → Outcome FsverityDigest
  check_digest ret buffer =
      if is_negative ret
      then err (K.from_errno ret)
      else if as_usize ret == 0
      then err enoent
      else if ltb (length buffer) (as_usize ret)
      then err eoverflow
      else Outcome.ok (record { size = as_usize ret; buffer = buffer })

  -- The part under the RCU read guard.
  unfoldable pub read_digest : ℕ → M W FsverityDigest
  unfolding check_digest
  read_digest mm_ptr = do
    exe_file ← kernel_read (K.exe_file mm_ptr)
    if exe_file == 0 then lift (err eperm) else do
      inode ← kernel_read (K.f_inode exe_file)
      if inode == 0 then lift (err eperm) else do
        (ret, buffer) ← kernel_call (K.fsverity_get_digest inode)
        log (get_digest inode)
        lift (check_digest ret buffer)

  unfoldable pub current_exe_fsverity_digest : M W FsverityDigest
  unfolding read_digest
  current_exe_fsverity_digest = do
    mm ← kernel_read K.current_mm
    mm_ptr ← lift (ok_or mm eperm)
    if mm_ptr == 0
        then lift (err eperm)
        else do log rcu_lock; finally (read_digest mm_ptr) (log rcu_unlock)
