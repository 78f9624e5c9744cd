-- ===== src/Ioctl/Types.antt =====
-- The records of driver/src/ioctl.rs and its command numbers.
use tarako_module.Shared.{ℕ, ◌+◌, ◌/◌, Bool, List, ◌++◌, take, drop}
use tarako_module.Ffi.{Kernel}
use tarako_module.Vli.{Vli, zeroed}
use tarako_module.Ecc.{p256_bytes, p256_pubkey_bytes}

abbrev pub user_data_bytes : ℕ
user_data_bytes = 1024 / 8

abbrev pub fs_verity_max_digest_size : ℕ
fs_verity_max_digest_size = 64

pub record SignDataReq : Type 0 where
  pub user_data : List ℕ
  pub hash : List ℕ
  pub sig_r : List ℕ
  pub sig_s : List ℕ
  pub pubkey : List ℕ

-- `core::mem::size_of::<SignDataReq>()`: the fields are byte arrays, so there is no padding.
abbrev pub size_of_req : ℕ
size_of_req = user_data_bytes + p256_bytes + p256_bytes + p256_bytes + p256_pubkey_bytes

-- `sign_data_req_bytes`: the fields in order.
unfoldable pub sign_data_req_bytes : SignDataReq → List ℕ
sign_data_req_bytes req = req.user_data ++ (req.hash ++ (req.sig_r ++ (req.sig_s ++ req.pubkey)))

-- The request after its bytes were written through `sign_data_req_bytes_mut`.
unfoldable pub sign_data_req_of_bytes : List ℕ → SignDataReq
sign_data_req_of_bytes bytes =
    let after_data = drop user_data_bytes bytes in
    let after_hash = drop p256_bytes after_data in
    let after_r = drop p256_bytes after_hash in
    let after_s = drop p256_bytes after_r in
    record {
      user_data = take user_data_bytes bytes;
      hash = take p256_bytes after_data;
      sig_r = take p256_bytes after_hash;
      sig_s = take p256_bytes after_r;
      pubkey = take p256_pubkey_bytes after_s;
    }

pub record KeyPair : Type 0 where
  pub private : Vli
  pub pubkey : List ℕ
  pub curve_n : Vli
  pub ima_measured : Bool

-- What dropping a key pair leaves in its memory: its two scalars are dropped, and the public key
-- and the flag have no drop.
unfoldable pub drop_key_pair : KeyPair → KeyPair
unfolding zeroed
drop_key_pair kp = record kp { private = zeroed kp.private; curve_n = zeroed kp.curve_n }

-- 'S' as u32
abbrev pub ioctl_type : ℕ
ioctl_type = 0x53

module _ {W : Type 0} (K : Kernel W) where
  unfoldable pub tarako_hello : ℕ
  tarako_hello = K.io ioctl_type 0x00

  unfoldable pub tarako_get_pubkey : ℕ
  tarako_get_pubkey = K.ior p256_pubkey_bytes ioctl_type 0x01

  unfoldable pub tarako_sign_data : ℕ
  tarako_sign_data = K.iowr size_of_req ioctl_type 0x02
