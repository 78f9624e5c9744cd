-- ===== src/Ioctl.antt =====
-- driver/src/ioctl.rs: the request and the key pair, ECDSA signing, key generation, the fs-verity
-- digest of the caller, and the two handlers.
pub mod Types
pub mod Sign
pub mod Keys
pub mod Digest
pub mod Handlers
