-- ===== src/Ffi.antt =====
-- driver/src/ffi.rs and the parts of the `kernel` crate that the module calls: the interface of
-- what the repository does not implement, and the monad in which the module calls it.
mod Interface
mod Monad
pub mod Returns
pub mod Ledger
pub mod Errors
pub mod Keeps
pub use Interface.*
pub use Monad.*
