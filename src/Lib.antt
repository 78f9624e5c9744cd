-- ===== src/Lib.antt =====
-- The kernel module `tarako` (driver/src/*.rs): it makes an ECDSA P-256 key pair when it is loaded,
-- has IMA measure the public key, and signs the fs-verity digest of the calling executable with 128
-- bytes of user data.
--
-- The parts, each with the file that models it and the source that it translates:
--
--   Ffi           driver/src/ffi.rs: the functions of the kernel as one record, `Kernel`, over the
--                 state of the rest of the kernel, which every definition takes as a parameter;
--                 the monad of a call, with the early return of `?` and the drops at the end of a
--                 scope; its rules (Ffi/Returns for postconditions, Ffi/Errors for the errors of a call,
--                 Ffi/Ledger for what a call owns,
--                 Ffi/Keeps for a relation that holds over a call however it ends)
--   Bytes         the byte conversions of `u64`
--   Vli           driver/src/vli.rs: `Vli<N>` as its list of limbs; Vli/Value has the number that
--                 it stands for
--   Ecc           driver/src/ecc.rs: the wrappers of the ECC, SHA-256 and IMA helpers
--   SetOnce       driver/src/set_once.rs: the cell, each call on its own; SetOnce/Threads has the
--                 same calls cut at their accesses to the cell, for any number of threads, and
--                 SetOnce/Weak the accesses of `as_ref` and `populate` under weak memory
--   Ioctl         driver/src/ioctl.rs: Ioctl/Types for its records, Ioctl/Sign for `ecdsa_sign` and
--                 `KeyPair::sign`, Ioctl/Keys for `generate_key_pair`, Ioctl/Digest for
--                 `current_exe_fsverity_digest`, Ioctl/Handlers for the two handlers
--   Device        driver/src/lib.rs: `TarakoModule::init`, unloading, and open, release and ioctl
--                 of `TarakoDevice`; Device/Dispatch has the encoding of ioctl numbers as a contract,
--                 and Device/System the life of the module, with the loader and any number of user
--                 threads as the steps of a relation
--   Contract      what the module relies on in the kernel's helpers, as records of laws
--   Ecdsa         what a signature is, over an abstract group
--   Shared        lists, integers, results and slices over the native numbers
--   Tests         a concrete kernel that meets every contract, runs of the module on it, and the
--                 theorems at concrete inputs
--
-- How they interact: `Device` loads a key pair made by Ioctl/Keys into the cell of `SetOnce`; its
-- ioctl hands a command to a handler, which reads the cell, the digest of its caller and the request,
-- and signs with Ioctl/Sign. The wrappers of the ECC helpers, `Vli` and `Ecc`, stand below both. The
-- calls that take or give back something or that others can see are logged in their order, in
-- `State.calls`, so that theorems can say what was freed, wiped, locked, measured or written to user
-- space; every drop of a `Vli` is in it as `wipe`, also where `clear` drops the key pair in the cell.
-- Not logged are the arithmetic helpers, SHA-256 and the lookup of the curve, which change nothing, the
-- reads of the current task and of its file, and an allocation or a registration that failed.
--
-- Function and field names are those of the source. A long function is cut where its locals are
-- taken: `attempt` and `finish` are one round of the loop of `ecdsa_sign`, `fill_point` the end of
-- `make_public_key`, `with_private`, `read_point` and `assemble` the scopes of `generate_key_pair`,
-- `check_digest` and `read_digest` those of `current_exe_fsverity_digest`, `sign_request` and
-- `answer` those of `handle_sign_data`, `ready`, `publish` and `conclude` the stages of `init`, and
-- `drop_key_cleanup` with `drop_stored` the drop of `KeyCleanup`. `unswap` reads an index out of range
-- as 0 and does not write there, which does not arise for the `N` limbs of a `Vli<N>`. A Rust
-- panic is the outcome `panic`, and so is a read of uninitialised storage.
--
-- Bounds: the loop of `ecdsa_sign` is recursion on the 100 rounds of the source, all other loops are
-- recursion on their lists or on the number of limbs; no definition has fuel of its own. Limbs are
-- numbers with their wrap-around modulo 2 ^ 64 written out.
--
-- Not modelled: the helpers of the kernel themselves, and the raw pointers of the FFI (a pointer is an
-- address, and a buffer the list of its limbs). Device/System has one order for the accesses of all
-- threads; SetOnce/Weak, which does not, leaves out `clear`, whose caller excludes all other threads.
-- Device/System relies on two rules of the kernel, that a file stays open while an ioctl on it runs,
-- and that a module is unloaded only while none of its files is open.
pub mod Shared
pub mod Bytes
pub mod Ffi
pub mod Vli
pub mod Ecc
pub mod Contract
pub mod Ecdsa
pub mod SetOnce
pub mod Ioctl
pub mod Device
mod Tests
