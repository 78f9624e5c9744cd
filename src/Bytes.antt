-- ===== src/Bytes.antt =====
-- The byte conversions of Rust's `u64` and the two readings of a byte array as a number. The
-- target is little-endian (driver/src/ioctl.rs refuses to compile otherwise), so the bytes of a
-- limb in memory are its little-endian bytes.
pub mod Laws
use tarako_module.Shared.{ℕ, zero, suc, ◌+◌, ◌*◌, ◌/◌, ◌%◌, ◌^◌, ◌<◌, List, [], ◌∷◌, ◌++◌, reverse}

abbrev pub u64_mod : ℕ
u64_mod = 2 ^ 64

abbrev pub IsByte : ℕ → Type 0
IsByte b = b < 256

abbrev pub IsLimb : ℕ → Type 0
IsLimb l = l < 2 ^ 64

-- The `k` low bytes of a number, lowest first.
unfoldable pub le_bytes : ℕ → ℕ → List ℕ
le_bytes zero x = []
le_bytes (suc k) x = (x % 256) ∷ le_bytes k (x / 256)

unfoldable pub le_value : List ℕ → ℕ
le_value [] = 0
le_value (b ∷ bs) = b + 256 * le_value bs

unfoldable pub be_value_from : ℕ → List ℕ → ℕ
be_value_from acc [] = acc
be_value_from acc (b ∷ bs) = be_value_from (acc * 256 + b) bs

-- The number that a byte array stands for on the wire, highest byte first.
unfoldable pub be_value : List ℕ → ℕ
unfolding be_value_from
be_value bs = be_value_from 0 bs

-- `u64::to_be_bytes`
unfoldable pub to_be_bytes : ℕ → List ℕ
unfolding le_bytes
to_be_bytes x = reverse (le_bytes 8 x)

-- `u64::from_be` on a little-endian target: the limb with its bytes in reverse.
unfoldable pub from_be : ℕ → ℕ
unfolding le_bytes le_value
from_be x = le_value (reverse (le_bytes 8 x))

-- The bytes in memory of an array of limbs.
unfoldable pub bytes_of : List ℕ → List ℕ
unfolding le_bytes
bytes_of [] = []
bytes_of (l ∷ ls) = le_bytes 8 l ++ bytes_of ls
