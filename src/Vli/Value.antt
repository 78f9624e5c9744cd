-- ===== src/Vli/Value.antt =====
-- The number that a limb array stands for.
use tarako_module.Shared.{ℕ, ◌+◌, ◌*◌, ◌^◌, ◌≡◌, [], ◌∷◌, length, All}
use tarako_module.Bytes.{IsLimb}
use tarako_module.Vli.{Vli}

unfoldable pub value : Vli → ℕ
value [] = 0
value (l ∷ ls) = l + 2 ^ 64 * value ls

-- `n` limbs below 2 ^ 64.
abbrev pub IsVli : ℕ → Vli → Type 0
IsVli n v = (length v ≡ n) × All IsLimb v
