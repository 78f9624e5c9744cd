-- ===== src/Shared/Modular.antt =====
-- Congruence of native numbers: sums and products may be reduced anywhere.
use Prim.Native.Nat.{ℕ, ◌*◌, ◌/◌, ◌%◌}
use mathlib.Core.Path.{◌≡◌, sym, ap, ◌∙◌}
use native.Mathlib.Nat.{mod-add-mod, add-mod-mod, mul_comm, div-add-mod, add-mul-mod_self_left}
use native.Mathlib.Omega.{arith}

pub mod-mul-mod : (a b n : ℕ) → (a % n) * b % n ≡ a * b % n
mod-mul-mod a b n = sym (
    ap (λ (t : ℕ). t * b % n) (sym (div-add-mod a n))
    ∙ ap (λ (t : ℕ). t % n) (omega arith)
    ∙ add-mul-mod_self_left ((a % n) * b) n (a / n * b))

pub mul-mod-mod : (a b n : ℕ) → a * (b % n) % n ≡ a * b % n
mul-mod-mod a b n = rw (mul_comm a (b % n), mul_comm a b) (mod-mul-mod b a n)

-- The rules by which a reduction inside a sum or a product is dropped.
pub ruleset reductions = (mod-mul-mod, mul-mod-mod, mod-add-mod, add-mod-mod)
