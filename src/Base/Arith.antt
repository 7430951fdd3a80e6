-- ===== src/Base/Arith.antt =====
-- Facts about `%` by a variable.
use Prim.Native.Nat.{ℕ, ◌+◌, ◌-◌, ◌%◌, ◌<◌}
use mathlib.Core.Path.{◌≡◌}
use native.Mathlib.Nat.{mod-eq_of_lt, mod-eq-sub-mod}
use native.Mathlib.Decide.{dec_lt}
use native.Mathlib.Omega.{arith}
use rsound.Base.Tests.{ltb, if◌then◌else◌}

-- Below twice the modulus `%` takes the modulus off at most once.
pub mod_once : (a b : ℕ) → a < b + b → a % b ≡ (if ltb a b then a else a - b)
mod_once a b h = elim (dec_lt a b) [
  | yes p ↦ ground (arith, mod-eq_of_lt p)
  | no p ↦ ground (
    arith,
    mod-eq-sub-mod {n = a} {m = b} (omega arith),
    mod-eq_of_lt {n = a - b} {m = b} (omega arith),
  )
]
