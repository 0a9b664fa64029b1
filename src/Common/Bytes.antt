-- ===== src/Common/Bytes.antt =====
-- Statements on the bytes, checked by evaluation.
use Prim.Native.Nat.{ℕ, zero, suc, ◌<◌}
use mathlib.Core.Path.{◌≡◌}
use mathlib.Core.Bool.{Bool, true, ◌&&◌}
use native.Mathlib.Omega.{arith}

-- The test holds of every number under the bound.
unfoldable pub holds_under : (ℕ → Bool) → ℕ → Bool
holds_under test zero = true
holds_under test (suc bound) = holds_under test bound && test bound

pub holds_under_at :
    (test : ℕ → Bool) (bound value : ℕ)
    → value < bound
    → holds_under test bound ≡ true
    → test value ≡ true
unfolding holds_under
holds_under_at test zero value lt h = absurd (omega arith)
holds_under_at test (suc bound) value lt h = ground (arith, holds_under_at test bound value)
