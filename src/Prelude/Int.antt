-- ===== src/Prelude/Int.antt =====
-- Signed integers over the native numbers; `negsuc n` is -(n + 1).
use Prim.Native.Nat.{ℕ}
use loontail_minecraft_netwo.Prelude.Tests.{ltb, if◌then◌else◌}

pub data ℤ : Type 0 where
  pos : ℕ → ℤ
  negsuc : ℕ → ℤ

-- `value.clamp(lo, hi)` for bounds that are not negative, the lower one first.
unfoldable pub clamp : ℕ → ℕ → ℤ → ℕ
clamp lo hi (negsuc n) = lo
clamp lo hi (pos n) = if ltb n lo then lo else if ltb hi n then hi else n
