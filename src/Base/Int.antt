-- ===== src/Base/Int.antt =====
-- Integers for the C `int`s that may be negative, as far as the window and the glyphs need them.
use Prim.Native.Nat.{ℕ, suc, ◌+◌, ◌-◌}
use strans.Base.Tests.{leb, if◌then◌else◌}

-- `negsuc n` is -(n + 1).
pub data ℤ : Type 0 where
  pos negsuc : ℕ → ℤ

-- `z < 0 ? 0 : z`
abbrev pub pos_part : ℤ → ℕ
pos_part (negsuc n) = 0
pos_part (pos n) = n

-- `z < 0 ? -z : 0`
abbrev pub neg_part : ℤ → ℕ
neg_part (negsuc n) = suc n
neg_part (pos n) = 0

-- `z + k`
unfoldable pub shift : ℤ → ℕ → ℤ
shift (pos n) k = pos (n + k)
shift (negsuc n) k = if leb (suc n) k then pos (k - suc n) else negsuc (n - k)
