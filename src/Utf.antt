-- ===== src/Utf.antt =====
-- The two routines of plan9port's libc that str.c converts text with. They are not part of this
-- repository, so they are a parameter, with what their manual page (rune(3)) documents.
use strans.Base.{ℕ, ◌≤◌, ◌<◌, ◌≡◌, ◌⊎◌, List, ◌++◌, length}

-- `chartorune` reads a rune from the bytes at a pointer and returns it with the number of bytes
-- that it consumed; `runetochar` returns the bytes that it writes.
pub record Utf : Type 0 where
  pub chartorune : List ℕ → ℕ × ℕ
  pub runetochar : ℕ → List ℕ

-- A code point that is no surrogate.
abbrev pub IsRune : ℕ → Type 0
IsRune r = (r < 0xD800) ⊎ ((0xE000 ≤ r) × (r < 0x110000))

-- An encoding takes 1 to `UTFmax` (4) bytes, and is read back whatever follows it. A decoding
-- consumes at least one byte.
pub record IsUtf (u : Utf) : Type 0 where
  pub consumes : (bs : List ℕ) → 1 ≤ (u.chartorune bs).1
  pub wide : (r : ℕ) → (1 ≤ length (u.runetochar r)) × (length (u.runetochar r) ≤ 4)
  pub chartorune-runetochar :
      (r : ℕ) (rest : List ℕ)
      → IsRune r
      → u.chartorune (u.runetochar r ++ rest) ≡ (r, length (u.runetochar r))
