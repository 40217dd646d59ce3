-- ===== src/Dict/Bytes.antt =====
-- dict.c: the bytes of a dictionary's strings, and how they are read back.
use strans.Base.{
  ℕ, zero, suc, ◌≤◌, ◌<◌, ◌≡◌, refl, ap, ◌∙◌, false, List, [], ◌∷◌, ◌++◌, append_assoc, arith, ◌==◌,
  length, length-append,
}
use strans.Str.Codec.{AllRunes, sinit_loop-runetochar}
use strans.Str.{Str, max_runes, sinit, sinit_loop}
use strans.Utf.{Utf, IsUtf}

-- No byte of the list is `c`.
abbrev pub Lacks : ℕ → List ℕ → Type 0
Lacks c [] = Unit {0}
Lacks c (b ∷ bs) = ((b == c) ≡ false) × Lacks c bs

pub Lacks-append : (c : ℕ) (xs ys : List ℕ) → Lacks c xs → Lacks c ys → Lacks c (xs ++ ys)
Lacks-append c [] ys h k = k
Lacks-append c (x ∷ xs) ys h k = (h.0, Lacks-append c xs ys h.1 k)

-- UTF-8 writes a code point below 0x80 as itself, and such a byte for no other.
pub record IsPlain (u : Utf) : Type 0 where
  pub itself : (r : ℕ) → r < 0x80 → u.runetochar r ≡ r ∷ []
  pub no_other : (r c : ℕ) → c < 0x80 → (r == c) ≡ false → Lacks c (u.runetochar r)

module _ ⦃u : Utf⦄ where
  -- The bytes of a string, with no bound.
  unfoldable pub utf : Str → List ℕ
  utf [] = []
  utf (r ∷ s) = u.runetochar r ++ utf s

  -- The value of a line of a dictionary: its words, with a space between two of them.
  unfoldable pub spaced : List Str → List ℕ
  spaced [] = []
  spaced (s ∷ []) = utf s
  spaced (s ∷ s' ∷ ss) = utf s ++ b' ' ∷ spaced (s' ∷ ss)

  -- A word fits a string, is not empty, and has no space.
  pub record IsWord (s : Str) : Type 0 where
    pub runes : AllRunes s
    pub few : length s ≤ max_runes
    pub some_rune : 0 < length s
    pub no_space : Lacks b' ' s

  abbrev pub AllWords : List Str → Type 0
  AllWords [] = Unit {0}
  AllWords (s ∷ ss) = IsWord s × AllWords ss

  module _ (laws : IsUtf u) (plain : IsPlain u) where
    pub utf-Lacks : (c : ℕ) (s : Str) → c < 0x80 → Lacks c s → Lacks c (utf s)
    unfolding utf
    utf-Lacks c [] h l = tt
    utf-Lacks c (r ∷ s) h l =
        Lacks-append c (u.runetochar r) (utf s) (plain.no_other r c h l.0) (utf-Lacks c s h l.1)

    sinit_loop_end : (room : ℕ) (src : List ℕ) → sinit_loop room src 0 ≡ []
    unfolding sinit_loop
    sinit_loop_end zero src = refl
    sinit_loop_end (suc room) src = refl

    -- The bytes of a string are read back in front of any others.
    sinit_loop-utf :
        (s : Str) (rest : List ℕ) (room : ℕ)
        → AllRunes s
        → length s ≤ room
        → sinit_loop room (utf s ++ rest) (length (utf s)) ≡ s
    unfolding utf
    sinit_loop-utf [] rest room v h = sinit_loop_end room rest
    sinit_loop-utf (r ∷ s) rest zero v h = absurd (omega arith)
    sinit_loop-utf (r ∷ s) rest (suc room) v h =
        rw (append_assoc (u.runetochar r) (utf s) rest, length-append (u.runetochar r) (utf s))
          (sinit_loop-runetochar laws room r (utf s ++ rest) (length (utf s)) v.0
            ∙ ap (◌∷◌ r) (sinit_loop-utf s rest room v.1 (omega arith)))

    pub sinit-utf :
        (s : Str) (rest : List ℕ)
        → AllRunes s
        → length s ≤ max_runes
        → sinit (utf s ++ rest) (length (utf s)) ≡ s
    unfolding sinit
    sinit-utf s rest v h = sinit_loop-utf s rest max_runes v h

    pub utf_pos : (s : Str) → 0 < length s → 0 < length (utf s)
    unfolding utf
    utf_pos [] h = h
    utf_pos (r ∷ s) h = omega (arith, laws.wide r, length-append (u.runetochar r) (utf s))
