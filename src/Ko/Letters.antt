-- ===== src/Ko/Letters.antt =====
-- What a Hangul rune is made of: the letters that a user types for it, one after the other. The
-- tables here spell compound vowels and final clusters out, and use none of those of ko.c but the
-- order of its letters.
use strans.Base.{
  ℕ, ◌-◌, ◌/◌, ◌%◌, ◌≡◌, ◌⊎◌, true, List, [], ◌∷◌, ◌++◌, String, codes, if◌then◌else◌, ◌==◌, get_or,
  member,
}
use strans.Ko.Tables.{cho, jung}
use strans.Ko.{issyl}
use strans.Str.{Str}

-- The letters that the keys stand for.
abbrev pub typed : List ℕ
typed = codes "ㄱㄲㄴㄷㄸㄹㅁㅂㅃㅅㅆㅇㅈㅉㅊㅋㅌㅍㅎㅏㅐㅑㅒㅓㅔㅕㅖㅗㅛㅜㅠㅡㅣ"

-- The letters that can stand alone in the preedit.
abbrev pub lone : List ℕ
lone = codes "ㄱㄲㄴㄷㄸㄹㅁㅂㅃㅅㅆㅇㅈㅉㅊㅋㅌㅍㅎㅏㅐㅑㅒㅓㅔㅕㅖㅗㅘㅙㅚㅛㅜㅝㅞㅟㅠㅡㅢㅣ"

abbrev texts : List String → List (List ℕ)
texts [] = []
texts (t ∷ ts) = codes t ∷ texts ts

unfoldable pub vowels : List (List ℕ)
vowels = texts (
    "ㅏ" ∷ "ㅐ" ∷ "ㅑ" ∷ "ㅒ" ∷ "ㅓ" ∷ "ㅔ" ∷ "ㅕ" ∷ "ㅖ" ∷ "ㅗ" ∷ "ㅗㅏ" ∷ "ㅗㅐ" ∷ "ㅗㅣ" ∷ "ㅛ" ∷ "ㅜ" ∷ "ㅜㅓ"
    ∷ "ㅜㅔ" ∷ "ㅜㅣ" ∷ "ㅠ" ∷ "ㅡ" ∷ "ㅡㅣ" ∷ "ㅣ" ∷ [])

unfoldable pub finals : List (List ℕ)
finals = texts (
    "" ∷ "ㄱ" ∷ "ㄲ" ∷ "ㄱㅅ" ∷ "ㄴ" ∷ "ㄴㅈ" ∷ "ㄴㅎ" ∷ "ㄷ" ∷ "ㄹ" ∷ "ㄹㄱ" ∷ "ㄹㅁ" ∷ "ㄹㅂ" ∷ "ㄹㅅ" ∷ "ㄹㅌ" ∷ "ㄹㅍ"
    ∷ "ㄹㅎ" ∷ "ㅁ" ∷ "ㅂ" ∷ "ㅂㅅ" ∷ "ㅅ" ∷ "ㅆ" ∷ "ㅇ" ∷ "ㅈ" ∷ "ㅊ" ∷ "ㅋ" ∷ "ㅌ" ∷ "ㅍ" ∷ "ㅎ" ∷ [])

unfoldable pub vowel : ℕ → List ℕ
unfolding vowels
vowel j = get_or vowels j []

unfoldable pub final : ℕ → List ℕ
unfolding finals
final jo = get_or finals jo []

-- The letters of the syllable with lead `c`, vowel `j` and final `jo`.
unfoldable pub syllable : ℕ → ℕ → ℕ → List ℕ
syllable c j jo = get_or cho c 0 ∷ (vowel j ++ final jo)

-- A lone letter is itself, or a vowel spelled out.
unfoldable pub lone_letters : List ℕ → List (List ℕ) → ℕ → List ℕ
lone_letters (v ∷ vs) (t ∷ ts) r = if v == r then t else lone_letters vs ts r
lone_letters _ _ r = r ∷ []

-- The Unicode order of syllables: 588 to a lead, 28 to a vowel.
unfoldable pub letters : ℕ → List ℕ
letters r =
    let i = r - 0xAC00 in
    if issyl r then syllable (i / 588) ((i / 28) % 21) (i % 28) else lone_letters jung vowels r

unfoldable pub spelling : Str → List ℕ
spelling [] = []
spelling (r ∷ s) = letters r ++ spelling s

-- A rune that the automaton keeps in the preedit: a syllable, or a letter that can stand alone.
abbrev pub IsHangul : ℕ → Type 0
IsHangul r = (issyl r ≡ true) ⊎ (member lone r ≡ true)

-- The preedit under the Hangul automaton.
abbrev pub IsPreedit : Str → Type 0
IsPreedit [] = Unit {0}
IsPreedit (r ∷ []) = IsHangul r
IsPreedit (r ∷ r' ∷ s) = ⊥
