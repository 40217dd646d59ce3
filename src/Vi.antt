-- ===== src/Vi.antt =====
-- vi.c: tones on Vietnamese vowels (Telex).
pub mod Tables
pub mod Accents
pub mod Tones
use strans.Base.{
  ℕ, zero, suc, ◌+◌, ◌-◌, Bool, true, false, not, ◌&&◌, ◌||◌, List, [], ◌∷◌, ◌++◌, Option, none,
  some, ltb, ◌==◌, if◌then◌else◌, length, set, get_or, get_elem?, drop_last, member,
}
use strans.Emit.{Emit, no_emit}
use strans.Map.{translated, transmap}
use strans.Run.{Run, ok, fault, ◌>>=◌}
use strans.Str.{Str, sputr, slastr, sclear}
use strans.Trie.{Trie}
use strans.Utf.{Utf}
use strans.Vi.Tables.{Row, vitone}

unfoldable pub istone : ℕ → Bool
istone c = c == b's' || c == b'f' || c == b'r' || c == b'x' || c == b'j'

-- `none` is -1.
unfoldable pub toneidx : ℕ → Option ℕ
toneidx c =
    if c == b's'
    then some 0
    else if c == b'f'
    then some 1
    else if c == b'r'
    then some 2
    else if c == b'x'
    then some 3
    else if c == b'j'
    then some 4
    else none

unfoldable pub isvowel_in : List Row → ℕ → Bool
isvowel_in [] c = false
isvowel_in (row ∷ rows) c = if row.base == c then true else isvowel_in rows c

unfoldable pub isvowel : ℕ → Bool
isvowel c = isvowel_in vitone c

unfoldable pub removetone_in : List Row → ℕ → ℕ
removetone_in [] c = c
removetone_in (row ∷ rows) c =
    if row.base == c then c else if member row.tone c then row.base else removetone_in rows c

unfoldable pub removetone : ℕ → ℕ
removetone c = removetone_in vitone c

unfoldable pub applytone_in : List Row → ℕ → ℕ → ℕ → ℕ
applytone_in [] base c tidx = c
applytone_in (row ∷ rows) base c tidx =
    if row.base == base then get_or row.tone tidx 0 else applytone_in rows base c tidx

unfoldable pub applytone : ℕ → ℕ → ℕ
applytone c tidx = applytone_in vitone (removetone c) c tidx

-- The loop that looks for the last vowel and the one before it; `i` is the place reached.
unfoldable pub vowels_loop : Str → ℕ → Option ℕ → Option ℕ → Option ℕ × Option ℕ
vowels_loop [] i penult last = (penult, last)
vowels_loop (r ∷ s) i penult last =
    let is = isvowel (removetone r) in
    vowels_loop s (i + 1) (if is then last else penult) (if is then some i else last)

-- A test of a letter in either case.
abbrev either : ℕ → ℕ → ℕ → Bool
either b lower upper = b == lower || b == upper

-- The place that carries the tone: `vi`, with `none` for -1.
unfoldable pub place : Str → Option ℕ
place mapped =
    let (penult, last) = vowels_loop mapped 0 none none in
    elim last [
      | none ↦ none
      | some l ↦ elim penult [
        | none ↦ some l
        | some p ↦
            let b1 = removetone (get_or mapped p 0) in
            let b2 = removetone (get_or mapped l 0) in
            if ltb (l + 1) (length mapped)
            then some l
            else if either b1 b'o' b'O' && (either b2 b'a' b'A' || either b2 b'e' b'E')
            then some l
            else if either b1 b'u' b'U' && either b2 b'y' b'Y'
            then some l
            else some p
      ]
    ]

-- The tone that the key `c` puts on the vowel `r`; `none` from `toneidx` would index out of bounds.
unfoldable pub retone : ℕ → ℕ → Run ℕ
retone r c =
    if c == b'z'
    then ok (removetone r)
    else elim (toneidx c) [ none ↦ fault | some t ↦ ok (applytone r t) ]

-- The end of `transvi`, on the mapped preedit.
unfoldable pub tone_key : Str → ℕ → Run Emit
tone_key mapped c = elim (place mapped) [
  | none ↦ do s ← sputr mapped c; ok (record no_emit { eat = true; s = s })
  | some vi ↦ do
    r ← retone (get_or mapped vi 0) c
    ok (record no_emit { eat = true; next = set mapped vi r })
]

unfoldable pub transvi : ⦃u : Utf⦄ → Trie → Str → ℕ → Run Emit
transvi t pre c =
    if not (istone c) && not (c == b'z')
    then transmap t pre c
    else if length pre == 0
    then sputr [] c >>= (λ s. ok (record no_emit { s = s }))
    else if slastr pre == b'\\'
    then translated t (drop_last pre)
      >>= (λ mapped. sputr mapped c >>= (λ s. ok (record no_emit { eat = true; s = s })))
    else translated t pre >>= (λ mapped. tone_key mapped c)
