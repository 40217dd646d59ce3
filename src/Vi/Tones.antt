-- ===== src/Vi/Tones.antt =====
-- vi.c: the two scans of the table of tones.
use strans.Base.{
  ℕ, ◌<◌, ◌≡◌, refl, ap, ◌∙◌, true, false, List, [], ◌∷◌, arith, Bool-cases, ◌==◌, ==_iff, ◌&&◌,
  member, every, every_sound, all_below, all_below_sound, inl, inr,
}
use strans.Vi.Tables.{Row, vitone}
use strans.Vi.{isvowel_in, isvowel, removetone_in, removetone, applytone_in, applytone}

abbrev bases : List Row → List ℕ
bases [] = []
bases (row ∷ rows) = row.base ∷ bases rows

isvowel_in-member :
    (rows : List Row) (b : ℕ) → isvowel_in rows b ≡ true → member (bases rows) b ≡ true
unfolding isvowel_in member
isvowel_in-member [] b h = h
isvowel_in-member (row ∷ rows) b h = ground (arith, isvowel_in-member rows b)

-- On a vowel without a tone only that vowel counts.
applytone_in-vowel :
    (rows : List Row) (b c c' i : ℕ)
    → isvowel_in rows b ≡ true
    → applytone_in rows b c i ≡ applytone_in rows b c' i
unfolding isvowel_in applytone_in
applytone_in-vowel [] b c c' i h = cc
applytone_in-vowel (row ∷ rows) b c c' i h = ground (arith, applytone_in-vowel rows b c c' i)

pub applytone_in_other :
    (rows : List Row) (b c i : ℕ) → isvowel_in rows b ≡ false → applytone_in rows b c i ≡ c
unfolding isvowel_in applytone_in
applytone_in_other [] b c i h = refl
applytone_in_other (row ∷ rows) b c i h = ground (arith, applytone_in_other rows b c i)

table :
    every
      (bases vitone)
      (λ b. removetone b == b && all_below 5 (λ i. removetone (applytone_in vitone b 0 i) == b))
    ≡ true
unfolding every all_below removetone removetone_in applytone_in vitone member
table = refl

base_row :
    (b : ℕ)
    → isvowel b ≡ true
    → (removetone b == b && all_below 5 (λ i. removetone (applytone_in vitone b 0 i) == b)) ≡ true
unfolding isvowel
base_row b h = every_sound (bases vitone) _ b table (isvowel_in-member vitone b h)

-- For every rune and each of the five tones, `removetone` takes off what `applytone` puts on: the
-- rune with the tone and the rune itself have the same base.
pub removetone-applytone : (r i : ℕ) → i < 5 → removetone (applytone r i) ≡ removetone r
unfolding applytone isvowel_in isvowel
removetone-applytone r i h = elim (Bool-cases (isvowel (removetone r))) [
  | inl vowel ↦
      ap removetone (applytone_in-vowel vitone (removetone r) r 0 i vowel)
      ∙ (==_iff _ _).0 (
          all_below_sound 5
            (λ i. removetone (applytone_in vitone (removetone r) 0 i) == removetone r) i
            (ground (arith, base_row (removetone r) vowel)) h)
  | inr other ↦ ap removetone (applytone_in_other vitone (removetone r) r i other)
]
