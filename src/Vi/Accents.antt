-- ===== src/Vi/Accents.antt =====
-- vi.c: what a tone key makes of a word.
use strans.Base.{
  ℕ, ◌+◌, ◌<◌, ◌≡◌, refl, ap, ◌∙◌, sym, Bool, true, false, List, [], ◌∷◌, ◌++◌, Option, none, some,
  arith, set, get_or, length, Bool-cases, ltb, ◌==◌, ==_iff, not, ◌&&◌, ◌||◌, if◌then◌else◌, member,
  every, every_sound, codes, inl, inr,
}
use strans.Emit.{Emit, no_emit}
use strans.Run.{ok, ◌>>=◌}
use strans.Str.{Str, max_runes}
use strans.Str.Laws.{sputr_ok}
use strans.Vi.Tables.{Row, vitone}
use strans.Vi.Tones.{applytone_in_other}
use strans.Vi.{
  istone, toneidx, isvowel_in, isvowel, removetone_in, removetone, applytone_in, applytone, place,
  vowels_loop, either, retone, tone_key,
}

-- The vowels with the tone of a key, or for any other key (as z) with none. A vowel has the same
-- place for each key.
unfoldable alphabet : ℕ → List ℕ
alphabet c =
    if c == b's'
    then codes "áấắéếíóốớúứýÁẤẮÉẾÍÓỐỚÚỨÝ"
    else if c == b'f'
    then codes "àầằèềìòồờùừỳÀẦẰÈỀÌÒỒỜÙỪỲ"
    else if c == b'r'
    then codes "ảẩẳẻểỉỏổởủửỷẢẨẲẺỂỈỎỔỞỦỬỶ"
    else if c == b'x'
    then codes "ãẫẵẽễĩõỗỡũữỹÃẪẴẼỄĨÕỖỠŨỮỸ"
    else if c == b'j'
    then codes "ạậặẹệịọộợụựỵẠẬẶẸỆỊỌỘỢỤỰỴ"
    else codes "aâăeêioôơuưyAÂĂEÊIOÔƠUƯY"

-- What stands in the second list at the place of `r` in the first.
unfoldable opposite : List ℕ → List ℕ → ℕ → ℕ → ℕ
opposite [] ys r other = other
opposite (x ∷ xs) [] r other = other
opposite (x ∷ xs) (y ∷ ys) r other = if x == r then y else opposite xs ys r other

unfoldable toned_from : List ℕ → ℕ → ℕ → ℕ
toned_from [] c r = r
toned_from (k ∷ ks) c r = opposite (alphabet k) (alphabet c) r (toned_from ks c r)

-- The rune `r` with the tone of the key `c` in place of its own.
unfoldable toned : ℕ → ℕ → ℕ
toned c r = toned_from (codes "zsfrxj") c r

unfoldable has_vowel : List ℕ → ℕ → Bool
has_vowel [] r = false
has_vowel (k ∷ ks) r = member (alphabet k) r || has_vowel ks r

unfoldable vowel : ℕ → Bool
vowel r = has_vowel (codes "zsfrxj") r

-- The places of the vowels, the first of them `i` runes into the word.
unfoldable vowel_places : ℕ → Str → List ℕ
vowel_places i [] = []
vowel_places i (r ∷ s) = let rest = vowel_places (i + 1) s in if vowel r then i ∷ rest else rest

-- oa, oe and uy, in which the second vowel has the tone.
unfoldable glide : ℕ → ℕ → Bool
glide b1 b2 =
    (member (codes "oO") b1 && member (codes "aAeE") b2)
    || (member (codes "uU") b1 && member (codes "yY") b2)

-- The vowel that has the tone: of the last two, the first where they end the word and are no glide.
unfoldable carrier : Str → List ℕ → Option ℕ
carrier w [] = none
carrier w (p ∷ []) = some p
carrier w (p ∷ q ∷ []) =
    if not (ltb (q + 1) (length w))
      && not (glide (toned b'z' (get_or w p 0)) (toned b'z' (get_or w q 0)))
    then some p
    else some q
carrier w (p ∷ q ∷ r ∷ places) = carrier w (q ∷ r ∷ places)

-- The word with the key behind it, if it has no vowel, and else with the tone on its vowel.
pub accented : Str → ℕ → Emit
accented w c = elim (carrier w (vowel_places 0 w)) [
  | none ↦ record no_emit { eat = true; s = w ++ c ∷ [] }
  | some i ↦ record no_emit { eat = true; next = set w i (toned c (get_or w i 0)) }
]

unfoldable runes : List Row → List ℕ
runes [] = []
runes (row ∷ rows) = row.base ∷ row.tone ++ runes rows

tables : every (runes vitone) vowel ≡ true
unfolding every runes vitone vowel has_vowel alphabet member
tables = refl

unfoldable plain_test : ℕ → Bool
plain_test r = isvowel (removetone r) && removetone r == toned b'z' r

unfoldable tone_test : ℕ → Bool
tone_test r =
    applytone r 0 == toned b's' r
    && applytone r 1 == toned b'f' r
    && applytone r 2 == toned b'r' r
    && applytone r 3 == toned b'x' r
    && applytone r 4 == toned b'j' r

unfoldable every_alphabet : List ℕ → (ℕ → Bool) → Bool
every_alphabet [] test = true
every_alphabet (k ∷ ks) test = every (alphabet k) test && every_alphabet ks test

plain_tests : every_alphabet (codes "zsfrxj") plain_test ≡ true
unfolding every_alphabet every alphabet plain_test isvowel_in isvowel removetone_in removetone
    vitone member toned toned_from opposite
plain_tests = refl

tone_tests : every_alphabet (codes "zsfrxj") tone_test ≡ true
unfolding every_alphabet every alphabet tone_test applytone_in applytone removetone_in removetone
    vitone member toned toned_from opposite
tone_tests = refl

every_alphabet_sound :
    (ks : List ℕ) (test : ℕ → Bool) (r : ℕ)
    → every_alphabet ks test ≡ true
    → has_vowel ks r ≡ true
    → test r ≡ true
unfolding every_alphabet has_vowel
every_alphabet_sound [] test r h m = cc
every_alphabet_sound (k ∷ ks) test r h m = elim (Bool-cases (member (alphabet k) r)) [
  | inl here ↦ every_sound (alphabet k) test r (ground arith) here
  | inr away ↦ every_alphabet_sound ks test r (ground arith) (ground arith)
]

member-append : (xs ys : List ℕ) (r : ℕ) → member (xs ++ ys) r ≡ (member xs r || member ys r)
unfolding member
member-append [] ys r = refl
member-append (x ∷ xs) ys r = ground (arith, member-append xs ys r)

removetone_in_absent :
    (rows : List Row) (r : ℕ) → member (runes rows) r ≡ false → removetone_in rows r ≡ r
unfolding removetone_in runes member
removetone_in_absent [] r h = refl
removetone_in_absent (row ∷ rows) r h =
    ground (arith, member-append row.tone (runes rows) r, removetone_in_absent rows r)

isvowel_in_absent :
    (rows : List Row) (r : ℕ) → member (runes rows) r ≡ false → isvowel_in rows r ≡ false
unfolding isvowel_in runes member
isvowel_in_absent [] r h = refl
isvowel_in_absent (row ∷ rows) r h =
    ground (arith, member-append row.tone (runes rows) r, isvowel_in_absent rows r)

absent : (r : ℕ) → vowel r ≡ false → member (runes vitone) r ≡ false
absent r h = elim (Bool-cases (member (runes vitone) r)) [
  | inl m ↦ absurd (ground (arith, every_sound (runes vitone) vowel r tables m))
  | inr m ↦ m
]

opposite_absent :
    (xs ys : List ℕ) (r other : ℕ) → member xs r ≡ false → opposite xs ys r other ≡ other
unfolding opposite member
opposite_absent [] ys r other h = refl
opposite_absent (x ∷ xs) [] r other h = refl
opposite_absent (x ∷ xs) (y ∷ ys) r other h = ground (arith, opposite_absent xs ys r other)

toned_absent : (ks : List ℕ) (c r : ℕ) → has_vowel ks r ≡ false → toned_from ks c r ≡ r
unfolding toned_from has_vowel
toned_absent [] c r h = refl
toned_absent (k ∷ ks) c r h =
    opposite_absent (alphabet k) (alphabet c) r _ (ground arith)
    ∙ toned_absent ks c r (ground arith)

isvowel-removetone : (r : ℕ) → isvowel (removetone r) ≡ vowel r
unfolding isvowel removetone plain_test vowel
isvowel-removetone r = elim (Bool-cases (vowel r)) [
  | inl v ↦ ground (arith, every_alphabet_sound (codes "zsfrxj") plain_test r plain_tests v)
  | inr o ↦
      rw (o, removetone_in_absent vitone r (absent r o), isvowel_in_absent vitone r (absent r o))
        refl
]

removetone_lem : (r : ℕ) → removetone r ≡ toned b'z' r
unfolding removetone plain_test vowel toned
removetone_lem r = elim (Bool-cases (vowel r)) [
  | inl v ↦ ground (arith, every_alphabet_sound (codes "zsfrxj") plain_test r plain_tests v)
  | inr o ↦
      removetone_in_absent vitone r (absent r o) ∙ sym (toned_absent (codes "zsfrxj") b'z' r o)
]

applytone_absent : (r i : ℕ) → vowel r ≡ false → applytone r i ≡ r
unfolding applytone removetone
applytone_absent r i h =
    rw (removetone_in_absent vitone r (absent r h))
      (applytone_in_other vitone r r i (isvowel_in_absent vitone r (absent r h)))

applytone_lem : (r : ℕ) → tone_test r ≡ true
unfolding tone_test vowel toned
applytone_lem r = elim (Bool-cases (vowel r)) [
  | inl v ↦ every_alphabet_sound (codes "zsfrxj") tone_test r tone_tests v
  | inr o ↦ ground (
    arith,
    applytone_absent r 0 o,
    applytone_absent r 1 o,
    applytone_absent r 2 o,
    applytone_absent r 3 o,
    applytone_absent r 4 o,
    toned_absent (codes "zsfrxj") b's' r o,
    toned_absent (codes "zsfrxj") b'f' r o,
    toned_absent (codes "zsfrxj") b'r' r o,
    toned_absent (codes "zsfrxj") b'x' r o,
    toned_absent (codes "zsfrxj") b'j' r o,
  )
]

applytone-toneidx :
    (r c : ℕ) → istone c ≡ true → (i : ℕ) × (toneidx c ≡ some i) × (applytone r i ≡ toned c r)
unfolding istone toneidx tone_test
applytone-toneidx r c h =
    let all = applytone_lem r in
    elim (Bool-cases (c == b's')) [
      | inl e ↦ (0, ground arith, rw ((==_iff c b's').0 e) (ground arith))
      | inr s ↦ elim (Bool-cases (c == b'f')) [
        | inl e ↦ (1, ground arith, rw ((==_iff c b'f').0 e) (ground arith))
        | inr f ↦ elim (Bool-cases (c == b'r')) [
          | inl e ↦ (2, ground arith, rw ((==_iff c b'r').0 e) (ground arith))
          | inr r ↦ elim (Bool-cases (c == b'x')) [
            | inl e ↦ (3, ground arith, rw ((==_iff c b'x').0 e) (ground arith))
            | inr x ↦
                let e : c == b'j' ≡ true = ground arith in
                (4, ground arith, rw ((==_iff c b'j').0 e) (ground arith))
          ]
        ]
      ]
    ]

retone_lem : (r c : ℕ) → (istone c || c == b'z') ≡ true → retone r c ≡ ok (toned c r)
unfolding retone
retone_lem r c h = elim (Bool-cases (c == b'z')) [
  | inl z ↦ rw z (ap ok (removetone_lem r ∙ ap (λ k. toned k r) (sym ((==_iff c b'z').0 z))))
  | inr other ↦
      let (i, e, same) = applytone-toneidx r c (ground arith) in rw (other, e) (ap ok same)
]

-- How `place` chooses between the two vowels that the loop finds.
unfoldable chosen : Str → Option ℕ → Option ℕ → Option ℕ
chosen w penult none = none
chosen w none (some q) = some q
chosen w (some p) (some q) = carrier w (p ∷ q ∷ [])

unfoldable seen : Option ℕ → Option ℕ → List ℕ → List ℕ
seen penult none places = places
seen none (some q) places = q ∷ places
seen (some p) (some q) places = p ∷ q ∷ places

glide_lem :
    (b1 b2 : ℕ)
    → glide b1 b2 ≡ (
        (either b1 b'o' b'O' && (either b2 b'a' b'A' || either b2 b'e' b'E'))
        || (either b1 b'u' b'U' && either b2 b'y' b'Y'))
unfolding glide member
glide_lem b1 b2 = ground arith

either_of :
    {A : Type 0} (t g h : Bool) (p q : A)
    → (if t then q else if g then q else if h then q else p)
      ≡ (if not t && not (g || h) then p else q)
either_of true g h p q = refl
either_of false true h p q = refl
either_of false false true p q = refl
either_of false false false p q = refl

place_chosen :
    (w : Str) (penult last : Option ℕ)
    → (vowels_loop w 0 none none).0 ≡ penult
    → (vowels_loop w 0 none none).1 ≡ last
    → place w ≡ chosen w penult last
unfolding place chosen carrier
place_chosen w penult none e f = rw (place, f) refl
place_chosen w none (some q) e f = rw (place, f, e) refl
place_chosen w (some p) (some q) e f =
    rw
      (
        place,
        f,
        e,
        glide_lem (toned b'z' (get_or w p 0)) (toned b'z' (get_or w q 0)),
        removetone_lem (get_or w p 0),
        removetone_lem (get_or w q 0),
      )
      (either_of (ltb (q + 1) (length w)) _ _ (some p) (some q))

carrier-seen :
    (w : Str) (i : ℕ) (penult last : Option ℕ) (places : List ℕ)
    → carrier w (seen last (some i) places) ≡ carrier w (seen penult last (i ∷ places))
unfolding seen carrier
carrier-seen w i penult none places = refl
carrier-seen w i none (some q) places = refl
carrier-seen w i (some p) (some q) places = refl

vowels_loop-vowel :
    (r : ℕ) (s : Str) (i : ℕ) (penult last : Option ℕ)
    → vowel r ≡ true
    → vowels_loop (r ∷ s) i penult last ≡ vowels_loop s (i + 1) last (some i)
unfolding vowels_loop
vowels_loop-vowel r s i penult last v = rw (isvowel-removetone r, v) refl

vowels_loop_other :
    (r : ℕ) (s : Str) (i : ℕ) (penult last : Option ℕ)
    → vowel r ≡ false
    → vowels_loop (r ∷ s) i penult last ≡ vowels_loop s (i + 1) penult last
unfolding vowels_loop
vowels_loop_other r s i penult last o = rw (isvowel-removetone r, o) refl

-- The loop keeps the last two vowels, and the carrier is one of those.
vowels_loop_lem :
    (w s : Str) (i : ℕ) (penult last : Option ℕ)
    → chosen w (vowels_loop s i penult last).0 (vowels_loop s i penult last).1
      ≡ carrier w (seen penult last (vowel_places i s))
unfolding vowels_loop vowel_places seen chosen carrier
vowels_loop_lem w [] i penult none = refl
vowels_loop_lem w [] i none (some q) = refl
vowels_loop_lem w [] i (some p) (some q) = refl
vowels_loop_lem w (r ∷ s) i penult last = elim (Bool-cases (vowel r)) [
  | inl v ↦
      rw (vowels_loop-vowel r s i penult last v, v)
        (vowels_loop_lem w s (i + 1) last (some i) ∙ carrier-seen w i penult last _)
  | inr o ↦ rw (vowels_loop_other r s i penult last o, o) (vowels_loop_lem w s (i + 1) penult last)
]

place_lem : (w : Str) → place w ≡ carrier w (vowel_places 0 w)
unfolding seen
place_lem w =
    place_chosen w (vowels_loop w 0 none none).0 (vowels_loop w 0 none none).1 refl refl
    ∙ vowels_loop_lem w w 0 none none

-- On a tone key, or z, and a mapped preedit of fewer than 64 runes, `tone_key` returns, and gives
-- what `accented` says: in a word without a vowel the whole word is committed, with the key
-- behind it; else the vowel that carries the tone, by the order of the vowels in the word, has
-- the tone of the key in place of its own, or none on z, and the rest of the next preedit is as
-- it was.
pub tone_key-accented :
    (mapped : Str) (c : ℕ)
    → (istone c || c == b'z') ≡ true
    → length mapped < max_runes
    → tone_key mapped c ≡ ok (accented mapped c)
unfolding tone_key accented
tone_key-accented mapped c h room =
    elim (carrier mapped (vowel_places 0 mapped))
        as (λ o.
          place mapped ≡ o
          → carrier mapped (vowel_places 0 mapped) ≡ o
          → tone_key mapped c ≡ ok (accented mapped c)) [
            | none ↦ λ e f. rw (tone_key, e, accented, f, sputr_ok mapped c room, ◌>>=◌) refl
            | some i ↦
                λ e f. rw (tone_key, e, accented, f, retone_lem (get_or mapped i 0) c h, ◌>>=◌) refl
          ]
      (place_lem mapped) refl
