-- ===== src/Ko.antt =====
-- ko.c: the Hangul automaton over dubeolsik keys. A C `int` is its 32-bit pattern here, so -1 is
-- 2 ^ 32 - 1 and a test `>= 0` is `nonneg`; a `Rune` is unsigned, as in the code.
pub mod Tables
pub mod Letters
pub mod Facts
pub mod Syllables
pub mod Spells
pub mod Typing
pub mod Backspace
pub mod Other
use strans.Base.{
  ℕ, ◌+◌, ◌-◌, ◌*◌, ◌/◌, ◌%◌, ◌^◌, Bool, true, not, ◌&&◌, List, [], ◌∷◌, Option, none, some, ltb,
  leb, ◌==◌, if◌then◌else◌, length, get_elem?,
}
use strans.Emit.{Emit, no_emit}
use strans.Ko.Tables.{
  cho, jung, jong, choidx, jungidx, jongidx, jamomap, Cpair, cvow, cjong, jbase, sbase, ncho, njung,
  njong,
}
use strans.Run.{Run, ok, fault, ◌>>=◌}
use strans.Str.{Str, sputr, spopr, slastr}

-- A read of an array; outside it C leaves the result undefined.
unfoldable pub at : List ℕ → ℕ → Run ℕ
at xs i = elim (get_elem? xs i) [ none ↦ fault | some x ↦ ok x ]

abbrev pub nonneg : ℕ → Bool
nonneg i = ltb i (2 ^ 31)

abbrev pub positive : ℕ → Bool
positive i = ltb 0 i && nonneg i

-- The three macros: the table's entry at `r - Jbase`, less one.
unfoldable pub idx : List ℕ → ℕ → Run ℕ
unfolding at
idx table r = do e ← at table ((r + 2 ^ 32 - jbase) % 2 ^ 32); ok ((e + 2 ^ 32 - 1) % 2 ^ 32)

unfoldable pub cho_idx : ℕ → Run ℕ
unfolding idx choidx
cho_idx r = idx choidx r

unfoldable pub jung_idx : ℕ → Run ℕ
unfolding idx jungidx
jung_idx r = idx jungidx r

unfoldable pub jong_idx : ℕ → Run ℕ
unfolding idx jongidx
jong_idx r = idx jongidx r

unfoldable pub keytojamo : ℕ → ℕ
unfolding jamomap
keytojamo c = if ltb c 128 then elim (get_elem? jamomap c) [ none ↦ 0 | some r ↦ r ] else 0

-- 0 where no pair combines.
unfoldable pub combine : List Cpair → ℕ → ℕ → ℕ
combine [] b a = 0
combine (p ∷ t) b a = if p.b == b && p.a == a then p.r else combine t b a

unfoldable pub splitpair : List Cpair → ℕ → Option (ℕ × ℕ)
splitpair [] c = none
splitpair (p ∷ t) c = if p.r == c then some (p.b, p.a) else splitpair t c

unfoldable pub compose : ℕ → ℕ → ℕ → ℕ
compose c j jo = (sbase + c * njung * njong + j * njong + jo) % 2 ^ 32

unfoldable pub decompose : ℕ → ℕ × ℕ × ℕ
decompose s = let i = s - sbase in (i / (njung * njong), (i / njong) % njung, i % njong)

unfoldable pub issyl : ℕ → Bool
issyl r = leb sbase r && ltb r (sbase + ncho * njung * njong)

-- `e.s` and `e.next` of an eaten key; the code's `spopr(&im->pre)` is `pre'`.
abbrev eaten : Str → Str → Str → Run (Str × Emit)
eaten pre' s next = ok (pre', record no_emit { eat = true; s = s; next = next })

-- The last three lines of `transko`, which also end the branch on a lone jamo.
abbrev flush : Str → ℕ → Run (Str × Emit)
flush pre jm = eaten pre pre (jm ∷ [])

-- `if(!issyl(last))`
unfoldable pub transko_jamo : Str → ℕ → ℕ → Run (Str × Emit)
transko_jamo pre last jm = do
  ci ← cho_idx last
  ji ← jung_idx jm
  if nonneg ci && nonneg ji then eaten (spopr pre) [] (compose ci ji 0 ∷ []) else do
    li ← jung_idx last
    let comb = combine cvow last jm
    if nonneg li && nonneg ji && not (comb == 0)
        then eaten (spopr pre) [] (comb ∷ [])
        else flush pre jm

-- The part behind `vi = Jungidx(jm)` when `joi == 0`.
unfoldable pub transko_vowel : Str → ℕ → ℕ → ℕ → Run (Str × Emit)
transko_vowel pre jm ci ji = do
  v ← at jung ji
  let comb = combine cvow v jm
  if comb == 0
      then flush pre jm
      else do ni ← jung_idx comb; eaten (spopr pre) [] (compose ci ni 0 ∷ [])

-- `if(joi == 0)`, with the end of the function behind it.
unfoldable pub transko_open : Str → ℕ → ℕ → ℕ → Run (Str × Emit)
transko_open pre jm ci ji = do
  ni ← jong_idx jm
  if positive ni
      then eaten (spopr pre) [] (compose ci ji ni ∷ [])
      else do vi ← jung_idx jm; if nonneg vi then transko_vowel pre jm ci ji else flush pre jm

-- The vowel's part of `if(joi > 0)`.
unfoldable pub transko_split : Str → ℕ → ℕ → ℕ → ℕ → Run (Str × Emit)
transko_split pre jm ci ji jc = do
  vi ← jung_idx jm
  if nonneg vi
      then elim (splitpair cjong jc) [
        | some (stay, next) ↦ do
          si ← jong_idx stay
          ni ← cho_idx next
          eaten (spopr pre) (compose ci ji si ∷ []) (compose ni vi 0 ∷ [])
        | none ↦ do
          ni ← cho_idx jc
          if nonneg ni
              then eaten (spopr pre) (compose ci ji 0 ∷ []) (compose ni vi 0 ∷ [])
              else flush pre jm
      ]
      else flush pre jm

-- `if(joi > 0)`, with the end of the function behind it.
unfoldable pub transko_closed : Str → ℕ → ℕ → ℕ → ℕ → Run (Str × Emit)
transko_closed pre jm ci ji joi = do
  jc ← at jong joi
  let comb = combine cjong jc jm
  if comb == 0 then transko_split pre jm ci ji jc else do
    ni ← jong_idx comb
    if positive ni
        then eaten (spopr pre) [] (compose ci ji ni ∷ [])
        else transko_split pre jm ci ji jc

-- The part behind `decompose(last, &ci, &ji, &joi)`.
unfoldable pub transko_syl : Str → ℕ → ℕ → Run (Str × Emit)
transko_syl pre last jm =
    let (ci, ji, joi) = decompose last in
    if joi == 0 then transko_open pre jm ci ji else transko_closed pre jm ci ji joi

-- `transko` changes `im->pre` too, so it returns it beside the `Emit`.
unfoldable pub transko : Str → ℕ → Run (Str × Emit)
transko pre c =
    let jm = keytojamo c in
    let last = slastr pre in
    if jm == 0
    then sputr pre c >>= (λ s. ok ([], record no_emit { s = s }))
    else if last == 0
    then eaten pre [] (jm ∷ [])
    else if issyl last
    then transko_syl pre last jm
    else transko_jamo pre last jm

-- `backko` on a syllable with a final consonant; `pre` is what `spopr` left.
unfoldable pub backko_jong : Str → ℕ → ℕ → ℕ → Run Str
backko_jong pre c j jo = do
  jc ← at jong jo
  elim (splitpair cjong jc) [
    | some (stay, next) ↦ do si ← jong_idx stay; sputr pre (compose c j si)
    | none ↦ sputr pre (compose c j 0)
  ]

-- `backko` on a syllable with no final consonant.
unfoldable pub backko_jung : Str → ℕ → ℕ → Run Str
backko_jung pre c j = do
  v ← at jung j
  elim (splitpair cvow v) [
    | some (stay, next) ↦ do si ← jung_idx stay; sputr pre (compose c si 0)
    | none ↦ do lead ← at cho c; sputr pre lead
  ]

unfoldable pub backko : Str → Run Str
backko pre =
    let last = slastr pre in
    let (c, j, jo) = decompose last in
    if issyl last
    then if ltb 0 jo then backko_jong (spopr pre) c j jo else backko_jung (spopr pre) c j
    else elim (splitpair cvow last) [
      | some (stay, next) ↦ sputr (spopr pre) stay
      | none ↦ ok (spopr pre)
    ]
