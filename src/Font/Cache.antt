-- ===== src/Font/Cache.antt =====
-- font.c: `putfont` with its cache of glyphs. An entry is `none` while its `bmp` is nil.
use strans.Base.{
  ℕ, ◌≡◌, refl, sym, ap, ◌∙◌, List, [], ◌∷◌, Option, none, some, ◌+◌, ◌-◌, leb, ◌==◌, ==_iff,
  if◌then◌else◌, Bool-cases, Option-cases, inl, inr,
}
use strans.Base.Int.{shift}
use strans.Font.{
  Glyph, Font, fontsz, fontbase, nglyphs, find_glyph, putfont, put_rows, first_in, last_in,
}
use strans.Run.{Run, ok, died, fault, ◌>>=◌}

abbrev pub Cache : Type 0
Cache = ℕ → Option Glyph

abbrev pub no_glyphs : Cache
no_glyphs r = none

unfoldable remember : ℕ → Glyph → Cache → Cache
remember r g cache = λ k. if k == r then some g else cache k

-- `&cache[r]` after its bitmap was looked for, `none` where there is still none, and the cache.
unfoldable pub cached_glyph : List Font → ℕ → Cache → Option Glyph × Cache
unfolding find_glyph remember
cached_glyph fonts r cache = elim (cache r) [
  | some g ↦ (some g, cache)
  | none ↦ elim (find_glyph fonts r) [
    | none ↦ (none, cache)
    | some g ↦ (some g, remember r g cache)
  ]
]

-- The arguments of `putfont`, apart from the image.
pub record Placing : Type 0 where
  pub w : ℕ
  pub h : ℕ
  pub px : ℕ
  pub py : ℕ
  pub rune : ℕ

unfoldable pub putfont_cached : List Font → Placing → Cache → List ℕ → Run (Cache × List ℕ)
unfolding cached_glyph put_rows first_in last_in
putfont_cached fonts c cache buf =
    if leb nglyphs c.rune
    then ok (cache, buf)
    else let (glyph, cache') = cached_glyph fonts c.rune cache in
      elim glyph [
        | none ↦ ok (cache', buf)
        | some g ↦
            let y0 = shift g.oy (c.py + fontsz - fontbase) in
            let x0 = shift g.ox c.px in
            put_rows g x0 y0 c.w (last_in y0 g.h c.h - first_in y0) (first_in y0) buf
            >>= (λ buf'. ok (cache', buf'))
      ]

-- One call after the other, on the cache of those before.
unfoldable pub put_cached : List Font → List Placing → Cache → List ℕ → Run (Cache × List ℕ)
unfolding putfont_cached
put_cached fonts [] cache buf = ok (cache, buf)
put_cached fonts (c ∷ cs) cache buf =
    putfont_cached fonts c cache buf >>= (λ r. put_cached fonts cs r.0 r.1)

-- The same where every call looks for its glyph anew.
unfoldable pub put_anew : List Font → List Placing → List ℕ → Run (List ℕ)
put_anew fonts [] buf = ok buf
put_anew fonts (c ∷ cs) buf = putfont fonts c.w c.h c.px c.py c.rune buf >>= put_anew fonts cs

-- What the cache holds is what the fonts give.
abbrev pub Sound : List Font → Cache → Type 0
Sound fonts cache = (r : ℕ) (g : Glyph) → cache r ≡ some g → find_glyph fonts r ≡ some g

-- A result on the cache `c` that is the plain one beside the cache that the run leaves.
abbrev pub SameImage : List Font → Run (List ℕ) → Run (Cache × List ℕ) → Type 0
SameImage fonts plain r =
    (cache : Cache) × Sound fonts cache × (r ≡ plain >>= (λ buf. ok (cache, buf)))

module _ (fonts : List Font) where
  remember-Sound :
      (r : ℕ) (g : Glyph) (cache : Cache)
      → Sound fonts cache
      → find_glyph fonts r ≡ some g
      → Sound fonts (remember r g cache)
  unfolding remember
  remember-Sound r g cache s found k g' = elim (Bool-cases (k == r)) [
    | inl same ↦ λ e. ap (find_glyph fonts) ((==_iff k r).0 same) ∙ found ∙ rw same at e
    | inr other ↦ λ e. s k g' (rw other at e)
  ]

  cached_glyph-Sound :
      (r : ℕ) (cache : Cache)
      → Sound fonts cache
      → ((cached_glyph fonts r cache).0 ≡ find_glyph fonts r)
        × Sound fonts (cached_glyph fonts r cache).1
  unfolding cached_glyph
  cached_glyph-Sound r cache s = elim (Option-cases (cache r)) [
    | inr (g, known) ↦ rw (known, cached_glyph) (sym (s r g known), s)
    | inl unknown ↦ elim (Option-cases (find_glyph fonts r)) [
      | inl missing ↦ rw (unknown, missing, cached_glyph) (refl, s)
      | inr (g, found) ↦ rw (unknown, found, cached_glyph) (refl, remember-Sound r g cache s found)
    ]
  ]

  putfont_cached-SameImage :
      (c : Placing) (cache : Cache) (buf : List ℕ)
      → Sound fonts cache
      → SameImage fonts
          (putfont fonts c.w c.h c.px c.py c.rune buf)
          (putfont_cached fonts c cache buf)
  unfolding putfont_cached putfont
  putfont_cached-SameImage c cache buf s = elim (Bool-cases (leb nglyphs c.rune)) [
    | inl large ↦ (cache, s, rw (large, putfont_cached, putfont) refl)
    | inr small ↦
        let (same, s') = cached_glyph-Sound c.rune cache s in
        (
          (cached_glyph fonts c.rune cache).1,
          s',
          elim (Option-cases (find_glyph fonts c.rune)) [
            | inl missing ↦ rw (small, same, missing, putfont_cached, putfont) refl
            | inr (g, found) ↦ rw (small, same, found, putfont_cached, putfont) refl
          ],
        )
  ]

  -- A run that stops leaves no cache that matters.
  behind :
      (m : Run (List ℕ)) (cache : Cache) (next : List ℕ → Run (List ℕ))
      (next' : Cache → List ℕ → Run (Cache × List ℕ))
      → Sound fonts cache
      → ((buf : List ℕ) → SameImage fonts (next buf) (next' cache buf))
      → SameImage fonts
          (m >>= next)
          (◌>>=◌ {X = Cache × List ℕ} (m >>= (λ buf. ok (cache, buf))) λ r. next' r.0 r.1)
  behind (ok buf) cache next next' s k = k buf
  behind died cache next next' s k = (cache, s, refl)
  behind fault cache next next' s k = (cache, s, refl)

  -- On a cache that holds only what the fonts give (as the empty one does), any sequence of
  -- calls of `putfont`, of any runes, places and sizes, each of which takes its glyph from the
  -- cache or looks for it and stores it, makes the same image as the calls where each looks for
  -- its glyph anew, and stops exactly where those stop; the cache that it leaves holds again
  -- only what the fonts give.
  pub put_cached-SameImage :
      (cs : List Placing) (cache : Cache) (buf : List ℕ)
      → Sound fonts cache
      → SameImage fonts (put_anew fonts cs buf) (put_cached fonts cs cache buf)
  unfolding put_anew put_cached
  put_cached-SameImage [] cache buf s = (cache, s, refl)
  put_cached-SameImage (c ∷ cs) cache buf s =
      let (cache', s', e) = putfont_cached-SameImage c cache buf s in
      rw e (
        behind (putfont fonts c.w c.h c.px c.py c.rune buf) cache' (put_anew fonts cs)
          (put_cached fonts cs) s' λ b. put_cached-SameImage cs cache' b s')
