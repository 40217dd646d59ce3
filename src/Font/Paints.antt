-- ===== src/Font/Paints.antt =====
-- font.c: a picture of `putfont`, apart from its loops: which ink a rune puts on which pixel.
use strans.Base.{
  [], ◌∷◌, ℕ, ◌+◌, ◌-◌, ◌*◌, ◌≤◌, ◌<◌, ◌≡◌, ◌≢◌, refl, sym, ap, ap₂, ◌∙◌, subst, List, arith, ltb,
  leb, ◌==◌, ==_iff, length, row_lt, Bool-cases, Option-cases, inl, inr, Option, none, some,
  if◌then◌else◌,
}
use strans.Base.Int.{ℤ, pos_part, neg_part, shift}
use strans.Font.Clip.{find_glyph-AllGlyphs, AllGlyphs}
use strans.Font.Inked.{row_ne, stop_at, stop-in_bounds, Inks, rows}
use strans.Font.Pixels.{pixel, inked, ink}
use strans.Font.{
  Glyph, Font, fontsz, fontbase, first_in, last_in, place_in, putfont, find_glyph, nglyphs,
}
use strans.Run.{Returns}

-- The column of a glyph of `size` columns at `z` that lies over `x`, or the row that does.
unfoldable pub over : ℤ → ℕ → ℕ → Option ℕ
over z size x =
    let i = x + neg_part z - pos_part z in
    if leb (pos_part z) (x + neg_part z) then (if ltb i size then some i else none) else none

unfoldable pub glyph_ink : Glyph → ℤ → ℤ → ℕ → ℕ → ℕ
glyph_ink g x0 y0 x y = elim (over x0 g.w x) [
  | none ↦ 0
  | some i ↦ elim (over y0 g.h y) [ none ↦ 0 | some j ↦ ink g i j ]
]

-- The glyphs of the rune in the fonts, in their order.
unfoldable pub glyphs_of : List Font → ℕ → List Glyph
glyphs_of [] r = []
glyphs_of (f ∷ fonts) r =
    let rest = glyphs_of fonts r in
    if f.has r then (elim (f.bitmap r) [ none ↦ rest | some g ↦ g ∷ rest ]) else rest

unfoldable pub first_of : List Glyph → Option Glyph
first_of [] = none
first_of (g ∷ gs) = some g

find_glyph-first_of :
    (fonts : List Font) (r : ℕ) → find_glyph fonts r ≡ first_of (glyphs_of fonts r)
unfolding find_glyph glyphs_of first_of
find_glyph-first_of [] r = refl
find_glyph-first_of (f ∷ fonts) r = elim (Bool-cases (f.has r)) [
  | inr lacks ↦ rw lacks (find_glyph-first_of fonts r)
  | inl has ↦ elim (Option-cases (f.bitmap r)) [
    | inl blank ↦ rw (has, blank) (find_glyph-first_of fonts r)
    | inr (g, drawn) ↦ rw (has, drawn) refl
  ]
]

-- The ink that the rune puts on the pixel in the column `x` and the row `y`.
unfoldable pub rune_ink : List Font → ℕ → ℕ → ℕ → ℕ → ℕ → ℕ
rune_ink fonts px py r x y = if leb nglyphs r then 0 else elim (first_of (glyphs_of fonts r)) [
  | none ↦ 0
  | some g ↦ glyph_ink g (shift g.ox px) (shift g.oy (py + fontsz - fontbase)) x y
]

over-some :
    (z : ℤ) (size bound x i : ℕ)
    → x < bound
    → over z size x ≡ some i
    → (first_in z ≤ i) × (i < stop_at z size bound) × (place_in z i ≡ x)
unfolding over first_in last_in place_in
over-some z size bound x i h e = ground arith

over-none :
    (z : ℤ) (size bound x i : ℕ)
    → over z size x ≡ none
    → first_in z ≤ i
    → i < stop_at z size bound
    → place_in z i ≢ x
unfolding over first_in last_in place_in
over-none z size bound x i e lo hi at = ground arith

same_cell : (x x' y y' w : ℕ) → x < w → x' < w → y * w + x ≡ y' * w + x' → (y ≡ y') × (x ≡ x')
same_cell x x' y y' w h h' e = elim (Bool-cases (y == y')) [
  | inl same ↦ let s = (==_iff y y').0 same in (s, omega (arith, e, ap (λ (t : ℕ). t * w) s))
  | inr differ ↦ absurd (row_ne y y' x x' w (λ s. cc ((==_iff y y').1 s, differ)) h h' e)
]

-- Each pixel of the image has the ink that `at` gives for its column and row, and what lies behind
-- the image stays.
pub record Paints (w h : ℕ) (at : ℕ → ℕ → ℕ) (buf buf' : List ℕ) : Type 0 where
  pub size : length buf' ≡ length buf
  pub shown :
      (x y : ℕ) → x < w → y < h → pixel buf' (y * w + x) ≡ inked (pixel buf (y * w + x)) (at x y)
  pub behind : (q : ℕ) → h * w ≤ q → pixel buf' q ≡ pixel buf q

no_ink :
    (w h : ℕ) (at : ℕ → ℕ → ℕ) (buf : List ℕ) → ((x y : ℕ) → at x y ≡ 0) → Paints w h at buf buf
unfolding inked
no_ink w h at buf none_at = record {
  size = refl;
  shown = λ x y _ _. ap (λ a. inked (pixel buf (y * w + x)) a) (sym (none_at x y));
  behind = λ q _. refl;
}

module _ (g : Glyph) (full : length g.bmp ≡ g.h * g.w) (x0 y0 : ℤ) (w h : ℕ) where
  Inks-shown :
      (buf buf' : List ℕ) (x y : ℕ)
      → Inks g full x0 y0 w (first_in y0) (stop_at y0 g.h h) buf buf'
      → x < w
      → y < h
      → pixel buf' (y * w + x) ≡ inked (pixel buf (y * w + x)) (glyph_ink g x0 y0 x y)
  unfolding glyph_ink inked
  Inks-shown buf buf' x y s hx hy = elim (Option-cases (over x0 g.w x)) [
    | inl beside ↦
        rw (beside, glyph_ink)
          (s.outside (y * w + x) λ i k c le below e. over-none x0 g.w w x i beside c.0 c.1 (
            sym
              (same_cell x (place_in x0 i) y (place_in y0 k) w hx
                (stop-in_bounds x0 g.w w i c.0 c.1).1 e).1))
    | inr (i, col) ↦ elim (Option-cases (over y0 g.h y)) [
      | inl above ↦
          rw (col, above, glyph_ink)
            (s.outside (y * w + x) λ i' k c le below e. over-none y0 g.h h y k above le below (
              sym
                (same_cell x (place_in x0 i') y (place_in y0 k) w hx
                  (stop-in_bounds x0 g.w w i' c.0 c.1).1 e).0))
      | inr (j, row) ↦
          let (lo, hi, at) = over-some x0 g.w w x i hx col in
          let (lo', hi', at') = over-some y0 g.h h y j hy row in
          rw (col, row, glyph_ink)
            (subst (λ q. pixel buf' q ≡ inked (pixel buf q) (ink g i j))
              (ap₂ (λ a b. a * w + b) at' at) (s.inside i j (lo, hi) lo' hi'))
    ]
  ]

  Inks-behind :
      (buf buf' : List ℕ) (q : ℕ)
      → Inks g full x0 y0 w (first_in y0) (stop_at y0 g.h h) buf buf'
      → h * w ≤ q
      → pixel buf' q ≡ pixel buf q
  Inks-behind buf buf' q s far = s.outside q λ i k c le below e. absurd (
      omega (
        arith,
        far,
        e,
        row_lt (place_in y0 k) h w (place_in x0 i) (stop-in_bounds y0 g.h h k le below).1
            (stop-in_bounds x0 g.w w i c.0 c.1).1,
      ))

-- If every bitmap has a byte for each place of its glyph, and the image has at least as many
-- pixels as height times width, then `putfont` returns for every rune, place and size. The glyph
-- is that of the first font that has the rune and a bitmap of it. Each pixel of the image under
-- ink then has the colour 0xffffff, or 0xcccccc where it had that colour before, with red, green
-- and blue each times 255 less the ink, over 255; and it stays where the glyph has no ink or does
-- not lie, where no font has the rune, and where the rune is past those of the cache; the pixels
-- behind the image stay.
pub putfont-Paints :
    (fonts : List Font) (w h px py r : ℕ) (buf : List ℕ)
    → AllGlyphs fonts
    → h * w ≤ length buf
    → Returns (putfont fonts w h px py r buf) (Paints w h (rune_ink fonts px py r) buf)
unfolding putfont rune_ink
putfont-Paints fonts w h px py r buf glyphs fits = elim (Bool-cases (leb nglyphs r)) [
  | inl large ↦ (buf, rw (large, putfont) refl, no_ink w h _ buf λ x y. rw (large, rune_ink) refl)
  | inr small ↦ elim (Option-cases (find_glyph fonts r)) [
    | inl missing ↦ (
      buf,
      rw (small, missing, putfont) refl,
      no_ink w h _ buf
          λ x y. rw (small, sym (find_glyph-first_of fonts r) ∙ missing, rune_ink) refl,
    )
    | inr (g, found) ↦
        let full = find_glyph-AllGlyphs fonts r g glyphs found in
        let x0 = shift g.ox px in
        let y0 = shift g.oy (py + fontsz - fontbase) in
        let (buf', run, s) = rows g full x0 y0 w h buf fits in
        (
          buf',
          rw (small, found, putfont) run,
          record {
            size = s.size;
            shown = λ x y hx hy.
                Inks-shown g full x0 y0 w h buf buf' x y s hx hy
                ∙ ap (λ a. inked (pixel buf (y * w + x)) a)
                    (rw (small, sym (find_glyph-first_of fonts r) ∙ found, rune_ink) refl);
            behind = λ q far. Inks-behind g full x0 y0 w h buf buf' q s far;
          },
        )
  ]
]
