-- ===== src/Font.antt =====
-- font.c: glyphs and how one is drawn. stb_truetype is a copy of another project's code, so a font
-- is what its calls return. An image is a list of pixels of 32 bits, row by row.
pub mod Clip
pub mod Pixels
pub mod Inked
pub mod Paints
pub mod Cache
use strans.Base.{
  ℕ, zero, suc, ◌+◌, ◌-◌, ◌*◌, ◌/◌, ◌%◌, ◌^◌, Bool, true, false, ◌&&◌, ◌||◌, List, [], ◌∷◌, ◌++◌,
  Option, none, some, ltb, leb, ◌==◌, equal, codes, if◌then◌else◌, length, get_elem?, set,
}
use strans.Base.Int.{ℤ, pos_part, neg_part, shift}
use strans.Run.{Run, ok, died, fault, ◌>>=◌}

-- dat.h
abbrev pub fontsz : ℕ
fontsz = 32

abbrev pub fontbase : ℕ
fontbase = 4

abbrev pub nglyphs : ℕ
nglyphs = 0x20000

abbrev pub colbg : ℕ
colbg = 0xffffff

abbrev pub colsel : ℕ
colsel = 0xcccccc

abbrev pub max_fonts : ℕ
max_fonts = 4

pub record Glyph : Type 0 where
  pub bmp : List ℕ
  pub w : ℕ
  pub h : ℕ
  pub ox : ℤ
  pub oy : ℤ

-- `FindGlyphIndex` is not 0, and what `GetCodepointBitmap` returns, `none` for nil.
pub record Font : Type 0 where
  pub has : ℕ → Bool
  pub bitmap : ℕ → Option Glyph

unfoldable pub blend : ℕ → ℕ → ℕ
blend bg a =
    let inv = 255 - a in
    let r = (bg / 2 ^ 16 % 256) * inv / 255 in
    let g = (bg / 2 ^ 8 % 256) * inv / 255 in
    let b = (bg % 256) * inv / 255 in r * 2 ^ 16 + g * 2 ^ 8 + b

-- `strrchr`: what stands behind the last dot, with the dot.
unfoldable pub last_dot : List ℕ → Option (List ℕ)
last_dot [] = none
last_dot (b ∷ s) = elim (last_dot s) [
  | some tail ↦ some tail
  | none ↦ if b == b'.' then some (b ∷ s) else none
]

unfoldable pub isfont : List ℕ → Bool
unfolding last_dot
isfont name = elim (last_dot name) [
  | none ↦ false
  | some p ↦ equal p (codes ".ttf") || equal p (codes ".otf")
]

-- `loadfont`; `file` is what stb_truetype makes of the file, or `none` where it cannot be opened,
-- read or parsed.
unfoldable pub loadfont : List Font → Option Font → Run (List Font)
loadfont fonts file =
    if leb max_fonts (length fonts)
    then died
    else elim file [ none ↦ died | some f ↦ ok (fonts ++ f ∷ []) ]

-- The loop of `fontinit` over the names of the directory.
unfoldable pub load_all : (List ℕ → Option Font) → List (List ℕ) → List Font → Run (List Font)
unfolding isfont loadfont
load_all open_font [] fonts = ok fonts
load_all open_font (name ∷ names) fonts =
    (if isfont name then loadfont fonts (open_font name) else ok fonts) >>= load_all open_font names

-- `fontinit`, on the names in the directory, or `none` where it cannot be read. The table of blended
-- colours is `blend` itself.
unfoldable pub fontinit : (List ℕ → Option Font) → Option (List (List ℕ)) → Run (List Font)
unfolding load_all
fontinit open_font none = died
fontinit open_font (some names) = do
  fonts ← load_all open_font names []
  if length fonts == 0 then died else ok fonts

-- The loop that fills an entry of the cache: the first font that has the glyph and a bitmap of it. The
-- cache itself is in Font/Cache.
unfoldable pub find_glyph : List Font → ℕ → Option Glyph
find_glyph [] r = none
find_glyph (f ∷ fonts) r =
    let rest = find_glyph fonts r in
    if f.has r then (elim (f.bitmap r) [ some g ↦ some g | none ↦ rest ]) else rest

-- The first and the last place of a glyph of `size` at `z` that lie inside of `bound`. A last place
-- below 0 is 0 here: the loops run from the first up to it, and not at all.
unfoldable pub first_in : ℤ → ℕ
first_in z = neg_part z

unfoldable pub last_in : ℤ → ℕ → ℕ → ℕ
last_in z size bound =
    if ltb (bound + neg_part z) (pos_part z + size) then bound + neg_part z - pos_part z else size

-- `z + i`, for a place `i` from the first on.
unfoldable pub place_in : ℤ → ℕ → ℕ
place_in z i = pos_part z + i - neg_part z

-- A read of an array, and a write to it.
unfoldable pub read_at : List ℕ → ℕ → Run ℕ
read_at xs i = elim (get_elem? xs i) [ none ↦ fault | some x ↦ ok x ]

-- `*p = blendtab[sel][a]`
unfoldable pub put_pixel : List ℕ → ℕ → ℕ → Run (List ℕ)
unfolding read_at blend
put_pixel buf p a = do
  old ← read_at buf p
  ok (set buf p (blend (if old == colsel then colsel else colbg) a))

-- The inner loop, on `k` places from `i` on of the row `j` of the glyph; `line` is the first pixel of
-- the row of the image.
unfoldable pub put_row : Glyph → ℤ → ℕ → ℕ → ℕ → ℕ → List ℕ → Run (List ℕ)
unfolding read_at put_pixel place_in
put_row g x0 line j zero i buf = ok buf
put_row g x0 line j (suc k) i buf = do
  a ← read_at g.bmp (j * g.w + i)
  buf' ← if ltb 0 a then put_pixel buf (line + place_in x0 i) a else ok buf
  put_row g x0 line j k (i + 1) buf'

-- The outer loop, on `k` rows from `j` on.
unfoldable pub put_rows : Glyph → ℤ → ℤ → ℕ → ℕ → ℕ → List ℕ → Run (List ℕ)
unfolding put_row first_in last_in place_in
put_rows g x0 y0 w zero j buf = ok buf
put_rows g x0 y0 w (suc k) j buf = do
  buf' ← put_row g x0 (place_in y0 j * w) j (last_in x0 g.w w - first_in x0) (first_in x0) buf
  put_rows g x0 y0 w k (j + 1) buf'

unfoldable pub putfont : List Font → ℕ → ℕ → ℕ → ℕ → ℕ → List ℕ → Run (List ℕ)
unfolding find_glyph put_rows first_in last_in
putfont fonts w h px py r buf = if leb nglyphs r then ok buf else elim (find_glyph fonts r) [
  | none ↦ ok buf
  | some g ↦
      let y0 = shift g.oy (py + fontsz - fontbase) in
      let x0 = shift g.ox px in
      put_rows g x0 y0 w (last_in y0 g.h h - first_in y0) (first_in y0) buf
]
