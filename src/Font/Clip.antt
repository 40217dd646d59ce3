-- ===== src/Font/Clip.antt =====
-- font.c: where a glyph lies, and that the places in the clipped bounds lie in the image.
use strans.Base.{
  ℕ, ◌+◌, ◌*◌, ◌≤◌, ◌<◌, ◌≡◌, refl, ◌∙◌, List, [], ◌∷◌, Option, none, some, arith, length,
  Bool-cases, inl, inr,
}
use strans.Base.Int.{ℤ}
use strans.Font.{Glyph, Font, find_glyph, first_in, last_in, place_in}

-- A bitmap has a byte for each place of the glyph.
abbrev pub AllGlyphs : List Font → Type 0
AllGlyphs [] = Unit {0}
AllGlyphs (f ∷ fonts) =
    ((r : ℕ) (g : Glyph) → f.bitmap r ≡ some g → length g.bmp ≡ g.h * g.w) × AllGlyphs fonts

pub find_glyph-AllGlyphs :
    (fonts : List Font) (r : ℕ) (g : Glyph)
    → AllGlyphs fonts
    → find_glyph fonts r ≡ some g
    → length g.bmp ≡ g.h * g.w
unfolding find_glyph
find_glyph-AllGlyphs [] r g h e = cc
find_glyph-AllGlyphs (f ∷ fonts) r g h e = elim (Bool-cases (f.has r)) [
  | inr lacks ↦ find_glyph-AllGlyphs fonts r g h.1 (rw lacks at e)
  | inl has ↦ here (find_glyph-AllGlyphs fonts r g h.1) (f.bitmap r) refl (rw has at e)
]
  where
    here :
        (find_glyph fonts r ≡ some g → length g.bmp ≡ g.h * g.w)
        → (o : Option Glyph) → f.bitmap r ≡ o
        → elim o [ some g ↦ some g | none ↦ find_glyph fonts r ] ≡ some g
        → length g.bmp ≡ g.h * g.w
    here later none b e = later e
    here later (some g') b e = h.0 r g (b ∙ e)

abbrev pub SameLength : List ℕ → List ℕ → Type 0
SameLength buf buf' = length buf' ≡ length buf

-- A place between the first and the last lies in the glyph and in the bound.
pub in_bounds :
    (z : ℤ) (size bound i : ℕ)
    → first_in z ≤ i
    → i < last_in z size bound
    → (i < size) × (place_in z i < bound)
unfolding first_in last_in place_in
in_bounds z size bound i lo hi = ground arith

pub line_end : (y h w : ℕ) → y < h → y * w + w ≤ h * w
line_end y h w lt = grind arith
