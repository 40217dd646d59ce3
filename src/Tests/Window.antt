-- ===== src/Tests/Window.antt =====
-- font.c and win.c: witnesses, with a font of one glyph.
use mathlib.Core.Option.{some-injective, none-ne-some}
use strans.Base.Int.{pos, negsuc}
use strans.Base.{◌+◌, ◌*◌, ◌<◌, ◌≡◌, ap, ◌==◌, refl, ℕ, List, [], ◌∷◌, some, arith, codes, length}
use strans.Font.Cache.{
  Placing, no_glyphs, put_cached, put_anew, Sound, SameImage, put_cached-SameImage,
}
use strans.Font.Clip.{AllGlyphs}
use strans.Font.Paints.{rune_ink, Paints, putfont-Paints}
use strans.Font.Pixels.{pixel}
use strans.Font.{Glyph, Font, putfont}
use strans.Im.{Drawcmd}
use strans.Run.{Returns}
use strans.Win.Area.{columns, rows, Selects}
use strans.Win.Bounds.{Draws, winshow-Draws}
use strans.Win.Drawn.{OnScreen, winshow-Shows}
use strans.Win.Picture.{picture}
use strans.Win.{Screen, blank_image, longest, winshow}

abbrev dot : Glyph
dot = record { bmp = 255 ∷ 128 ∷ []; w = 2; h = 1; ox = negsuc 0; oy = negsuc 27 }

abbrev dots : List Font
dots = record { has = λ r. r == b'.'; bitmap = λ r. some dot } ∷ []

dots-AllGlyphs : AllGlyphs dots
dots-AllGlyphs = (
  (λ r g e.
      let s = some-injective dot g e in
      omega (arith, ap (λ x. length x.bmp) s, ap (λ x. x.h * x.w) s)),
  tt,
)

putfont-Paints_example :
    Returns
      (putfont dots 2 2 0 0 b'.' (7 ∷ 7 ∷ 7 ∷ 7 ∷ []))
      (Paints 2 2 (rune_ink dots 0 0 b'.') (7 ∷ 7 ∷ 7 ∷ 7 ∷ []))
putfont-Paints_example =
    putfont-Paints dots 2 2 0 0 b'.' (7 ∷ 7 ∷ 7 ∷ 7 ∷ []) dots-AllGlyphs (omega arith)

abbrev two_dots : List Placing
two_dots =
    record { w = 2; h = 2; px = 0; py = 0; rune = b'.' }
    ∷ record { w = 2; h = 2; px = 1; py = 0; rune = b'.' }
    ∷ []

nothing_cached : Sound dots no_glyphs
nothing_cached r g e = absurd (none-ne-some g e)

put_cached-SameImage_example :
    SameImage dots
      (put_anew dots two_dots (7 ∷ 7 ∷ 7 ∷ 7 ∷ []))
      (put_cached dots two_dots no_glyphs (7 ∷ 7 ∷ 7 ∷ 7 ∷ []))
put_cached-SameImage_example =
    put_cached-SameImage dots two_dots no_glyphs (7 ∷ 7 ∷ 7 ∷ 7 ∷ []) nothing_cached

abbrev screen : Screen
screen = record { width = 1920; height = 1080; root_x = pos 1900; root_y = negsuc 20 }

abbrev shown : Drawcmd
shown = record { pre = codes "ab"; kouho = codes "x" ∷ codes "y" ∷ []; sel = some 1 }

shown-Selects : Selects shown
shown-Selects s e = omega (arith, some-injective 1 s e)

winshow-Draws_example : Draws shown blank_image (winshow dots (some screen) shown blank_image)
winshow-Draws_example =
    winshow-Draws dots screen shown blank_image dots-AllGlyphs shown-Selects refl

winshow-Shows_example : Returns (winshow dots (some screen) shown blank_image) λ r.
    (r.0.w ≡ columns shown * 32)
    × (r.0.h ≡ rows shown * 32)
    × OnScreen screen r.0
    × ((x y : ℕ) → x < r.0.w → y < r.0.h → pixel r.1 (y * r.0.w + x) ≡ picture dots shown x y)
unfolding longest
winshow-Shows_example =
    winshow-Shows dots screen shown blank_image dots-AllGlyphs shown-Selects (omega arith) refl
