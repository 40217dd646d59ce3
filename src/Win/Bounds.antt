-- ===== src/Win/Bounds.antt =====
-- win.c: when the image has room for the window, and where the window stands.
use strans.Base.{false, ℕ, ◌+◌, ◌*◌, ◌≤◌, ◌<◌, ◌≡◌, refl, List, some, arith, leb, length}
use strans.Font.Clip.{AllGlyphs, SameLength}
use strans.Font.{Font}
use strans.Im.{Drawcmd}
use strans.Run.{Run, fault, ◌>>=◌, Returns, bind_Returns}
use strans.Win.Area.{Selects, columns, rows, area_le, swap_le, selection_le, length-blank_image}
use strans.Win.Drawn.{Shows, drawkouho-Shows}
use strans.Win.{blank_image, memset, drawkouho, Frame, Screen, frame, winshow}

area_gt : (m n : ℕ) → 132 < m * n → 135168 < (m * 32) * (n * 32)
area_gt m n h = grind arith

-- Room for 132 cells of 32 by 32 pixels: what fits is drawn within the image, and what does not fit
-- is written past its end.
pub record Draws (dc : Drawcmd) (img : List ℕ) (r : Run (Frame × List ℕ)) : Type 0 where
  pub fits : columns dc * rows dc ≤ 132 → Returns r λ out. SameLength img out.1
  pub overflows : 132 < columns dc * rows dc → r ≡ fault

-- If every bitmap has a byte for each place of its glyph, the selected candidate is among those
-- shown, and the image is as large as `wininit` allocates it, then `winshow` returns, with an
-- image of the same size, if the longest string has so many runes that this number plus 3, times
-- the number of candidates plus 1, is at most 132; and otherwise it writes outside of the image.
pub winshow-Draws :
    (fonts : List Font) (scr : Screen) (dc : Drawcmd) (img : List ℕ)
    → AllGlyphs fonts
    → Selects dc
    → length img ≡ length blank_image
    → Draws dc img (winshow fonts (some scr) dc img)
winshow-Draws fonts scr dc img glyphs sel full = record {
  fits = λ small.
      let w = columns dc * 32 in
      let h = rows dc * 32 in
      let area : w * h ≤ length img =
        omega (arith, area_le (columns dc) (rows dc) small, full, length-blank_image) in
      let area' = swap_le w h (length img) area in
      (unfold winshow frame in
        bind_Returns (Shows fonts glyphs w h dc img) (λ out. SameLength img out.1)
          (drawkouho-Shows fonts glyphs w h dc img area area'
            λ s e. omega (arith, selection_le s (length dc.kouho) w (sel s e)))
          λ img' s. (_, refl, s.size));
  overflows = λ large.
      let over : (leb (0 + columns dc * 32 * (rows dc * 32)) (length img)) ≡ false =
        ground (arith, area_gt (columns dc) (rows dc) large, full, length-blank_image) in
      (unfold winshow frame drawkouho memset in rw (over, ◌>>=◌) refl);
}
