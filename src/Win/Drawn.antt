-- ===== src/Win/Drawn.antt =====
-- win.c: `winshow` draws the picture of its command.
use strans.Base.{
  ℕ, ◌+◌, ◌*◌, ◌≤◌, ◌<◌, ◌≡◌, refl, ap, ◌∙◌, true, ◌&&◌, List, Option, none, some, arith, ltb, leb,
  if◌then◌else◌, length, row_lt, Bool-cases, inl, inr,
}
use strans.Font.Clip.{AllGlyphs, line_end}
use strans.Font.Pixels.{pixel}
use strans.Font.{Font, colbg, colsel}
use strans.Im.{Drawcmd}
use strans.Base.Int.{ℤ, shift}
use strans.Run.{Returns, bind_Returns}
use strans.Win.Area.{Selects, columns, rows, area_le, swap_le, selection_le, length-blank_image}
use strans.Win.Picture.{
  layered, in_line, in_rows, in_selection, picture, memset-pixel, drawstr-Layers, draw_rows-Layers,
}
use strans.Win.{
  blank_image, memset_pixel, draw_selection, drawkouho, Screen, clamp, Frame, frame, winshow,
}

lines : (w m n : ℕ) → (m + n) * w ≡ m * w + n * w
lines w m n = omega arith

line_start : (w m n : ℕ) → m ≤ n → m * w ≤ n * w
line_start w m n le = grind arith

-- The pixels between two lines of the image are those of the rows between them.
between :
    (w x y top n : ℕ)
    → x < w
    → (leb (top * w) (y * w + x) && ltb (y * w + x) (top * w + n * w))
      ≡ (leb top y && ltb y (top + n))
between w x y top n h = elim (Bool-cases (leb top y)) [
  | inr above ↦ let end = line_end y top w (ground (arith, above)) in ground (arith, end)
  | inl below ↦
      let start = line_start w top y (ground (arith, below)) in
      elim (Bool-cases (ltb y (top + n))) [
        | inl inside ↦
            let end = line_end y (top + n) w (ground (arith, inside)) in
            let both = lines w top n in ground (arith, start, end, both)
        | inr under ↦
            let end = line_start w (top + n) y (ground (arith, under)) in
            let both = lines w top n in ground (arith, start, end, both)
      ]
]

module _ (fonts : List Font) (glyphs : AllGlyphs fonts) (w h : ℕ) where
  -- Every pixel of the window is that of the picture.
  pub record Shows (dc : Drawcmd) (img img' : List ℕ) : Type 0 where
    pub size : length img' ≡ length img
    pub shown : (x y : ℕ) → x < w → y < h → pixel img' (y * w + x) ≡ picture fonts dc x y

  record Marked (sel : Option ℕ) (img img' : List ℕ) : Type 0 where
    size : length img' ≡ length img
    shown :
        (x y : ℕ)
        → x < w
        → pixel img' (y * w + x)
          ≡ (if in_selection sel y then memset_pixel colsel else pixel img (y * w + x))

  on_image : (x y : ℕ) → x < w → y < h → (leb 0 (y * w + x) && ltb (y * w + x) (0 + w * h)) ≡ true
  on_image x y hx hy =
      let inside = row_lt y h w x hy hx in
      let swap : h * w ≡ w * h = omega arith in ground (arith, inside, swap)

  draw_selection-Marked :
      (sel : Option ℕ) (img : List ℕ)
      → ((s : ℕ) → sel ≡ some s → (32 + s * 32) * w + 32 * w ≤ length img)
      → Returns (draw_selection sel w img) (Marked sel img)
  unfolding draw_selection in_selection
  draw_selection-Marked none img fits = (img, refl, record { size = refl; shown = λ x y _. refl })
  draw_selection-Marked (some s) img fits =
      let (img', run, (size, shown)) =
        memset-pixel img ((32 + s * 32) * w) colsel (32 * w) (fits s refl) in
      (
        img',
        run,
        record {
          size = size;
          shown = λ x y hx.
              shown (y * w + x)
              ∙ ap (λ b. if b then memset_pixel colsel else pixel img (y * w + x))
                  (between w x y (32 + s * 32) 32 hx);
        },
      )

  pub drawkouho-Shows :
      (dc : Drawcmd) (img : List ℕ)
      → w * h ≤ length img
      → h * w ≤ length img
      → ((s : ℕ) → dc.sel ≡ some s → (32 + s * 32) * w + 32 * w ≤ length img)
      → Returns (drawkouho fonts dc w h img) (Shows dc img)
  unfolding drawkouho picture
  drawkouho-Shows dc img fits fits' sel =
      bind_Returns _ (Shows dc img) (memset-pixel img 0 colbg (w * h) (omega arith)) λ a m.
        bind_Returns _ (Shows dc img)
          (drawstr-Layers fonts glyphs w h 0 0 dc.pre a (omega (arith, m.0, fits')))
          λ b l.
            bind_Returns _ (Shows dc img)
              (draw_selection-Marked dc.sel b λ s e. omega (arith, sel s e, l.size, m.0))
              λ c k.
                let (img', run, r) =
                  draw_rows-Layers fonts glyphs w h 0 dc.kouho c
                    (omega (arith, k.size, l.size, m.0, fits')) in
                (
                  img',
                  run,
                  record {
                    size = r.size ∙ k.size ∙ l.size ∙ m.0;
                    shown = λ x y hx hy.
                        r.shown x y hx hy
                        ∙ ap (layered fonts (in_rows 0 dc.kouho) x y) (
                            k.shown x y hx
                            ∙ ap (λ c. if in_selection dc.sel y then memset_pixel colsel else c)
                                (l.shown x y hx hy
                                  ∙ ap (layered fonts (in_line 0 0 dc.pre) x y) (
                                      m.1 (y * w + x)
                                      ∙ ap
                                          (λ b.
                                            if b then memset_pixel colbg else pixel img (y * w + x))
                                          (on_image x y hx hy))));
                  },
                )

-- The window stands on the screen where it is not larger than the screen.
pub record OnScreen (scr : Screen) (f : Frame) : Type 0 where
  pub across : f.w ≤ scr.width → f.x + f.w ≤ scr.width
  pub down : f.h ≤ scr.height → f.y + f.h ≤ scr.height

clamp_le : (p : ℤ) (screen size : ℕ) → size ≤ screen → clamp p screen size + size ≤ screen
unfolding clamp
clamp_le p screen size h = ground arith

frame-OnScreen : (scr : Screen) (dc : Drawcmd) → OnScreen scr (frame scr dc)
unfolding frame
frame-OnScreen scr dc = record {
  across = clamp_le (shift scr.root_x 10) scr.width _;
  down = clamp_le (shift scr.root_y 10) scr.height _;
}

-- If every bitmap has a byte for each place of its glyph, the selected candidate is among those
-- shown, the longest string has so many runes that this number plus 3, times the number of
-- candidates plus 1, is at most 132, and the image is as large as `wininit` allocates it, then
-- `winshow` returns. The window has 32 by 32 pixels for each of that number plus 3 columns and of
-- the candidates plus 1 rows, and ends within the width of the screen if it is not wider than the
-- screen, and within its height if it is not higher, wherever the pointer is. Each pixel of the
-- window in the image is that of a picture given by column and row: the background, on it the
-- preedit in the cells of the first row, the selected candidate on the colour of the selection,
-- and in the row of each candidate its full-width number, a cell of space, and its runes in cells
-- next to each other.
pub winshow-Shows :
    (fonts : List Font) (scr : Screen) (dc : Drawcmd) (img : List ℕ)
    → AllGlyphs fonts
    → Selects dc
    → columns dc * rows dc ≤ 132
    → length img ≡ length blank_image
    → Returns (winshow fonts (some scr) dc img) λ r.
      (r.0.w ≡ columns dc * 32)
      × (r.0.h ≡ rows dc * 32)
      × OnScreen scr r.0
      × ((x y : ℕ) → x < r.0.w → y < r.0.h → pixel r.1 (y * r.0.w + x) ≡ picture fonts dc x y)
winshow-Shows fonts scr dc img glyphs sel small full =
    let w = columns dc * 32 in
    let h = rows dc * 32 in
    let area : w * h ≤ length img =
      omega (arith, area_le (columns dc) (rows dc) small, full, length-blank_image) in
    let area' = swap_le w h (length img) area in
    let on_screen = frame-OnScreen scr dc in
    (unfold winshow frame in
      bind_Returns (Shows fonts glyphs w h dc img) _
        (drawkouho-Shows fonts glyphs w h dc img area area'
          λ s e. omega (arith, selection_le s (length dc.kouho) w (sel s e)))
        λ img' s. (_, refl, (refl, refl, on_screen, s.shown)))
