-- ===== src/Win/Picture.antt =====
-- win.c: the image that `winshow` draws, apart from its loops: which runes stand in which cells.
use strans.Base.{
  ℕ, zero, suc, ◌+◌, ◌*◌, ◌≤◌, ◌<◌, ◌≡◌, refl, sym, ap, ◌∙◌, true, false, Bool, ◌&&◌, List, [], ◌∷◌,
  ◌++◌, Option, none, some, arith, ltb, leb, if◌then◌else◌, length, take, drop, replicate, get_or,
}
use strans.Font.Clip.{AllGlyphs}
use strans.Font.Paints.{rune_ink, Paints, putfont-Paints}
use strans.Font.Pixels.{pixel, inked}
use strans.Font.{Font, fontsz}
use strans.Im.{Drawcmd}
use strans.Run.{Returns, bind_Returns, of_run}
use strans.Str.{Str}
use strans.Win.Area.{memset-SameLength}
use strans.Win.{asciitofull, drawstr, memset, memset_pixel, draw_rows}

-- A rune with its left end and the top of its cell.
pub record Placed : Type 0 where
  pub rune : ℕ
  pub px : ℕ
  pub py : ℕ

-- A string from `px` on, in cells next to each other.
unfoldable pub in_line : ℕ → ℕ → Str → List Placed
in_line px py [] = []
in_line px py (r ∷ s) = record { rune = r; px = px; py = py } ∷ in_line (px + fontsz) py s

-- The candidates from the row `i` on, below the preedit, each behind its number and a cell of space.
unfoldable pub in_rows : ℕ → List Str → List Placed
in_rows i [] = []
in_rows i (s ∷ ss) =
    let y = fontsz + i * fontsz in
    record { rune = b'1' + i + asciitofull; px = 0; py = y }
    ∷ (in_line (2 * fontsz) y s ++ in_rows (i + 1) ss)

-- The pixel in the column `x` and the row `y`, after these runes were drawn in their order.
unfoldable pub layered : List Font → List Placed → ℕ → ℕ → ℕ → ℕ
layered fonts [] x y old = old
layered fonts (p ∷ ps) x y old =
    layered fonts ps x y (inked old (rune_ink fonts p.px p.py p.rune x y))

-- Whether the pixel row is one of the selected candidate.
unfoldable pub in_selection : Option ℕ → ℕ → Bool
in_selection none y = false
in_selection (some s) y = leb (fontsz + s * fontsz) y && ltb y (fontsz + s * fontsz + fontsz)

-- The preedit on the background, the selected row over it, and the candidates on top.
unfoldable pub picture : List Font → Drawcmd → ℕ → ℕ → ℕ
picture fonts dc x y =
    let under = layered fonts (in_line 0 0 dc.pre) x y 0xffffffff in
    let marked = if in_selection dc.sel y then 0xcccccccc else under in
    layered fonts (in_rows 0 dc.kouho) x y marked

layered-append :
    (fonts : List Font) (ps qs : List Placed) (x y old : ℕ)
    → layered fonts (ps ++ qs) x y old ≡ layered fonts qs x y (layered fonts ps x y old)
unfolding layered
layered-append fonts [] qs x y old = refl
layered-append fonts (p ∷ ps) qs x y old = layered-append fonts ps qs x y _

-- A stretch of memory that `memset` fills.
fill_pixel :
    (start n stop v : ℕ) (xs : List ℕ) (i : ℕ)
    → stop ≡ start + n
    → stop ≤ length xs
    → get_or (take start xs ++ (replicate n v ++ drop stop xs)) i 0
      ≡ (if leb start i && ltb i stop then v else get_or xs i 0)
fill_pixel zero zero zero v xs i e h = ground arith
fill_pixel zero zero (suc stop) v xs i e h = absurd (omega (arith, e))
fill_pixel zero (suc n) zero v xs i e h = absurd (omega (arith, e))
fill_pixel zero (suc n) (suc stop) v [] i e h = absurd (omega arith)
fill_pixel zero (suc n) (suc stop) v (x ∷ xs) zero e h = ground arith
fill_pixel zero (suc n) (suc stop) v (x ∷ xs) (suc i) e h =
    ground (arith, fill_pixel zero n stop v xs i (omega (arith, e)) (omega arith))
fill_pixel (suc start) n zero v xs i e h = absurd (omega (arith, e))
fill_pixel (suc start) n (suc stop) v [] i e h = absurd (omega arith)
fill_pixel (suc start) n (suc stop) v (x ∷ xs) zero e h = ground arith
fill_pixel (suc start) n (suc stop) v (x ∷ xs) (suc i) e h =
    ground (arith, fill_pixel start n stop v xs i (omega (arith, e)) (omega arith))

pub memset-pixel :
    (buf : List ℕ) (start c n : ℕ)
    → start + n ≤ length buf
    → Returns (memset buf start c n) λ buf'.
      (length buf' ≡ length buf)
      × ((i : ℕ)
          → pixel buf' i
            ≡ (if leb start i && ltb i (start + n) then memset_pixel c else pixel buf i))
unfolding memset
memset-pixel buf start c n h =
    let fits : leb (start + n) (length buf) ≡ true = ground (arith, h) in
    (
      take start buf ++ (replicate n (memset_pixel c) ++ drop (start + n) buf),
      rw (fits, memset) refl,
      (
        of_run (rw (fits, memset) refl) (memset-SameLength buf start c n h),
        λ i. fill_pixel start n (start + n) (memset_pixel c) buf i refl h,
      ),
    )

module _ (fonts : List Font) (glyphs : AllGlyphs fonts) (w h : ℕ) where
  pub record Layers (ps : List Placed) (buf buf' : List ℕ) : Type 0 where
    pub size : length buf' ≡ length buf
    pub shown :
        (x y : ℕ)
        → x < w
        → y < h
        → pixel buf' (y * w + x) ≡ layered fonts ps x y (pixel buf (y * w + x))

  Layers-trans :
      (ps qs : List Placed) (buf mid buf' : List ℕ)
      → Layers ps buf mid
      → Layers qs mid buf'
      → Layers (ps ++ qs) buf buf'
  Layers-trans ps qs buf mid buf' l k = record {
    size = k.size ∙ l.size;
    shown = λ x y hx hy.
        k.shown x y hx hy
        ∙ ap (layered fonts qs x y) (l.shown x y hx hy)
        ∙ sym (layered-append fonts ps qs x y (pixel buf (y * w + x)));
  }

  -- One rune, and those drawn after it.
  Layers-cons :
      (p : Placed) (ps : List Placed) (buf mid buf' : List ℕ)
      → Paints w h (rune_ink fonts p.px p.py p.rune) buf mid
      → Layers ps mid buf'
      → Layers (p ∷ ps) buf buf'
  unfolding layered
  Layers-cons p ps buf mid buf' d k = record {
    size = k.size ∙ d.size;
    shown = λ x y hx hy. k.shown x y hx hy ∙ ap (layered fonts ps x y) (d.shown x y hx hy);
  }

  no_layer : (buf : List ℕ) → Layers [] buf buf
  unfolding layered
  no_layer buf = record { size = refl; shown = λ x y _ _. refl }

  pub drawstr-Layers :
      (x y : ℕ) (s : Str) (buf : List ℕ)
      → h * w ≤ length buf
      → Returns (drawstr fonts w h x y s buf) (Layers (in_line x y s) buf)
  unfolding drawstr in_line
  drawstr-Layers x y [] buf fits = (buf, refl, no_layer buf)
  drawstr-Layers x y (r ∷ s) buf fits =
      bind_Returns (Paints w h (rune_ink fonts x y r) buf) _
        (putfont-Paints fonts w h x y r buf glyphs fits)
        λ mid d.
          let (buf', run, k) = drawstr-Layers (x + fontsz) y s mid (omega (arith, d.size, fits)) in
          (buf', run, Layers-cons (record { rune = r; px = x; py = y }) _ buf mid buf' d k)

  pub draw_rows-Layers :
      (i : ℕ) (ss : List Str) (img : List ℕ)
      → h * w ≤ length img
      → Returns (draw_rows fonts w h i ss img) (Layers (in_rows i ss) img)
  unfolding draw_rows in_rows
  draw_rows-Layers i [] img fits = (img, refl, no_layer img)
  draw_rows-Layers i (s ∷ ss) img fits =
      let y = fontsz + i * fontsz in
      let number : Placed = record { rune = b'1' + i + asciitofull; px = 0; py = y } in
      bind_Returns (Paints w h (rune_ink fonts 0 y (b'1' + i + asciitofull)) img) _
        (putfont-Paints fonts w h 0 y (b'1' + i + asciitofull) img glyphs fits)
        λ numbered d.
          bind_Returns (Layers (in_line (2 * fontsz) y s) numbered) _
            (drawstr-Layers (2 * fontsz) y s numbered (omega (arith, d.size, fits)))
            λ mid l.
              let (img', run, k) =
                draw_rows-Layers (i + 1) ss mid (omega (arith, l.size, d.size, fits)) in
              (
                img',
                run,
                Layers-cons number _ img numbered img' d (
                    Layers-trans (in_line (2 * fontsz) y s) (in_rows (i + 1) ss) numbered mid img' l
                      k),
              )
