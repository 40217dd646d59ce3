-- ===== src/Win.antt =====
-- win.c: the window with the preedit and the candidates. The calls of xcb are left out; what they
-- return is an argument, and what is drawn is the image that `putimage` sends.
pub mod Area
pub mod Bounds
pub mod Picture
pub mod Drawn
use strans.Base.{
  ℕ, zero, suc, ◌+◌, ◌-◌, ◌*◌, ◌%◌, ◌^◌, Bool, List, [], ◌∷◌, ◌++◌, Option, none, some, ltb, leb,
  ◌==◌, ◌&&◌, if◌then◌else◌, length, take, drop, replicate,
}
use strans.Base.Int.{ℤ, pos_part, shift}
use strans.Font.{Font, fontsz, colbg, colsel, putfont}
use strans.Im.{Drawcmd, max_disp}
use strans.Run.{Run, ok, died, fault, ◌>>=◌}
use strans.Str.{Str}

abbrev pub asciitofull : ℕ
asciitofull = 0xfee0

-- dat.h
abbrev pub imgw : ℕ
imgw = 512

abbrev pub imgh : ℕ
imgh = max_disp * fontsz + 8

-- `img` after `wininit`.
unfoldable pub blank_image : List ℕ
blank_image = replicate (imgw * imgh) 0

-- `getscr`, on the screens of the connection; `none` is nil.
unfoldable pub getscr {ℓ} : {A : Type ℓ} → List A → ℕ → Option A
getscr [] n = none
getscr (s ∷ screens) n = let later = getscr screens (n - 1) in if n == 0 then some s else later

-- `drawstr`
unfoldable pub drawstr : List Font → ℕ → ℕ → ℕ → ℕ → Str → List ℕ → Run (List ℕ)
drawstr fonts maxw maxh x y [] buf = ok buf
drawstr fonts maxw maxh x y (r ∷ s) buf = do
  buf' ← putfont fonts maxw maxh x y r buf
  drawstr fonts maxw maxh (x + fontsz) y s buf'

-- A pixel of four bytes that `memset` sets to `c`.
unfoldable pub memset_pixel : ℕ → ℕ
memset_pixel c = let b = c % 256 in b * 2 ^ 24 + b * 2 ^ 16 + b * 2 ^ 8 + b

-- `memset(buf + at, (uchar)c, n * sizeof(u32int))`
unfoldable pub memset : List ℕ → ℕ → ℕ → ℕ → Run (List ℕ)
unfolding memset_pixel
memset buf at c n =
    if leb (at + n) (length buf)
    then ok (take at buf ++ (replicate n (memset_pixel c) ++ drop (at + n) buf))
    else fault

-- The loop of `drawkouho`; `i` counts from 0, and `first` is 0.
unfoldable pub draw_rows : List Font → ℕ → ℕ → ℕ → List Str → List ℕ → Run (List ℕ)
unfolding drawstr
draw_rows fonts w h i [] img = ok img
draw_rows fonts w h i (s ∷ ss) img = do
  let y = fontsz + i * fontsz
  numbered ← putfont fonts w h 0 y (b'1' + i + asciitofull) img
  img' ← drawstr fonts w h (2 * fontsz) y s numbered
  draw_rows fonts w h (i + 1) ss img'

unfoldable pub draw_selection : Option ℕ → ℕ → List ℕ → Run (List ℕ)
unfolding memset
draw_selection none w img = ok img
draw_selection (some sel) w img = memset img ((fontsz + sel * fontsz) * w) colsel (fontsz * w)

unfoldable pub drawkouho : List Font → Drawcmd → ℕ → ℕ → List ℕ → Run (List ℕ)
unfolding memset draw_selection draw_rows drawstr
drawkouho fonts dc w h img = do
  cleared ← memset img 0 colbg (w * h)
  lettered ← drawstr fonts w h 0 0 dc.pre cleared
  marked ← draw_selection dc.sel w lettered
  draw_rows fonts w h 0 dc.kouho marked

-- The loop of `winshow` that finds the longest candidate.
unfoldable pub longest : ℕ → List Str → ℕ
longest maxw [] = maxw
longest maxw (s ∷ ss) = longest (if ltb (length s) maxw then maxw else length s) ss

-- `max(0, min(p, screen - size))`; a difference below 0 is 0 here, and so is the maximum.
unfoldable pub clamp : ℤ → ℕ → ℕ → ℕ
clamp p screen size = let q = screen - size in if ltb (pos_part p) q then pos_part p else q

-- Place and size of the window.
pub record Frame : Type 0 where
  pub x : ℕ
  pub y : ℕ
  pub w : ℕ
  pub h : ℕ

-- The screen, and what `xcb_query_pointer` returns of the pointer.
pub record Screen : Type 0 where
  pub width : ℕ
  pub height : ℕ
  pub root_x : ℤ
  pub root_y : ℤ

unfoldable pub frame : Screen → Drawcmd → Frame
unfolding longest clamp
frame scr dc =
    let w = (longest (length dc.pre) dc.kouho + 3) * fontsz in
    let h = (length dc.kouho + 1) * fontsz in
    record {
      x = clamp (shift scr.root_x 10) scr.width w;
      y = clamp (shift scr.root_y 10) scr.height h;
      w = w;
      h = h;
    }

-- `winshow`; there is no `Screen` where the query of the pointer gives nil.
unfoldable pub winshow : List Font → Option Screen → Drawcmd → List ℕ → Run (Frame × List ℕ)
unfolding frame drawkouho
winshow fonts none dc img = died
winshow fonts (some scr) dc img =
    let f = frame scr dc in do img' ← drawkouho fonts dc f.w f.h img; ok (f, img')

-- Of the commands that wait in the channel, the newest is drawn.
unfoldable pub newest : Drawcmd → List Drawcmd → Drawcmd
newest dc [] = dc
newest dc (d ∷ ds) = newest d ds

-- A round of `drawthread`: the window is hidden (`none`) or shown.
unfoldable pub draw_round :
    List Font → Option Screen → Drawcmd → List Drawcmd → List ℕ → Run (Option Frame × List ℕ)
unfolding newest winshow
draw_round fonts scr dc waiting img =
    let last = newest dc waiting in
    if length last.kouho == 0 && length last.pre == 0
    then ok (none, img)
    else winshow fonts scr last img >>= (λ r. ok (some r.0, r.1))
