-- ===== src/Win/Area.antt =====
-- win.c: how many pixels the image has, and how many the window takes.
use strans.Base.{
  ℕ, zero, suc, ◌+◌, ◌*◌, ◌≤◌, ◌<◌, ◌≡◌, refl, List, [], ◌∷◌, ◌++◌, some, arith, leb, length,
  length-append, length-drop, length-replicate, take, drop, replicate,
}
use strans.Font.Clip.{SameLength}
use strans.Im.{Drawcmd}
use strans.Run.{Returns, if_Returns}
use strans.Win.{blank_image, memset, memset_pixel, longest}

length-take_le : (n : ℕ) (xs : List ℕ) → n ≤ length xs → length (take n xs) ≡ n
length-take_le zero xs h = refl
length-take_le (suc n) [] h = absurd (omega arith)
length-take_le (suc n) (x ∷ xs) h = omega (arith, length-take_le n xs)

pub memset-SameLength :
    (buf : List ℕ) (start c n : ℕ)
    → start + n ≤ length buf
    → Returns (memset buf start c n) (SameLength buf)
unfolding memset
memset-SameLength buf start c n h =
    let tail = drop (start + n) buf in
    let middle = replicate n (memset_pixel c) in
    if_Returns (leb (start + n) (length buf)) (SameLength buf)
      (λ _. (
        _,
        refl,
        omega (
          arith,
          length-append (take start buf) (middle ++ tail),
          length-append middle tail,
          length-replicate n (memset_pixel c),
          length-take_le start buf,
          length-drop (start + n) buf,
        ),
      ))
      λ over. absurd (ground arith)

-- The selected candidate, if there is one, is among those shown.
abbrev pub Selects : Drawcmd → Type 0
Selects dc = (s : ℕ) → dc.sel ≡ some s → s < length dc.kouho

pub area_le : (m n : ℕ) → m * n ≤ 132 → (m * 32) * (n * 32) ≤ 135168
area_le m n h = grind arith

pub length-blank_image : length blank_image ≡ 135168
unfolding blank_image
length-blank_image = length-replicate {A = ℕ} 135168 0

abbrev pub columns : Drawcmd → ℕ
columns dc = longest (length dc.pre) dc.kouho + 3

abbrev pub rows : Drawcmd → ℕ
rows dc = length dc.kouho + 1

pub selection_le : (s n w : ℕ) → s < n → (32 + s * 32) * w + 32 * w ≤ ((n + 1) * 32) * w
selection_le s n w h = grind arith

pub swap_le : (a b n : ℕ) → a * b ≤ n → b * a ≤ n
swap_le a b n h = grind arith
