-- ===== src/Ko/Tables.antt =====
-- ko.c: the constant tables.
use strans.Base.{ℕ, zero, suc, ◌+◌, List, [], ◌∷◌, ◌==◌, if◌then◌else◌, codes}

abbrev pub sbase : ℕ
sbase = 0xAC00

abbrev pub jbase : ℕ
jbase = 0x3131

abbrev pub jrange : ℕ
jrange = 51

abbrev pub ncho : ℕ
ncho = 19

abbrev pub njung : ℕ
njung = 21

abbrev pub njong : ℕ
njong = 28

abbrev pub cho : List ℕ
cho = codes "ㄱㄲㄴㄷㄸㄹㅁㅂㅃㅅㅆㅇㅈㅉㅊㅋㅌㅍㅎ"

abbrev pub jung : List ℕ
jung = codes "ㅏㅐㅑㅒㅓㅔㅕㅖㅗㅘㅙㅚㅛㅜㅝㅞㅟㅠㅡㅢㅣ"

abbrev pub jong : List ℕ
jong = 0 ∷ codes "ㄱㄲㄳㄴㄵㄶㄷㄹㄺㄻㄼㄽㄾㄿㅀㅁㅂㅄㅅㅆㅇㅈㅊㅋㅌㅍㅎ"

-- The value that the designated initialisers `[k₀] = v, [k₁] = v + 1, …` give to the place `i`.
initialised : List ℕ → ℕ → ℕ → ℕ
initialised [] v i = 0
initialised (k ∷ ks) v i = if k == i then v else initialised ks (v + 1) i

-- `n` places of the table, from the place `i` on.
filled : ℕ → (ℕ → ℕ) → ℕ → List ℕ
filled zero f i = []
filled (suc n) f i = f i ∷ filled n f (i + 1)

-- The places are written as the jamo, `Jbase` included.
unfoldable pub choidx : List ℕ
unfolding initialised filled
choidx = filled jrange (initialised (codes "ㄱㄲㄴㄷㄸㄹㅁㅂㅃㅅㅆㅇㅈㅉㅊㅋㅌㅍㅎ") 1) jbase

unfoldable pub jungidx : List ℕ
unfolding initialised filled
jungidx = filled jrange (initialised (codes "ㅏㅐㅑㅒㅓㅔㅕㅖㅗㅘㅙㅚㅛㅜㅝㅞㅟㅠㅡㅢㅣ") 1) jbase

unfoldable pub jongidx : List ℕ
unfolding initialised filled
jongidx = filled jrange (initialised (codes "ㄱㄲㄳㄴㄵㄶㄷㄹㄺㄻㄼㄽㄾㄿㅀㅁㅂㅄㅅㅆㅇㅈㅊㅋㅌㅍㅎ") 2) jbase

-- The rune of the first key `c`, in two rows that stand under one another.
rune_of : List ℕ → List ℕ → ℕ → ℕ
rune_of (k ∷ ks) (r ∷ rs) c = if k == c then r else rune_of ks rs c
rune_of _ _ c = 0

unfoldable pub jamomap : List ℕ
unfolding rune_of filled
jamomap =
    filled 128
      (rune_of (codes "rRsSeEfFaAqQtTdDwWcCzZxXvVgGkKoOiIjJpPuUhHyYnNbBmMlL")
        (codes "ㄱㄲㄴㄴㄷㄸㄹㄹㅁㅁㅂㅃㅅㅆㅇㅇㅈㅉㅊㅊㅋㅋㅌㅌㅍㅍㅎㅎㅏㅏㅐㅒㅑㅑㅓㅓㅔㅖㅕㅕㅗㅗㅛㅛㅜㅜㅠㅠㅡㅡㅣㅣ"))
      0

-- `b` and `a`, one after the other, combine to `r`.
pub record Cpair : Type 0 where
  pub b : ℕ
  pub a : ℕ
  pub r : ℕ

-- Three rows of runes, read column by column.
pairs : List ℕ → List ℕ → List ℕ → List Cpair
pairs (x ∷ xs) (y ∷ ys) (z ∷ zs) = record { b = x; a = y; r = z } ∷ pairs xs ys zs
pairs _ _ _ = []

unfoldable pub cvow : List Cpair
unfolding pairs
cvow = pairs (codes "ㅗㅗㅗㅜㅜㅜㅡ") (codes "ㅏㅐㅣㅓㅔㅣㅣ") (codes "ㅘㅙㅚㅝㅞㅟㅢ")

unfoldable pub cjong : List Cpair
unfolding pairs
cjong = pairs (codes "ㄱㄴㄴㄹㄹㄹㄹㄹㄹㄹㅂ") (codes "ㅅㅈㅎㄱㅁㅂㅅㅌㅍㅎㅅ") (codes "ㄳㄵㄶㄺㄻㄼㄽㄾㄿㅀㅄ")
