-- ===== src/Xim/Screens.antt =====
-- xim/main.c and win.c: both find the screen by its number among those of the connection.
use strans.Base.{
  ℕ, zero, suc, ◌-◌, ◌≡◌, refl, false, List, [], ◌∷◌, Option, none, some, arith, ◌==◌, get_elem?,
}
use strans.Run.{Run, ok, died}
use strans.Win.{getscr}
use strans.Xim.{find_screen, getscreen}

module _ {ℓ} {A : Type ℓ} where
  getscr-get_elem? : (screens : List A) (n : ℕ) → getscr screens n ≡ get_elem? screens n
  unfolding getscr
  getscr-get_elem? [] n = refl
  getscr-get_elem? (s ∷ screens) zero = refl
  getscr-get_elem? (s ∷ screens) (suc n) =
      let later : (suc n == 0) ≡ false = ground arith in
      let back : suc n - 1 ≡ n = omega arith in rw (later, back) (getscr-get_elem? screens n)

  -- The one gives nil where the other dies.
  abbrev or_died : Option A → Run A
  or_died none = died
  or_died (some s) = ok s

  getscreen-getscr :
      (screens : List A) (n : ℕ) → getscreen (some screens) n ≡ or_died (getscr screens n)
  unfolding getscreen find_screen getscr
  getscreen-getscr [] n = refl
  getscreen-getscr (s ∷ screens) zero = refl
  getscreen-getscr (s ∷ screens) (suc n) =
      let later : (suc n == 0) ≡ false = ground arith in
      rw later (getscreen-getscr screens (suc n - 1))
