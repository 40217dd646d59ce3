-- ===== src/Key/Shown.antt =====
-- strans.c: the digit keys choose the candidates that `show` sent to the window.
use strans.Base.{
  ℕ, zero, suc, ◌+◌, ◌-◌, ◌%◌, ◌^◌, ◌≤◌, ◌<◌, ◌≡◌, refl, ap, ◌∙◌, List, [], ◌∷◌, some, arith,
  length, take, drop, get_elem?, length-drop,
}
use strans.Im.Valid.{IsValid, PreFits-short}
use strans.Im.{Im, Drawcmd, max_disp, drawcmd, first_shown}
use strans.Key.{digit}
use strans.Map.Fits.{translated-Returns}
use strans.Run.{Returns, bind_Returns}
use strans.Str.{Str}
use strans.Utf.{Utf}

get_elem?-drop : (n i : ℕ) (xs : List Str) → get_elem? (drop n xs) i ≡ get_elem? xs (n + i)
get_elem?-drop zero i xs = ap (get_elem? xs) (omega arith)
get_elem?-drop (suc n) i [] = refl
get_elem?-drop (suc n) i (x ∷ xs) =
    let s : suc (n + i) ≡ suc n + i = omega arith in
    get_elem?-drop n i xs ∙ ap (get_elem? (x ∷ xs)) s

get_elem?-take_lt : (n i : ℕ) (xs : List Str) → i < n → get_elem? (take n xs) i ≡ get_elem? xs i
get_elem?-take_lt zero i xs h = absurd (omega arith)
get_elem?-take_lt (suc n) i [] h = refl
get_elem?-take_lt (suc n) zero (x ∷ xs) h = refl
get_elem?-take_lt (suc n) (suc i) (x ∷ xs) h = get_elem?-take_lt n i xs (omega arith)

length-take_le :
    (n : ℕ) (xs : List Str) → (length (take n xs) ≤ n) × (length (take n xs) ≤ length xs)
length-take_le zero xs = (omega arith, omega arith)
length-take_le (suc n) [] = (omega arith, omega arith)
length-take_le (suc n) (x ∷ xs) =
    (omega (arith, length-take_le n xs), omega (arith, length-take_le n xs))

-- At most 8 candidates are shown, and a digit key stands for the one that is shown in its row.
pub record Shows (im : Im) (dc : Drawcmd) : Type 0 where
  pub few : length dc.kouho ≤ max_disp
  pub chosen :
      (n : ℕ)
      → n < length dc.kouho
      → (i : ℕ) × (digit (b'1' + n) im ≡ some i) × (get_elem? dc.kouho n ≡ get_elem? im.kouho i)

digit-row :
    (im : Im) (n : ℕ)
    → n < max_disp
    → first_shown im.sel + n < length im.kouho
    → digit (b'1' + n) im ≡ some (first_shown im.sel + n)
unfolding digit
digit-row im n h k =
    let e : (b'1' + n + 2 ^ 32 - b'1') % 2 ^ 32 ≡ n = omega arith in rw e (ground arith)

module _ ⦃u : Utf⦄ where
  -- In a valid state the draw command that `show` sends can be made, and has at most 8
  -- candidates; for each row of it, the digit key of that row (1 for the first) stands for the
  -- candidate of the list that is shown there.
  pub drawcmd-Shows : (im : Im) → IsValid im → Returns (drawcmd im) (Shows im)
  unfolding drawcmd
  drawcmd-Shows im v =
      bind_Returns _ (Shows im)
        (translated-Returns v.lang.map_fits im.pre (PreFits-short _ _ im.pre v.pre))
        λ pre _.
          let first = first_shown im.sel in
          let rest = drop first im.kouho in
          (
            _,
            refl,
            record {
              few = (length-take_le max_disp rest).0;
              chosen = λ n h.
                  let (a, b) = length-take_le max_disp rest in
                  let l = length-drop first im.kouho in
                  let lt : n < max_disp = omega arith in
                  let lt' : first + n < length im.kouho = omega arith in
                  (
                    first + n,
                    digit-row im n lt lt',
                    get_elem?-take_lt max_disp n rest lt ∙ get_elem?-drop first n im.kouho,
                  );
            },
          )
