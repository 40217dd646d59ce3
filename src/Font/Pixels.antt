-- ===== src/Font/Pixels.antt =====
-- font.c: what `putfont` makes of each pixel.
use strans.Base.{
  ℕ, zero, suc, ◌+◌, ◌-◌, ◌*◌, ◌/◌, ◌%◌, ◌≤◌, ◌<◌, ◌≡◌, ◌≢◌, refl, ap, ◌∙◌, List, [], ◌∷◌, some,
  arith, ltb, ◌==◌, if◌then◌else◌, length, length-set, set, get_or, get_elem?, row_lt, Bool-cases,
  inl, inr, ==_iff, subst,
}
use strans.Base.Int.{ℤ}
use strans.Font.Clip.{in_bounds}
use strans.Font.{Glyph, blend, first_in, last_in, place_in, read_at, put_pixel, put_row}
use strans.Run.{ok, ◌>>=◌, Returns, bind_Returns}

module _ {ℓ} {A : Type ℓ} where
  get_elem?-get_or :
      (xs : List A) (i : ℕ) (d : A) → i < length xs → get_elem? xs i ≡ some (get_or xs i d)
  get_elem?-get_or [] i d h = absurd (omega arith)
  get_elem?-get_or (x ∷ xs) zero d h = refl
  get_elem?-get_or (x ∷ xs) (suc i) d h = get_elem?-get_or xs i d (omega arith)

  get_or-set_self : (xs : List A) (i : ℕ) (v d : A) → i < length xs → get_or (set xs i v) i d ≡ v
  get_or-set_self [] i v d h = absurd (omega arith)
  get_or-set_self (x ∷ xs) zero v d h = refl
  get_or-set_self (x ∷ xs) (suc i) v d h = get_or-set_self xs i v d (omega arith)

  get_or-set_ne :
      (xs : List A) (i j : ℕ) (v d : A) → j ≢ i → get_or (set xs i v) j d ≡ get_or xs j d
  get_or-set_ne [] i j v d n = refl
  get_or-set_ne (x ∷ xs) zero zero v d n = absurd (n refl)
  get_or-set_ne (x ∷ xs) zero (suc j) v d n = refl
  get_or-set_ne (x ∷ xs) (suc i) zero v d n = refl
  get_or-set_ne (x ∷ xs) (suc i) (suc j) v d n = get_or-set_ne xs i j v d λ e. n (omega (arith, e))

-- A pixel of the image.
abbrev pub pixel : List ℕ → ℕ → ℕ
pixel buf p = get_or buf p 0

-- The lowest byte of a colour under ink of this strength, of which 255 leaves nothing.
abbrev dim : ℕ → ℕ → ℕ
dim colour a = (colour % 256) * (255 - a) / 255

-- Red, green and blue, each as dark as the ink makes it.
abbrev pub darkened : ℕ → ℕ → ℕ
darkened colour a = dim (colour / 65536) a * 65536 + dim (colour / 256) a * 256 + dim colour a

blend-darkened : (colour a : ℕ) → blend colour a ≡ darkened colour a
unfolding blend
blend-darkened colour a = refl

-- A pixel with ink of a strength on it: 0 leaves it, and more darkens the colour of the selected row or
-- that of the background.
unfoldable pub inked : ℕ → ℕ → ℕ
inked old a = if ltb 0 a then darkened (if old == 0xcccccc then 0xcccccc else 0xffffff) a else old

-- The strength of the ink of a glyph in its column `i` and row `j`.
abbrev pub ink : Glyph → ℕ → ℕ → ℕ
ink g i j = pixel g.bmp (j * g.w + i)

-- No two columns of a glyph from the first on have one place.
pub place_in-injective :
    (z : ℤ) (i k : ℕ) → first_in z ≤ i → first_in z ≤ k → place_in z i ≡ place_in z k → i ≡ k
unfolding place_in first_in
place_in-injective z i k h h' e = omega (arith, h, h', e)

read_at-pixel : (xs : List ℕ) (i : ℕ) → i < length xs → read_at xs i ≡ ok (pixel xs i)
unfolding read_at
read_at-pixel xs i h = rw (get_elem?-get_or xs i 0 h, read_at) refl

-- What one place does: ink at the pixel `p`, and nothing elsewhere.
record Dots (p a : ℕ) (buf buf' : List ℕ) : Type 0 where
  size : length buf' ≡ length buf
  here : pixel buf' p ≡ inked (pixel buf p) a
  elsewhere : (q : ℕ) → q ≢ p → pixel buf' q ≡ pixel buf q

dot-Dots :
    (p a : ℕ) (buf : List ℕ)
    → p < length buf
    → Returns (if ltb 0 a then put_pixel buf p a else ok buf) (Dots p a buf)
unfolding put_pixel inked
dot-Dots p a buf h = elim (Bool-cases (ltb 0 a)) [
  | inl black ↦
      rw (black, read_at-pixel buf p h, ◌>>=◌)
        (
          _,
          refl,
          record {
            size = length-set buf p _;
            here = get_or-set_self buf p _ 0 h ∙ (rw (black, inked) (blend-darkened _ a));
            elsewhere = λ q n. get_or-set_ne buf p q _ 0 n;
          },
        )
  | inr clear ↦
      rw clear
        (buf, refl, record { size = refl; here = rw (clear, inked) refl; elsewhere = λ q n. refl })
]

-- The inner loop over the columns from `i` up to `stop`, which lie from `line` on.
pub record RowInks (g : Glyph) (x0 : ℤ) (line j i stop : ℕ) (buf buf' : List ℕ) : Type 0 where
  pub size : length buf' ≡ length buf
  pub inside :
      (k : ℕ)
      → i ≤ k
      → k < stop
      → pixel buf' (line + place_in x0 k) ≡ inked (pixel buf (line + place_in x0 k)) (ink g k j)
  pub outside :
      (q : ℕ) → ((k : ℕ) → i ≤ k → k < stop → q ≢ line + place_in x0 k) → pixel buf' q ≡ pixel buf q

module _ (g : Glyph) (full : length g.bmp ≡ g.h * g.w) (x0 : ℤ) (w : ℕ) where
  RowInks-cons :
      (line j i stop : ℕ) (buf mid buf' : List ℕ)
      → first_in x0 ≤ i
      → i < stop
      → Dots (line + place_in x0 i) (ink g i j) buf mid
      → RowInks g x0 line j (i + 1) stop mid buf'
      → RowInks g x0 line j i stop buf buf'
  RowInks-cons line j i stop buf mid buf' lo lt d r = record {
    size = r.size ∙ d.size;
    inside = λ k le under. elim (Bool-cases (k == i)) [
      | inl same ↦ at_first k ((==_iff k i).0 same)
      | inr later ↦
          let up : i + 1 ≤ k = ground (arith, later, le) in
          r.inside k up under
          ∙ ap (λ c. inked c (ink g k j))
              (d.elsewhere (line + place_in x0 k) λ e. absurd (
                omega (
                  arith,
                  up,
                  place_in-injective x0 k i (omega (arith, lo, le)) lo (omega (arith, e)),
                )))
    ];
    outside = λ q n.
        r.outside q (λ k le under. n k (omega (arith, le)) under)
        ∙ d.elsewhere q (n i (omega arith) lt);
  }
    where
      at_first :
          (k : ℕ)
          → k ≡ i
          → pixel buf' (line + place_in x0 k) ≡ inked (pixel buf (line + place_in x0 k)) (ink g k j)
      at_first k e = rw e (
          r.outside (line + place_in x0 i) (λ k' le under same. absurd (
            omega (
              arith,
              le,
              place_in-injective x0 k' i (omega (arith, lo, le)) lo (omega (arith, same)),
            )))
          ∙ d.here)

  pub put_row-Inks :
      (line j k i : ℕ) (buf : List ℕ)
      → j < g.h
      → line + w ≤ length buf
      → first_in x0 ≤ i
      → i + k ≤ last_in x0 g.w w
      → Returns (put_row g x0 line j k i buf) (RowInks g x0 line j i (i + k) buf)
  unfolding put_row
  put_row-Inks line j zero i buf hj hl lo hi = (
    buf,
    refl,
    record {
      size = refl;
      inside = λ k le under. absurd (omega (arith, le, under));
      outside = λ q n. refl;
    },
  )
  put_row-Inks line j (suc k) i buf hj hl lo hi =
      let (inside, shown) = in_bounds x0 g.w w i lo (omega arith) in
      let at : j * g.w + i < length g.bmp = omega (arith, full, row_lt j g.h g.w i hj inside) in
      rw (read_at-pixel g.bmp (j * g.w + i) at, ◌>>=◌)
        (bind_Returns (Dots (line + place_in x0 i) (ink g i j) buf) _
          (dot-Dots (line + place_in x0 i) (ink g i j) buf (omega arith))
          λ mid d.
            let (buf', run, r) =
              put_row-Inks line j k (i + 1) mid hj (omega (arith, d.size)) (omega arith)
                (omega arith) in
            (
              buf',
              run,
              RowInks-cons line j i (i + suc k) buf mid buf' lo (omega arith) d
                  (subst (λ stop. RowInks g x0 line j (i + 1) stop mid buf') (omega arith) r),
            ))
