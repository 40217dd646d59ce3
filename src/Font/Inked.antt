-- ===== src/Font/Inked.antt =====
-- font.c, `putfont`: the pixels under a glyph are blended with its ink, and the others stay.
use strans.Base.{
  ℕ, zero, suc, ◌+◌, ◌-◌, ◌*◌, ◌≤◌, ◌<◌, ◌≡◌, ◌≢◌, refl, ap, ◌∙◌, subst, List, arith, ltb, leb,
  ◌==◌, ==_iff, ltb→lt, length, Bool-cases, inl, inr,
}
use strans.Base.Int.{ℤ}
use strans.Font.Clip.{in_bounds, line_end}
use strans.Font.Pixels.{pixel, inked, ink, place_in-injective, RowInks, put_row-Inks}
use strans.Font.{Glyph, first_in, last_in, place_in, put_row, put_rows}
use strans.Run.{Returns, bind_Returns}

pub row_ne : (y y' x x' w : ℕ) → y ≢ y' → x < w → x' < w → y * w + x ≢ y' * w + x'
row_ne y y' x x' w n h h' e = elim (Bool-cases (ltb y y')) [
  | inl above ↦ absurd (omega (arith, line_end y y' w (ltb→lt y y' above), h, h', e))
  | inr not_above ↦
      let below : y' < y = ground (arith, not_above, n) in
      absurd (omega (arith, line_end y' y w below, h, h', e))
]

-- One past the last place that is drawn.
abbrev pub stop_at : ℤ → ℕ → ℕ → ℕ
stop_at z size bound = first_in z + (last_in z size bound - first_in z)

pub stop-in_bounds :
    (z : ℤ) (size bound i : ℕ)
    → first_in z ≤ i
    → i < stop_at z size bound
    → (i < size) × (place_in z i < bound)
stop-in_bounds z size bound i lo hi = in_bounds z size bound i lo (omega (arith, lo, hi))

module _ (g : Glyph) (full : length g.bmp ≡ g.h * g.w) (x0 y0 : ℤ) (w : ℕ) where
  -- The pixel under the column `i` and the row `j` of the glyph.
  abbrev pub under : ℕ → ℕ → ℕ
  under i j = place_in y0 j * w + place_in x0 i

  abbrev pub Column : ℕ → Type 0
  Column i = (first_in x0 ≤ i) × (i < stop_at x0 g.w w)

  -- The outer loop over the rows from `j` up to `stop`.
  pub record Inks (j stop : ℕ) (buf buf' : List ℕ) : Type 0 where
    pub size : length buf' ≡ length buf
    pub inside :
        (i k : ℕ)
        → Column i
        → j ≤ k
        → k < stop
        → pixel buf' (under i k) ≡ inked (pixel buf (under i k)) (ink g i k)
    pub outside :
        (q : ℕ)
        → ((i k : ℕ) → Column i → j ≤ k → k < stop → q ≢ under i k)
        → pixel buf' q ≡ pixel buf q

  abbrev Row : ℕ → List ℕ → List ℕ → Type 0
  Row j = RowInks g x0 (place_in y0 j * w) j (first_in x0) (stop_at x0 g.w w)

  no_column : (j : ℕ) (buf : List ℕ) → stop_at x0 g.w w ≡ first_in x0 → Row j buf buf
  no_column j buf e = record {
    size = refl;
    inside = λ k le under. absurd (omega (arith, e, le, under));
    outside = λ q n. refl;
  }

  columns :
      (j : ℕ) (buf : List ℕ)
      → j < g.h
      → place_in y0 j * w + w ≤ length buf
      → Returns
          (put_row g x0 (place_in y0 j * w) j (last_in x0 g.w w - first_in x0) (first_in x0) buf)
          (Row j buf)
  unfolding put_row
  columns j buf hj hl = elim (Bool-cases (leb (first_in x0) (last_in x0 g.w w))) [
    | inl some_left ↦
        put_row-Inks g full x0 w (place_in y0 j * w) j _ (first_in x0) buf hj hl (omega arith)
          (ground arith)
    | inr clipped ↦
        let e : last_in x0 g.w w - first_in x0 ≡ 0 = ground arith in
        (buf, rw (e, put_row) refl, no_column j buf (omega (arith, e)))
  ]

  -- Pixels of different rows are different.
  other_row :
      (i i' j k : ℕ)
      → Column i
      → Column i'
      → first_in y0 ≤ j
      → first_in y0 ≤ k
      → j ≢ k
      → under i j ≢ under i' k
  other_row i i' j k c c' h h' n =
      row_ne (place_in y0 j) (place_in y0 k) (place_in x0 i) (place_in x0 i') w
        (λ e. n (place_in-injective y0 j k h h' e)) (stop-in_bounds x0 g.w w i c.0 c.1).1
        (stop-in_bounds x0 g.w w i' c'.0 c'.1).1

  Inks-cons :
      (j stop : ℕ) (buf mid buf' : List ℕ)
      → first_in y0 ≤ j
      → j < stop
      → Row j buf mid
      → Inks (j + 1) stop mid buf'
      → Inks j stop buf buf'
  Inks-cons j stop buf mid buf' lo lt r s = record {
    size = s.size ∙ r.size;
    inside = λ i k c le below. elim (Bool-cases (k == j)) [
      | inl same ↦ at_first i k c ((==_iff k j).0 same)
      | inr later ↦
          let up : j + 1 ≤ k = ground (arith, later, le) in
          s.inside i k c up below
          ∙ ap (λ a. inked a (ink g i k))
              (r.outside (under i k) λ i' ge few.
                other_row i i' k j c (ge, few) (omega (arith, lo, le)) lo
                  (λ e. absurd (omega (arith, e, up))))
    ];
    outside = λ q n.
        s.outside q (λ i k c le below. n i k c (omega (arith, le)) below)
        ∙ r.outside q (λ i ge few. n i j (ge, few) (omega arith) lt);
  }
    where
      at_first :
          (i k : ℕ)
          → Column i
          → k ≡ j
          → pixel buf' (under i k) ≡ inked (pixel buf (under i k)) (ink g i k)
      at_first i k c e = rw e (
          s.outside (under i j) (λ i' k' c' le below.
            other_row i i' j k' c c' lo (omega (arith, lo, le))
              (λ same. absurd (omega (arith, same, le))))
          ∙ r.inside i c.0 c.1)

  put_rows-Inks :
      (h k j : ℕ) (buf : List ℕ)
      → h * w ≤ length buf
      → first_in y0 ≤ j
      → j + k ≤ last_in y0 g.h h
      → Returns (put_rows g x0 y0 w k j buf) (Inks j (j + k) buf)
  unfolding put_rows
  put_rows-Inks h zero j buf fits lo hi = (
    buf,
    refl,
    record {
      size = refl;
      inside = λ i k c le below. absurd (omega (arith, le, below));
      outside = λ q n. refl;
    },
  )
  put_rows-Inks h (suc k) j buf fits lo hi =
      let (inside, shown) = in_bounds y0 g.h h j lo (omega arith) in
      bind_Returns (Row j buf) _
        (columns j buf inside (omega (arith, line_end (place_in y0 j) h w shown, fits)))
        λ mid r.
          let (buf', run, s) =
            put_rows-Inks h k (j + 1) mid (omega (arith, r.size, fits)) (omega arith)
              (omega arith) in
          (
            buf',
            run,
            Inks-cons j (j + suc k) buf mid buf' lo (omega arith) r
                (subst (λ stop. Inks (j + 1) stop mid buf') (omega arith) s),
          )

  pub rows :
      (h : ℕ) (buf : List ℕ)
      → h * w ≤ length buf
      → Returns
          (put_rows g x0 y0 w (last_in y0 g.h h - first_in y0) (first_in y0) buf)
          (Inks (first_in y0) (stop_at y0 g.h h) buf)
  unfolding put_rows
  rows h buf fits = elim (Bool-cases (leb (first_in y0) (last_in y0 g.h h))) [
    | inl some_left ↦ put_rows-Inks h _ (first_in y0) buf fits (omega arith) (ground arith)
    | inr clipped ↦
        let e : last_in y0 g.h h - first_in y0 ≡ 0 = ground arith in
        (
          buf,
          rw (e, put_rows) refl,
          record {
            size = refl;
            inside = λ i k c le below. absurd (omega (arith, e, le, below));
            outside = λ q n. refl;
          },
        )
  ]
