-- ===== src/Xim/Laws.antt =====
-- xim/main.c: keycodes in range have a keysym, and what the client makes of a response.
use Prim.Native.Nat.{bit_and}
use strans.Base.{
  ap, ◌∙◌, Option, get_elem?, ◌==◌, ℕ, ◌+◌, ◌-◌, ◌*◌, ◌≤◌, ◌<◌, ◌≡◌, refl, ap₂, Bool, true, false,
  ◌&&◌, ◌||◌, List, [], ◌∷◌, ◌++◌, some, arith, ltb, leb, if◌then◌else◌, length, length-append,
  drop-append, get_elem?-of_lt, row_lt, Bool-cases, inl, inr,
}
use strans.Client.Frames.{take-append}
use strans.Run.{Run, ok, fault, Returns}
use strans.Thread.Safe.{response_frame}
use strans.Thread.{response}
use strans.Utf.{Utf, IsUtf}
use strans.Str.{Str}
use strans.Xim.{Mapping, kinit, kget, column, readresp}

-- The answer has a row of keysyms for each keycode, and a row is not empty.
pub record IsMapping (min max : ℕ) (r : Mapping) : Type 0 where
  pub range : min ≤ max
  pub row : 0 < r.keysyms_per_keycode
  pub rows : length r.keysyms ≡ (max - min + 1) * r.keysyms_per_keycode

column_lt : (symsper state : ℕ) → 0 < symsper → column symsper state < symsper
unfolding column
column_lt symsper state h = ground arith

-- On the answer of the X server to the request of `kinit`, with a row of at least one keysym for
-- each keycode of a range that is not empty, `kinit` returns, and `kget` then returns for every
-- keycode and state: a keysym of the table, at a place inside of it, or 0 for a keycode outside
-- the range.
-- The keysym of a keycode in range: in its row, in the second column with Shift, if there is one.
abbrev pub keysym_at : ℕ → Mapping → ℕ → ℕ → Option ℕ
keysym_at min r kc state = get_elem? r.keysyms (
    r.keysyms_per_keycode * (kc - min)
    + (if bit_and state 1 == 0 || ltb r.keysyms_per_keycode 2 then 0 else 1))

column-shift :
    (n state : ℕ) → 0 < n → column n state ≡ (if bit_and state 1 == 0 || ltb n 2 then 0 else 1)
unfolding column
column-shift n state h = ground arith

same_place : (n k c c' : ℕ) → c ≡ c' → n * k + c' ≡ k * n + c
same_place n k c c' e = omega (arith, e)

-- On the answer of the X server to the request of `kinit`, with a row of at least one keysym for
-- each keycode of a range that is not empty, `kinit` returns, and `kget` then returns for every
-- keycode and state: 0 for a keycode outside of the range, and else the keysym of the table in
-- the row of the keycode, in the second column with Shift, if there is one, and in the first
-- otherwise.
pub kget-kinit :
    (min max : ℕ) (r : Mapping) (kc state : ℕ)
    → IsMapping min max r
    → Returns (kinit (some (min, max)) (some r)) λ map. Returns (kget map kc state) λ keysym.
      if ltb kc min || ltb max kc then keysym ≡ 0 else keysym_at min r kc state ≡ some keysym
unfolding kinit kget
kget-kinit min max r kc state m = (
  _,
  refl,
  elim (Bool-cases (ltb kc min || ltb max kc)) [
    | inl outside ↦ (0, rw outside refl, rw outside refl)
    | inr inside ↦
        let col = column r.keysyms_per_keycode state in
        let in_row =
          row_lt (kc - min) (max - min + 1) r.keysyms_per_keycode col (ground (arith, m.range))
            (column_lt r.keysyms_per_keycode state m.row) in
        let (s, e) =
          get_elem?-of_lt r.keysyms ((kc - min) * r.keysyms_per_keycode + col)
            (omega (arith, m.rows)) in
        (
          s,
          rw (inside, e) refl,
          rw inside (
              ap (get_elem? r.keysyms) (
                same_place r.keysyms_per_keycode (kc - min) _ _
                  (column-shift r.keysyms_per_keycode state m.row))
              ∙ e),
        )
  ],
)

-- What the client makes of a response with the text `bs`, and of what follows it.
abbrev pub Reads : ℕ → List ℕ → List ℕ → Run (Option ℕ × List ℕ × List ℕ) → Type 0
Reads verdict bs rest r =
    (length bs < 63 → r ≡ ok (some verdict, bs, rest))
    × (length bs ≡ 63 → r ≡ fault)
    × (63 < length bs → r ≡ ok (some verdict, [], bs ++ rest))

readresp-Reads :
    (verdict : ℕ) (bs rest : List ℕ)
    → Reads verdict bs rest (readresp (verdict ∷ length bs ∷ (bs ++ rest)))
unfolding readresp
readresp-Reads verdict [] rest =
    (λ short. refl, λ e. absurd (omega arith), λ long. absurd (omega arith))
readresp-Reads verdict (b ∷ bs) rest =
    let n = length (b ∷ bs) in
    let l = length-append (b ∷ bs) rest in
    (
      (λ short.
          let e : (ltb 0 n && ltb n 64) ≡ true = ground arith in
          let e' : (ltb 62 n && ltb 62 (length ((b ∷ bs) ++ rest))) ≡ false = ground arith in
          let e'' : leb n (length ((b ∷ bs) ++ rest)) ≡ true = ground (arith, l) in
          rw (e, e', e'')
            (ap₂ (λ t d. ok (some verdict, t, d)) (take-append (b ∷ bs) rest)
              (drop-append (b ∷ bs) rest))),
      (λ same.
          let e : (ltb 0 n && ltb n 64) ≡ true = ground arith in
          let e' : (ltb 62 n && ltb 62 (length ((b ∷ bs) ++ rest))) ≡ true = ground (arith, l) in
          rw (e, e') refl),
      λ long. let e : (ltb 0 n && ltb n 64) ≡ false = ground arith in rw e refl,
    )

-- With a lawful UTF-8 codec, of a response of the engine the XIM client commits a text of fewer
-- than 63 bytes and leaves what follows; a text of 63 bytes is written past the end of its
-- buffer; and of a text of more bytes it commits nothing and leaves its bytes in front of what
-- follows. The verdict is read in the first and the third case.
pub readresp_cases :
    ⦃u : Utf⦄
    → IsUtf u
    → (r : Bool) (text : Str) (rest : List ℕ)
    → (bs : List ℕ) × (response r text ≡ (if r then 1 else 0) ∷ length bs ∷ bs)
      × Reads (if r then 1 else 0) bs rest (readresp (response r text ++ rest))
readresp_cases laws r text rest =
    let (bs, e, _) = response_frame laws r text in
    (bs, e, rw e (readresp-Reads (if r then 1 else 0) bs rest))
