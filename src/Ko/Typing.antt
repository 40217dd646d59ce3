-- ===== src/Ko/Typing.antt =====
-- ko.c, `transko`: no letter that is typed gets lost, doubled or reordered.
use strans.Base.{
  ℕ, ◌<◌, ◌≡◌, inl, inr, refl, true, false, not, ◌&&◌, [], ◌∷◌, Option, none, some, arith, ◌==◌,
  ==_iff, Bool-cases, member, every, every_sound, append-nil, append_assoc, subst,
}
use strans.Ko.Facts.{
  keytojamo-typed, jong_idx-final, jung_idx-vowel, combine-vowel, combine-final, Splits,
  splitpair-final,
}
use strans.Ko.Letters.{typed, lone, vowel, final, syllable, letters, spelling, IsHangul, IsPreedit}
use strans.Ko.Syllables.{compose-decompose, letters-decompose}
use strans.Ko.Tables.{cvow, cjong}
use strans.Ko.{
  nonneg, positive, jung_idx, keytojamo, combine, splitpair, compose, decompose, issyl,
  transko_vowel, transko_open, transko_split, transko_closed, transko_syl, transko,
}
use strans.Run.{ok, Returns}
use strans.Str.{Str, spopr, slastr}
use strans.Ko.Spells.{
  jamo_Types, typed-letters, result, flush_Types, grow_Types, carry_Types, final_zero,
  carry_spelling, Types,
}

module _ (x a c j : ℕ) (hc : c < 19) (hj : j < 21) (t : member typed a ≡ true) where
  vowel_Types :
      letters x ≡ syllable c j 0 → Returns (transko_vowel (x ∷ []) a c j) (Types (x ∷ []) a)
  unfolding transko_vowel
  vowel_Types e =
      let (v, read, pair) = combine-vowel j a hj t in
      elim (Bool-cases (combine cvow v a == 0)) [
        | inl alone ↦ (_, rw (read, alone), flush_Types x a t)
        | inr some_pair ↦
            let (ni, found, (bound, spell)) = pair some_pair in
            (
              _,
              rw (read, some_pair, found),
              grow_Types x a c ni 0 (spopr (x ∷ [])) hc bound (omega arith)
                  (rw e (unfold syllable final in simp (spell, append-nil))),
            )
      ]

  open_Types : letters x ≡ syllable c j 0 → Returns (transko_open (x ∷ []) a c j) (Types (x ∷ []) a)
  unfolding transko_open
  open_Types e =
      let (ni, found, fin) = jong_idx-final a t in
      elim (Bool-cases (positive ni)) [
        | inl p ↦
            let (bound, spell) = fin p in
            (
              _,
              rw (found, p),
              grow_Types x a c j ni (spopr (x ∷ [])) hc hj bound
                  (rw e (unfold syllable final in simp (spell, append-nil, append_assoc))),
            )
        | inr p ↦
            let (vi, found', vow) = jung_idx-vowel a t in
            elim (Bool-cases (nonneg vi)) [
              | inl q ↦ let (r, run, ty) = vowel_Types e in (r, rw (found, p, found', q) run, ty)
              | inr q ↦ (_, rw (found, p, found', q), flush_Types x a t)
            ]
      ]

  module _ (jo jc vi : ℕ) (hjo : jo < 28) (e : letters x ≡ syllable c j jo)
      (found : jung_idx a ≡ ok vi) (q : nonneg vi ≡ true) (bound : vi < 21)
      (spell : vowel vi ≡ a ∷ []) where
    carry_cases :
        (o : Option (ℕ × ℕ))
        → splitpair cjong jc ≡ o
        → Splits jo jc o
        → Returns (transko_split (x ∷ []) a c j jc) (Types (x ∷ []) a)
    unfolding transko_split
    carry_cases (some (stay, next)) eo (si, e₁, hsi, (ni, e₂, hni, f)) = (
      result (spopr (x ∷ [])) (compose c j si ∷ []) (compose ni vi 0 ∷ []),
      rw (found, q, eo, e₁, e₂),
      carry_Types x a c j si ni vi (spopr (x ∷ [])) hc hj hsi hni bound
          (rw e (carry_spelling c j si ni vi jo a f spell)),
    )
    carry_cases none eo (ni, e₁, n, hni, f) = (
      result (spopr (x ∷ [])) (compose c j 0 ∷ []) (compose ni vi 0 ∷ []),
      rw (found, q, eo, e₁, n),
      carry_Types x a c j 0 ni vi (spopr (x ∷ [])) hc hj (omega arith) hni bound
          (rw e (carry_spelling c j 0 ni vi jo a (rw final_zero f) spell)),
    )

  split_Types :
      (jo jc : ℕ)
      → jo < 28
      → letters x ≡ syllable c j jo
      → Splits jo jc (splitpair cjong jc)
      → Returns (transko_split (x ∷ []) a c j jc) (Types (x ∷ []) a)
  unfolding transko_split
  split_Types jo jc h e sp =
      let (vi, found, vow) = jung_idx-vowel a t in
      elim (Bool-cases (nonneg vi)) [
        | inr q ↦ (result (x ∷ []) (x ∷ []) (a ∷ []), rw (found, q), flush_Types x a t)
        | inl q ↦ carry_cases jo jc vi h e found q (vow q).0 (vow q).1 (splitpair cjong jc) refl sp
      ]

  closed_Types :
      (jo : ℕ)
      → 0 < jo
      → jo < 28
      → letters x ≡ syllable c j jo
      → Returns (transko_closed (x ∷ []) a c j jo) (Types (x ∷ []) a)
  unfolding transko_closed
  closed_Types jo p h e =
      let (jc, read, pair) = combine-final jo a h t in
      let (jc', read', sp) = splitpair-final jo p h in
      elim (Bool-cases (combine cjong jc a == 0)) [
        | inl alone ↦
            let same : jc' ≡ jc = ground (arith, read, read') in
            let (r, run, ty) = split_Types jo jc h e (rw same at sp) in
            (r, rw (read, alone) run, ty)
        | inr some_pair ↦
            let (ni, found, (pos, bound, spell)) = pair some_pair in
            (
              result (spopr (x ∷ [])) [] (compose c j ni ∷ []),
              rw (read, some_pair, found, pos),
              grow_Types x a c j ni (spopr (x ∷ [])) hc hj bound
                  (rw e (unfold syllable in simp (spell, append_assoc))),
            )
      ]

syl_Types :
    (x a : ℕ)
    → issyl x ≡ true
    → member typed a ≡ true
    → Returns (transko_syl (x ∷ []) x a) (Types (x ∷ []) a)
unfolding transko_syl
syl_Types x a hx t =
    let (hc, hj, hjo, same) = compose-decompose x hx in
    let (c, j, jo) = decompose x in
    let e = letters-decompose x hx in
    elim (Bool-cases (jo == 0)) [
      | inl z ↦
          let e' : letters x ≡ syllable c j 0 =
            subst (λ k. letters x ≡ syllable c j k) ((==_iff jo 0).0 z) e in
          let (r, run, ty) = open_Types x a c j hc hj t e' in (r, rw z run, ty)
      | inr p ↦
          let (r, run, ty) = closed_Types x a c j hc hj t jo (ground arith) hjo e in
          (r, rw p run, ty)
    ]

lone_kinds : every lone (λ x. not (x == 0) && not (issyl x)) ≡ true
unfolding every issyl
lone_kinds = refl

pub IsHangul-ne-zero : (x : ℕ) → IsHangul x → (x == 0) ≡ false
IsHangul-ne-zero x (inl h) = unfold issyl in ground arith
IsHangul-ne-zero x (inr h) =
    let t = every_sound lone (λ x. not (x == 0) && not (issyl x)) x lone_kinds h in ground arith

pub lone-not_issyl : (x : ℕ) → member lone x ≡ true → issyl x ≡ false
lone-not_issyl x h =
    let t = every_sound lone (λ x. not (x == 0) && not (issyl x)) x lone_kinds h in ground arith

first_Types : (a : ℕ) → member typed a ≡ true → Types [] a (result [] [] (a ∷ []))
unfolding spelling
first_Types a t =
    let (alone, itself) = typed-letters a t in
    record {
      eats = refl;
      short = omega arith;
      single = refl;
      hangul = inr alone;
      spells = simp (itself, append-nil);
    }

-- In every state of the Hangul automaton (the preedit is empty, or one Hangul syllable or lone
-- letter) `transko` returns on the key of a letter: it eats the key, commits at most one rune,
-- leaves one Hangul rune in the next preedit, and the letters that the committed text and the
-- next preedit are made of, in order, are the letters of the old preedit followed by the letter
-- of the key.
pub transko-Types :
    (pre : Str) (k : ℕ)
    → IsPreedit pre
    → (keytojamo k == 0) ≡ false
    → Returns (transko pre k) (Types pre (keytojamo k))
unfolding transko slastr
transko-Types [] k h key =
    (result [] [] (keytojamo k ∷ []), rw key, first_Types (keytojamo k) (keytojamo-typed k key))
transko-Types (x ∷ []) k (inl syl) key =
    let (r, run, ty) = syl_Types x (keytojamo k) syl (keytojamo-typed k key) in
    (r, rw (key, IsHangul-ne-zero x (inl syl), syl) run, ty)
transko-Types (x ∷ []) k (inr alone) key =
    let (r, run, ty) = jamo_Types x (keytojamo k) alone (keytojamo-typed k key) in
    (r, rw (key, IsHangul-ne-zero x (inr alone), lone-not_issyl x alone) run, ty)
transko-Types (x ∷ y ∷ pre) k h key = absurd h
