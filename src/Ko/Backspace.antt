-- ===== src/Ko/Backspace.antt =====
-- ko.c, `backko`: a backspace takes back the last letter.
use strans.Base.{
  ℕ, ◌<◌, ◌≡◌, inl, inr, refl, Bool, true, ◌&&◌, List, [], ◌∷◌, ◌++◌, Option, none, some, arith,
  ltb, ltb→lt, ◌==◌, Bool-cases, member, every, every_sound, all_below, all_below_sound, equal,
  equal_iff, get_or, append-nil, append_assoc, subst, sym, drop_last, drop_last-concat,
}
use strans.Ko.Facts.{Splits, splitpair-final}
use strans.Ko.Letters.{
  lone, vowel, vowels, final, lone_letters, syllable, letters, spelling, IsPreedit,
}
use strans.Ko.Syllables.{decompose-compose, letters-compose, compose-decompose, letters-decompose}
use strans.Ko.Tables.{cho, jung, jong, cvow, cjong}
use strans.Ko.Spells.{final_zero}
use strans.Ko.{at, jung_idx, splitpair, compose, decompose, issyl, backko_jong, backko_jung, backko}
use strans.Run.{ok, ◌>>=◌, Returns, returns, returns_sound}
use strans.Str.{Str, spopr, slastr, sputr}

-- The preedit `p` is what is left of `pre` without its last letter.
pub record Erases (pre p : Str) : Type 0 where
  pub hangul : IsPreedit p
  pub spells : spelling p ≡ drop_last (spelling pre)

abbrev lone_test : ℕ → Str → Bool
lone_test x p =
    elim p [ [] ↦ true | y ∷ rest ↦ equal rest [] && member lone y ]
    && equal (spelling p) (drop_last (spelling (x ∷ [])))

lone_table : every lone (λ x. returns (backko (x ∷ [])) (lone_test x)) ≡ true
unfolding every returns backko splitpair cvow spopr sputr slastr issyl decompose equal member
    spelling letters lone_letters syllable vowels vowel final
lone_table = refl

lone_left :
    (p : Str)
    → elim p [ [] ↦ true | y ∷ rest ↦ equal rest [] && member lone y ] ≡ true
    → IsPreedit p
lone_left [] h = tt
lone_left (y ∷ []) h = inr (ground arith)
lone_left (y ∷ z ∷ rest) h = absurd (more h)
  where
    more : (equal (z ∷ rest) [] && member lone y) ≡ true → ⊥
    more = unfold equal in ground arith

lone-Erases : (x : ℕ) → member lone x ≡ true → Returns (backko (x ∷ [])) (Erases (x ∷ []))
lone-Erases x h =
    let (p, e, t) =
      returns_sound (backko (x ∷ [])) (lone_test x) (every_sound lone _ x lone_table h) in
    (
      p,
      e,
      record {
        hangul = lone_left p (ground arith);
        spells = ground (arith, equal_iff (spelling p) (drop_last (spelling (x ∷ []))));
      },
    )

-- A syllable's spelling without its last letter.
without : (l : List ℕ) (front : List ℕ) (a : ℕ) → l ≡ front ++ a ∷ [] → drop_last (l ++ []) ≡ front
without l front a e = rw (append-nil, e) (drop_last-concat front a)

-- The vowel `j`, as `splitpair(cvow, …)` takes it apart.
abbrev vowel_split_test : ℕ → ℕ → Bool
vowel_split_test j v = elim (splitpair cvow v) [
  | some (stay, next) ↦
      returns (jung_idx stay) (λ si. ltb si 21 && equal (vowel si ++ next ∷ []) (vowel j))
  | none ↦ equal (v ∷ []) (vowel j)
]

vowel_split_table : all_below 21 (λ j. returns (at jung j) (vowel_split_test j)) ≡ true
unfolding all_below returns at splitpair cvow jung_idx equal vowel
vowel_split_table = refl

lead_test : ℕ → Bool
lead_test l = member lone l && equal (letters l) (l ∷ [])

lead_table : all_below 19 (λ c. returns (at cho c) (λ l. l == get_or cho c 0 && lead_test l)) ≡ true
unfolding all_below returns at lead_test member equal letters lone_letters vowels issyl
lead_table = refl

lead_parts : (l : ℕ) → lead_test l ≡ true → (member lone l ≡ true) × (letters l ≡ l ∷ [])
unfolding lead_test
lead_parts l h = ground (arith, equal_iff (letters l) (l ∷ []))

lead_spells :
    (l v x : ℕ)
    → letters l ≡ l ∷ []
    → letters x ≡ l ∷ v ∷ []
    → spelling (l ∷ []) ≡ drop_last (spelling (x ∷ []))
unfolding spelling
lead_spells l v x itself e = rw (itself, e)

module _ (x c j : ℕ) (hc : c < 19) (hj : j < 21) where
  shrink_Erases :
      (j' jo' a : ℕ)
      → j' < 21
      → jo' < 28
      → letters x ≡ syllable c j' jo' ++ a ∷ []
      → Erases (x ∷ []) (compose c j' jo' ∷ [])
  unfolding spelling
  shrink_Erases j' jo' a h h' e = record {
    hangul = inl (decompose-compose c j' jo' hc h h').0;
    spells = rw (letters-compose c j' jo' hc h h', append-nil) (sym (without (letters x) _ a e));
  }

  jong_cases :
      (jo jc : ℕ) (o : Option (ℕ × ℕ))
      → at jong jo ≡ ok jc
      → splitpair cjong jc ≡ o
      → letters x ≡ syllable c j jo
      → Splits jo jc o
      → Returns (backko_jong [] c j jo) (Erases (x ∷ []))
  unfolding backko_jong sputr
  jong_cases jo jc (some (stay, next)) read eo e (si, e₁, hsi, (ni, e₂, hni, f)) = (
    compose c j si ∷ [],
    rw (read, ◌>>=◌, eo, e₁),
    shrink_Erases j si (get_or cho ni 0) hj hsi
        (rw e (unfold syllable in rw (← f) (simp append_assoc))),
  )
  jong_cases jo jc none read eo e (ni, e₁, n, hni, f) = (
    compose c j 0 ∷ [],
    rw (read, ◌>>=◌, eo),
    shrink_Erases j 0 (get_or cho ni 0) hj (omega arith)
        (rw e (unfold syllable in rw (← f, final_zero) (simp append_assoc))),
  )

  jung_cases :
      (v : ℕ) (o : Option (ℕ × ℕ))
      → at jung j ≡ ok v
      → splitpair cvow v ≡ o
      → letters x ≡ syllable c j 0
      → vowel_split_test j v ≡ true
      → Returns (backko_jung [] c j) (Erases (x ∷ []))
  unfolding backko_jung sputr
  jung_cases v (some (stay, next)) read eo e t =
      let (si, e₁, u) = returns_sound (jung_idx stay) _ (rw (eo, vowel_split_test) at t) in
      let f : vowel si ++ next ∷ [] ≡ vowel j =
        ground (arith, equal_iff (vowel si ++ next ∷ []) (vowel j)) in
      (
        compose c si 0 ∷ [],
        rw (read, ◌>>=◌, eo, e₁),
        shrink_Erases si 0 next (ground arith) (omega arith)
            (rw e (unfold syllable in rw (← f, final_zero) (simp (append_assoc, append-nil)))),
      )
  jung_cases v none read eo e t =
      let u : equal (v ∷ []) (vowel j) ≡ true = rw (eo, vowel_split_test) at t in
      let single = (equal_iff (v ∷ []) (vowel j)).0 u in
      let (l, e₁, w) = returns_sound (at cho c) _ (all_below_sound 19 _ c lead_table hc) in
      let (alone, itself) = lead_parts l (ground arith) in
      let same : l ≡ get_or cho c 0 = ground arith in
      (
        l ∷ [],
        rw (read, ◌>>=◌, eo, e₁),
        record {
          hangul = inr alone;
          spells =
              lead_spells l v x itself (rw e (unfold syllable in rw (← single, final_zero, same)));
        },
      )

syl_Erases : (x : ℕ) → issyl x ≡ true → Returns (backko (x ∷ [])) (Erases (x ∷ []))
unfolding backko slastr spopr
syl_Erases x h =
    let (hc, hj, hjo, same) = compose-decompose x h in
    let (c, j, jo) = decompose x in
    let e = letters-decompose x h in
    elim (Bool-cases (ltb 0 jo)) [
      | inl p ↦
          let (jc, read, sp) = splitpair-final jo (ltb→lt 0 jo p) hjo in
          let (q, run, er) = jong_cases x c j hc hj jo jc (splitpair cjong jc) read refl e sp in
          (q, rw (h, p) run, er)
      | inr z ↦
          let none_left : jo ≡ 0 = ground arith in
          let e' : letters x ≡ syllable c j 0 =
            subst (λ k. letters x ≡ syllable c j k) none_left e in
          let (v, read, t) =
            returns_sound (at jung j) _ (all_below_sound 21 _ j vowel_split_table hj) in
          let (q, run, er) = jung_cases x c j hc hj v (splitpair cvow v) read refl e' t in
          (q, rw (h, z) run, er)
    ]

-- In every state of the Hangul automaton (the preedit is empty, or one Hangul syllable or lone
-- letter) `backko` returns a preedit that is such a state again, and is made of the letters of
-- the old one without the last.
pub backko-Erases : (pre : Str) → IsPreedit pre → Returns (backko pre) (Erases pre)
backko-Erases [] h = (
  [],
  unfold backko slastr issyl splitpair cvow spopr decompose in refl,
  record { hangul = tt; spells = unfold spelling in refl },
)
backko-Erases (x ∷ []) (inl syl) = syl_Erases x syl
backko-Erases (x ∷ []) (inr alone) = lone-Erases x alone
backko-Erases (x ∷ y ∷ pre) h = absurd h
