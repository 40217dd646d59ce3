-- ===== src/Ko/Spells.antt =====
-- ko.c, `transko`: what it means that a key is typed, and the branches that leave the syllable whole.
use strans.Base.{
  ℕ, ◌<◌, ◌≤◌, ◌≡◌, inl, inr, refl, Bool, true, false, not, ◌&&◌, ◌||◌, [], ◌∷◌, ◌++◌, arith, leb,
  member, every, every_sound, equal, equal_iff, get_or, length, append-nil, append_assoc,
}
use strans.Emit.{Emit, no_emit}
use strans.Ko.Letters.{
  typed, lone, vowels, vowel, final, lone_letters, syllable, letters, spelling, IsPreedit,
}
use strans.Ko.Syllables.{decompose-compose, letters-compose}
use strans.Ko.Tables.{cho, cvow}
use strans.Ko.{cho_idx, jung_idx, combine, compose, issyl, transko_jamo}
use strans.Run.{Returns, returns, returns_sound}
use strans.Str.{Str, spopr}

-- The key of the letter `a` is eaten; the committed text and the new preedit spell what the old
-- preedit spelled, and `a` behind it. The new preedit is one Hangul rune.
pub record Types (pre : Str) (a : ℕ) (r : Str × Emit) : Type 0 where
  pub eats : r.1.eat ≡ true
  pub short : length r.1.s ≤ 1
  pub single : length r.1.next ≡ 1
  pub hangul : IsPreedit r.1.next
  pub spells : spelling r.1.s ++ spelling r.1.next ≡ spelling pre ++ a ∷ []

abbrev lone_test : ℕ → ℕ → Str × Emit → Bool
lone_test x a r =
    r.1.eat
    && leb (length r.1.s) 1
    && elim r.1.next [ [] ↦ false | y ∷ rest ↦ equal rest [] && (issyl y || member lone y) ]
    && equal (spelling r.1.s ++ spelling r.1.next) (spelling (x ∷ []) ++ a ∷ [])

lone_table :
    every lone (λ x. every typed (λ a. returns (transko_jamo (x ∷ []) x a) (lone_test x a))) ≡ true
unfolding every returns transko_jamo cho_idx jung_idx combine cvow compose spopr equal member issyl
    spelling letters lone_letters syllable vowels vowel final
lone_table = refl

lone_next :
    (n : Str)
    → elim n [ [] ↦ false | y ∷ rest ↦ equal rest [] && (issyl y || member lone y) ] ≡ true
    → (length n ≡ 1) × IsPreedit n
lone_next [] h = cc
lone_next (y ∷ []) h = (refl, ground arith)
lone_next (y ∷ z ∷ rest) h = absurd (nil-ne h)
  where
    nil-ne : (equal (z ∷ rest) [] && (issyl y || member lone y)) ≡ true → ⊥
    nil-ne = unfold equal in ground arith

pub jamo_Types :
    (x a : ℕ)
    → member lone x ≡ true
    → member typed a ≡ true
    → Returns (transko_jamo (x ∷ []) x a) (Types (x ∷ []) a)
jamo_Types x a hx ha =
    let (r, e, t) = returns_sound (transko_jamo (x ∷ []) x a) (lone_test x a) (
      every_sound typed (λ a. returns (transko_jamo (x ∷ []) x a) (lone_test x a)) a
        (every_sound lone _ x lone_table hx) ha) in
    let (one, hangul) = lone_next r.1.next (ground arith) in
    (
      r,
      e,
      record {
        eats = ground arith;
        short = ground arith;
        single = one;
        hangul = hangul;
        spells =
            ground (
              arith,
              equal_iff (spelling r.1.s ++ spelling r.1.next) (spelling (x ∷ []) ++ a ∷ []),
            );
      },
    )

typed_table : every typed (λ a. member lone a && not (issyl a) && equal (letters a) (a ∷ [])) ≡ true
unfolding every member equal letters lone_letters vowels issyl
typed_table = refl

pub typed-letters : (a : ℕ) → member typed a ≡ true → (member lone a ≡ true) × (letters a ≡ a ∷ [])
typed-letters a h =
    let t = every_sound typed _ a typed_table h in ground (arith, t, equal_iff (letters a) (a ∷ []))

abbrev pub result : Str → Str → Str → Str × Emit
result pre s next = (pre, record no_emit { eat = true; s = s; next = next })

pub flush_Types :
    (x a : ℕ) → member typed a ≡ true → Types (x ∷ []) a (result (x ∷ []) (x ∷ []) (a ∷ []))
unfolding spelling
flush_Types x a h =
    let (alone, itself) = typed-letters a h in
    record {
      eats = refl;
      short = omega arith;
      single = refl;
      hangul = inr alone;
      spells = simp (itself, append-nil);
    }

-- A key that changes the one syllable in the preedit to another.
pub grow_Types :
    (x a c j jo : ℕ) (pre : Str)
    → c < 19
    → j < 21
    → jo < 28
    → syllable c j jo ≡ letters x ++ a ∷ []
    → Types (x ∷ []) a (result pre [] (compose c j jo ∷ []))
unfolding spelling
grow_Types x a c j jo pre hc hj hjo e = record {
  eats = refl;
  short = omega arith;
  single = refl;
  hangul = inl (decompose-compose c j jo hc hj hjo).0;
  spells = simp (append-nil, letters-compose c j jo hc hj hjo, e);
}

-- A vowel that takes the final consonant of the syllable `x` along.
pub carry_Types :
    (x a c j si ni vi : ℕ) (pre : Str)
    → c < 19
    → j < 21
    → si < 28
    → ni < 19
    → vi < 21
    → syllable c j si ++ syllable ni vi 0 ≡ letters x ++ a ∷ []
    → Types (x ∷ []) a (result pre (compose c j si ∷ []) (compose ni vi 0 ∷ []))
unfolding spelling
carry_Types x a c j si ni vi pre hc hj hsi hni hvi e = record {
  eats = refl;
  short = omega arith;
  single = refl;
  hangul = inl (decompose-compose ni vi 0 hni hvi (omega arith)).0;
  spells = simp (
    append-nil,
    letters-compose c j si hc hj hsi,
    letters-compose ni vi 0 hni hvi (omega arith),
    e,
  );
}

pub final_zero : final 0 ≡ []
unfolding final
final_zero = refl

pub carry_spelling :
    (c j si ni vi jo a : ℕ)
    → final si ++ get_or cho ni 0 ∷ [] ≡ final jo
    → vowel vi ≡ a ∷ []
    → syllable c j si ++ syllable ni vi 0 ≡ syllable c j jo ++ a ∷ []
unfolding syllable
carry_spelling c j si ni vi jo a f v = rw (← f) (simp (final_zero, v, append_assoc))
