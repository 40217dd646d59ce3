-- ===== src/Ko/Facts.antt =====
-- ko.c: what its tables say of the letters, each fact checked over the whole table.
use strans.Base.{
  ℕ, ◌<◌, ◌≡◌, refl, Bool, true, false, ◌&&◌, ◌||◌, [], ◌∷◌, ◌++◌, none, Option, some, arith, ltb,
  ltb→lt, Bool-cases, inl, inr, zero, suc, ◌==◌, member, every, every_sound, all_below,
  all_below_sound, implies, equal, equal_iff, get_or,
}
use strans.Ko.Letters.{typed, vowel, final}
use strans.Ko.Tables.{cho, jung, jong, cvow, cjong}
use strans.Ko.{at, nonneg, positive, cho_idx, jung_idx, jong_idx, keytojamo, combine, splitpair}
use strans.Run.{ok, Returns, returns, returns_sound}

keytojamo_table : all_below 128 (λ c. keytojamo c == 0 || member typed (keytojamo c)) ≡ true
unfolding all_below keytojamo member
keytojamo_table = refl

keytojamo_big : (c : ℕ) → ltb c 128 ≡ false → (keytojamo c == 0) ≡ false → ⊥
unfolding keytojamo
keytojamo_big c h e = ground arith

pub keytojamo-typed : (c : ℕ) → (keytojamo c == 0) ≡ false → member typed (keytojamo c) ≡ true
keytojamo-typed c h = elim (Bool-cases (ltb c 128)) [
  | inl small ↦ ground (
    arith,
    all_below_sound 128 (λ x. keytojamo x == 0 || member typed (keytojamo x)) c keytojamo_table
        (ltb→lt c 128 small),
  )
  | inr big ↦ absurd (keytojamo_big c big h)
]

abbrev final_test : ℕ → ℕ → Bool
final_test a i = implies (positive i) (ltb i 28 && equal (final i) (a ∷ []))

abbrev vowel_test : ℕ → ℕ → Bool
vowel_test a i = implies (nonneg i) (ltb i 21 && equal (vowel i) (a ∷ []))

final_table : every typed (λ a. returns (jong_idx a) (final_test a)) ≡ true
unfolding every returns jong_idx equal final
final_table = refl

vowel_table : every typed (λ a. returns (jung_idx a) (vowel_test a)) ≡ true
unfolding every returns jung_idx equal vowel
vowel_table = refl

-- A letter that has a final's index is that final.
pub jong_idx-final :
    (a : ℕ)
    → member typed a ≡ true
    → Returns (jong_idx a) λ i. positive i ≡ true → (i < 28) × (final i ≡ a ∷ [])
jong_idx-final a t =
    let (i, e, h) =
      returns_sound (jong_idx a) (final_test a) (every_sound typed _ a final_table t) in
    (i, e, λ p. ground (arith, equal_iff (final i) (a ∷ [])))

-- A letter that has a vowel's index is that vowel.
pub jung_idx-vowel :
    (a : ℕ)
    → member typed a ≡ true
    → Returns (jung_idx a) λ i. nonneg i ≡ true → (i < 21) × (vowel i ≡ a ∷ [])
jung_idx-vowel a t =
    let (i, e, h) =
      returns_sound (jung_idx a) (vowel_test a) (every_sound typed _ a vowel_table t) in
    (i, e, λ p. ground (arith, equal_iff (vowel i) (a ∷ [])))

-- `combine(cvow, …)` spells the compound vowel.
abbrev vowel_pair_test : ℕ → ℕ → ℕ → Bool
vowel_pair_test j a v =
    let comb = combine cvow v a in
    comb == 0 || returns (jung_idx comb) (λ i. ltb i 21 && equal (vowel i) (vowel j ++ a ∷ []))

vowel_pair_table :
    all_below 21 (λ j. every typed (λ a. returns (at jung j) (vowel_pair_test j a))) ≡ true
unfolding all_below every returns jung_idx equal vowel at combine cvow
vowel_pair_table = refl

-- `combine(cjong, …)` spells the final cluster.
abbrev final_pair_test : ℕ → ℕ → ℕ → Bool
final_pair_test jo a c =
    let comb = combine cjong c a in
    comb == 0
    || returns (jong_idx comb) (λ i. positive i && ltb i 28 && equal (final i) (final jo ++ a ∷ []))

final_pair_table :
    all_below 28 (λ jo. every typed (λ a. returns (at jong jo) (final_pair_test jo a))) ≡ true
unfolding all_below every returns jong_idx equal final at combine cjong
final_pair_table = refl

-- A final cluster splits into what stays and what moves to the next syllable.
abbrev split_test : ℕ → ℕ → Bool
split_test jo c = elim (splitpair cjong c) [
  | some (stay, next) ↦ returns (jong_idx stay) (λ si. returns (cho_idx next) (λ ni.
      positive si && ltb si 28 && ltb ni 19 && equal (final si ++ get_or cho ni 0 ∷ []) (final jo)))
  | none ↦
      returns (cho_idx c) (λ ni. nonneg ni && ltb ni 19 && equal (get_or cho ni 0 ∷ []) (final jo))
]

split_table : all_below 27 (λ i. returns (at jong (suc i)) (split_test (suc i))) ≡ true
unfolding all_below returns jong_idx cho_idx equal final at splitpair cjong
split_table = refl

pub combine-vowel :
    (j a : ℕ)
    → j < 21
    → member typed a ≡ true
    → Returns (at jung j) λ v.
      (combine cvow v a == 0) ≡ false
      → Returns (jung_idx (combine cvow v a)) λ i. (i < 21) × (vowel i ≡ vowel j ++ a ∷ [])
combine-vowel j a h t =
    let (v, e, p) = returns_sound (at jung j) (vowel_pair_test j a) (
      every_sound typed (λ a. returns (at jung j) (vowel_pair_test j a)) a
        (all_below_sound 21 _ j vowel_pair_table h) t) in
    (
      v,
      e,
      λ some_pair.
          let (i, e', q) =
            returns_sound (jung_idx (combine cvow v a))
              (λ i. ltb i 21 && equal (vowel i) (vowel j ++ a ∷ [])) (ground arith) in
          (i, e', ground (arith, equal_iff (vowel i) (vowel j ++ a ∷ []))),
    )

pub combine-final :
    (jo a : ℕ)
    → jo < 28
    → member typed a ≡ true
    → Returns (at jong jo) λ c.
      (combine cjong c a == 0) ≡ false
      → Returns
          (jong_idx (combine cjong c a))
          λ i. (positive i ≡ true) × (i < 28) × (final i ≡ final jo ++ a ∷ [])
combine-final jo a h t =
    let (c, e, p) = returns_sound (at jong jo) (final_pair_test jo a) (
      every_sound typed (λ a. returns (at jong jo) (final_pair_test jo a)) a
        (all_below_sound 28 _ jo final_pair_table h) t) in
    (
      c,
      e,
      λ some_pair.
          let (i, e', q) =
            returns_sound (jong_idx (combine cjong c a))
              (λ i. positive i && ltb i 28 && equal (final i) (final jo ++ a ∷ []))
              (ground arith) in
          (i, e', ground (arith, equal_iff (final i) (final jo ++ a ∷ []))),
    )

-- What `splitpair(cjong, …)` says of the final `jo` whose letter is `c`.
abbrev pub Splits : ℕ → ℕ → Option (ℕ × ℕ) → Type 0
Splits jo c (some (stay, next)) =
    (si : ℕ) × (jong_idx stay ≡ ok si)
    × (si < 28)
    × ((ni : ℕ) × (cho_idx next ≡ ok ni)
        × (ni < 19)
        × (final si ++ get_or cho ni 0 ∷ [] ≡ final jo))
Splits jo c none =
    (ni : ℕ) × (cho_idx c ≡ ok ni)
    × (nonneg ni ≡ true)
    × (ni < 19)
    × (get_or cho ni 0 ∷ [] ≡ final jo)

split_cases :
    (jo c : ℕ) (o : Option (ℕ × ℕ)) → splitpair cjong c ≡ o → split_test jo c ≡ true → Splits jo c o
split_cases jo c (some (stay, next)) e t =
    let (si, e₁, u) = returns_sound (jong_idx stay) _ (rw (e, split_test) at t) in
    let (ni, e₂, w) = returns_sound (cho_idx next) _ u in
    (
      si,
      e₁,
      ground arith,
      (
        ni,
        e₂,
        ground arith,
        ground (arith, equal_iff (final si ++ get_or cho ni 0 ∷ []) (final jo)),
      ),
    )
split_cases jo c none e t =
    let (ni, e₁, u) = returns_sound (cho_idx c) _ (rw (e, split_test) at t) in
    (
      ni,
      e₁,
      ground arith,
      ground arith,
      ground (arith, equal_iff (get_or cho ni 0 ∷ []) (final jo)),
    )

pub splitpair-final :
    (jo : ℕ) → 0 < jo → jo < 28 → Returns (at jong jo) λ c. Splits jo c (splitpair cjong c)
splitpair-final zero p h = absurd (omega arith)
splitpair-final (suc i) p h =
    let (c, e, t) =
      returns_sound (at jong (suc i)) (split_test (suc i))
        (all_below_sound 27 _ i split_table (omega arith)) in
    (c, e, split_cases (suc i) c (splitpair cjong c) refl t)
