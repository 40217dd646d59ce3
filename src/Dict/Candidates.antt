-- ===== src/Dict/Candidates.antt =====
-- dict.c: the candidates that `dictlookup` reads from a value.
use strans.Base.{
  ℕ, zero, suc, ◌+◌, ◌≤◌, ◌≡◌, ◌≢◌, refl, sym, ◌∙◌, true, ap, length-drop, List, [], ◌∷◌, ◌++◌,
  arith, length, length-append, drop, Bool-cases, inl, inr, ltb, ◌==◌, ◌&&◌, if◌then◌else◌,
}
use strans.Dict.{max_kouho, field, lookup_loop}
use strans.Str.Laws.{scmp_iff}
use strans.Str.{Str, sinit, scmp}
use strans.Utf.{Utf}

-- No string of the list is `key`.
abbrev pub Without : Str → List Str → Type 0
Without key [] = Unit {0}
Without key (s ∷ ss) = (s ≢ key) × Without key ss

Without-concat :
    (key s : Str) (ss : List Str) → Without key ss → s ≢ key → Without key (ss ++ s ∷ [])
Without-concat key s [] h n = (n, tt)
Without-concat key s (x ∷ ss) h n = (h.0, Without-concat key s ss h.1 n)

-- At most 32 candidates, and the key is not among them.
pub record Fits (key : Str) (kouho : List Str) : Type 0 where
  pub few : length kouho ≤ max_kouho
  pub other : Without key kouho

module _ ⦃u : Utf⦄ where
  -- If the loop of `dictlookup` starts with at most 32 candidates, none of them the key of the
  -- request, then it ends with at most 32 candidates, none of them the key.
  pub lookup_loop-Fits :
      (fuel : ℕ) (key : Str) (p : List ℕ) (kouho : List Str)
      → Fits key kouho
      → Fits key (lookup_loop fuel key p kouho)
  unfolding lookup_loop
  lookup_loop-Fits zero key p kouho h = h
  lookup_loop-Fits (suc fuel) key p kouho h =
      let n = field p in
      let tmp = sinit p n in
      let found = if scmp tmp key == 0 then kouho else kouho ++ tmp ∷ [] in
      elim (Bool-cases (ltb (length kouho) max_kouho && ltb 0 (length p))) [
        | inr stop ↦ rw stop h
        | inl more ↦ rw more (lookup_loop-Fits fuel key (drop (n + 1) p) found (grow tmp more))
      ]
    where
      grow :
          (tmp : Str)
          → (ltb (length kouho) max_kouho && ltb 0 (length p)) ≡ true
          → Fits key (if scmp tmp key == 0 then kouho else kouho ++ tmp ∷ [])
      grow tmp more = elim (Bool-cases (scmp tmp key == 0)) [
        | inl same ↦ rw same h
        | inr differ ↦ rw differ (record {
          few = ground (arith, length-append kouho (tmp ∷ []));
          other =
              Without-concat key tmp kouho h.other
                λ e. absurd (ground (arith, (scmp_iff tmp key).1 e));
        })
      ]

  pub lookup_loop_end :
      (fuel : ℕ) (key : Str) (kouho : List Str) → lookup_loop fuel key [] kouho ≡ kouho
  unfolding lookup_loop
  lookup_loop_end zero key kouho = refl
  lookup_loop_end (suc fuel) key kouho = elim (Bool-cases (ltb (length kouho) max_kouho)) [
    | inl room ↦ rw room refl
    | inr full ↦ rw full refl
  ]

  -- The loop of `dictlookup` ends of itself within as many rounds as there are bytes: with two
  -- bounds on the rounds, both at least the number of bytes, it gives the same candidates.
  pub lookup_loop_fuel :
      (fuel fuel' : ℕ) (key : Str) (p : List ℕ) (kouho : List Str)
      → length p ≤ fuel
      → length p ≤ fuel'
      → lookup_loop fuel' key p kouho ≡ lookup_loop fuel key p kouho
  unfolding lookup_loop
  lookup_loop_fuel fuel fuel' key [] kouho h h' =
      lookup_loop_end fuel' key kouho ∙ sym (lookup_loop_end fuel key kouho)
  lookup_loop_fuel zero fuel' key (b ∷ p) kouho h h' = absurd (omega arith)
  lookup_loop_fuel (suc fuel) zero key (b ∷ p) kouho h h' = absurd (omega arith)
  lookup_loop_fuel (suc fuel) (suc fuel') key (b ∷ p) kouho h h' =
      let n = field (b ∷ p) in
      let tmp = sinit (b ∷ p) n in
      let found = if scmp tmp key == 0 then kouho else kouho ++ tmp ∷ [] in
      ap (λ rest. if ltb (length kouho) max_kouho && ltb 0 (length (b ∷ p)) then rest else kouho)
        (lookup_loop_fuel fuel fuel' key (drop (n + 1) (b ∷ p)) found
          (omega (arith, length-drop (n + 1) (b ∷ p))) (omega (arith, length-drop (n + 1) (b ∷ p))))
