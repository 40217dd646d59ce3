-- ===== src/Dict/Words.antt =====
-- dict.c: the candidates of a value are its words.
use strans.Base.{
  ℕ, zero, suc, ◌+◌, ◌-◌, ◌≤◌, ◌<◌, ◌≡◌, refl, sym, ap, ◌∙◌, true, false, List, [], ◌∷◌, ◌++◌,
  append-nil, append_assoc, Option, none, some, arith, ltb, lt→ltb, ◌==◌, ==_iff, equal, equal_iff,
  if◌then◌else◌, length, length-append, take, take-of_le, drop, Bool-cases, inl, inr,
}
use strans.Dict.Candidates.{lookup_loop_end}
use strans.Dict.{max_kouho, field, lookup_loop, Dictreq, dictlookup}
use strans.Hash.Refines.{value}
use strans.Hash.Seek.{val_of}
use strans.Hash.{Hmap, Hnode, hmapget}
use strans.Lang.{Lang, getlang}
use strans.Run.{Run, ok, died, fault, ◌>>=◌}
use strans.Str.Laws.{scmp_iff}
use strans.Str.{Str, sinit, scmp}
use strans.Utf.{Utf, IsUtf}
use strans.Dict.Bytes.{Lacks, IsPlain, utf, spaced, AllWords, utf-Lacks, sinit-utf, utf_pos}

-- The strings of a dictionary that are not the key, in their order.
unfoldable pub others : Str → List Str → List Str
others key [] = []
others key (s ∷ ss) = let rest = others key ss in if equal s key then rest else s ∷ rest

module _ ⦃u : Utf⦄ where
  module _ (laws : IsUtf u) (plain : IsPlain u) where
    field-append : (w rest : List ℕ) → Lacks b' ' w → field (w ++ b' ' ∷ rest) ≡ length w
    unfolding field
    field-append [] rest h = refl
    field-append (b ∷ w) rest h = rw h.0 (ap suc (field-append w rest h.1))

    field-all : (w : List ℕ) → Lacks b' ' w → field w ≡ length w
    unfolding field
    field-all [] h = refl
    field-all (b ∷ w) h = rw h.0 (ap suc (field-all w h.1))

    -- A word that is not the key is put behind the candidates.
    abbrev found : Str → Str → List Str → List Str
    found key s kouho = if scmp s key == 0 then kouho else kouho ++ s ∷ []

    found-others :
        (key s : Str) (ss kouho : List Str)
        → (ltb (length kouho) max_kouho) ≡ true
        → found key s kouho ++ take (max_kouho - length (found key s kouho)) (others key ss)
          ≡ kouho ++ take (max_kouho - length kouho) (others key (s ∷ ss))
    unfolding others
    found-others key s ss kouho room = elim (Bool-cases (equal s key)) [
      | inl same ↦
          let e : (scmp s key == 0) ≡ true =
            ground (arith, (scmp_iff s key).1 ((equal_iff s key).0 same)) in
          rw (same, e) refl
      | inr differ ↦
          let e : (scmp s key == 0) ≡ false = other_key differ in
          let l : length (kouho ++ s ∷ []) ≡ length kouho + 1 = length-append kouho (s ∷ []) in
          let n : max_kouho - length kouho ≡ suc (max_kouho - length (kouho ++ s ∷ [])) =
            ground arith in
          rw (differ, e, n) (append_assoc kouho (s ∷ []) _)
    ]
      where
        other_key : equal s key ≡ false → (scmp s key == 0) ≡ false
        other_key differ = elim (Bool-cases (scmp s key == 0)) [
          | inr e ↦ e
          | inl e ↦
              absurd (
                cc ((equal_iff s key).1 ((scmp_iff s key).0 ((==_iff (scmp s key) 0).0 e)), differ))
        ]

    -- One round on a word, and the rest behind it.
    lookup_loop_step :
        (fuel : ℕ) (key s : Str) (p rest : List ℕ) (kouho : List Str)
        → field p ≡ length (utf s)
        → sinit p (length (utf s)) ≡ s
        → drop (length (utf s) + 1) p ≡ rest
        → 0 < length p
        → ltb (length kouho) max_kouho ≡ true
        → lookup_loop (suc fuel) key p kouho ≡ lookup_loop fuel key rest (found key s kouho)
    unfolding lookup_loop
    lookup_loop_step fuel key s p rest kouho f i d pos room =
        rw (room, lt→ltb 0 (length p) pos, f, i, d) refl

    lookup_loop_full :
        (fuel : ℕ) (key : Str) (p : List ℕ) (kouho : List Str)
        → ltb (length kouho) max_kouho ≡ false
        → lookup_loop fuel key p kouho ≡ kouho
    unfolding lookup_loop
    lookup_loop_full zero key p kouho full = refl
    lookup_loop_full (suc fuel) key p kouho full = rw full refl

    nothing_left :
        (key : Str) (kouho : List Str)
        → kouho ≡ kouho ++ take (max_kouho - length kouho) (others key [])
    unfolding others
    nothing_left key kouho =
        sym (append-nil kouho)
        ∙ ap (λ x. kouho ++ x) (sym (take-of_le (max_kouho - length kouho) [] (omega arith)))

    stopped :
        (fuel : ℕ) (key : Str) (p : List ℕ) (ss kouho : List Str)
        → ltb (length kouho) max_kouho ≡ false
        → lookup_loop fuel key p kouho ≡ kouho ++ take (max_kouho - length kouho) (others key ss)
    stopped fuel key p ss kouho full =
        let e : max_kouho - length kouho ≡ 0 = ground arith in
        rw e (lookup_loop_full fuel key p kouho full ∙ sym (append-nil kouho))

    drop_past : (w rest : List ℕ) (b : ℕ) → drop (suc (length w)) (w ++ b ∷ rest) ≡ rest
    drop_past [] rest b = refl
    drop_past (c ∷ w) rest b = drop_past w rest b

    drop_all : (w : List ℕ) → drop (suc (length w)) w ≡ []
    drop_all [] = refl
    drop_all (c ∷ w) = drop_all w

    pub lookup_loop-spaced :
        (fuel : ℕ) (key : Str) (ss kouho : List Str)
        → AllWords ss
        → length (spaced ss) ≤ fuel
        → lookup_loop fuel key (spaced ss) kouho
          ≡ kouho ++ take (max_kouho - length kouho) (others key ss)
    unfolding spaced
    lookup_loop-spaced fuel key [] kouho words enough =
        lookup_loop_end fuel key kouho ∙ nothing_left key kouho
    lookup_loop-spaced zero key (s ∷ []) kouho words enough =
        absurd (omega (arith, utf_pos laws plain s words.0.some_rune))
    lookup_loop-spaced (suc fuel) key (s ∷ []) kouho words enough =
        elim (Bool-cases (ltb (length kouho) max_kouho)) [
          | inr full ↦ stopped (suc fuel) key _ (s ∷ []) kouho full
          | inl room ↦
              let w = words.0 in
              let one : length (utf s) + 1 ≡ suc (length (utf s)) = omega arith in
              lookup_loop_step fuel key s (utf s) [] kouho
                (field-all (utf s) (utf-Lacks laws plain b' ' s (omega arith) w.no_space))
                (ap (λ p. sinit p (length (utf s))) (sym (append-nil (utf s)))
                  ∙ sinit-utf laws plain s [] w.runes w.few)
                (ap (λ n. drop n (utf s)) one ∙ drop_all (utf s)) (utf_pos laws plain s w.some_rune)
                room
              ∙ lookup_loop_end fuel key (found key s kouho)
              ∙ nothing_left key (found key s kouho)
              ∙ found-others key s [] kouho room
        ]
    lookup_loop-spaced zero key (s ∷ s' ∷ ss) kouho words enough = absurd (
        omega (
          arith,
          utf_pos laws plain s words.0.some_rune,
          length-append (utf s) (b' ' ∷ spaced (s' ∷ ss)),
        ))
    lookup_loop-spaced (suc fuel) key (s ∷ s' ∷ ss) kouho words enough =
        elim (Bool-cases (ltb (length kouho) max_kouho)) [
          | inr full ↦ stopped (suc fuel) key _ (s ∷ s' ∷ ss) kouho full
          | inl room ↦
              let w = words.0 in
              let one : length (utf s) + 1 ≡ suc (length (utf s)) = omega arith in
              let rest = spaced (s' ∷ ss) in
              let l = length-append (utf s) (b' ' ∷ rest) in
              lookup_loop_step fuel key s (utf s ++ b' ' ∷ rest) rest kouho
                (field-append (utf s) rest (utf-Lacks laws plain b' ' s (omega arith) w.no_space))
                (sinit-utf laws plain s (b' ' ∷ rest) w.runes w.few)
                (ap (λ n. drop n (utf s ++ b' ' ∷ rest)) one ∙ drop_past (utf s) rest b' ')
                (omega arith) room
              ∙ lookup_loop-spaced fuel key (s' ∷ ss) (found key s kouho) words.1 (omega arith)
              ∙ found-others key s (s' ∷ ss) kouho room
        ]

    found_node :
        (r : Run (Option Hnode)) (bs : List ℕ)
        → (r >>= λ o. ok (val_of o)) ≡ ok (some bs)
        → (n : Hnode) × (r ≡ ok (some n)) × (n.val ≡ bs)
    found_node died bs e = absurd (cc e)
    found_node fault bs e = absurd (cc e)
    found_node (ok none) bs e = absurd (cc e)
    found_node (ok (some n)) bs e = (n, refl, cc e)

    no_node : (r : Run (Option Hnode)) → (r >>= λ o. ok (val_of o)) ≡ ok none → r ≡ ok none
    no_node died e = absurd (cc e)
    no_node fault e = absurd (cc e)
    no_node (ok none) e = refl
    no_node (ok (some n)) e = absurd (cc e)

    -- A key that the dictionary does not have has no candidates.
    pub dictlookup-missing :
        (langs : List Lang) (req : Dictreq) (l : Lang) (dict : Hmap)
        → (length req.key == 0) ≡ false
        → getlang langs req.lang ≡ some l
        → l.dict ≡ some dict
        → value dict req.key ≡ ok none
        → dictlookup langs req ≡ ok []
    unfolding dictlookup
    dictlookup-missing langs req l dict given lang loaded v =
        rw (given, lang, loaded, no_node (hmapget dict req.key) (unfold value in v), ◌>>=◌) refl

    -- The words that a lookup gives, of a value that consists of words.
    pub dictlookup-spaced :
        (langs : List Lang) (req : Dictreq) (l : Lang) (dict : Hmap) (ss : List Str)
        → (length req.key == 0) ≡ false
        → getlang langs req.lang ≡ some l
        → l.dict ≡ some dict
        → value dict req.key ≡ ok (some (spaced ss))
        → AllWords ss
        → dictlookup langs req ≡ ok (take max_kouho (others req.key ss))
    unfolding dictlookup
    dictlookup-spaced langs req l dict ss given lang loaded v words =
        let (n, run, e) = found_node (hmapget dict req.key) (spaced ss) (unfold value in v) in
        rw (given, lang, loaded, run, ◌>>=◌, e)
          (ap ok (lookup_loop-spaced (length (spaced ss)) req.key ss [] words (omega arith)))
