-- ===== src/Trie/Load.antt =====
-- trie.c, `trieopen`: a map file as a table of its lines.
use strans.Base.{
  subst, ℕ, ◌≤◌, ◌≡◌, inl, inr, refl, sym, ap, ◌∙◌, List, [], ◌∷◌, some, length, Option-cases,
  Bool-cases, equal, if◌then◌else◌,
}
use mathlib.Core.Option.{some-injective}
use strans.Run.{ok, ◌>>=◌, Returns}
use strans.Trie.Refines.{
  IsTrie, Refines, latest, parse, insert-Returns, empty-IsTrie, empty-Refines,
}
use strans.Trie.{Trie, empty, trieget, split_tab, open_line, open_lines, trieopen}

-- The entries of `es`, the last one first, in front of `old`.
unfoldable pub newest_first {ℓ} : {A : Type ℓ} → List A → List A → List A
newest_first [] old = old
newest_first (e ∷ es) old = newest_first es (e ∷ old)

-- No key has more than `n` bytes, and no value has `n` or more.
abbrev pub AllShort : ℕ → List (List ℕ × List ℕ) → Type 0
AllShort n [] = Unit {0}
AllShort n ((k, v) ∷ es) = (length k ≤ n) × (length v ≤ n) × AllShort n es

-- A line that is an entry.
abbrev pub Entry : List ℕ → List (List ℕ) → List (List ℕ × List ℕ) → Type 0
Entry line ls es =
    (key : List ℕ) × (v : ℕ) × (val : List ℕ) × (rest : List (List ℕ × List ℕ)) × (split_tab line
      ≡ some (key, v ∷ val))
    × (parse ls ≡ some rest)
    × (es ≡ (key, v ∷ val) ∷ rest)

pub parse_nil : parse [] ≡ some []
unfolding parse
parse_nil = refl

pub parse_blank : (ls : List (List ℕ)) → parse ([] ∷ ls) ≡ parse ls
unfolding parse
parse_blank ls = refl

pub parse-Entry :
    (b : ℕ) (line : List ℕ) (ls : List (List ℕ)) (es : List (List ℕ × List ℕ))
    → parse ((b ∷ line) ∷ ls) ≡ some es
    → Entry (b ∷ line) ls es
unfolding parse
parse-Entry b line ls es h = elim (Option-cases (split_tab (b ∷ line))) [
  | inl missing ↦ absurd (cc (rw (missing, parse) at h))
  | inr ((key, []), e) ↦ absurd (cc (rw (e, parse) at h))
  | inr ((key, v ∷ val), e) ↦ elim (Option-cases (parse ls)) [
    | inl bad ↦ absurd (cc (rw (e, bad, parse) at h))
    | inr (rest, e') ↦ (key, v, val, rest, e, e', sym (some-injective _ _ (rw (e, e', parse) at h)))
  ]
]

Refines-insert :
    (t t' : Trie) (es : List (List ℕ × List ℕ)) (key val : List ℕ)
    → Refines t es
    → ((k : List ℕ) → trieget t' k ≡ (if equal k key then ok (some val) else trieget t k))
    → Refines t' ((key, val) ∷ es)
unfolding latest
Refines-insert t t' es key val r h k =
    h k ∙ (elim (Bool-cases (equal k key)) [ inl same ↦ rw same | inr other ↦ rw other (r k) ])

-- Each line is inserted, and a trie that refined a table refines it with the new entries in front.
pub open_lines-Returns :
    (n : ℕ) (ls : List (List ℕ)) (t : Trie) (old es : List (List ℕ × List ℕ))
    → IsTrie n t
    → Refines t old
    → parse ls ≡ some es
    → AllShort n es
    → Returns (open_lines t ls) λ t'. IsTrie n t' × Refines t' (newest_first es old)
unfolding open_lines open_line newest_first
open_lines-Returns n [] t old es is r p short =
    let e : [] ≡ es = some-injective [] es (sym parse_nil ∙ p) in
    (t, refl, (is, λ k. r k ∙ ap (λ es. ok (latest (newest_first es old) k)) e))
open_lines-Returns n ([] ∷ ls) t old es is r p short =
    open_lines-Returns n ls t old es is r (sym (parse_blank ls) ∙ p) short
open_lines-Returns n ((b ∷ line) ∷ ls) t old es is r p short =
    let (key, v, val, rest, split, parsed, e) = parse-Entry b line ls es p in
    let (short_key, short_val, short_rest) = subst (AllShort n) e short in
    let (t', run, (is', h)) = insert-Returns n t is key (v ∷ val) short_key in
    let (t'', run', (is'', r'')) =
      open_lines-Returns n ls t' ((key, v ∷ val) ∷ old) rest is'
        (Refines-insert t t' old key (v ∷ val) r h) parsed short_rest in
    (
      t'',
      rw (split, run, ◌>>=◌) run',
      (is'', λ k. r'' k ∙ ap (λ es. ok (latest (newest_first es old) k)) (sym e)),
    )

-- If every line of a map file is blank or an entry, and no key or value of an entry has more than
-- `n` bytes, then `trieopen` returns a trie at most `n` deep, in which `trieget` gives for every
-- key the value of the last line with that key, and nil for a key without a line.
pub trieopen-Refines :
    (n : ℕ) (ls : List (List ℕ)) (es : List (List ℕ × List ℕ))
    → parse ls ≡ some es
    → AllShort n es
    → Returns (trieopen (some ls)) λ t. IsTrie n t × Refines t (newest_first es [])
unfolding trieopen
trieopen-Refines n ls es p short =
    open_lines-Returns n ls empty [] es (empty-IsTrie n) (empty-Refines) p short
