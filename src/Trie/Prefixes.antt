-- ===== src/Trie/Prefixes.antt =====
-- trie.c, `trielookup`: it finds the keys that an entry starts with.
use mathlib.Core.Option.{some-injective}
use strans.Base.{
  ℕ, ◌≤◌, ◌≡◌, ◌⊎◌, inl, inr, refl, sym, ap, subst, ◌∙◌, Bool, true, false, ◌||◌, List, [], ◌∷◌,
  Option, none, some, arith, length, Bool-cases, equal,
}
use strans.Run.{ok, ◌>>=◌, Returns}
use strans.Trie.Lookup.{Reaches, walk-Returns, walk_nil, trielookup-walk, trieget-walk, value_at}
use strans.Trie.Refines.{IsTrie, latest, parse, empty-IsTrie, end_path}
use strans.Trie.Load.{newest_first, AllShort, parse-Entry, parse_nil, parse_blank, trieopen-Refines}
use strans.Trie.{Trie, walk, empty, trieget, trielookup, open_line, open_lines, trieopen}
use strans.Trie.Extends.{is_prefix, Reached, Extends, insert-IsTrie}

-- A key that leads somewhere: the empty one, and every prefix of the key of an entry.
unfoldable pub leads : List (List ℕ × List ℕ) → List ℕ → Bool
leads [] key = equal key []
leads ((k, v) ∷ es) key = is_prefix key k || leads es key

pub record Leads (t : Trie) (es : List (List ℕ × List ℕ)) : Type 0 where
  pub reaches : (key : List ℕ) → leads es key ≡ true → Reached t key
  pub only : (key : List ℕ) → Reached t key → leads es key ≡ true

or_true : (a b : Bool) → (a || b) ≡ true → (a ≡ true) ⊎ (b ≡ true)
or_true true b h = inl refl
or_true false b h = inr h

or_left : (a b : Bool) → a ≡ true → (a || b) ≡ true
or_left a b h = rw h refl

or_right : (a b : Bool) → b ≡ true → (a || b) ≡ true
or_right true b h = refl
or_right false b h = h

Leads-insert :
    (t t' : Trie) (es : List (List ℕ × List ℕ)) (key val : List ℕ)
    → Leads t es
    → Extends t key t'
    → Leads t' ((key, val) ∷ es)
unfolding leads
Leads-insert t t' es key val l x = record {
  reaches = λ k h. elim (or_true (is_prefix k key) (leads es k) h) [
    | inl new ↦ x.adds k new
    | inr old ↦ x.keeps k (l.reaches k old)
  ];
  only = λ k h. elim (x.no_other k h) [
    | inl new ↦ or_left (is_prefix k key) (leads es k) new
    | inr old ↦ or_right (is_prefix k key) (leads es k) (l.only k old)
  ];
}

open_lines-Leads :
    (n : ℕ) (ls : List (List ℕ)) (t : Trie) (old es : List (List ℕ × List ℕ))
    → IsTrie n t
    → Leads t old
    → parse ls ≡ some es
    → AllShort n es
    → Returns (open_lines t ls) λ t'. IsTrie n t' × Leads t' (newest_first es old)
unfolding open_lines open_line newest_first
open_lines-Leads n [] t old es is l p short =
    let e : [] ≡ es = some-injective [] es (sym parse_nil ∙ p) in
    (t, refl, (is, subst (λ es. Leads t (newest_first es old)) e l))
open_lines-Leads n ([] ∷ ls) t old es is l p short =
    open_lines-Leads n ls t old es is l (sym (parse_blank ls) ∙ p) short
open_lines-Leads n ((b ∷ line) ∷ ls) t old es is l p short =
    let (key, v, val, rest, split, parsed, e) = parse-Entry b line ls es p in
    let (short_key, _, short_rest) = subst (AllShort n) e short in
    let (t', run, (is', ext)) = insert-IsTrie n t is key (v ∷ val) short_key in
    let (t'', run', (is'', l'')) =
      open_lines-Leads n ls t' ((key, v ∷ val) ∷ old) rest is'
        (Leads-insert t t' old key (v ∷ val) l ext) parsed short_rest in
    (
      t'',
      rw (split, run, ◌>>=◌) run',
      (is'', subst (λ es. Leads t'' (newest_first es old)) (sym e) l''),
    )

only_root : (key : List ℕ) → Reached empty key → equal key [] ≡ true
only_root key (i, v) =
    let is = empty-IsTrie 0 in
    let (o, w, r) = walk-Returns empty is.path empty.root key is.tree is.tree.rooted in
    let p : o ≡ some i = cc (v, w) in
    let (lt, _) = subst (Reaches empty is.path empty.root key) p r in
    no_byte key
      (omega (arith, is.shallow i lt, ap (length {A = ℕ}) (end_path empty is.path is.tree key i v)))
  where
    no_byte : (key : List ℕ) → length key ≤ 0 → equal key [] ≡ true
    no_byte [] h = unfold equal in refl
    no_byte (c ∷ key) h = absurd (omega arith)

empty-Leads : Leads empty []
unfolding leads equal empty
empty-Leads = record {
  reaches = λ key h.
      elim key as (λ key. equal key [] ≡ true → Reached empty key) [
        | [] ↦ λ _. (0, walk_nil empty 0)
        | c ∷ key ↦ λ h. cc
      ]
        h;
  only = λ key h. only_root key h;
}

-- If every line of a map file is blank or an entry, and no key or value of an entry has more than
-- `n` bytes, then `trieopen` returns a trie on which `trielookup` returns for every key. Its
-- result is 1 exactly if the key is empty or a prefix of the key of an entry, and the value that
-- it leaves is that of the last line with that key, or nil.
pub trieopen-Leads :
    (n : ℕ) (ls : List (List ℕ)) (es : List (List ℕ × List ℕ))
    → parse ls ≡ some es
    → AllShort n es
    → Returns (trieopen (some ls)) λ t.
      (key : List ℕ)
      → trielookup t key ≡ ok (leads (newest_first es []) key, latest (newest_first es []) key)
trieopen-Leads n ls es p short =
    let (t₁, run, (is, reads)) = trieopen-Refines n ls es p short in
    let (t₂, run', (_, l)) : Returns (trieopen (some ls))
        λ t'. IsTrie n t' × Leads t' (newest_first es []) =
      (unfold trieopen in open_lines-Leads n ls empty [] es (empty-IsTrie n) empty-Leads p short) in
    let same : t₂ ≡ t₁ = cc (run, run') in
    (
      t₁,
      run,
      λ key. looked_up t₁ is (subst (λ t. Leads t (newest_first es [])) same l) key (reads key),
    )
  where
    looked_up :
        (t : Trie)
        → IsTrie n t
        → Leads t (newest_first es [])
        → (key : List ℕ) → trieget t key ≡ ok (latest (newest_first es []) key)
        → trielookup t key ≡ ok (leads (newest_first es []) key, latest (newest_first es []) key)
    looked_up t is l key reads =
        let (o, w, r) = walk-Returns t is.path t.root key is.tree is.tree.rooted in
        let get = trieget-walk t is.path t.root key o w r in
        let val : value_at t o ≡ latest (newest_first es []) key = cc (get, reads) in
        trielookup-walk t is.path t.root key o w r
        ∙ ap (λ v. ok (elim o [ none ↦ false | some _ ↦ true ], v)) val
        ∙ ap (λ b. ok (b, latest (newest_first es []) key)) (found o w)
      where
        found :
            (o : Option ℕ)
            → walk t t.root key ≡ ok o
            → elim o [ none ↦ false | some _ ↦ true ] ≡ leads (newest_first es []) key
        found none w = elim (Bool-cases (leads (newest_first es []) key)) [
          | inl there ↦ absurd (cc (w, (l.reaches key there).1))
          | inr not_there ↦ sym not_there
        ]
        found (some i) w = sym (l.only key (i, w))
