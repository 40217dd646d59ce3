-- ===== src/Trie/Refines.antt =====
-- trie.c: the trie refines a table in which the newest entry of a key counts.
use strans.Base.{
  ℕ, zero, suc, ◌≤◌, ◌<◌, ◌≡◌, ◌⊎◌, inl, inr, refl, sym, ap, subst, ◌∙◌, List, [], ◌∷◌, ◌++◌,
  Option, none, some, arith, length, get_elem?, length-append, get_elem?-of_lt, Bool-cases, ltb,
  ltb→lt, equal, if◌then◌else◌,
}
use mathlib.Core.Option.{some-injective}
use strans.Run.{ok, ◌>>=◌, Returns}
use strans.Trie.Grow.{Tree, Grows}
use strans.Trie.Insert.{insert_loop-Inserts}
use strans.Trie.Links.{node-eq, find-eq}
use strans.Trie.Lookup.{Reaches, walk-Returns, trieget-walk, value_at, value_at-Grows}
use strans.Trie.Values.{valued, same_length, valued-Tree, trieget-valued}
use strans.Trie.{
  Tnode, Trie, walk, blank, find, find_loop, newnode, empty, trieget, insert, split_tab,
}

-- The trie is a tree, and no node is deeper than `n`.
pub record IsTrie (n : ℕ) (t : Trie) : Type 0 where
  pub path : ℕ → List ℕ
  pub tree : Tree t path
  pub shallow : (i : ℕ) → i < length t.nodes → length (path i) ≤ n

-- What a table reads: the newest entry of a key.
unfoldable pub latest : List (List ℕ × List ℕ) → List ℕ → Option (List ℕ)
latest [] key = none
latest ((k, v) ∷ es) key = if equal key k then some v else latest es key

abbrev pub Refines : Trie → List (List ℕ × List ℕ) → Type 0
Refines t es = (key : List ℕ) → trieget t key ≡ ok (latest es key)

-- The value that a key reads does not change while the tree grows.
trieget-Grows :
    (t t' : Trie) (path path' : ℕ → List ℕ) (full : List ℕ)
    → Tree t path
    → Tree t' path'
    → Grows t t' path path' full
    → (key : List ℕ) → trieget t' key ≡ trieget t key
trieget-Grows t t' path path' full tree tree' g key =
    let (o, w, r) = walk-Returns t path t.root key tree tree.rooted in
    let (o', w', r') = walk-Returns t' path' t'.root key tree' tree'.rooted in
    trieget-walk t' path' t'.root key o' w' r'
    ∙ ap ok (
        value_at-Grows t t' path path' full tree tree' g key o o' w r
          (ap (λ i. walk t' i key) (sym g.root) ∙ w')
          (subst (λ i. Reaches t' path' i key o') g.root r'))
    ∙ sym (trieget-walk t path t.root key o w r)

pub end_path :
    (t : Trie) (path : ℕ → List ℕ)
    → Tree t path
    → (key : List ℕ) (ni : ℕ) → walk t t.root key ≡ ok (some ni)
    → path ni ≡ key
end_path t path tree key ni w =
    let (o, w', r) = walk-Returns t path t.root key tree tree.rooted in
    let p : o ≡ some ni = cc (w, w') in
    (subst (λ o. Reaches t path t.root key o) p r).1 ∙ ap (λ l. l ++ key) tree.top

module _ (n : ℕ) (t : Trie) (is : IsTrie n t) (key val : List ℕ) (short : length key ≤ n) where
  -- On a trie at most `n` deep and a key of at most `n` bytes `insert` returns a trie at most
  -- `n` deep, in which `trieget` gives the new value for that key, and for every other key what
  -- it gave before.
  pub insert-Returns : Returns (insert t key val) λ t'.
      IsTrie n t'
      × ((k : List ℕ) → trieget t' k ≡ (if equal k key then ok (some val) else trieget t k))
  unfolding insert
  insert-Returns =
      let ((t₁, ni), run, (path', tree', g, lt, w)) =
        insert_loop-Inserts key t is.path t.root is.tree is.tree.rooted in
      let (x, e) = get_elem?-of_lt t₁.nodes ni lt in
      let full : is.path t.root ++ key ≡ key = ap (λ l. l ++ key) is.tree.top in
      let g' = subst (λ k. Grows t t₁ is.path path' k) full g in
      let w' : walk t₁ t₁.root key ≡ ok (some ni) = ap (λ r. walk t₁ r key) g.root ∙ w in
      let here : path' ni ≡ key = end_path t₁ path' tree' key ni w' in
      (
        valued t₁ ni x val,
        rw (run, ◌>>=◌, node-eq t₁.nodes ni e) refl,
        (
          record {
            path = path';
            tree = valued-Tree t₁ path' tree' ni x e val;
            shallow =
                λ i h. deep t₁ path' g' i (omega (arith, same_length t₁ path' tree' ni x e val));
          },
          λ k.
              trieget-valued t₁ path' tree' ni x e val key here w' k
              ∙ ap (λ r. if equal k key then ok (some val) else r)
                  (trieget-Grows t t₁ is.path path' key is.tree tree' g' k),
        ),
      )
    where
      deep :
          (t₁ : Trie) (path' : ℕ → List ℕ)
          → Grows t t₁ is.path path' key
          → (i : ℕ) → i < length t₁.nodes
          → length (path' i) ≤ n
      deep t₁ path' g i h = elim (Bool-cases (ltb i (length t.nodes))) [
        | inl old ↦
            let lt = ltb→lt i _ old in
            omega (arith, ap (length {A = ℕ}) (g.paths i lt), is.shallow i lt)
        | inr new ↦
            let (_, (rest, p)) = g.fresh i (ground arith) h in
            omega (arith, ap (length {A = ℕ}) p, length-append (path' i) rest)
      ]

-- The trie without a line.
pub empty-IsTrie : (n : ℕ) → IsTrie n empty
unfolding empty newnode
empty-IsTrie n = record {
  path = λ i. [];
  tree = record {
    linked = record {
      child = λ i x j e ec. absurd (only_blank i x e j (inl ec));
      sibling = λ i x j e es. absurd (only_blank i x e j (inr es));
    };
    rooted = omega arith;
    top = refl;
    labels = λ i c j lt ed. absurd (cc (no_edge i c lt, ed));
  };
  shallow = λ i h. omega arith;
}
  where
    only_blank :
        (i : ℕ) (x : Tnode)
        → get_elem? (blank ∷ []) i ≡ some x
        → (j : ℕ) → (x.child ≡ some j) ⊎ (x.sibling ≡ some j)
        → ⊥
    only_blank zero x e j (inl ec) =
        let p = some-injective blank x e in absurd (cc (ap (λ y. y.child) p, ec))
    only_blank zero x e j (inr es) =
        let p = some-injective blank x e in absurd (cc (ap (λ y. y.sibling) p, es))
    only_blank (suc i) x e j h = cc

    no_edge : (i c : ℕ) → i < 1 → find empty i c ≡ ok none
    no_edge i c lt =
        let s : i ≡ 0 = omega arith in
        ap (λ i. find empty i c) s ∙ find-eq empty 0 blank c refl ∙ (unfold find_loop in refl)

-- What a line of a map file is: a blank line, an entry, or malformed.
unfoldable pub parse : List (List ℕ) → Option (List (List ℕ × List ℕ))
parse [] = some []
parse ([] ∷ ls) = parse ls
parse ((b ∷ line) ∷ ls) = elim (split_tab (b ∷ line)) [
  | none ↦ none
  | some (key, []) ↦ none
  | some (key, v ∷ val) ↦ elim (parse ls) [ none ↦ none | some es ↦ some ((key, v ∷ val) ∷ es) ]
]

pub empty-Refines : Refines empty []
unfolding latest
empty-Refines key =
    let is = empty-IsTrie 0 in
    let (o, w, r) = walk-Returns empty is.path empty.root key is.tree is.tree.rooted in
    trieget-walk empty is.path empty.root key o w r ∙ ap ok (no_value o r)
  where
    no_value :
        (o : Option ℕ)
        → Reaches empty (empty-IsTrie 0).path empty.root key o
        → value_at empty o ≡ none
    no_value none r = refl
    no_value (some zero) r = unfold empty newnode in refl
    no_value (some (suc i)) r = unfold empty newnode in refl
