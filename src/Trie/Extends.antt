-- ===== src/Trie/Extends.antt =====
-- trie.c: `insert` makes the prefixes of its key reachable, and nothing else.
use strans.Base.{
  ℕ, ◌≤◌, ◌<◌, ◌≡◌, ◌⊎◌, inl, inr, refl, sym, ap, subst, ◌∙◌, Bool, true, false, ◌&&◌, List, [],
  ◌∷◌, ◌++◌, some, arith, length, get_elem?-of_lt, Bool-cases, ltb, ltb→lt, ◌==◌, ==_iff,
}
use strans.Run.{ok, ◌>>=◌, Returns}
use strans.Trie.Grow.{Tree, Grows}
use strans.Trie.Insert.{insert_loop-Inserts, walk_step}
use strans.Trie.Links.{node-eq}
use strans.Trie.Lookup.{
  Reaches, walk-Returns, walk_nil, first_step, walk-Grows_keeps, walk-Grows_reflects,
}
use strans.Trie.Refines.{IsTrie, insert-Returns, end_path}
use strans.Trie.Values.{valued, walk-valued}
use strans.Trie.{Trie, walk, insert}

unfoldable pub is_prefix : List ℕ → List ℕ → Bool
is_prefix [] ys = true
is_prefix (x ∷ xs) [] = false
is_prefix (x ∷ xs) (y ∷ ys) = x == y && is_prefix xs ys

is_prefix-append : (xs ys : List ℕ) → is_prefix xs (xs ++ ys) ≡ true
unfolding is_prefix
is_prefix-append [] ys = refl
is_prefix-append (x ∷ xs) ys = ground (arith, is_prefix-append xs ys)

is_prefix-rest : (xs ys : List ℕ) → is_prefix xs ys ≡ true → (rest : List ℕ) × (ys ≡ xs ++ rest)
unfolding is_prefix
is_prefix-rest [] ys h = (ys, refl)
is_prefix-rest (x ∷ xs) [] h = cc
is_prefix-rest (x ∷ xs) (y ∷ ys) h = elim (Bool-cases (x == y)) [
  | inl same ↦
      let (rest, e) = is_prefix-rest xs ys (rw same at h) in
      (rest, ap (λ z. z ∷ ys) (sym ((==_iff x y).0 same)) ∙ ap (◌∷◌ x) e)
  | inr differ ↦ absurd (cc (rw differ at h))
]

-- The key leads to a node.
abbrev pub Reached : Trie → List ℕ → Type 0
Reached t key = (i : ℕ) × (walk t t.root key ≡ ok (some i))

-- The way to a node leads over the nodes of its prefixes.
walk_front :
    (t : Trie) (path : ℕ → List ℕ) (i m : ℕ) (a b : List ℕ)
    → Tree t path
    → i < length t.nodes
    → walk t i (a ++ b) ≡ ok (some m)
    → (j : ℕ) × (walk t i a ≡ ok (some j))
walk_front t path i m [] b tree lt w = (i, walk_nil t i)
walk_front t path i m (c ∷ a) b tree lt w =
    let (j, ed, lt', w') = first_step t path i c m (a ++ b) tree lt w in
    let (k, w'') = walk_front t path j m a b tree lt' w' in (k, walk_step t i c j a ed ∙ w'')

-- What `insert` changes: the prefixes of the key are reached too.
pub record Extends (t : Trie) (key : List ℕ) (t' : Trie) : Type 0 where
  pub keeps : (k : List ℕ) → Reached t k → Reached t' k
  pub adds : (k : List ℕ) → is_prefix k key ≡ true → Reached t' k
  pub no_other : (k : List ℕ) → Reached t' k → (is_prefix k key ≡ true) ⊎ Reached t k

module _ (n : ℕ) (t : Trie) (is : IsTrie n t) (key val : List ℕ) where
  insert-Extends : Returns (insert t key val) (Extends t key)
  unfolding insert
  insert-Extends =
      let ((t₁, ni), run, (path', tree', g, lt, w)) =
        insert_loop-Inserts key t is.path t.root is.tree is.tree.rooted in
      let (x, e) = get_elem?-of_lt t₁.nodes ni lt in
      let full : is.path t.root ++ key ≡ key = ap (λ l. l ++ key) is.tree.top in
      let g' = subst (λ k. Grows t t₁ is.path path' k) full g in
      let w' : walk t₁ t₁.root key ≡ ok (some ni) = ap (λ r. walk t₁ r key) g.root ∙ w in
      let same : (k : List ℕ) → walk (valued t₁ ni x val) t₁.root k ≡ walk t₁ t₁.root k =
        λ k. walk-valued t₁ path' tree' ni x e val t₁.root k tree'.rooted in
      (
        valued t₁ ni x val,
        rw (run, ◌>>=◌, node-eq t₁.nodes ni e) refl,
        record {
          keeps = λ k h. let (i, v) = grown t₁ path' tree' g' k h in (i, same k ∙ v);
          adds = λ k h. let (i, v) = front t₁ path' tree' ni w' k h in (i, same k ∙ v);
          no_other = λ k h. back t₁ path' tree' g' k h.0 (sym (same k) ∙ h.1);
        },
      )
    where
      grown :
          (t₁ : Trie) (path' : ℕ → List ℕ)
          → Tree t₁ path'
          → Grows t t₁ is.path path' key
          → (k : List ℕ) → Reached t k
          → Reached t₁ k
      grown t₁ path' tree' g k (i, v) = (
        i,
        ap (λ r. walk t₁ r k) g.root
            ∙ walk-Grows_keeps t t₁ is.path path' key is.tree tree' g t.root i k is.tree.rooted v,
      )

      front :
          (t₁ : Trie) (path' : ℕ → List ℕ)
          → Tree t₁ path'
          → (ni : ℕ) → walk t₁ t₁.root key ≡ ok (some ni)
          → (k : List ℕ) → is_prefix k key ≡ true
          → Reached t₁ k
      front t₁ path' tree' ni w k h =
          let (rest, e) = is_prefix-rest k key h in
          walk_front t₁ path' t₁.root ni k rest tree' tree'.rooted
            (ap (walk t₁ t₁.root) (sym e) ∙ w)

      back :
          (t₁ : Trie) (path' : ℕ → List ℕ)
          → Tree t₁ path'
          → Grows t t₁ is.path path' key
          → (k : List ℕ) (j : ℕ) → walk t₁ t₁.root k ≡ ok (some j)
          → (is_prefix k key ≡ true) ⊎ Reached t k
      back t₁ path' tree' g k j v =
          let (o, v', r) = walk-Returns t₁ path' t₁.root k tree' tree'.rooted in
          let p : o ≡ some j = cc (v, v') in
          let (lj, q) = subst (Reaches t₁ path' t₁.root k) p r in
          elim (Bool-cases (ltb j (length t.nodes))) [
            | inl old ↦
                let (_, v'') =
                  walk-Grows_reflects t t₁ is.path path' key is.tree tree' g t.root j k
                    (omega (arith, g.size, is.tree.rooted)) (ltb→lt j _ old)
                    (ap (λ i. walk t₁ i k) (sym g.root) ∙ v) in
                inr (j, v'')
            | inr new ↦
                let (_, (rest, e)) = g.fresh j (ground arith) lj in
                let here : path' j ≡ k = end_path t₁ path' tree' k j v in
                inl (ap (is_prefix k) (sym e ∙ ap (λ l. l ++ rest) here) ∙ is_prefix-append k rest)
          ]

  -- Both of what `insert` does to the values and to the prefixes.
  pub insert-IsTrie :
      length key ≤ n → Returns (insert t key val) λ t'. IsTrie n t' × Extends t key t'
  insert-IsTrie short =
      let (t₁, run, (is₁, _)) = insert-Returns n t is key val short in
      let (t₂, run', ext) = insert-Extends in
      let p : t₂ ≡ t₁ = cc (run, run') in (t₁, run, (is₁, subst (Extends t key) p ext))
