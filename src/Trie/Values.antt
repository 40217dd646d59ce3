-- ===== src/Trie/Values.antt =====
-- trie.c: the end of `insert`, which gives a node its value, and `insert` as a whole.
use strans.Base.{
  ℕ, ◌<◌, ◌≡◌, ◌≢◌, inl, inr, refl, sym, ap, ◌∙◌, false, List, [], ◌∷◌, ◌++◌, Option, none, some,
  arith, length, set, get_elem?, get_elem?-of_lt, lt-of-get_elem?, length-set, get_elem?-set_self,
  get_elem?-set_ne, Bool-cases, ◌==◌, ==_iff, equal, equal_iff, if◌then◌else◌,
}
use mathlib.Core.Option.{some-injective}
use strans.Run.{ok}
use strans.Trie.Grow.{Tree, value_of, val_in}
use strans.Trie.Insert.{walk_step}
use strans.Trie.Links.{Below, Agree, find-Returns, find-Agree}
use strans.Trie.Lookup.{walk_nil, walk_stop, walk-Returns, Reaches, value_at, trieget-walk}
use strans.Trie.{Tnode, Trie, find, walk, trieget}

abbrev pub valued : Trie → ℕ → Tnode → List ℕ → Trie
valued t ni x val = record t { nodes = set t.nodes ni (record x { val = some val }) }

module _ (t : Trie) (path : ℕ → List ℕ) (tree : Tree t path) (ni : ℕ) (x : Tnode)
    (e : get_elem? t.nodes ni ≡ some x) (val : List ℕ) where
  abbrev t' : Trie
  t' = valued t ni x val

  pub same_length : length t'.nodes ≡ length t.nodes
  same_length = length-set t.nodes ni (record x { val = some val })

  -- Each node is as it was, but for the value of `ni`.
  same_node :
      (i : ℕ) (y : Tnode)
      → get_elem? t.nodes i ≡ some y
      → (y' : Tnode) × (get_elem? t'.nodes i ≡ some y')
        × (y'.c ≡ y.c)
        × (y'.sibling ≡ y.sibling)
        × (y'.child ≡ y.child)
  same_node i y e' = elim (Bool-cases (i == ni)) [
    | inl same ↦
        let s = (==_iff i ni).0 same in
        let p : y ≡ x = some-injective y x (sym e' ∙ ap (get_elem? t.nodes) s ∙ e) in
        (
          record x { val = some val },
          ap (get_elem? t'.nodes) s
              ∙ get_elem?-set_self t.nodes ni _ (lt-of-get_elem? t.nodes ni e),
          ap (λ z. z.c) (sym p),
          ap (λ z. z.sibling) (sym p),
          ap (λ z. z.child) (sym p),
        )
    | inr other ↦ (
      y,
      get_elem?-set_ne t.nodes ni i _ (λ s. cc ((==_iff i ni).1 (sym s))) ∙ e',
      refl,
      refl,
      refl,
    )
  ]

  valued-Agree : Agree t.nodes t'.nodes
  valued-Agree i y e' = let (y', e'', c, s, _) = same_node i y e' in (y', e'', c, s)

  find-valued : (i c : ℕ) → i < length t.nodes → find t' i c ≡ find t i c
  find-valued i c lt =
      let (y, e') = get_elem?-of_lt t.nodes i lt in
      let (y', e'', _, _, child) = same_node i y e' in
      find-Agree t t' i c y y' tree.linked valued-Agree (omega (arith, same_length)) e' e'' child

  back :
      (i : ℕ) (y : Tnode)
      → get_elem? t'.nodes i ≡ some y
      → (z : Tnode) × (get_elem? t.nodes i ≡ some z) × (z.child ≡ y.child) × (z.sibling ≡ y.sibling)
  back i y e' =
      let (z, f) =
        get_elem?-of_lt t.nodes i (omega (arith, same_length, lt-of-get_elem? t'.nodes i e')) in
      let (y', f', _, s, c) = same_node i z f in
      let p : y' ≡ y = some-injective y' y (sym f' ∙ e') in
      (z, f, sym c ∙ ap (λ w. w.child) p, sym s ∙ ap (λ w. w.sibling) p)

  pub valued-Tree : Tree t' path
  valued-Tree = record {
    linked = record {
      child = λ i y j e' ec.
          let (z, f, c, _) = back i y e' in
          omega (arith, same_length, tree.linked.child i z j f (c ∙ ec));
      sibling =
          λ i y j e' es. let (z, f, _, s) = back i y e' in tree.linked.sibling i z j f (s ∙ es);
    };
    rooted = omega (arith, same_length, tree.rooted);
    top = tree.top;
    labels = λ i c j lt ed.
        let lt' : i < length t.nodes = omega (arith, same_length) in
        tree.labels i c j lt' (sym (find-valued i c lt') ∙ ed);
  }

  pub walk-valued : (i : ℕ) (key : List ℕ) → i < length t.nodes → walk t' i key ≡ walk t i key
  walk-valued i [] lt = walk_nil t' i ∙ sym (walk_nil t i)
  walk-valued i (c ∷ key) lt =
      let (o, run, below) = find-Returns t i c tree.linked lt in
      elim o
          as (λ o.
            find t i c ≡ ok o
            → Below (length t.nodes) o
            → walk t' i (c ∷ key) ≡ walk t i (c ∷ key)) [
              | none ↦ λ run below.
                  walk_stop t' i c key (find-valued i c lt ∙ run) ∙ sym (walk_stop t i c key run)
              | some j ↦ λ run below.
                  walk_step t' i c j key (find-valued i c lt ∙ run)
                  ∙ walk-valued j key below
                  ∙ sym (walk_step t i c j key run)
            ]
        run below

  value_here : value_of t' ni ≡ some val
  value_here = ap val_in (get_elem?-set_self t.nodes ni _ (lt-of-get_elem? t.nodes ni e))

  value_there : (i : ℕ) → i ≢ ni → value_of t' i ≡ value_of t i
  value_there i other = ap val_in (get_elem?-set_ne t.nodes ni i _ (λ s. other (sym s)))

  -- A key reads the new value if it is the key of `ni`, and else what it read before.
  pub trieget-valued :
      (full : List ℕ)
      → path ni ≡ full
      → walk t t.root full ≡ ok (some ni)
      → (key : List ℕ) → trieget t' key ≡ (if equal key full then ok (some val) else trieget t key)
  trieget-valued full p here key =
      let (o, w, r) = walk-Returns t path t.root key tree tree.rooted in
      let w' : walk t' t'.root key ≡ ok o = walk-valued t.root key tree.rooted ∙ w in
      elim (Bool-cases (equal key full)) [
        | inl same ↦
            let s = (equal_iff key full).0 same in
            let q : some ni ≡ o = cc (here, w, s) in
            rw same (
              trieget-walk t' path t.root key o w' (reaches' o r)
              ∙ ap (λ o. ok (value_at t' o)) (sym q)
              ∙ ap ok value_here)
        | inr other ↦ rw other (
            trieget-walk t' path t.root key o w' (reaches' o r)
            ∙ ap ok (unread o r other)
            ∙ sym (trieget-walk t path t.root key o w r))
      ]
    where
      reaches' : (o : Option ℕ) → Reaches t path t.root key o → Reaches t' path t.root key o
      reaches' none r = tt
      reaches' (some j) (lt, q) = (omega (arith, same_length), q)

      unread :
          (o : Option ℕ)
          → Reaches t path t.root key o
          → equal key full ≡ false
          → value_at t' o ≡ value_at t o
      unread none r other = refl
      unread (some j) (lt, q) other = value_there j λ s.
          let k : key ≡ full = sym (q ∙ ap (λ l. l ++ key) tree.top) ∙ ap path s ∙ p in
          absurd (cc ((equal_iff key full).1 k))
