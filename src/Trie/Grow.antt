-- ===== src/Trie/Grow.antt =====
-- trie.c: the nodes form a tree. `path` names each node by the key that leads to it; it is no part
-- of the program, and stands only in the invariant.
use strans.Base.{
  ℕ, ◌≤◌, ◌<◌, ◌≡◌, ◌⊎◌, inl, inr, refl, sym, ap, ap₂, ◌∙◌, List, [], ◌∷◌, ◌++◌, append_assoc,
  Option, none, some, arith, length, get_elem?, Bool-cases, ltb, ltb→lt, ◌==◌, ==_iff,
  if◌then◌else◌,
}
use strans.Run.{ok}
use strans.Trie.Add.{Added, Added-IsLinked, find-Added_other, find-Added_new, find-Added_old}
use strans.Trie.Links.{IsLinked, find-lt}
use strans.Trie.{Tnode, Trie, find}

abbrev pub Edge : Trie → ℕ → ℕ → ℕ → Type 0
Edge t i c j = find t i c ≡ ok (some j)

pub record Tree (t : Trie) (path : ℕ → List ℕ) : Type 0 where
  pub linked : IsLinked t.nodes
  pub rooted : t.root < length t.nodes
  pub top : path t.root ≡ []
  pub labels : (i c j : ℕ) → i < length t.nodes → Edge t i c j → path j ≡ path i ++ c ∷ []

abbrev pub val_in : Option Tnode → Option (List ℕ)
val_in none = none
val_in (some x) = x.val

abbrev pub value_of : Trie → ℕ → Option (List ℕ)
value_of t i = val_in (get_elem? t.nodes i)

-- `t'` has the nodes of `t`, their values and edges, and new nodes without a value, each on the way
-- to `key`.
pub record Grows (t t' : Trie) (path path' : ℕ → List ℕ) (key : List ℕ) : Type 0 where
  pub root : t'.root ≡ t.root
  pub size : length t.nodes ≤ length t'.nodes
  pub paths : (i : ℕ) → i < length t.nodes → path' i ≡ path i
  pub values : (i : ℕ) → i < length t.nodes → value_of t' i ≡ value_of t i
  pub keeps : (i c j : ℕ) → i < length t.nodes → Edge t i c j → Edge t' i c j
  pub reflects :
      (i c j : ℕ)
      → i < length t'.nodes
      → j < length t.nodes
      → Edge t' i c j
      → (i < length t.nodes) × Edge t i c j
  pub fresh :
      (j : ℕ)
      → length t.nodes ≤ j
      → j < length t'.nodes
      → (value_of t' j ≡ none) × ((rest : List ℕ) × (path' j ++ rest ≡ key))

pub Grows-refl : (t : Trie) (path : ℕ → List ℕ) (key : List ℕ) → Grows t t path path key
Grows-refl t path key = record {
  root = refl;
  size = omega arith;
  paths = λ i h. refl;
  values = λ i h. refl;
  keeps = λ i c j h e. e;
  reflects = λ i c j h k e. (h, e);
  fresh = λ j h k. absurd (omega arith);
}

pub Grows-trans :
    {t t' t'' : Trie} {path path' path'' : ℕ → List ℕ} {key : List ℕ}
    → Grows t t' path path' key
    → Grows t' t'' path' path'' key
    → Grows t t'' path path'' key
Grows-trans {t} {t'} {t''} {path} {path'} {path''} {key} g g' = record {
  root = g'.root ∙ g.root;
  size = omega (arith, g.size, g'.size);
  paths = λ i h. g'.paths i (omega (arith, g.size)) ∙ g.paths i h;
  values = λ i h. g'.values i (omega (arith, g.size)) ∙ g.values i h;
  keeps = λ i c j h e. g'.keeps i c j (omega (arith, g.size)) (g.keeps i c j h e);
  reflects = λ i c j h k e.
      let (h', e') = g'.reflects i c j h (omega (arith, g.size)) e in g.reflects i c j h' k e';
  fresh = λ j h k. elim (Bool-cases (ltb j (length t'.nodes))) [
    | inl early ↦
        let lt = ltb→lt j _ early in
        let (v, (rest, p)) = g.fresh j h lt in
        (g'.values j lt ∙ v, (rest, ap (λ l. l ++ rest) (g'.paths j lt) ∙ p))
    | inr late ↦ g'.fresh j (ground arith) k
  ];
}

-- The node that `add` makes is the node of the longer key.
abbrev named : (ℕ → List ℕ) → ℕ → List ℕ → ℕ → List ℕ
named path n l i = if i == n then l else path i

module _ (t : Trie) (path : ℕ → List ℕ) (tree : Tree t path) (ni c : ℕ) (lt : ni < length t.nodes)
    (absent : find t ni c ≡ ok none) (parent : Tnode) (e : get_elem? t.nodes ni ≡ some parent)
    (t' : Trie) (a : Added t ni c parent t') where
  abbrev path' : ℕ → List ℕ
  path' = named path (length t.nodes) (path ni ++ c ∷ [])

  path'_old : (i : ℕ) → i < length t.nodes → path' i ≡ path i
  path'_old i h = ground arith

  pub path'_new : path' (length t.nodes) ≡ path ni ++ c ∷ []
  path'_new = ground arith

  -- What an edge of the new tree is.
  Edge-cases :
      (i c' j : ℕ)
      → i < length t'.nodes
      → Edge t' i c' j
      → ((i ≡ ni) × (c' ≡ c) × (j ≡ length t.nodes)) ⊎ ((i < length t.nodes) × Edge t i c' j)
  Edge-cases i c' j h ed = elim (Bool-cases (i == length t.nodes)) [
    | inl new ↦
        let s = (==_iff i (length t.nodes)).0 new in
        absurd (cc (find-Added_new t ni c parent t' linked e a c', ap (λ k. find t' k c') s, ed))
    | inr more ↦ elim (Bool-cases (i == ni)) [
      | inr other ↦
          let k : i < length t.nodes = ground (arith, a.grown) in
          inr (
            k,
            sym (find-Added_other t ni c parent t' linked e a i c' k (λ s. cc ((==_iff i ni).1 s)))
                ∙ ed,
          )
      | inl old ↦
          let s = (==_iff i ni).0 old in
          let run = find-Added_old t ni c parent t' linked e a c' in
          let ed' : find t' ni c' ≡ ok (some j) = sym (ap (λ k. find t' k c') s) ∙ ed in
          elim (Bool-cases (c == c')) [
            | inl same ↦
                let r : ok (some (length t.nodes)) ≡ ok (some j) = (rw same at (sym run)) ∙ ed' in
                inl (s, sym ((==_iff c c').0 same), cc r)
            | inr differ ↦
                let r : find t ni c' ≡ ok (some j) = (rw differ at (sym run)) ∙ ed' in
                inr (omega arith, ap (λ k. find t k c') s ∙ r)
          ]
    ]
  ]
    where
      linked : IsLinked t.nodes
      linked = tree.linked

  keeps_Edge : (i c' j : ℕ) → i < length t.nodes → Edge t i c' j → Edge t' i c' j
  keeps_Edge i c' j h ed = elim (Bool-cases (i == ni)) [
    | inr other ↦
        find-Added_other t ni c parent t' tree.linked e a i c' h (λ s. cc ((==_iff i ni).1 s)) ∙ ed
    | inl old ↦
        let s = (==_iff i ni).0 old in
        let ed' : find t ni c' ≡ ok (some j) = sym (ap (λ k. find t k c') s) ∙ ed in
        elim (Bool-cases (c == c')) [
          | inl same ↦ absurd (cc (ap (λ k. find t ni k) ((==_iff c c').0 same), absent, ed'))
          | inr differ ↦
              ap (λ k. find t' k c') s
              ∙ find-Added_old t ni c parent t' tree.linked e a c'
              ∙ (rw differ ed')
        ]
  ]

  -- The edge that `add` makes.
  pub new-Edge : Edge t' ni c (length t.nodes)
  new-Edge = find-Added_old t ni c parent t' tree.linked e a c ∙ (rw ((==_iff c c).1 refl) refl)

  -- `add` keeps the tree, and makes one node, which has no value.
  pub add-Tree : Tree t' path'
  add-Tree = record {
    linked = Added-IsLinked t ni c parent t' tree.linked e a;
    rooted = omega (arith, a.root, a.grown, tree.rooted);
    top = ap path' a.root ∙ path'_old t.root tree.rooted ∙ tree.top;
    labels = λ i c' j h ed. elim (Edge-cases i c' j h ed) [
      | inl (s, sc, sj) ↦
          ap path' sj
          ∙ path'_new
          ∙ ap₂ (λ p q. p ++ q ∷ []) (sym (path'_old ni lt)) (sym sc)
          ∙ ap (λ k. path' k ++ c' ∷ []) (sym s)
      | inr (k, ed') ↦
          path'_old j (find-lt t i c' j tree.linked k ed')
          ∙ tree.labels i c' j k ed'
          ∙ ap (λ p. p ++ c' ∷ []) (sym (path'_old i k))
    ];
  }

  same_value : (i : ℕ) → i < length t.nodes → value_of t' i ≡ value_of t i
  same_value i h = elim (Bool-cases (i == ni)) [
    | inl old ↦
        let s = (==_iff i ni).0 old in
        ap (value_of t') s ∙ ap val_in a.old ∙ sym (ap val_in e) ∙ ap (value_of t) (sym s)
    | inr other ↦ ap val_in (a.others i h (λ s. cc ((==_iff i ni).1 s)))
  ]

  pub add-Grows : (key : List ℕ) → Grows t t' path path' (path ni ++ c ∷ key)
  add-Grows key = record {
    root = a.root;
    size = omega (arith, a.grown);
    paths = path'_old;
    values = same_value;
    keeps = keeps_Edge;
    reflects = λ i c' j h k ed. elim (Edge-cases i c' j h ed) [
      | inl (s, sc, sj) ↦ absurd (omega arith)
      | inr r ↦ r
    ];
    fresh = λ j h k.
        let s : j ≡ length t.nodes = omega (arith, a.grown) in
        (
          ap (value_of t') s ∙ ap val_in a.new,
          (
            key,
            ap (λ i. path' i ++ key) s
                ∙ ap (λ p. p ++ key) path'_new
                ∙ append_assoc (path ni) (c ∷ []) key,
          ),
        );
  }
