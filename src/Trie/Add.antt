-- ===== src/Trie/Add.antt =====
-- trie.c, `add`: the node that it makes, and what `find` finds afterwards.
use strans.Base.{
  ℕ, ◌+◌, ◌*◌, leb, ◌<◌, ◌≡◌, ◌≢◌, ◌⊎◌, inl, inr, refl, sym, ap, ◌∙◌, [], ◌∷◌, ◌++◌, none, some,
  arith, length, get_elem?, set, get_elem?-of_lt, lt-of-get_elem?, length-append, length-set,
  get_elem?-set_self, get_elem?-set_ne, get_elem?-append_left, get_elem?-append_length, Bool-cases,
  ◌==◌, ==_iff, if◌then◌else◌,
}
use mathlib.Core.Option.{some-injective}
use native.Mathlib.Numerals.{add-one}
use strans.Run.{ok, ◌>>=◌}
use strans.Trie.Links.{
  node-eq, IsLinked, Agree, find_loop_here, find_loop_next, find_loop-Agree, find-eq, find-Agree,
  child-Below,
}
use strans.Trie.{Tnode, Trie, blank, newnode, find_loop, find, add}

-- The array after `add`: one node more, in front of the children of `ni`.
pub record Added (t : Trie) (ni c : ℕ) (parent : Tnode) (t' : Trie) : Type 0 where
  pub root : t'.root ≡ t.root
  pub grown : length t'.nodes ≡ length t.nodes + 1
  pub new :
      get_elem? t'.nodes (length t.nodes)
      ≡ some (record { child = none; sibling = parent.child; c = c; val = none })
  pub old : get_elem? t'.nodes ni ≡ some (record parent { child = some (length t.nodes) })
  pub others : (i : ℕ) → i < length t.nodes → i ≢ ni → get_elem? t'.nodes i ≡ get_elem? t.nodes i

pub add-Added :
    (t : Trie) (ni c : ℕ) (parent : Tnode)
    → get_elem? t.nodes ni ≡ some parent
    → (t' : Trie) × (add t ni c ≡ ok (t', length t.nodes)) × Added t ni c parent t'
unfolding add newnode
add-Added t ni c parent e =
    let n = length t.nodes in
    let lt : ni < n = lt-of-get_elem? t.nodes ni e in
    let more = t.nodes ++ blank ∷ [] in
    let at_n : get_elem? more n ≡ some blank = get_elem?-append_length t.nodes blank [] in
    let at_ni : get_elem? more ni ≡ some parent =
      get_elem?-append_left t.nodes (blank ∷ []) ni lt ∙ e in
    let len : length more ≡ n + 1 = length-append t.nodes (blank ∷ []) in
    let fresh : Tnode = record { child = none; sibling = parent.child; c = c; val = none } in
    let linked = set more n fresh in
    let len' : length linked ≡ n + 1 = length-set more n fresh ∙ len in
    let apart : ni ≢ n = λ h. absurd (omega arith) in
    let apart' : n ≢ ni = λ h. absurd (omega arith) in
    let parent' : Tnode = record parent { child = some n } in
    (
      record {
        root = t.root;
        nodes = set linked ni parent';
        cap = if leb t.cap n then t.cap * 2 else t.cap;
      },
      rw (node-eq more n at_n, ◌>>=◌, node-eq more ni at_ni) refl,
      record {
        root = refl;
        grown = length-set linked ni parent' ∙ len';
        new =
            get_elem?-set_ne linked ni n parent' apart
            ∙ get_elem?-set_self more n fresh (omega arith);
        old = get_elem?-set_self linked ni parent' (omega arith);
        others = λ i h other.
            get_elem?-set_ne linked ni i parent' (λ s. other (sym s))
            ∙ get_elem?-set_ne more n i fresh (λ s. absurd (omega arith))
            ∙ get_elem?-append_left t.nodes (blank ∷ []) i h;
      },
    )

module _ (t : Trie) (ni c : ℕ) (parent : Tnode) (t' : Trie) (h : IsLinked t.nodes)
    (e : get_elem? t.nodes ni ≡ some parent) (a : Added t ni c parent t') where
  abbrev n : ℕ
  n = length t.nodes

  pub Added-Agree : Agree t.nodes t'.nodes
  Added-Agree i x e' = elim (Bool-cases (i == ni)) [
    | inl same ↦
        let s : i ≡ ni = (==_iff i ni).0 same in
        let p : x ≡ parent = some-injective x parent (sym e' ∙ ap (get_elem? t.nodes) s ∙ e) in
        (
          record parent { child = some n },
          ap (get_elem? t'.nodes) s ∙ a.old,
          ap (λ y. y.c) (sym p),
          ap (λ y. y.sibling) (sym p),
        )
    | inr other ↦ (
      x,
      a.others i (lt-of-get_elem? t.nodes i e') (λ s. cc ((==_iff i ni).1 s)) ∙ e',
      refl,
      refl,
    )
  ]

  -- A node of the new array is the new one, the changed one, or an old one.
  Added-cases :
      (i : ℕ) (x : Tnode)
      → get_elem? t'.nodes i ≡ some x
      → ((i ≡ n) × (x ≡ record { child = none; sibling = parent.child; c = c; val = none }))
        ⊎ ((i ≡ ni) × (x ≡ record parent { child = some n }))
        ⊎ (get_elem? t.nodes i ≡ some x)
  Added-cases i x e' = elim (Bool-cases (i == n)) [
    | inl new ↦
        let s = (==_iff i n).0 new in
        inl (s, some-injective x _ (sym e' ∙ ap (get_elem? t'.nodes) s ∙ a.new))
    | inr more ↦ elim (Bool-cases (i == ni)) [
      | inl old ↦
          let s = (==_iff i ni).0 old in
          inr (inl (s, some-injective x _ (sym e' ∙ ap (get_elem? t'.nodes) s ∙ a.old)))
      | inr other ↦
          let lt : i < n = ground (arith, lt-of-get_elem? t'.nodes i e', a.grown) in
          inr (inr (sym (a.others i lt (λ s. cc ((==_iff i ni).1 s))) ∙ e'))
    ]
  ]

  -- The nodes are linked again.
  pub Added-IsLinked : IsLinked t'.nodes
  Added-IsLinked = record {
    child = λ i x j e' ec. elim (Added-cases i x e') [
      | inl (s, p) ↦ cc (ap (λ y. y.child) p)
      | inr (inl (s, p)) ↦
          let q : n ≡ j = some-injective n j (sym (ap (λ y. y.child) p) ∙ ec) in
          omega (arith, a.grown)
      | inr (inr old) ↦ omega (arith, a.grown, h.child i x j old ec)
    ];
    sibling = λ i x j e' es. elim (Added-cases i x e') [
      | inl (s, p) ↦ omega (arith, h.child ni parent j e (sym (ap (λ y. y.sibling) p) ∙ es))
      | inr (inl (s, p)) ↦ omega (arith, h.sibling ni parent j e (sym (ap (λ y. y.sibling) p) ∙ es))
      | inr (inr old) ↦ h.sibling i x j old es
    ];
  }

  -- Other nodes have the children that they had.
  pub find-Added_other : (i c' : ℕ) → i < n → i ≢ ni → find t' i c' ≡ find t i c'
  find-Added_other i c' lt other =
      let (x, e') = get_elem?-of_lt t.nodes i lt in
      find-Agree t t' i c' x x h Added-Agree (omega (arith, a.grown)) e' (a.others i lt other ∙ e')
        refl

  -- The new node has no children.
  pub find-Added_new : (c' : ℕ) → find t' n c' ≡ ok none
  find-Added_new c' = find-eq t' n _ c' a.new ∙ (unfold find_loop in refl)

  -- The node `ni` has one child more.
  pub find-Added_old : (c' : ℕ) → find t' ni c' ≡ (if c == c' then ok (some n) else find t ni c')
  find-Added_old c' =
      find-eq t' ni _ c' a.old
      ∙ ap (λ f. find_loop f t'.nodes (some n) c') (a.grown ∙ add-one n)
      ∙ (elim (Bool-cases (c == c')) [
        | inl same ↦ find_loop_here t'.nodes n _ a.new n c' same ∙ (rw same refl)
        | inr other ↦
            find_loop_next t'.nodes n _ a.new n c' other
            ∙ find_loop-Agree t.nodes t'.nodes n n parent.child c' h Added-Agree
                (child-Below t.nodes ni parent parent.child h e refl)
                (child-Below t.nodes ni parent parent.child h e refl) (omega arith)
            ∙ sym (find-eq t ni parent c' e)
            ∙ (rw other refl)
      ])
