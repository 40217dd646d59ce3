-- ===== src/Trie/Links.antt =====
-- trie.c: the links between the nodes, and what `find` follows of them.
use strans.Base.{
  ℕ, zero, suc, ◌≤◌, ◌<◌, ◌≡◌, inl, inr, refl, sym, ap, subst, ◌∙◌, true, false, List, Option, none,
  some, arith, length, get_elem?, get_elem?-of_lt, Bool-cases, ◌==◌,
}
use strans.Run.{ok, ◌>>=◌, Returns}
use strans.Trie.{Tnode, Trie, node, find_loop, find}

pub node-eq :
    (nodes : List Tnode) (i : ℕ) {x : Tnode} → get_elem? nodes i ≡ some x → node nodes i ≡ ok x
unfolding node
node-eq nodes i e = rw (e, node)

-- A child is a node, and a sibling is an older node: so the chain of siblings ends.
pub record IsLinked (nodes : List Tnode) : Type 0 where
  pub child :
      (i : ℕ) (x : Tnode) (j : ℕ) → get_elem? nodes i ≡ some x → x.child ≡ some j → j < length nodes
  pub sibling :
      (i : ℕ) (x : Tnode) (j : ℕ) → get_elem? nodes i ≡ some x → x.sibling ≡ some j → j < i

abbrev pub Below : ℕ → Option ℕ → Type 0
Below n none = Unit {0}
Below n (some i) = i < n

module _ (nodes : List Tnode) (i : ℕ) (x : Tnode) (e : get_elem? nodes i ≡ some x)
    (fuel c : ℕ) where
  pub find_loop_here : (x.c == c) ≡ true → find_loop (suc fuel) nodes (some i) c ≡ ok (some i)
  unfolding find_loop
  find_loop_here h = rw (node-eq nodes i e, ◌>>=◌, h)

  pub find_loop_next :
      (x.c == c) ≡ false → find_loop (suc fuel) nodes (some i) c ≡ find_loop fuel nodes x.sibling c
  unfolding find_loop
  find_loop_next h = rw (node-eq nodes i e, ◌>>=◌, h)

sibling-Below :
    (nodes : List Tnode) (i : ℕ) (x : Tnode) (s : Option ℕ) (fuel : ℕ)
    → IsLinked nodes
    → get_elem? nodes i ≡ some x
    → x.sibling ≡ s
    → i ≤ fuel
    → Below fuel s
sibling-Below nodes i x none fuel h e es k = tt
sibling-Below nodes i x (some j) fuel h e es k = omega (arith, h.sibling i x j e es)

-- The chain ends within the fuel, and its result is a node of the chain.
pub find_loop-Returns :
    (nodes : List Tnode) (fuel : ℕ) (link : Option ℕ) (c : ℕ)
    → IsLinked nodes
    → Below fuel link
    → fuel ≤ length nodes
    → Returns (find_loop fuel nodes link c) (Below (length nodes))
find_loop-Returns nodes fuel none c h b k = (none, unfold find_loop in refl, tt)
find_loop-Returns nodes zero (some i) c h b k = absurd (omega arith)
find_loop-Returns nodes (suc fuel) (some i) c h b k =
    let (x, e) = get_elem?-of_lt nodes i (omega arith) in
    elim (Bool-cases (x.c == c)) [
      | inl here ↦ (some i, find_loop_here nodes i x e fuel c here, omega arith)
      | inr other ↦
          let (o, run, below) =
            find_loop-Returns nodes fuel x.sibling c h
              (sibling-Below nodes i x x.sibling fuel h e refl (omega arith)) (omega arith) in
          (o, find_loop_next nodes i x e fuel c other ∙ run, below)
    ]

-- Two arrays that agree on the letters and siblings of the nodes of the first.
abbrev pub Agree : List Tnode → List Tnode → Type 0
Agree nodes nodes' =
    (i : ℕ) (x : Tnode)
    → get_elem? nodes i ≡ some x
    → (x' : Tnode) × (get_elem? nodes' i ≡ some x') × (x'.c ≡ x.c) × (x'.sibling ≡ x.sibling)

-- The chain is the same in both, with any fuel that is enough.
pub find_loop-Agree :
    (nodes nodes' : List Tnode) (fuel fuel' : ℕ) (link : Option ℕ) (c : ℕ)
    → IsLinked nodes
    → Agree nodes nodes'
    → Below fuel link
    → Below fuel' link
    → fuel ≤ length nodes
    → find_loop fuel' nodes' link c ≡ find_loop fuel nodes link c
find_loop-Agree nodes nodes' fuel fuel' none c h a b b' k = unfold find_loop in refl
find_loop-Agree nodes nodes' zero fuel' (some i) c h a b b' k = absurd (omega arith)
find_loop-Agree nodes nodes' (suc fuel) zero (some i) c h a b b' k = absurd (omega arith)
find_loop-Agree nodes nodes' (suc fuel) (suc fuel') (some i) c h a b b' k =
    let (x, e) = get_elem?-of_lt nodes i (omega arith) in
    let (x', e', same_c, same_s) = a i x e in
    elim (Bool-cases (x.c == c)) [
      | inl here ↦
          find_loop_here nodes' i x' e' fuel' c (ap (λ y. y == c) same_c ∙ here)
          ∙ sym (find_loop_here nodes i x e fuel c here)
      | inr other ↦
          find_loop_next nodes' i x' e' fuel' c (ap (λ y. y == c) same_c ∙ other)
          ∙ ap (λ s. find_loop fuel' nodes' s c) same_s
          ∙ find_loop-Agree nodes nodes' fuel fuel' x.sibling c h a
              (sibling-Below nodes i x x.sibling fuel h e refl (omega arith))
              (sibling-Below nodes i x x.sibling fuel' h e refl (omega arith)) (omega arith)
          ∙ sym (find_loop_next nodes i x e fuel c other)
    ]

pub child-Below :
    (nodes : List Tnode) (i : ℕ) (x : Tnode) (s : Option ℕ)
    → IsLinked nodes
    → get_elem? nodes i ≡ some x
    → x.child ≡ s
    → Below (length nodes) s
child-Below nodes i x none h e es = tt
child-Below nodes i x (some j) h e es = h.child i x j e es

pub find-eq :
    (t : Trie) (i : ℕ) (x : Tnode) (c : ℕ)
    → get_elem? t.nodes i ≡ some x
    → find t i c ≡ find_loop (length t.nodes) t.nodes x.child c
unfolding find
find-eq t i x c e = rw (node-eq t.nodes i e)

-- `find` on a node of a linked array returns, and finds a node.
pub find-Returns :
    (t : Trie) (i c : ℕ)
    → IsLinked t.nodes
    → i < length t.nodes
    → Returns (find t i c) (Below (length t.nodes))
find-Returns t i c h k =
    let (x, e) = get_elem?-of_lt t.nodes i k in
    let (o, run, below) =
      find_loop-Returns t.nodes (length t.nodes) x.child c h
        (child-Below t.nodes i x x.child h e refl) (omega arith) in
    (o, find-eq t i x c e ∙ run, below)

-- `find` is the same where the arrays agree and the node has the same child.
pub find-Agree :
    (t t' : Trie) (i c : ℕ) (x x' : Tnode)
    → IsLinked t.nodes
    → Agree t.nodes t'.nodes
    → length t.nodes ≤ length t'.nodes
    → get_elem? t.nodes i ≡ some x
    → get_elem? t'.nodes i ≡ some x'
    → x'.child ≡ x.child
    → find t' i c ≡ find t i c
find-Agree t t' i c x x' h a len e e' same =
    let b = child-Below t.nodes i x x.child h e refl in
    find-eq t' i x' c e'
    ∙ ap (λ s. find_loop (length t'.nodes) t'.nodes s c) same
    ∙ find_loop-Agree t.nodes t'.nodes (length t.nodes) (length t'.nodes) x.child c h a b
        (Below_le x.child b) (omega arith)
    ∙ sym (find-eq t i x c e)
  where
    Below_le : (o : Option ℕ) → Below (length t.nodes) o → Below (length t'.nodes) o
    Below_le none b = tt
    Below_le (some j) b = omega arith

-- An edge leads to a node.
pub find-lt :
    (t : Trie) (i c j : ℕ)
    → IsLinked t.nodes
    → i < length t.nodes
    → find t i c ≡ ok (some j)
    → j < length t.nodes
find-lt t i c j h k ed =
    let (o, run, below) = find-Returns t i c h k in
    let p : o ≡ some j = cc (run, ed) in subst (λ o. Below (length t.nodes) o) p below
