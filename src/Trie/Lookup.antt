-- ===== src/Trie/Lookup.antt =====
-- trie.c, `trieget` and `trielookup`: the node that a key leads to, before and after the tree grows.
use strans.Base.{
  ℕ, ◌<◌, ◌≡◌, inl, inr, refl, sym, ap, ◌∙◌, true, false, List, [], ◌∷◌, ◌++◌, append-nil,
  append_assoc, Option, none, some, arith, length, get_elem?-of_lt, Bool-cases, ltb, ltb→lt,
}
use strans.Run.{ok, ◌>>=◌, Returns}
use strans.Trie.Grow.{Edge, Tree, value_of, Grows, val_in}
use strans.Trie.Insert.{walk_step}
use strans.Trie.Links.{Below, node-eq, find-Returns}
use strans.Trie.{Tnode, Trie, node, find, walk, trieget, trielookup}

pub walk_stop :
    (t : Trie) (i c : ℕ) (key : List ℕ) → find t i c ≡ ok none → walk t i (c ∷ key) ≡ ok none
unfolding walk
walk_stop t i c key e = rw e

pub walk_nil : (t : Trie) (i : ℕ) → walk t i [] ≡ ok (some i)
unfolding walk
walk_nil t i = refl

-- A walk from `i` along `key` ends, and where it ends at a node, that is the node of the longer key.
abbrev pub Reaches : Trie → (ℕ → List ℕ) → ℕ → List ℕ → Option ℕ → Type 0
Reaches t path i key none = Unit {0}
Reaches t path i key (some j) = (j < length t.nodes) × (path j ≡ path i ++ key)

pub walk-Returns :
    (t : Trie) (path : ℕ → List ℕ) (i : ℕ) (key : List ℕ)
    → Tree t path
    → i < length t.nodes
    → Returns (walk t i key) (Reaches t path i key)
walk-Returns t path i [] tree lt = (some i, walk_nil t i, (lt, sym (append-nil (path i))))
walk-Returns t path i (c ∷ key) tree lt =
    let (o, run, below) = find-Returns t i c tree.linked lt in
    elim o
        as (λ o.
          find t i c ≡ ok o
          → Below (length t.nodes) o
          → Returns (walk t i (c ∷ key)) (Reaches t path i (c ∷ key))) [
            | none ↦ λ run below. (none, walk_stop t i c key run, tt)
            | some j ↦ λ run below.
                let (o', run', r) = walk-Returns t path j key tree below in
                (o', walk_step t i c j key run ∙ run', further j run o' r)
          ]
      run below
  where
    further :
        (j : ℕ)
        → Edge t i c j
        → (o : Option ℕ) → Reaches t path j key o
        → Reaches t path i (c ∷ key) o
    further j run none r = tt
    further j run (some k) (lt', p) = (
      lt',
      p ∙ ap (λ l. l ++ key) (tree.labels i c j lt run) ∙ append_assoc (path i) (c ∷ []) key,
    )

-- The first step of a walk that ends at a node.
pub first_step :
    (t : Trie) (path : ℕ → List ℕ) (i c k : ℕ) (key : List ℕ)
    → Tree t path
    → i < length t.nodes
    → walk t i (c ∷ key) ≡ ok (some k)
    → (j : ℕ) × Edge t i c j × (j < length t.nodes) × (walk t j key ≡ ok (some k))
first_step t path i c k key tree lt w =
    let (o, run, below) = find-Returns t i c tree.linked lt in
    elim o
        as (λ o.
          find t i c ≡ ok o
          → Below (length t.nodes) o
          → (j : ℕ) × Edge t i c j × (j < length t.nodes) × (walk t j key ≡ ok (some k))) [
            | none ↦ λ run below. absurd (cc (walk_stop t i c key run, w))
            | some j ↦ λ run below. (j, run, below, sym (walk_step t i c j key run) ∙ w)
          ]
      run below

module _ (t t' : Trie) (path path' : ℕ → List ℕ) (full : List ℕ) (tree : Tree t path)
    (tree' : Tree t' path') (g : Grows t t' path path' full) where
  -- What a walk found is still found.
  pub walk-Grows_keeps :
      (i k : ℕ) (key : List ℕ)
      → i < length t.nodes
      → walk t i key ≡ ok (some k)
      → walk t' i key ≡ ok (some k)
  walk-Grows_keeps i k [] lt w = walk_nil t' i ∙ sym (walk_nil t i) ∙ w
  walk-Grows_keeps i k (c ∷ key) lt w =
      let (j, ed, lt', w') = first_step t path i c k key tree lt w in
      walk_step t' i c j key (g.keeps i c j lt ed) ∙ walk-Grows_keeps j k key lt' w'

  -- An old node is found only where it was found before.
  pub walk-Grows_reflects :
      (i k : ℕ) (key : List ℕ)
      → i < length t'.nodes
      → k < length t.nodes
      → walk t' i key ≡ ok (some k)
      → (i < length t.nodes) × (walk t i key ≡ ok (some k))
  walk-Grows_reflects i k [] lt lk w =
      let e : ok (some i) ≡ ok (some k) = sym (walk_nil t' i) ∙ w in
      let same : i ≡ k = cc e in (omega (arith, same), walk_nil t i ∙ e)
  walk-Grows_reflects i k (c ∷ key) lt lk w =
      let (j, ed, lt', w') = first_step t' path' i c k key tree' lt w in
      let (lj, r) = walk-Grows_reflects j k key lt' lk w' in
      let (li, ed') = g.reflects i c j lt lj ed in (li, walk_step t i c j key ed' ∙ r)

-- What a walk that ended at `o` reads.
abbrev pub value_at : Trie → Option ℕ → Option (List ℕ)
value_at t none = none
value_at t (some i) = value_of t i

pub node_val :
    (t : Trie) (i : ℕ)
    → i < length t.nodes
    → (x : Tnode) × (node t.nodes i ≡ ok x) × (value_of t i ≡ x.val)
node_val t i lt = let (x, e) = get_elem?-of_lt t.nodes i lt in (x, node-eq t.nodes i e, ap val_in e)

pub trieget-walk :
    (t : Trie) (path : ℕ → List ℕ) (i : ℕ) (key : List ℕ) (o : Option ℕ)
    → walk t t.root key ≡ ok o
    → Reaches t path i key o
    → trieget t key ≡ ok (value_at t o)
unfolding trieget
trieget-walk t path i key none run r = rw run
trieget-walk t path i key (some j) run (lt, p) =
    let (x, e, v) = node_val t j lt in rw (run, ◌>>=◌, e, v)

pub trielookup-walk :
    (t : Trie) (path : ℕ → List ℕ) (i : ℕ) (key : List ℕ) (o : Option ℕ)
    → walk t t.root key ≡ ok o
    → Reaches t path i key o
    → trielookup t key ≡ ok (elim o [ none ↦ false | some _ ↦ true ], value_at t o)
unfolding trielookup
trielookup-walk t path i key none run r = rw run
trielookup-walk t path i key (some j) run (lt, p) =
    let (x, e, v) = node_val t j lt in rw (run, ◌>>=◌, e, v)

-- Growing changes no value that a key leads to.
module _ (t t' : Trie) (path path' : ℕ → List ℕ) (full : List ℕ) (tree : Tree t path)
    (tree' : Tree t' path') (g : Grows t t' path path' full) (key : List ℕ) where
  pub value_at-Grows :
      (o o' : Option ℕ)
      → walk t t.root key ≡ ok o
      → Reaches t path t.root key o
      → walk t' t.root key ≡ ok o'
      → Reaches t' path' t.root key o'
      → value_at t' o' ≡ value_at t o
  value_at-Grows none none w r w' r' = refl
  value_at-Grows (some i) none w r w' r' =
      absurd
        (cc (walk-Grows_keeps t t' path path' full tree tree' g t.root i key tree.rooted w, w'))
  value_at-Grows o (some j) w r w' (lt', p') = elim (Bool-cases (ltb j (length t.nodes))) [
    | inl old ↦
        let lj = ltb→lt j _ old in
        let (lr, back) =
          walk-Grows_reflects t t' path path' full tree tree' g t.root j key
            (omega (arith, g.size, tree.rooted)) lj w' in
        let e : ok (some j) ≡ ok o = sym back ∙ w in
        let p : some j ≡ o = cc e in g.values j lj ∙ ap (value_at t) p
    | inr new ↦
        elim o
            as (λ o.
              walk t t.root key ≡ ok o
              → Reaches t path t.root key o
              → value_of t' j ≡ value_at t o) [
                | none ↦ λ w r. (g.fresh j (ground arith) lt').0
                | some i ↦ λ w (lt, p).
                    let e =
                      walk-Grows_keeps t t' path path' full tree tree' g t.root i key tree.rooted
                        w in
                    let same : i ≡ j = cc (e, w') in absurd (ground (arith, same))
              ]
          w r
  ]
