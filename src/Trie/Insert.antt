-- ===== src/Trie/Insert.antt =====
-- trie.c, `insert`: the loop on the letters of the key.
use strans.Base.{
  ℕ, ◌<◌, ◌≡◌, refl, ap, subst, ◌∙◌, List, [], ◌∷◌, ◌++◌, append_assoc, Option, none, some, arith,
  length, get_elem?-of_lt,
}
use strans.Run.{ok, ◌>>=◌, Returns}
use strans.Trie.Add.{add-Added}
use strans.Trie.Links.{Below, find-Returns}
use strans.Trie.{Trie, find, insert_loop, walk}
use strans.Trie.Grow.{
  Edge, Tree, Grows, Grows-refl, Grows-trans, add-Tree, add-Grows, new-Edge, path'_new,
}

-- What the loop of `insert` gives: a tree that has grown on the way to the key, and the key's node.
abbrev pub Inserts : Trie → (ℕ → List ℕ) → ℕ → List ℕ → Trie × ℕ → Type 0
Inserts t path ni key r =
    (path' : ℕ → List ℕ) × Tree r.0 path'
    × Grows t r.0 path path' (path ni ++ key)
    × (r.1 < length r.0.nodes)
    × (walk r.0 ni key ≡ ok (some r.1))

pub walk_step :
    (t : Trie) (i c j : ℕ) (key : List ℕ) → Edge t i c j → walk t i (c ∷ key) ≡ walk t j key
unfolding walk
walk_step t i c j key e = rw e

-- One letter further, behind a node that was there or that `add` has made.
Inserts-step :
    (t t' : Trie) (path path' : ℕ → List ℕ) (ni c ci : ℕ) (key : List ℕ) (r : Trie × ℕ)
    → ni < length t.nodes
    → Grows t t' path path' (path ni ++ c ∷ key)
    → Edge t' ni c ci
    → path' ci ≡ path ni ++ c ∷ []
    → Inserts t' path' ci key r
    → Inserts t path ni (c ∷ key) r
Inserts-step t t' path path' ni c ci key r lt g ed p (path'', tree, g', lt', w) =
    let full : path' ci ++ key ≡ path ni ++ c ∷ key =
      ap (λ l. l ++ key) p ∙ append_assoc (path ni) (c ∷ []) key in
    (
      path'',
      tree,
      Grows-trans g (subst (λ k. Grows t' r.0 path' path'' k) full g'),
      lt',
      walk_step r.0 ni c ci key (g'.keeps ni c ci (omega (arith, g.size)) ed) ∙ w,
    )

-- A round of the loop, where `rest` says what the remaining rounds do.
descend :
    (c : ℕ) (key : List ℕ) (t : Trie) (path : ℕ → List ℕ) (ni : ℕ)
    → Tree t path
    → ni < length t.nodes
    → ((t : Trie) (path : ℕ → List ℕ) (ni : ℕ)
        → Tree t path
        → ni < length t.nodes
        → Returns (insert_loop t ni key) (Inserts t path ni key))
    → (o : Option ℕ) → find t ni c ≡ ok o
    → Below (length t.nodes) o
    → Returns (insert_loop t ni (c ∷ key)) (Inserts t path ni (c ∷ key))
unfolding insert_loop
descend c key t path ni tree lt rest (some ci) run below =
    let (r, run', ins) = rest t path ci tree below in
    (
      r,
      rw (run, ◌>>=◌) run',
      Inserts-step t t path path ni c ci key r lt (Grows-refl t path (path ni ++ c ∷ key)) run
          (tree.labels ni c ci lt run) ins,
    )
descend c key t path ni tree lt rest none run below =
    let (parent, e) = get_elem?-of_lt t.nodes ni lt in
    let (t', run', a) = add-Added t ni c parent e in
    let tree' = add-Tree t path tree ni c lt run parent e t' a in
    let grows = add-Grows t path tree ni c lt run parent e t' a key in
    let (r, run'', ins) = rest t' _ (length t.nodes) tree' (omega (arith, a.grown)) in
    (
      r,
      rw (run, ◌>>=◌, run') run'',
      Inserts-step t t' path _ ni c (length t.nodes) key r lt grows
          (new-Edge t path tree ni c lt run parent e t' a)
          (path'_new t path tree ni c lt run parent e t' a) ins,
    )

pub insert_loop-Inserts :
    (key : List ℕ) (t : Trie) (path : ℕ → List ℕ) (ni : ℕ)
    → Tree t path
    → ni < length t.nodes
    → Returns (insert_loop t ni key) (Inserts t path ni key)
insert_loop-Inserts [] t path ni tree lt = (
  (t, ni),
  unfold insert_loop in refl,
  (path, tree, Grows-refl t path (path ni ++ []), lt, unfold walk in refl),
)
insert_loop-Inserts (c ∷ key) t path ni tree lt =
    let (o, run, below) = find-Returns t ni c tree.linked lt in
    descend c key t path ni tree lt (insert_loop-Inserts key) o run below
