-- ===== src/Trie.antt =====
-- trie.c: the transliteration tables. A node is named by its index; a link of -1 is `none`. `nodes`
-- holds the first `n` nodes of the array, which is all that the code has initialised.
pub mod Links
pub mod Add
pub mod Grow
pub mod Insert
pub mod Lookup
pub mod Values
pub mod Refines
pub mod Load
pub mod Extends
pub mod Prefixes
use strans.Base.{
  ℕ, zero, suc, ◌*◌, Bool, true, false, List, [], ◌∷◌, ◌++◌, Option, none, some, leb, ◌==◌,
  if◌then◌else◌, length, get_elem?, set,
}
use strans.Run.{Run, ok, died, fault, ◌>>=◌}

-- `val` is nil or a text of `vlen` bytes.
pub record Tnode : Type 0 where
  pub child : Option ℕ
  pub sibling : Option ℕ
  pub c : ℕ
  pub val : Option (List ℕ)

pub record Trie : Type 0 where
  pub root : ℕ
  pub nodes : List Tnode
  pub cap : ℕ

-- `t->nodes[i]`
unfoldable pub node : List Tnode → ℕ → Run Tnode
node nodes i = elim (get_elem? nodes i) [ none ↦ fault | some x ↦ ok x ]

abbrev pub blank : Tnode
blank = record { child = none; sibling = none; c = 0; val = none }

unfoldable pub newnode : Trie → Trie × ℕ
newnode t =
    let n = length t.nodes in
    let cap = if leb t.cap n then t.cap * 2 else t.cap in
    (record t { nodes = t.nodes ++ blank ∷ []; cap = cap }, n)

-- The loop of `find` along the siblings. Fuel as much as there are nodes is enough.
unfoldable pub find_loop : ℕ → List Tnode → Option ℕ → ℕ → Run (Option ℕ)
find_loop fuel nodes none c = ok none
find_loop zero nodes (some pi) c = fault
find_loop (suc fuel) nodes (some pi) c = do
  x ← node nodes pi
  elim (x.c == c) [ true ↦ ok (some pi) | false ↦ find_loop fuel nodes x.sibling c ]

unfoldable pub find : Trie → ℕ → ℕ → Run (Option ℕ)
find t ni c = do x ← node t.nodes ni; find_loop (length t.nodes) t.nodes x.child c

unfoldable pub add : Trie → ℕ → ℕ → Run (Trie × ℕ)
add t ni c =
    let (t', pi) = newnode t in
    do
      fresh ← node t'.nodes pi
      parent ← node t'.nodes ni
      let linked = set t'.nodes pi (record fresh { c = c; sibling = parent.child })
      ok (record t' { nodes = set linked ni (record parent { child = some pi }) }, pi)

-- The loop of `insert`; it ends at the key's node.
unfoldable pub insert_loop : Trie → ℕ → List ℕ → Run (Trie × ℕ)
insert_loop t ni [] = ok (t, ni)
insert_loop t ni (c ∷ key) = do
  ci ← find t ni c
  elim ci [
    | some ci ↦ insert_loop t ci key
    | none ↦ do (t', ci) ← add t ni c; insert_loop t' ci key
  ]

unfoldable pub insert : Trie → List ℕ → List ℕ → Run Trie
insert t key val = do
  (t', ni) ← insert_loop t t.root key
  x ← node t'.nodes ni
  ok (record t' { nodes = set t'.nodes ni (record x { val = some val }) })

-- The loop of `trieget` and of `trielookup`: the node that the key leads to.
unfoldable pub walk : Trie → ℕ → List ℕ → Run (Option ℕ)
walk t ni [] = ok (some ni)
walk t ni (c ∷ key) = do ci ← find t ni c; elim ci [ none ↦ ok none | some ci ↦ walk t ci key ]

unfoldable pub trieget : Trie → List ℕ → Run (Option (List ℕ))
trieget t key = do
  end ← walk t t.root key
  elim end [ none ↦ ok none | some ni ↦ do x ← node t.nodes ni; ok x.val ]

-- The result, and what is left in `*val`, which its callers set to nil before.
unfoldable pub trielookup : Trie → List ℕ → Run (Bool × Option (List ℕ))
trielookup t key = do
  end ← walk t t.root key
  elim end [ none ↦ ok (false, none) | some ni ↦ do x ← node t.nodes ni; ok (true, x.val) ]

-- The trie before the first line is read.
unfoldable pub empty : Trie
unfolding newnode
empty =
    let (t, root) = newnode (record { root = 0; nodes = []; cap = 1024 }) in
    record t { root = root }

-- `strchr(line, '\t')`: what stands in front of the first tab, and behind it.
unfoldable pub split_tab : List ℕ → Option (List ℕ × List ℕ)
split_tab [] = none
split_tab (b ∷ line) =
    if b == b'\t'
    then some ([], line)
    else elim (split_tab line) [ none ↦ none | some (key, val) ↦ some (b ∷ key, val) ]

-- One round of the loop of `trieopen`, on a line without its newline.
unfoldable pub open_line : Trie → List ℕ → Run Trie
open_line t [] = ok t
open_line t (b ∷ line) = elim (split_tab (b ∷ line)) [
  | none ↦ died
  | some (key, []) ↦ died
  | some (key, v ∷ val) ↦ insert t key (v ∷ val)
]

unfoldable pub open_lines : Trie → List (List ℕ) → Run Trie
open_lines t [] = ok t
open_lines t (l ∷ ls) = do t' ← open_line t l; open_lines t' ls

-- `lines` are those that `Brdstr` reads, or `none` where the file cannot be opened.
unfoldable pub trieopen : Option (List (List ℕ)) → Run Trie
trieopen none = died
trieopen (some lines) = open_lines empty lines
