-- ===== src/Hash.antt =====
-- hash.c: the table of a dictionary. The nodes lie in one array, `nbs` buckets first; a chain goes on
-- at the index `next`, and 0 ends it. `nodes` holds the first `len` of them. The size of a node in
-- bytes (`nsz`) is a matter of layout and left out.
pub mod Seek
pub mod Over
pub mod Behind
pub mod Refines
use strans.Base.{
  ℕ, zero, suc, ◌+◌, ◌*◌, ◌%◌, ◌^◌, Bool, true, false, not, ◌&&◌, List, [], ◌∷◌, ◌++◌, Option, none,
  some, ◌==◌, equal, if◌then◌else◌, length, get_elem?, set, replicate,
}
use strans.Run.{Run, ok, fault, ◌>>=◌}
use strans.Str.{Str, stoutf}
use strans.Utf.{Utf}

-- `key` is a C string of `klen` bytes; `val` is one of `vlen` bytes, and empty while it is nil.
pub record Hnode : Type 0 where
  pub filled : Bool
  pub next : ℕ
  pub key : List ℕ
  pub val : List ℕ

pub record Hmap : Type 0 where
  pub nbs : ℕ
  pub cap : ℕ
  pub nodes : List Hnode

abbrev pub vacant : Hnode
vacant = record { filled = false; next = 0; key = []; val = [] }

unfoldable pub hash_loop : ℕ → Str → ℕ
hash_loop h [] = h
hash_loop h (r ∷ s) = hash_loop ((h * 31 + r) % 2 ^ 64) s

unfoldable pub hash : Str → ℕ
hash s = hash_loop 7 s

unfoldable pub hmapalloc : ℕ → Hmap
hmapalloc nbuckets = record { nbs = nbuckets; cap = nbuckets; nodes = replicate nbuckets vacant }

-- What `stoutf` writes into a buffer of 256 bytes.
unfoldable pub bytes : ⦃u : Utf⦄ → Str → List ℕ
bytes s = stoutf s 256

-- 0 where the key is the node's.
unfoldable pub keycmp : ⦃u : Utf⦄ → Hnode → Str → ℕ
keycmp n key = if equal n.key (bytes key) then 0 else 1

unfoldable pub hnode : List Hnode → ℕ → Run Hnode
hnode nodes i = elim (get_elem? nodes i) [ none ↦ fault | some n ↦ ok n ]

-- The index of the key's bucket; there is none in a table without buckets.
unfoldable pub bucket : Hmap → Str → Run ℕ
bucket h key = if h.nbs == 0 then fault else ok (hash key % h.nbs)

-- Fuel as much as there are nodes is enough for the two loops along a chain.
unfoldable pub get_loop : ⦃u : Utf⦄ → ℕ → List Hnode → ℕ → Str → Run (Option Hnode)
get_loop zero nodes i key = fault
get_loop (suc fuel) nodes i key = do
  n ← hnode nodes i
  let rest = get_loop fuel nodes n.next key
  if n.filled && keycmp n key == 0 then ok (some n) else if n.next == 0 then ok none else rest

unfoldable pub hmapget : ⦃u : Utf⦄ → Hmap → Str → Run (Option Hnode)
hmapget h key = do i ← bucket h key; get_loop (length h.nodes) h.nodes i key

-- `strlen`: the bytes in front of the first zero byte.
unfoldable pub until_zero : List ℕ → List ℕ
until_zero [] = []
until_zero (b ∷ bs) = if b == 0 then [] else b ∷ until_zero bs

-- `sdup`, as the `strlen` of its callers measures the copy.
unfoldable pub sdup : ⦃u : Utf⦄ → Str → List ℕ
sdup s = until_zero (bytes s)

-- Where the loop of `hmapset` ends: at a node to write, or at the tail of a chain without the key.
pub data Place : Type 0 where
  replace : ℕ → Place
  behind : ℕ → Place

unfoldable pub set_loop : ⦃u : Utf⦄ → ℕ → List Hnode → ℕ → Str → Run Place
set_loop zero nodes i key = fault
set_loop (suc fuel) nodes i key = do
  n ← hnode nodes i
  let rest = set_loop fuel nodes n.next key
  if not n.filled
      then ok (replace i)
      else if keycmp n key == 0
      then ok (replace i)
      else if n.next == 0
      then ok (behind i)
      else rest

-- The label `replace`: the writes into the node.
unfoldable pub write_node : ⦃u : Utf⦄ → Hnode → ℕ → Str → Str → Hnode
write_node n next key val =
    let keyed = if n.filled then n else record n { filled = true; key = sdup key } in
    let linked = record keyed { next = next } in
    if length val == 0 then linked else record linked { val = sdup val }

-- The two ends of `hmapset`: a node written in place, or a new one linked behind the tail `i`.
unfoldable pub set_at : ⦃u : Utf⦄ → Hmap → Place → Str → Str → Run Hmap
set_at h (replace i) key val = do
  n ← hnode h.nodes i
  ok (record h { nodes = set h.nodes i (write_node n n.next key val) })
set_at h (behind i) key val = do
  n ← hnode h.nodes i
  let len = length h.nodes
  let cap = if h.cap == len then h.cap * 2 else h.cap
  let linked = set h.nodes i (record n { next = len })
  ok (record h { cap = cap; nodes = linked ++ write_node vacant 0 key val ∷ [] })

unfoldable pub hmapset : ⦃u : Utf⦄ → Hmap → Str → Str → Run Hmap
hmapset h key val = do
  i ← bucket h key
  place ← set_loop (length h.nodes) h.nodes i key
  set_at h place key val
