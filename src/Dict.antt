-- ===== src/Dict.antt =====
-- dict.c: looking candidates up, and reading a dictionary.
pub mod Candidates
pub mod Bytes
pub mod Words
pub mod Text
pub mod Lines
pub mod Load
use strans.Base.{
  ℕ, zero, suc, ◌+◌, List, [], ◌∷◌, ◌++◌, Option, none, some, ltb, ◌==◌, ◌&&◌, if◌then◌else◌,
  length, drop, codes,
}
use strans.Hash.{Hmap, hmapalloc, hmapget, hmapset}
use strans.Lang.{Lang, getlang, data_path}
use strans.Run.{Run, ok, died, ◌>>=◌}
use strans.Str.{Str, sinit, scmp}
use strans.Trie.{split_tab}
use strans.Utf.{Utf}

abbrev pub max_kouho : ℕ
max_kouho = 32

-- `pre` comes back as the `key` of the answer, so that the engine can tell a late one.
pub record Dictreq : Type 0 where
  pub key : Str
  pub pre : Str
  pub lang : ℕ

-- `nkouho` is the length of `kouho`.
pub record Dictres : Type 0 where
  pub key : Str
  pub kouho : List Str

-- The inner loop: how many bytes there are up to the next space.
unfoldable pub field : List ℕ → ℕ
field [] = 0
field (b ∷ p) = if b == b' ' then 0 else suc (field p)

-- The outer loop, from the pointer `p` on. Each round takes a byte at least.
unfoldable pub lookup_loop : ⦃u : Utf⦄ → ℕ → Str → List ℕ → List Str → List Str
lookup_loop zero key p kouho = kouho
lookup_loop (suc fuel) key p kouho =
    let n = field p in
    let tmp = sinit p n in
    let found = if scmp tmp key == 0 then kouho else kouho ++ tmp ∷ [] in
    let rest = lookup_loop fuel key (drop (n + 1) p) found in
    if ltb (length kouho) max_kouho && ltb 0 (length p) then rest else kouho

-- The candidates of a request; the dictionary thread puts `pre` beside them.
unfoldable pub dictlookup : ⦃u : Utf⦄ → List Lang → Dictreq → Run (List Str)
dictlookup langs req = if length req.key == 0 then ok [] else elim (getlang langs req.lang) [
  | none ↦ ok []
  | some l ↦ elim l.dict [
    | none ↦ ok []
    | some dict ↦ do
      n ← hmapget dict req.key
      ok (elim n [ none ↦ [] | some n ↦ lookup_loop (length n.val) req.key n.val [] ])
  ]
]

-- The requests that wait in the channel, oldest first: only the newest is answered.
unfoldable pub newest : Dictreq → List Dictreq → Dictreq
newest req [] = req
newest req (r ∷ rs) = newest r rs

-- One round of `dictthread`: `req` was received, and then `waiting` without blocking.
unfoldable pub dictthread_round : ⦃u : Utf⦄ → List Lang → Dictreq → List Dictreq → Run Dictres
dictthread_round langs req waiting = do
  let last = newest req waiting
  kouho ← dictlookup langs last
  ok (record { key = last.pre; kouho = kouho })

-- One round of the loop of `dictopen`. A line that is empty, a comment or without a value is skipped.
unfoldable pub dict_line : ⦃u : Utf⦄ → Hmap → List ℕ → Run Hmap
dict_line h [] = ok h
dict_line h (b ∷ line) = elim (if b == b';' then none else split_tab (b ∷ line)) [
  | none ↦ ok h
  | some (key, []) ↦ ok h
  | some (key, v ∷ val) ↦ hmapset h (sinit key (length key)) (sinit (v ∷ val) (length (v ∷ val)))
]

unfoldable pub dict_lines : ⦃u : Utf⦄ → Hmap → List (List ℕ) → Run Hmap
dict_lines h [] = ok h
dict_lines h (l ∷ ls) = do h' ← dict_line h l; dict_lines h' ls

unfoldable pub dictopen : ⦃u : Utf⦄ → Option (List (List ℕ)) → Run Hmap
dictopen none = died
dictopen (some lines) = dict_lines (hmapalloc 4096) lines

unfoldable pub dictinit :
    ⦃u : Utf⦄ → (List ℕ → Option (List (List ℕ))) → List ℕ → List Lang → Run (List Lang)
dictinit files dir [] = ok []
dictinit files dir (l ∷ ls) = elim l.dictname [
  | none ↦ do rest ← dictinit files dir ls; ok (l ∷ rest)
  | some name ↦ do
    h ← dictopen (files (data_path dir name ".dict"))
    rest ← dictinit files dir ls
    ok (record l { dict = some h } ∷ rest)
]
