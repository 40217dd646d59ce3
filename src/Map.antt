-- ===== src/Map.antt =====
-- strans.c: lookups of a preedit in a language's map, and the automaton `transmap`.
pub mod Pieces
pub mod Fits
pub mod Loaded
use strans.Base.{ℕ, Bool, true, false, [], Option, none, some, ◌==◌, if◌then◌else◌, length}
use strans.Emit.{Emit, no_emit}
use strans.Run.{Run, ok, ◌>>=◌}
use strans.Str.{Str, sinit, stoutf, sputr}
use strans.Trie.{Trie, trieget, trielookup}
use strans.Utf.{Utf}

-- `sizeof(buf)`
abbrev pub buf_size : ℕ
buf_size = 256

-- `none` is the result 0; `*out` is then left as it was.
unfoldable pub mapget : ⦃u : Utf⦄ → Trie → Str → Run (Option Str)
mapget t key =
    let buf = stoutf key buf_size in
    if length key == 0
    then ok none
    else trieget t buf >>= (λ v. ok (elim v [ none ↦ none | some v ↦ some (sinit v (length v)) ]))

-- The result, and what is left in `*out`, which is the empty string before the call.
unfoldable pub maplookup : ⦃u : Utf⦄ → Trie → Str → Run (Bool × Str)
maplookup t key =
    let buf = stoutf key buf_size in
    if length key == 0
    then ok (false, [])
    else trielookup t buf
      >>= (λ r. ok (elim r.1 [ none ↦ (r.0, []) | some v ↦ (r.0, sinit v (length v)) ]))

-- `if(!mapget(t, &im->pre, &e.s)) e.s = im->pre;`
unfoldable pub translated : ⦃u : Utf⦄ → Trie → Str → Run Str
translated t pre = do m ← mapget t pre; ok (elim m [ none ↦ pre | some s ↦ s ])

unfoldable pub transmap : ⦃u : Utf⦄ → Trie → Str → ℕ → Run Emit
transmap t pre c = do
  key ← sputr pre c
  (found, dict) ← maplookup t key
  if found then ok (record { eat = true; s = []; next = key; dict = dict }) else do
    s ← translated t pre
    one ← sputr [] c
    (found', dict') ← maplookup t one
    if found'
        then ok (record { eat = true; s = s; next = one; dict = dict' })
        else sputr s c >>= (λ s'. ok (record no_emit { s = s'; dict = dict' }))
