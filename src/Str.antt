-- ===== src/Str.antt =====
-- str.c: strings of at most 64 runes. A `Str` is the list of its first `n` runes; the rest of the
-- array is never read, since every access of the program is at an index below `n`.
pub mod Laws
pub mod Codec
use strans.Base.{
  ℕ, zero, suc, ◌+◌, ◌-◌, Bool, List, [], ◌∷◌, ◌++◌, ltb, ◌==◌, if◌then◌else◌, length, drop,
  drop_last,
}
use strans.Run.{Run, ok, died}
use strans.Utf.{Utf}

abbrev pub Str : Type 0
Str = List ℕ

abbrev pub max_runes : ℕ
max_runes = 64

abbrev pub utf_max : ℕ
utf_max = 4

-- `room` is `Maxrunes - s->n`; `src` is what lies at the pointer, and `n` the bytes left to convert.
unfoldable pub sinit_loop : ⦃u : Utf⦄ → ℕ → List ℕ → ℕ → Str
sinit_loop zero src n = []
sinit_loop ⦃u⦄ (suc room) src n =
    let (r, len) = u.chartorune src in
    let rest = sinit_loop room (drop len src) (n - len) in if n == 0 then [] else r ∷ rest

unfoldable pub sinit : ⦃u : Utf⦄ → List ℕ → ℕ → Str
unfolding sinit_loop
sinit src n = sinit_loop max_runes src n

abbrev pub sclear : Str → Str
sclear s = []

unfoldable pub sputr : Str → ℕ → Run Str
sputr s r = if ltb (length s) max_runes then ok (s ++ r ∷ []) else died

unfoldable pub spopr : Str → Str
spopr s = drop_last s

unfoldable pub sappend : Str → Str → Str
sappend dst [] = dst
sappend dst (r ∷ src) = if ltb (length dst) max_runes then sappend (dst ++ r ∷ []) src else dst

-- The loop of `scmp`, over two strings of one length.
scmp_loop : Str → Str → ℕ
scmp_loop (x ∷ a) (y ∷ b) = if x == y then scmp_loop a b else 1
scmp_loop _ _ = 0

unfoldable pub scmp : Str → Str → ℕ
unfolding scmp_loop
scmp a b = if length a == length b then scmp_loop a b else 1

-- The bytes that `stoutf` writes before the zero byte; `n` of them are in the buffer so far, and
-- `n < sz - UTFmax` is written as a sum, since `-` on ℕ stops at 0.
unfoldable pub stoutf_loop : ⦃u : Utf⦄ → Str → ℕ → ℕ → List ℕ
stoutf_loop [] n sz = []
stoutf_loop ⦃u⦄ (r ∷ s) n sz =
    let bs = u.runetochar r in
    if ltb (n + utf_max) sz then bs ++ stoutf_loop s (n + length bs) sz else []

unfoldable pub stoutf : ⦃u : Utf⦄ → Str → ℕ → List ℕ
unfolding stoutf_loop
stoutf s sz = stoutf_loop s 0 sz

unfoldable pub slastr : Str → ℕ
slastr [] = 0
slastr (r ∷ []) = r
slastr (r ∷ r' ∷ s) = slastr (r' ∷ s)
