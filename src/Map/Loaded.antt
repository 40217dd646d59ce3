-- ===== src/Map/Loaded.antt =====
-- strans.c and trie.c: a map whose keys and values have at most 63 bytes gives the automata what
-- they need.
use strans.Base.{
  ℕ, zero, suc, ◌+◌, ◌-◌, ◌≤◌, ◌<◌, ◌≡◌, ◌⊎◌, inl, inr, refl, ap, Bool, true, false, List, [], ◌∷◌,
  Option, none, some, arith, length, length-append, drop, equal, Bool-cases, ◌==◌,
}
use mathlib.Core.Option.{some-injective}
use strans.Map.Fits.{MapFits}
use strans.Map.{mapget, maplookup, buf_size}
use strans.Run.{Run, ok, Returns, if_Returns, ◌>>=◌}
use strans.Str.{Str, sinit, sinit_loop, stoutf, stoutf_loop}
use strans.Trie.Load.{AllShort}
use strans.Trie.Lookup.{walk-Returns, Reaches, value_at, trielookup-walk}
use strans.Trie.Refines.{IsTrie, Refines, latest}
use strans.Trie.{Trie, trielookup}
use strans.Utf.{Utf, IsUtf}

abbrev is_found : Option ℕ → Bool
is_found none = false
is_found (some _) = true

abbrev decoded : ⦃u : Utf⦄ → Run (Bool × Option (List ℕ)) → Run (Bool × Str)
decoded m = m >>= (λ r. ok (elim r.1 [ none ↦ (r.0, []) | some v ↦ (r.0, sinit v (length v)) ]))

latest-short :
    (n : ℕ) (es : List (List ℕ × List ℕ)) (key v : List ℕ)
    → AllShort n es
    → latest es key ≡ some v
    → length v ≤ n
unfolding latest
latest-short n [] key v short e = cc
latest-short n ((k, w) ∷ es) key v (_, fits, short) e = elim (Bool-cases (equal key k)) [
  | inl same ↦
      let p : w ≡ v = some-injective w v (rw same at e) in omega (arith, ap (length {A = ℕ}) p)
  | inr other ↦ latest-short n es key v short (rw other at e)
]

module _ ⦃u : Utf⦄ (laws : IsUtf u) where
  -- A decoded text has no more runes than bytes.
  sinit_loop-short : (room : ℕ) (src : List ℕ) (n : ℕ) → length (sinit_loop room src n) ≤ n
  unfolding sinit_loop
  sinit_loop-short zero src n = omega arith
  sinit_loop-short (suc room) src n =
      let len = (u.chartorune src).1 in
      ground (arith, laws.consumes src, sinit_loop-short room (drop len src) (n - len))

  sinit-short : (src : List ℕ) (n : ℕ) → length (sinit src n) ≤ n
  unfolding sinit
  sinit-short src n = sinit_loop-short 64 src n

  -- An encoding cut off by its buffer has filled it, but for less than a rune.
  stoutf_loop-long :
      (s : Str) (n sz : ℕ)
      → (length s ≤ length (stoutf_loop s n sz)) ⊎ (sz ≤ n + length (stoutf_loop s n sz) + 4)
  unfolding stoutf_loop
  stoutf_loop-long [] n sz = inl (omega arith)
  stoutf_loop-long (r ∷ s) n sz =
      let bs = u.runetochar r in
      ground (
        arith,
        laws.wide r,
        stoutf_loop-long s (n + length bs) sz,
        length-append bs (stoutf_loop s (n + length bs) sz),
      )

  stoutf-long : (s : Str) → length (stoutf s buf_size) ≤ 63 → length s < 64
  unfolding stoutf
  stoutf-long s h = omega (arith, stoutf_loop-long s 0 buf_size)

  module _ (t : Trie) (es : List (List ℕ × List ℕ)) (is : IsTrie 63 t) (reads : Refines t es)
      (short : AllShort 63 es) where
    loaded-gets : (s : Str) → Returns (mapget t s) λ o. (v : Str) → o ≡ some v → length v < 64
    unfolding mapget
    loaded-gets s =
        if_Returns (length s == 0) (λ o. (v : Str) → o ≡ some v → length v < 64)
          (λ empty. (none, refl, λ v e. cc))
          λ nonempty. (
            _,
            rw (reads (stoutf s buf_size), ◌>>=◌) refl,
            short_value (latest es (stoutf s buf_size)) refl,
          )
      where
        short_value :
            (o : Option (List ℕ))
            → latest es (stoutf s buf_size) ≡ o
            → (v : Str) → (elim o [ none ↦ none | some v ↦ some (sinit v (length v)) ]) ≡ some v
            → length v < 64
        short_value none e v e' = cc
        short_value (some w) e v e' =
            let p : sinit w (length w) ≡ v = some-injective _ v e' in
            omega (
              arith,
              latest-short 63 es _ w short e,
              sinit-short w (length w),
              ap (length {A = ℕ}) p,
            )

    abbrev buf : Str → List ℕ
    buf s = stoutf s buf_size

    loaded-looks : (s : Str) → Returns (maplookup t s) λ r. r.0 ≡ true → length s < 64
    unfolding maplookup
    loaded-looks s =
        if_Returns (length s == 0) (λ r. r.0 ≡ true → length s < 64) (λ empty. (_, refl, λ e. cc))
          λ nonempty.
            let (o, w, r) = walk-Returns t is.path t.root (buf s) is.tree is.tree.rooted in
            found o (trielookup-walk t is.path t.root (buf s) o w r) r
      where
        bounded :
            (o : Option ℕ) → Reaches t is.path t.root (buf s) o → is_found o ≡ true → length s < 64
        bounded none r e = cc
        bounded (some j) (lt, p) e = stoutf-long s (
            omega (
              arith,
              is.shallow j lt,
              ap (length {A = ℕ}) p,
              length-append (is.path t.root) (buf s),
            ))

        found :
            (o : Option ℕ)
            → trielookup t (buf s) ≡ ok (is_found o, value_at t o)
            → Reaches t is.path t.root (buf s) o
            → Returns {X = Bool × Str}
                (decoded (trielookup t (buf s)))
                λ r. r.0 ≡ true → length s < 64
        found o e r =
            elim (value_at t o)
                as (λ v.
                  trielookup t (buf s) ≡ ok (is_found o, v)
                  → Returns {X = Bool × Str} (decoded (trielookup t (buf s)))
                      λ r. r.0 ≡ true → length s < 64) [
                        | none ↦ λ e. ((is_found o, []), rw (e, ◌>>=◌) refl, bounded o r)
                        | some v ↦
                            λ e. ((is_found o, sinit v (length v)), rw (e, ◌>>=◌) refl, bounded o r)
                      ]
              e

    -- With a lawful UTF-8 codec, a trie at most 63 deep that refines a table whose keys and
    -- values have at most 63 bytes is a map that fits: `mapget` always returns, with fewer
    -- than 64 runes, and `maplookup` always returns, and finds no string of 64 or more runes.
    pub loaded-MapFits : MapFits t
    loaded-MapFits = record { gets = loaded-gets; looks = loaded-looks }
