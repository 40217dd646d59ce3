-- ===== src/Str/Codec.antt =====
-- `stoutf` and `sinit` as an encoder and its decoder.
use strans.Base.{
  ℕ, zero, suc, ◌+◌, ◌*◌, ◌≤◌, ◌<◌, ◌≡◌, refl, ap, List, [], ◌∷◌, ◌++◌, arith, length, ◌-◌,
  drop-append, length-append, lt→ltb, ==_pos,
}
use strans.Str.{Str, max_runes, utf_max, sinit, sinit_loop, stoutf, stoutf_loop}
use strans.Utf.{Utf, IsUtf, IsRune}

abbrev pub AllRunes : Str → Type 0
AllRunes [] = Unit {0}
AllRunes (r ∷ s) = IsRune r × AllRunes s

module _ ⦃u : Utf⦄ (laws : IsUtf u) where
  pub length-stoutf_loop : (s : Str) (n sz : ℕ) → n < sz → n + length (stoutf_loop s n sz) < sz
  unfolding stoutf_loop
  length-stoutf_loop [] n sz h = omega arith
  length-stoutf_loop (r ∷ s) n sz h = ground (
    arith,
    laws.wide r,
    length-append (u.runetochar r) (stoutf_loop s (n + length (u.runetochar r)) sz),
    length-stoutf_loop s (n + length (u.runetochar r)) sz,
  )

  -- With a lawful UTF-8 codec, `stoutf` into a buffer of `sz` bytes, where `sz` is not 0,
  -- writes at most `sz` bytes, the zero byte at the end counted.
  pub length-stoutf : (s : Str) (sz : ℕ) → 0 < sz → length (stoutf s sz) + 1 ≤ sz
  unfolding stoutf
  length-stoutf s sz h = omega (arith, length-stoutf_loop s 0 sz h)

  -- One rune in front of the bytes is read off, and the rest is left for the other rounds.
  pub sinit_loop-runetochar :
      (room : ℕ) (r : ℕ) (rest : List ℕ) (m : ℕ)
      → IsRune r
      → sinit_loop (suc room) (u.runetochar r ++ rest) (length (u.runetochar r) + m)
        ≡ r ∷ sinit_loop room rest m
  sinit_loop-runetochar room r rest m v =
      let w : 0 < length (u.runetochar r) + m = omega (arith, laws.wide r) in
      let e : length (u.runetochar r) + m - length (u.runetochar r) ≡ m = omega arith in
      unfold sinit_loop in
      rw (laws.chartorune-runetochar r rest v, drop-append (u.runetochar r) rest, e, ==_pos _ w)

  -- With room for four bytes a rune nothing is cut off, and the decoder reads every rune back.
  sinit_loop-stoutf_loop :
      (s : Str) (n sz room : ℕ)
      → AllRunes s
      → n + 4 * length s < sz
      → length s ≤ room
      → sinit_loop room (stoutf_loop s n sz) (length (stoutf_loop s n sz)) ≡ s
  unfolding stoutf_loop
  sinit_loop-stoutf_loop [] n sz zero v h k = unfold sinit_loop in refl
  sinit_loop-stoutf_loop [] n sz (suc room) v h k = unfold sinit_loop in refl
  sinit_loop-stoutf_loop (r ∷ s) n sz zero v h k = absurd (omega arith)
  sinit_loop-stoutf_loop (r ∷ s) n sz (suc room) v h k =
      rw
        (
          lt→ltb (n + utf_max) sz (omega arith),
          length-append (u.runetochar r) (stoutf_loop s (n + length (u.runetochar r)) sz),
          sinit_loop-runetochar room r _ _ v.0,
        )
        (ap (◌∷◌ r)
          (sinit_loop-stoutf_loop s _ sz room v.1 (omega (arith, laws.wide r)) (omega arith)))

  -- With a lawful UTF-8 codec, a string of valid runes that has at most 64 of them, and at four
  -- bytes each fewer bytes than the buffer, is read back by `sinit` from the bytes that
  -- `stoutf` writes.
  pub sinit-stoutf :
      (s : Str) (sz : ℕ)
      → AllRunes s
      → 4 * length s < sz
      → length s ≤ max_runes
      → sinit (stoutf s sz) (length (stoutf s sz)) ≡ s
  unfolding sinit stoutf
  sinit-stoutf s sz v h k = sinit_loop-stoutf_loop s 0 sz max_runes v (omega arith) k
