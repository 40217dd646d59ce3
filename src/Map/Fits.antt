-- ===== src/Map/Fits.antt =====
-- strans.c: what the automata need of a map, and that it is enough for them never to overflow a
-- string of 64 runes.
use strans.Base.{
  ℕ, ◌<◌, ◌≤◌, ◌≡◌, refl, true, [], ◌∷◌, ◌++◌, none, some, arith, length, length-set, ◌==◌, not,
  ◌&&◌, ◌||◌, drop_last, length-drop_last, get_or,
}
use strans.Emit.{Emit}
use strans.Map.{mapget, maplookup, translated, transmap}
use strans.Run.{ok, Returns, bind_Returns, if_Returns, Option_Returns}
use strans.Str.Laws.{sputr_ok, sputr-Returns}
use strans.Str.{Str, slastr}
use strans.Trie.{Trie}
use strans.Utf.{Utf}
use strans.Vi.{istone, toneidx, retone, place, tone_key, transvi, applytone, removetone}

-- Every lookup ends; no value has more than 63 runes, and no string of 64 leads into the map.
pub record MapFits ⦃u : Utf⦄ (t : Trie) : Type 0 where
  pub gets : (s : Str) → Returns (mapget t s) λ o. (v : Str) → o ≡ some v → length v < 64
  pub looks : (s : Str) → Returns (maplookup t s) λ r. r.0 ≡ true → length s < 64

-- Room for one more rune in what is committed, and in the preedit.
pub record EmitFits (e : Emit) : Type 0 where
  pub text : length e.s ≤ 64
  pub next : length e.next < 64

toneidx-ne-none : (c : ℕ) → istone c ≡ true → toneidx c ≡ none → ⊥
unfolding istone toneidx
toneidx-ne-none c h e = ground arith

-- A tone key never indexes the tones out of bounds.
retone-Returns : (r c : ℕ) → (istone c || c == b'z') ≡ true → Returns (retone r c) λ _. Unit {0}
unfolding retone
retone-Returns r c h =
    if_Returns (c == b'z') (λ _. Unit {0}) (λ _. (removetone r, refl, tt))
      λ z.
        Option_Returns (toneidx c) (λ _. Unit {0})
          (λ nowhere. absurd (toneidx-ne-none c (ground arith) nowhere))
          λ i _. (applytone r i, refl, tt)

module _ ⦃u : Utf⦄ {t : Trie} (fits : MapFits t) where
  pub translated-Returns :
      (pre : Str) → length pre < 64 → Returns (translated t pre) λ s. length s < 64
  unfolding translated
  translated-Returns pre h =
      let (o, e, short) = fits.gets pre in
      elim o
          as (λ o.
            mapget t pre ≡ ok o
            → ((v : Str) → o ≡ some v → length v < 64)
            → Returns (translated t pre) (λ s. length s < 64)) [
              | none ↦ λ e short. (pre, rw e, h)
              | some v ↦ λ e short. (v, rw e, short v refl)
            ]
        e short

  -- On a map that fits, a preedit of fewer than 64 runes, and any key, `transmap` returns (it
  -- overflows no string), with at most 64 runes to commit and fewer than 64 in the next
  -- preedit.
  pub transmap-Returns : (pre : Str) (c : ℕ) → length pre < 64 → Returns (transmap t pre c) EmitFits
  unfolding transmap
  transmap-Returns pre c h =
      bind_Returns (λ _. Unit {0}) EmitFits (pre ++ c ∷ [], sputr_ok pre c h, tt)
        λ key _. bind_Returns _ EmitFits (fits.looks key) λ r deep.
          if_Returns r.0 EmitFits
            (λ found. (_, refl, record { text = omega arith; next = deep found }))
            λ missing. bind_Returns _ EmitFits (translated-Returns pre h) λ s short.
              bind_Returns (λ _. Unit {0}) EmitFits (c ∷ [], sputr_ok [] c (omega arith), tt)
                λ one _. bind_Returns _ EmitFits (fits.looks one) λ r' deep'.
                  if_Returns r'.0 EmitFits
                    (λ found. (_, refl, record { text = omega arith; next = deep' found }))
                    λ none_found.
                      bind_Returns _ EmitFits (sputr-Returns s c short)
                        λ s' room. (_, refl, record { text = room; next = omega arith })

  -- The end of `transvi` keeps the length of the mapped preedit, or commits one rune more.
  tone_key-Returns :
      (mapped : Str) (c : ℕ)
      → length mapped < 64
      → (istone c || c == b'z') ≡ true
      → Returns (tone_key mapped c) EmitFits
  unfolding tone_key
  tone_key-Returns mapped c h tone =
      Option_Returns (place mapped) EmitFits
        (λ nowhere.
          bind_Returns _ EmitFits (sputr-Returns mapped c h)
            λ s room. (_, refl, record { text = room; next = omega arith }))
        λ vi at.
          bind_Returns (λ _. Unit {0}) EmitFits (retone-Returns (get_or mapped vi 0) c tone)
            λ r _.
              (_, refl, record { text = omega arith; next = omega (arith, length-set mapped vi r) })

  -- On a map that fits, a preedit of fewer than 64 runes, and any key, `transvi` returns (it
  -- indexes no tone out of bounds and overflows no string), with at most 64 runes to commit and
  -- fewer than 64 in the next preedit.
  pub transvi-Returns : (pre : Str) (c : ℕ) → length pre < 64 → Returns (transvi t pre c) EmitFits
  unfolding transvi
  transvi-Returns pre c h =
      if_Returns (not (istone c) && not (c == b'z')) EmitFits (λ _. transmap-Returns pre c h)
        λ tone.
          if_Returns (length pre == 0) EmitFits
            (λ empty.
              bind_Returns _ EmitFits (sputr-Returns [] c (omega arith))
                λ s room. (_, refl, record { text = room; next = omega arith }))
            λ nonempty.
              if_Returns (slastr pre == b'\\') EmitFits
                (λ escaped.
                  bind_Returns _ EmitFits
                    (translated-Returns (drop_last pre) (omega (arith, length-drop_last pre)))
                    λ mapped short.
                      bind_Returns _ EmitFits (sputr-Returns mapped c short)
                        λ s room. (_, refl, record { text = room; next = omega arith }))
                λ plain.
                  bind_Returns _ EmitFits (translated-Returns pre h)
                    λ mapped short. tone_key-Returns mapped c short (ground arith)
