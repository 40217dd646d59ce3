-- ===== src/Key/Typed.antt =====
-- strans.c: the keys that `keystroke` hands to the automaton of the language.
use Prim.Native.Nat.{bit_and}
use strans.Base.{
  ℕ, ◌+◌, ◌≤◌, ◌<◌, ◌≡◌, refl, ap, ◌⊎◌, true, false, not, ◌&&◌, ◌||◌, none, arith, ltb, leb, ◌==◌,
  length, List,
}
use strans.Im.{Im, Turn, show, dotrans}
use strans.Key.{
  kspec, kback, ktab, kret, kesc, kup, kdown, kshift, ksuper, mctrl, malt, msuper, digit, key_text,
  key_modified, key_edit, keystroke,
}
use strans.Lang.{Lang}
use strans.Run.{ok, ◌>>=◌}
use strans.Utf.{Utf}

-- None of Ctrl, Alt and Super is held.
abbrev pub Unmodified : ℕ → Type 0
Unmodified mods = ((bit_and mods (malt + msuper) == 0) ≡ true) × ((bit_and mods mctrl == 0) ≡ true)

-- A printing ASCII character that is no blank and no digit.
abbrev pub IsTyped : ℕ → Type 0
IsTyped k = (33 ≤ k) × (k < 128) × ((k < 48) ⊎ (57 < k))

digit-none : (k : ℕ) (im : Im) → IsTyped k → digit k im ≡ none
unfolding digit
digit-none k im h = ground (arith, h)

pub keystroke_typed :
    ⦃u : Utf⦄ (langs : List Lang) (k mods : ℕ) (t : Turn)
    → IsTyped k
    → Unmodified mods
    → keystroke langs k mods t ≡ (dotrans k t >>= show >>= λ t'. ok (true, t'))
unfolding keystroke key_edit key_modified key_text
keystroke_typed langs k mods t h (a, c) =
    let e₁ : (k == ksuper || k == kshift) ≡ false = ground (arith, h) in
    let e₂ : (k == kdown || k == kup) ≡ false = ground (arith, h) in
    let e₃ : (k == ktab || k == kret) ≡ false = ground (arith, h) in
    let e₄ : (k == kback) ≡ false = ground (arith, h) in
    let e₅ : (k == kesc) ≡ false = ground (arith, h) in
    let e₆ : (leb kspec k || not (bit_and mods (malt + msuper) == 0)) ≡ false =
      ground (arith, a, h) in
    let e₇ : not (bit_and mods mctrl == 0) ≡ false = ap not c in
    let e₈ : (k == b'0' && ltb 0 (length t.im.kouho)) ≡ false = ground (arith, h) in
    let e₉ : (ltb 0x7f k || k == b' ') ≡ false = ground (arith, h) in
    rw (e₁, e₂, digit-none k t.im h, e₃, e₄, e₅, e₆, e₇, e₈, e₉) refl
