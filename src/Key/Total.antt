-- ===== src/Key/Total.antt =====
-- strans.c: on every key `keystroke` returns, and keeps the invariant of the input method.
use Prim.Native.Nat.{bit_and}
use strans.Base.{
  ℕ, ◌+◌, ◌<◌, ◌≡◌, refl, subst, true, false, [], Option, none, some, arith, length, ltb, leb, ◌==◌,
  List, ◌&&◌, ◌||◌, not,
}
use mathlib.Core.Option.{some-injective}
use strans.Im.Steps.{dotrans-Returns}
use strans.Im.Valid.{IsValid, Keeps, show-Returns, reset-Returns, commit-Returns}
use strans.Im.{Im, Turn, setlang, clearkouho}
use strans.Key.Valid.{
  Handled, AllFit, getlang-fits, done, reset-Keeps, commit-reset, key_arrow-Returns, choose-Returns,
  key_return-Returns, key_back-Returns, key_escape-Returns,
}
use strans.Key.{
  kspec, kback, ktab, kret, kesc, kup, kdown, kshift, ksuper, mctrl, malt, msuper, digit, control,
  key_control, key_plain, key_text, key_modified, key_edit, keystroke,
}
use strans.Lang.{Lang, getlang}
use strans.Run.{Returns, bind_Returns, if_Returns, Option_Returns}
use strans.Str.Laws.{sputr-Returns}
use strans.Utf.{Utf}

digit-lt : (ks : ℕ) (im : Im) (i : ℕ) → digit ks im ≡ some i → i < length im.kouho
unfolding digit
digit-lt ks im i e = ground arith

module _ ⦃u : Utf⦄ where
  setlang-Valid :
      (langs : List Lang) (c : ℕ) (im im' : Im)
      → AllFit langs
      → setlang langs c (clearkouho (record im { pre = [] })) ≡ some im'
      → IsValid im'
  unfolding setlang
  setlang-Valid langs c im im' h e = go (getlang langs c) refl e
    where
      go :
          (o : Option Lang)
          → getlang langs c ≡ o
          → elim o [
            | none ↦ none
            | some l ↦ some (record (clearkouho (record im { pre = [] })) { l = l })
          ]
            ≡ some im'
          → IsValid im'
      go none e₁ e₂ = cc
      go (some l) e₁ e₂ =
          let fits = getlang-fits langs c l h e₁ in
          subst (λ x. IsValid x) (some-injective _ im' e₂)
            (record { lang = fits; pre = fits.paired; few = omega arith; sel = tt })

  key_control-Returns :
      (langs : List Lang) (ks : ℕ) (t : Turn)
      → AllFit langs
      → Keeps t
      → Returns (key_control langs ks t) Handled
  unfolding key_control
  key_control-Returns langs ks t h k =
      bind_Returns _ Handled (reset-Returns t k.valid.lang k.text) λ t' r.
        Option_Returns (setlang langs (control ks) t'.im) Handled (λ _. (_, refl, r.0))
          λ im e. (
            _,
            refl,
            record {
              valid = setlang-Valid langs (control ks) t.im im h (rw r.1 at e);
              text = r.0.text;
            },
          )

  key_plain-Returns : (ks : ℕ) (t : Turn) → Keeps t → t.text ≡ [] → Returns (key_plain ks t) Handled
  unfolding key_plain
  key_plain-Returns ks t k e = bind_Returns _ Handled (commit-Returns t k e) λ t' r.
      bind_Returns _ Handled (sputr-Returns t'.text ks r.1)
        λ text room. done true _ (reset-Keeps _ r.0 room)

  key_text-Returns : (ks : ℕ) (t : Turn) → Keeps t → t.text ≡ [] → Returns (key_text ks t) Handled
  unfolding key_text
  key_text-Returns ks t k e =
      if_Returns (ks == b'0' && ltb 0 (length t.im.kouho)) Handled
        (λ _. done true _ (commit-reset t k e))
        λ _.
          if_Returns (ltb 0x7f ks || ks == b' ') Handled (λ _. key_plain-Returns ks t k e)
            λ _.
              done true _
                (bind_Returns Keeps Keeps (dotrans-Returns ks t k) λ t' k'. show-Returns t' k')

  key_modified-Returns :
      (langs : List Lang) (ks mods : ℕ) (t : Turn)
      → AllFit langs
      → Keeps t
      → t.text ≡ []
      → Returns (key_modified langs ks mods t) Handled
  unfolding key_modified
  key_modified-Returns langs ks mods t h k e =
      if_Returns (leb kspec ks || not (bit_and mods (malt + msuper) == 0)) Handled
        (λ _. done false _ (commit-reset t k e))
        λ _.
          if_Returns (not (bit_and mods mctrl == 0)) Handled
            (λ _. key_control-Returns langs ks t h k) λ _. key_text-Returns ks t k e

  key_edit-Returns :
      (langs : List Lang) (ks mods : ℕ) (t : Turn)
      → AllFit langs
      → Keeps t
      → t.text ≡ []
      → Returns (key_edit langs ks mods t) Handled
  unfolding key_edit
  key_edit-Returns langs ks mods t h k e =
      if_Returns (ks == ktab || ks == kret) Handled (λ _. key_return-Returns t k e)
        λ _.
          if_Returns (ks == kback) Handled (λ _. key_back-Returns t k)
            λ _.
              if_Returns (ks == kesc) Handled (λ _. key_escape-Returns t k)
                λ _. key_modified-Returns langs ks mods t h k e

  -- If every language has a map that fits its strings and a matching pair of handlers, the
  -- state is valid, and nothing is to be committed yet, then `keystroke` returns on every key
  -- and modifier: no call of `die`, no index outside an array. The state is valid again
  -- (preedit of the right form for the language, at most 32 candidates, selection among them),
  -- and at most 64 runes are to be committed.
  pub keystroke-Returns :
      (langs : List Lang) (ks mods : ℕ) (t : Turn)
      → AllFit langs
      → Keeps t
      → t.text ≡ []
      → Returns (keystroke langs ks mods t) Handled
  unfolding keystroke
  keystroke-Returns langs ks mods t h k e =
      if_Returns (ks == ksuper || ks == kshift) Handled (λ _. (_, refl, k))
        λ _.
          if_Returns (ks == kdown || ks == kup) Handled (λ _. key_arrow-Returns ks t k)
            λ _.
              Option_Returns (digit ks t.im) Handled (λ _. key_edit-Returns langs ks mods t h k e)
                λ i d. choose-Returns i t k (digit-lt ks t.im i d)
