-- ===== src/Key/Valid.antt =====
-- strans.c: on every key the handler returns, and keeps the invariant of the input method.
use strans.Base.{
  ℕ, zero, suc, ◌<◌, ◌≤◌, ◌≡◌, refl, subst, Bool, true, false, [], ◌∷◌, Option, none, some, arith,
  length, Bool-cases, ltb, ltb→lt, ◌==◌, inl, inr, List, if◌then◌else◌, get_elem?-of_lt,
}
use mathlib.Core.Option.{some-injective}
use strans.Im.Steps.{back-Returns, dictqmap-Returns}
use strans.Im.Valid.{LangFits, SelFits, Keeps, show-Returns, reset-Returns, commit-Returns}
use strans.Im.{Turn, reset, commit}
use strans.Key.{
  kdown, sel_down, sel_up, key_arrow, choose, key_commit, key_return, key_back, key_escape,
}
use strans.Lang.{Lang, getlang}
use strans.Run.{Run, ok, ◌>>=◌, Returns, bind_Returns, if_Returns, Option_Returns, weaken_Returns}
use strans.Str.Laws.{length-sappend}
use strans.Utf.{Utf}

-- What is shown of a handler's result.
abbrev pub Handled : ⦃u : Utf⦄ → Bool × Turn → Type 0
Handled r = Keeps r.1

abbrev pub AllFit : ⦃u : Utf⦄ → List Lang → Type 0
AllFit [] = Unit {0}
AllFit (l ∷ ls) = LangFits l × AllFit ls

sel_down-SelFits : (n : ℕ) (s : Option ℕ) → SelFits s n → SelFits (sel_down n s) n
unfolding sel_down
sel_down-SelFits n none h = omega arith
sel_down-SelFits n (some s) h = ground arith

sel_up-SelFits : (n : ℕ) (s : Option ℕ) → SelFits s n → SelFits (sel_up s) n
unfolding sel_up
sel_up-SelFits n none h = tt
sel_up-SelFits n (some zero) h = tt
sel_up-SelFits n (some (suc s)) h = omega arith

module _ ⦃u : Utf⦄ where
  pub getlang-fits :
      (langs : List Lang) (c : ℕ) (l : Lang) → AllFit langs → getlang langs c ≡ some l → LangFits l
  unfolding getlang
  getlang-fits [] c l h e = cc
  getlang-fits (x ∷ ls) c l h e = elim (Bool-cases (x.lang == c)) [
    | inl here ↦ subst (λ m. LangFits m) (some-injective x l (rw here at e)) h.0
    | inr later ↦ getlang-fits ls c l h.1 (rw later at e)
  ]

  pub done : (b : Bool) (m : Run Turn) → Returns m Keeps → Returns (m >>= (λ t. ok (b, t))) Handled
  done b m h = bind_Returns Keeps Handled h λ t k. (_, refl, k)

  pub reset-Keeps : (t : Turn) → LangFits t.im.l → length t.text ≤ 64 → Returns (reset t) Keeps
  reset-Keeps t h k = weaken_Returns _ Keeps (reset-Returns t h k) λ t' r. r.0

  pub commit-reset : (t : Turn) → Keeps t → t.text ≡ [] → Returns (commit t >>= reset) Keeps
  commit-reset t k e =
      bind_Returns _ Keeps (commit-Returns t k e) λ t' r. reset-Keeps t' r.0 (omega (arith, r.1))

  pub key_arrow-Returns : (ks : ℕ) (t : Turn) → Keeps t → Returns (key_arrow ks t) Handled
  unfolding key_arrow
  key_arrow-Returns ks t k =
      if_Returns (length t.im.kouho == 0) Handled (λ _. (_, refl, k))
        λ some_kouho. done true _ (
          show-Returns _ (record {
            valid = record {
              lang = k.valid.lang;
              pre = k.valid.pre;
              few = k.valid.few;
              sel = moved (ks == kdown);
            };
            text = k.text;
          }))
    where
      moved :
          (b : Bool)
          → SelFits
              (if b then sel_down (length t.im.kouho) t.im.sel else sel_up t.im.sel)
              (length t.im.kouho)
      moved true = sel_down-SelFits (length t.im.kouho) t.im.sel k.valid.sel
      moved false = sel_up-SelFits (length t.im.kouho) t.im.sel k.valid.sel

  pub choose-Returns :
      (i : ℕ) (t : Turn) → Keeps t → i < length t.im.kouho → Returns (choose i t) Handled
  unfolding choose
  choose-Returns i t k h =
      let (s, e) = get_elem?-of_lt t.im.kouho i h in
      rw (e, choose) (done true _ (reset-Keeps _ k.valid.lang ((length-sappend t.text s).1 k.text)))

  pub key_commit-Returns : (t : Turn) → Keeps t → t.text ≡ [] → Returns (key_commit t) Handled
  unfolding key_commit
  key_commit-Returns t k e =
      if_Returns (ltb 0 (length t.im.pre)) Handled (λ _. done true _ (commit-reset t k e))
        λ _. (_, refl, k)

  pub key_return-Returns : (t : Turn) → Keeps t → t.text ≡ [] → Returns (key_return t) Handled
  unfolding key_return
  key_return-Returns t k e =
      Option_Returns t.im.sel Handled (λ _. key_commit-Returns t k e)
        λ s _.
          if_Returns (ltb s (length t.im.kouho)) Handled (λ h. choose-Returns s t k (ltb→lt s _ h))
            λ _. key_commit-Returns t k e

  pub key_back-Returns : (t : Turn) → Keeps t → Returns (key_back t) Handled
  unfolding key_back
  key_back-Returns t k =
      if_Returns (length t.im.pre == 0) Handled (λ _. (_, refl, k))
        λ _. bind_Returns _ Handled (back-Returns t.im.l t.im.pre k.valid.pre) λ pre h.
          if_Returns (length pre == 0) Handled
            (λ _. done true _ (reset-Keeps _ k.valid.lang k.text))
            λ _. done true _ (
              dictqmap-Returns _ (record {
                valid = record {
                  lang = k.valid.lang;
                  pre = h;
                  few = k.valid.few;
                  sel = k.valid.sel;
                };
                text = k.text;
              }))

  pub key_escape-Returns : (t : Turn) → Keeps t → Returns (key_escape t) Handled
  unfolding key_escape
  key_escape-Returns t k =
      if_Returns (length t.im.pre == 0) Handled (λ _. (_, refl, k))
        λ _. done true _ (reset-Keeps t k.valid.lang k.text)
