-- ===== src/Thread/Safe.antt =====
-- strans.c: `imthread` on every sequence of keys and answers.
use strans.Base.{
  ℕ, ◌<◌, ◌≤◌, ◌≡◌, refl, Bool, [], ◌∷◌, some, arith, length, ltb, leb, ◌==◌, List, if◌then◌else◌,
  Bool-cases, inl, inr,
}
use strans.Dict.{Dictres, max_kouho}
use strans.Im.Valid.{IsValid, Keeps, show-Returns}
use strans.Im.{Im, setkouho}
use strans.Key.Total.{keystroke-Returns}
use strans.Key.Valid.{Handled, AllFit, getlang-fits}
use strans.Lang.{Lang, getlang, lang_en}
use strans.Run.{Returns, bind_Returns, if_Returns}
use strans.Str.Codec.{length-stoutf}
use strans.Str.{Str, scmp, stoutf}
use strans.Thread.{Keyreq, Event, key, answer, init, response, round, imthread}
use strans.Utf.{Utf, IsUtf}

-- No answer has more candidates than the dictionary thread sends.
abbrev pub Answers : List Event → Type 0
Answers [] = Unit {0}
Answers (key kr ∷ es) = Answers es
Answers (answer res ∷ es) = (length res.kouho ≤ max_kouho) × Answers es

module _ ⦃u : Utf⦄ where
  fresh-Keeps : (im : Im) → IsValid im → Keeps (record { im = im; text = []; sent = [] })
  fresh-Keeps im v = record { valid = v; text = omega arith }

  key-Returns :
      (langs : List Lang) (kr : Keyreq) (im : Im)
      → AllFit langs
      → IsValid im
      → Returns (round langs (key kr) im) λ r. IsValid r.0
  unfolding round
  key-Returns langs kr im h v =
      bind_Returns Handled _
        (keystroke-Returns langs kr.ks kr.mods (record { im = im; text = []; sent = [] }) h
          (fresh-Keeps im v) refl)
        λ r k. (_, refl, k.valid)

  setkouho-Returns :
      (im : Im) (res : Dictres)
      → IsValid im
      → length res.kouho ≤ max_kouho
      → Returns (setkouho im res) IsValid
  unfolding setkouho
  setkouho-Returns im res v h =
      if_Returns (leb (length res.kouho) max_kouho) IsValid
        (λ _. (_, refl, record { lang = v.lang; pre = v.pre; few = h; sel = tt }))
        λ more. absurd (ground arith)

  pub answer-Returns :
      (langs : List Lang) (res : Dictres) (im : Im)
      → IsValid im
      → length res.kouho ≤ max_kouho
      → Returns (round langs (answer res) im) λ r. IsValid r.0
  unfolding round
  answer-Returns langs res im v h =
      if_Returns (scmp res.key im.pre == 0) _
        (λ same. bind_Returns IsValid _ (setkouho-Returns im res v h) λ im' v'.
          bind_Returns Keeps _ (show-Returns _ (fresh-Keeps im' v')) λ t k. (_, refl, k.valid))
        λ late. (_, refl, v)

  -- If every language has a map that fits its strings and a matching pair of handlers, the
  -- state is valid, and each dictionary answer has at most 32 candidates, then the engine
  -- thread gets through every finite sequence of keys and answers, in any order, without a call
  -- of `die` or an index outside an array, and ends in a valid state.
  pub imthread-Returns :
      (langs : List Lang) (es : List Event) (im : Im)
      → AllFit langs
      → Answers es
      → IsValid im
      → Returns (imthread langs es im) λ r. IsValid r.0
  unfolding imthread
  imthread-Returns langs [] im h a v = (_, refl, v)
  imthread-Returns langs (key kr ∷ es) im h a v =
      bind_Returns (λ r. IsValid r.0) _ (key-Returns langs kr im h v)
        λ r v'.
          bind_Returns (λ r. IsValid r.0) _ (imthread-Returns langs es r.0 h a v')
            λ r' v''. (_, refl, v'')
  imthread-Returns langs (answer res ∷ es) im h a v =
      bind_Returns (λ r. IsValid r.0) _ (answer-Returns langs res im v a.0)
        λ r v'.
          bind_Returns (λ r. IsValid r.0) _ (imthread-Returns langs es r.0 h a.1 v')
            λ r' v''. (_, refl, v'')

  -- If every language has a map that fits its strings and a matching pair of handlers, and
  -- English is one of the languages, `init` returns a valid state.
  pub init-Returns :
      (langs : List Lang) (l : Lang)
      → AllFit langs
      → getlang langs lang_en ≡ some l
      → Returns (init langs) IsValid
  unfolding init
  init-Returns langs l h e =
      let fits = getlang-fits langs lang_en l h e in
      (
        record { l = l; pre = []; kouho = []; sel = some 0 },
        rw (e, init),
        record { lang = fits; pre = fits.paired; few = omega arith; sel = omega arith },
      )

  -- With a lawful UTF-8 codec, the response to a client is the verdict (1 or 0), one byte that
  -- holds the number of bytes behind it, and those bytes; there are fewer than 254 of them, so
  -- the number fits the byte and the frame the buffer of 256.
  pub response_frame :
      IsUtf u
      → (r : Bool) (text : Str)
      → (bs : List ℕ) × (response r text ≡ (if r then 1 else 0) ∷ length bs ∷ bs)
        × (length bs < 254)
  unfolding response
  response_frame laws r text = elim (Bool-cases (ltb 0 (length text))) [
    | inl more ↦
        (stoutf text 254, rw more, omega (arith, length-stoutf laws text 254 (omega arith)))
    | inr none_left ↦ ([], rw none_left, omega arith)
  ]
