-- ===== src/Im/Valid.antt =====
-- strans.c: the invariant of the input method, and the steps of the key handler that keep it.
use strans.Base.{ℕ, ◌-◌, ◌<◌, ◌≤◌, ◌≡◌, refl, [], ◌∷◌, Option, none, some, arith, length}
use strans.Dict.{max_kouho}
use strans.Im.{Im, Turn, clearkouho, drawcmd, show, reset, commit}
use strans.Ko.Letters.{IsPreedit}
use strans.Lang.{Lang, Trans, Back, by_map, by_ko, by_vi, back_map, back_ko}
use strans.Map.Fits.{MapFits, translated-Returns}
use strans.Run.{Returns, bind_Returns}
use strans.Str.Laws.{length-sappend}
use strans.Str.{Str}
use strans.Utf.{Utf}

-- What the preedit looks like under each language.
abbrev pub PreFits : Trans → Back → Str → Type 0
PreFits by_ko back_ko pre = IsPreedit pre
PreFits by_map back_map pre = length pre < 64
PreFits by_vi back_map pre = length pre < 64
PreFits by_ko back_map pre = ⊥
PreFits by_map back_ko pre = ⊥
PreFits by_vi back_ko pre = ⊥

pub record LangFits ⦃u : Utf⦄ (l : Lang) : Type 0 where
  pub map_fits : MapFits l.map
  pub paired : PreFits l.trans l.back []

-- The selected candidate is one of `n`; 0 stands for none too, as `init` leaves it.
abbrev pub SelFits : Option ℕ → ℕ → Type 0
SelFits none n = Unit {0}
SelFits (some s) n = s ≤ n - 1

pub record IsValid ⦃u : Utf⦄ (im : Im) : Type 0 where
  pub lang : LangFits im.l
  pub pre : PreFits im.l.trans im.l.back im.pre
  pub few : length im.kouho ≤ max_kouho
  pub sel : SelFits im.sel (length im.kouho)

pub PreFits-short : (t : Trans) (b : Back) (pre : Str) → PreFits t b pre → length pre < 64
PreFits-short by_ko back_ko [] h = omega arith
PreFits-short by_ko back_ko (x ∷ []) h = omega arith
PreFits-short by_ko back_ko (x ∷ y ∷ pre) h = absurd h
PreFits-short by_map back_map pre h = h
PreFits-short by_vi back_map pre h = h
PreFits-short by_ko back_map pre h = absurd h
PreFits-short by_map back_ko pre h = absurd h
PreFits-short by_vi back_ko pre h = absurd h

-- A state behind a valid one: valid again, with text that fits.
pub record Keeps ⦃u : Utf⦄ (t : Turn) : Type 0 where
  pub valid : IsValid t.im
  pub text : length t.text ≤ 64

module _ ⦃u : Utf⦄ where
  pub show-Returns : (t : Turn) → Keeps t → Returns (show t) Keeps
  unfolding show drawcmd
  show-Returns t k =
      bind_Returns (λ _. Unit {0}) Keeps
        (bind_Returns _ (λ _. Unit {0})
          (translated-Returns k.valid.lang.map_fits t.im.pre
            (PreFits-short _ _ t.im.pre k.valid.pre))
          λ pre _. (_, refl, tt))
        λ dc _. (_, refl, record { valid = k.valid; text = k.text })

  pub clear_Valid : (im : Im) → LangFits im.l → IsValid (clearkouho (record im { pre = [] }))
  clear_Valid im h = record { lang = h; pre = h.paired; few = omega arith; sel = tt }

  pub reset-Returns :
      (t : Turn)
      → LangFits t.im.l
      → length t.text ≤ 64
      → Returns
          (reset t)
          λ t'. Keeps t' × (t'.im ≡ clearkouho (record t.im { pre = [] })) × (t'.text ≡ t.text)
  unfolding reset show drawcmd
  reset-Returns t h k =
      bind_Returns (λ _. Unit {0}) _
        (bind_Returns _ (λ _. Unit {0}) (translated-Returns h.map_fits [] (omega arith))
          λ pre _. (_, refl, tt))
        λ dc _. (_, refl, (record { valid = clear_Valid t.im h; text = k }, refl, refl))

  pub commit-Returns :
      (t : Turn)
      → Keeps t
      → t.text ≡ []
      → Returns (commit t) λ t'. LangFits t'.im.l × (length t'.text < 64)
  unfolding commit
  commit-Returns t k e =
      bind_Returns _ _
        (translated-Returns k.valid.lang.map_fits t.im.pre (PreFits-short _ _ t.im.pre k.valid.pre))
        λ val short. (_, refl, (k.valid.lang, rw e (omega (arith, length-sappend [] val))))
