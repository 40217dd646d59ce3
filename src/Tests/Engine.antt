-- ===== src/Tests/Engine.antt =====
-- strans.c: witnesses, on the table of languages before the maps are read.
use strans.Base.{◌≡◌, ◌<◌, refl, List, [], ◌∷◌, none, some, arith, codes}
use strans.Im.Valid.{IsValid}
use strans.Im.{Im}
use strans.Key.Total.{keystroke-Returns}
use strans.Key.Valid.{Handled, AllFit}
use strans.Key.{keystroke}
use strans.Lang.{Lang, Trans, Back, langs, getlang, lang_en}
use strans.Map.Fits.{MapFits}
use strans.Map.Loaded.{loaded-MapFits}
use strans.Run.{Returns}
use strans.Tests.Utf8.{utf8, utf8-IsUtf}
use strans.Thread.Safe.{imthread-Returns}
use strans.Thread.{Event, key, answer, imthread}
use strans.Trie.Refines.{empty-IsTrie, empty-Refines}
use strans.Trie.{empty}

pub empty-MapFits : MapFits empty
empty-MapFits = loaded-MapFits utf8-IsUtf empty [] (empty-IsTrie 63) empty-Refines tt

pub langs-AllFit : AllFit langs
unfolding langs
langs-AllFit =
    let short : 0 < 64 = omega arith in
    let m = empty-MapFits in
    (
      record { map_fits = m; paired = short },
      (
        record { map_fits = m; paired = short },
        (
          record { map_fits = m; paired = short },
          (
            record { map_fits = m; paired = tt },
            (
              record { map_fits = m; paired = short },
              (record { map_fits = m; paired = short }, tt),
            ),
          ),
        ),
      ),
    )

abbrev pub english : Lang
english = record {
  lang = lang_en;
  mapname = some (codes "english");
  dictname = none;
  trans = Trans.by_map;
  back = Back.back_map;
  map = empty;
  dict = none;
}

abbrev pub start : Im
start = record { l = english; pre = codes "ab"; kouho = codes "x" ∷ []; sel = some 0 }

pub start-IsValid : IsValid start
start-IsValid = record {
  lang = record { map_fits = empty-MapFits; paired = omega arith };
  pre = omega arith;
  few = omega arith;
  sel = omega arith;
}

pub getlang_en : getlang langs lang_en ≡ some english
unfolding getlang langs
getlang_en = refl

keystroke-Returns_example :
    Returns (keystroke langs b'c' 0 (record { im = start; text = []; sent = [] })) Handled
keystroke-Returns_example =
    keystroke-Returns langs b'c' 0 (record { im = start; text = []; sent = [] }) langs-AllFit
      (record { valid = start-IsValid; text = omega arith }) refl

abbrev events : List Event
events =
    key (record { fd = 3; ks = b'c'; mods = 0 })
    ∷ answer (record { key = codes "c"; kouho = codes "x" ∷ codes "y" ∷ [] })
    ∷ key (record { fd = 3; ks = b'1'; mods = 0 })
    ∷ []

imthread-Returns_example : Returns (imthread langs events start) λ r. IsValid r.0
imthread-Returns_example =
    imthread-Returns langs events start langs-AllFit (omega arith, tt) start-IsValid
