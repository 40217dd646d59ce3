-- ===== src/Tests/Typing.antt =====
-- strans.c with ko.c: a witness, a word typed in the Hangul mode.
use strans.Base.{[], none, codes, refl}
use strans.Im.{Im}
use strans.Ko.{keytojamo}
use strans.Lang.{Trans, Back, lang_ko}
use strans.Run.{Returns}
use strans.Tests.Engine.{empty-MapFits}
use strans.Tests.Utf8.{utf8}
use strans.Thread.Hangul.{InHangul, AllLetters, Typed, imthread-Typed}
use strans.Thread.Presses.{presses}
use strans.Thread.{imthread}
use strans.Trie.{empty}

abbrev korean : Im
korean = record {
  l = record {
    lang = lang_ko;
    mapname = none;
    dictname = none;
    trans = Trans.by_ko;
    back = Back.back_ko;
    map = empty;
    dict = none;
  };
  pre = [];
  kouho = [];
  sel = none;
}

korean-InHangul : InHangul korean
korean-InHangul = record {
  fits = record { map_fits = empty-MapFits; paired = tt };
  by_hangul = refl;
  pre = tt;
}

word_letters : AllLetters (codes "gksrmf")
unfolding keytojamo
word_letters = (refl, (refl, (refl, (refl, (refl, (refl, tt))))))

imthread-Typed_example :
    Returns (imthread [] (presses 3 1 (codes "gksrmf")) korean) (Typed korean 3 (codes "gksrmf"))
imthread-Typed_example =
    imthread-Typed [] 3 1 (codes "gksrmf") korean korean-InHangul word_letters (refl, refl)
