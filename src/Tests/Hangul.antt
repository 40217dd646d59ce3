-- ===== src/Tests/Hangul.antt =====
-- ko.c: witnesses, and runs of the automaton.
use strans.Base.{◌≡◌, ◌++◌, refl, [], ◌∷◌, codes, true, inl, inr, arith, member}
use strans.Emit.{no_emit}
use strans.Ko.Backspace.{Erases, backko-Erases}
use strans.Ko.Other.{transko_other, transko-Returns, Bounds}
use strans.Ko.Syllables.{decompose-compose}
use strans.Ko.Tables.{cvow, cjong}
use strans.Ko.Spells.{Types}
use strans.Ko.Typing.{transko-Types}
use strans.Ko.{
  at, idx, cho_idx, jung_idx, jong_idx, keytojamo, combine, splitpair, compose, decompose, issyl,
  transko_jamo, transko_vowel, transko_open, transko_split, transko_closed, transko_syl, transko,
  backko_jong, backko_jung, backko,
}
use strans.Run.{ok, Returns}
use strans.Str.{slastr, spopr, sputr}

-- A final joins, a final that leaves for the next syllable, and a vowel that comes apart.
runs :
    (transko (codes "가") b'r' ≡ ok ([], record no_emit { eat = true; next = codes "각" }))
    × (transko (codes "값") b'k'
        ≡ ok ([], record no_emit { eat = true; s = codes "갑"; next = codes "사" }))
    × (backko (codes "과") ≡ ok (codes "고"))
unfolding at idx cho_idx jung_idx jong_idx keytojamo combine splitpair compose decompose issyl cvow
    cjong transko_jamo transko_vowel transko_open transko_split transko_closed transko_syl transko
    backko_jong backko_jung backko slastr spopr sputr
runs = (refl, refl, refl)

transko-Types_example : Returns (transko (codes "값") b'k') (Types (codes "값") (keytojamo b'k'))
transko-Types_example =
    transko-Types (codes "값") b'k' (inl (unfold issyl in refl)) (unfold keytojamo in refl)

backko-Erases_example : Returns (backko (codes "과")) (Erases (codes "과"))
backko-Erases_example = backko-Erases (codes "과") (inl (unfold issyl in refl))

transko_other_example :
    transko (codes "값") b'1' ≡ ok ([], record no_emit { s = codes "값" ++ b'1' ∷ [] })
transko_other_example =
    transko_other (codes "값") b'1' (inl (unfold issyl in refl)) (unfold keytojamo in refl)

transko-Returns_example : Returns (transko (codes "ㄱ") b'k') Bounds
transko-Returns_example = transko-Returns (codes "ㄱ") b'k' (inr (unfold member in refl))

decompose-compose_example : (issyl (compose 0 0 1) ≡ true) × (decompose (compose 0 0 1) ≡ (0, 0, 1))
decompose-compose_example = decompose-compose 0 0 1 (omega arith) (omega arith) (omega arith)
