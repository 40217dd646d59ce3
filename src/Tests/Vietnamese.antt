-- ===== src/Tests/Vietnamese.antt =====
-- vi.c: witnesses.
use strans.Base.{◌≡◌, refl, arith, codes}
use strans.Run.{ok}
use strans.Vi.Tones.{removetone-applytone}
use strans.Vi.Accents.{accented, tone_key-accented}
use strans.Vi.{istone, removetone, applytone, tone_key}

tone_key-accented_example : tone_key (codes "hòa") b's' ≡ ok (accented (codes "hòa") b's')
tone_key-accented_example =
    tone_key-accented (codes "hòa") b's' (unfold istone in refl) (omega arith)

removetone-applytone_example : removetone (applytone 0xE0 0) ≡ removetone 0xE0
removetone-applytone_example = removetone-applytone 0xE0 0 (omega arith)
