-- ===== src/Tests/Candidates.antt =====
-- dict.c and the candidates in strans.c: witnesses.
use strans.Base.{inl, ◌∷◌, ◌≡◌, ◌+◌, refl, [], arith, codes}
use strans.Dict.Candidates.{lookup_loop_fuel}
use strans.Dict.{lookup_loop}
use strans.Im.{drawcmd}
use strans.Key.Shown.{Shows, drawcmd-Shows}
use strans.Run.{Returns}
use strans.Thread.Answers.{Takes, round-Takes}
use strans.Thread.Chosen.{Chosen, imthread-Chosen}
use strans.Thread.{key, answer, round, imthread}
use strans.Dict.{Dictres}
use strans.Tests.Engine.{start, start-IsValid}
use strans.Tests.Utf8.{utf8, utf8-IsUtf}

lookup_loop_fuel_example :
    lookup_loop 9 (codes "ab") (codes "ab c") [] ≡ lookup_loop 4 (codes "ab") (codes "ab c") []
lookup_loop_fuel_example =
    lookup_loop_fuel 4 9 (codes "ab") (codes "ab c") [] (omega arith) (omega arith)

drawcmd-Shows_example : Returns (drawcmd start) (Shows start)
drawcmd-Shows_example = drawcmd-Shows start start-IsValid

abbrev found : Dictres
found = record { key = codes "ab"; kouho = codes "x" ∷ codes "y" ∷ [] }

round-Takes_example : Returns (round [] (answer found) start) (Takes start found)
round-Takes_example = round-Takes [] found start start-IsValid (omega arith)

imthread-Chosen_example :
    Returns
      (imthread [] (answer found ∷ key (record { fd = 3; ks = b'1' + 1; mods = 0 }) ∷ []) start)
      (Chosen 3 (codes "y"))
imthread-Chosen_example =
    imthread-Chosen [] start found 3 1 0 (codes "y") start-IsValid (omega arith) refl (omega arith)
      refl utf8-IsUtf (inl (omega arith), tt) (omega arith)
