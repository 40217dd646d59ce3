-- ===== src/Tests/Benchmark.antt =====
-- bench/main.c: witnesses.
use strans.Base.{◌≡◌, ◌≤◌, refl, List, [], ◌∷◌, some, length, codes}
use strans.Bench.Load.{Named, plain, back, control, AllPrint, print, keys_of, loadkeys-print}
use strans.Bench.Rounds.{InStep, main-InStep}
use strans.Bench.{loadkeys, main}
use strans.Lang.{langs}
use strans.Run.{Returns}
use strans.Tests.Engine.{start, start-IsValid, langs-AllFit}
use strans.Tests.Utf8.{utf8, utf8-IsUtf}

-- The language of Hangul, a letter, and Backspace.
abbrev typed : List Named
typed = control b's' ∷ plain b'g' ∷ back ∷ []

typed-AllPrint : AllPrint typed
typed-AllPrint = ((refl, refl, refl), (refl, (tt, tt)))

loadkeys-print_example :
    Returns
      (loadkeys (some (print typed)))
      λ ks. (ks.keys ≡ keys_of typed) × (length ks.keys ≤ ks.cap)
loadkeys-print_example = loadkeys-print typed typed-AllPrint

main-InStep_example : Returns (main langs 3 (some (codes "^sg^B")) 1000 start) InStep
main-InStep_example =
    main-InStep utf8-IsUtf langs langs-AllFit 3 (codes "^sg^B") 1000 start start-IsValid
