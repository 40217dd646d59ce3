-- ===== src/Tests/Maps.antt =====
-- trie.c and the lookups of strans.c: witnesses on a map of three lines, one key of which comes twice.
use strans.Base.{ℕ, ◌≡◌, refl, List, [], ◌∷◌, none, some, arith, codes}
use strans.Im.{Im}
use strans.Tests.Engine.{english}
use strans.Thread.{Event}
use strans.Thread.Presses.{presses}
use strans.System.Files.{newest_first-AllShort}
use strans.Map.Fits.{MapFits}
use strans.Map.Loaded.{loaded-MapFits}
use strans.Run.{ok, Returns}
use strans.Tests.Utf8.{utf8, utf8-IsUtf}
use strans.Trie.Load.{AllShort, newest_first, trieopen-Refines}
use strans.Trie.Prefixes.{leads, trieopen-Leads}
use strans.Trie.Refines.{latest, IsTrie, Refines, parse, empty-IsTrie, empty-Refines}
use strans.Trie.{empty, trielookup, split_tab, trieopen}

abbrev lines : List (List ℕ)
lines = codes "ka\tx" ∷ [] ∷ codes "k\ty" ∷ codes "ka\tz" ∷ []

abbrev entries : List (List ℕ × List ℕ)
entries = (codes "ka", codes "x") ∷ (codes "k", codes "y") ∷ (codes "ka", codes "z") ∷ []

lines-parse : parse lines ≡ some entries
unfolding parse split_tab
lines-parse = refl

entries_short : AllShort 63 entries
entries_short =
    (omega arith, omega arith, (omega arith, omega arith, (omega arith, omega arith, tt)))

trieopen-Refines_example :
    Returns (trieopen (some lines)) λ t. IsTrie 63 t × Refines t (newest_first entries [])
trieopen-Refines_example = trieopen-Refines 63 lines entries lines-parse entries_short

trieopen-Leads_example : Returns (trieopen (some lines)) λ t.
    (key : List ℕ)
    → trielookup t key
      ≡ ok (leads (newest_first entries []) key, latest (newest_first entries []) key)
trieopen-Leads_example = trieopen-Leads 63 lines entries lines-parse entries_short

loaded-MapFits_example : MapFits empty
loaded-MapFits_example = loaded-MapFits utf8-IsUtf empty [] (empty-IsTrie 63) empty-Refines tt

-- The map that is read from the three lines.
roman : Returns (trieopen (some lines)) λ t. MapFits t
roman =
    let (t, run, (is, r)) = trieopen-Refines 63 lines entries lines-parse entries_short in
    (
      t,
      run,
      loaded-MapFits utf8-IsUtf t (newest_first entries []) is r
          (newest_first-AllShort 63 entries [] entries_short tt),
    )

abbrev typing : Im
typing = record { l = record english { map = roman.0 }; pre = []; kouho = []; sel = none }

abbrev presses_kak : List Event
presses_kak = presses 3 0 (codes "kak")
