-- ===== src/Tests/Clients.antt =====
-- gtk/main.c and xim/main.c: witnesses.
use strans.Base.{
  if◌then◌else◌, equal, codes, ◌≡◌, ◌<◌, ◌==◌, ◌||◌, ltb, refl, true, false, List, none, [], ◌∷◌,
  some, arith,
}
use strans.Client.Session.{Served, kpress-Served}
use strans.Client.Dial.{srvinit, Meets, srvinit-Meets}
use strans.Client.Gtk.{init}
use strans.Client.Talk.InStep.{talk-Talked}
use strans.Client.Talk.{ContextEvent, event, unfocus, Talk, talk, Talked}
use strans.Lang.{langs}
use strans.Tests.Engine.{start, start-IsValid, langs-AllFit}
use strans.Client.Gtk.{mget, Modifiers, kget}
use strans.Run.{ok, Returns}
use strans.Tests.Utf8.{utf8, utf8-IsUtf}
use strans.Thread.{key, round}
use strans.Xim.Laws.{keysym_at, kget-kinit}
use strans.Xim.Session.{Converses, kpress-Converses}
use strans.Xim.{Keymap, Mapping, kinit}
use strans.Xim

abbrev plain : Modifiers
plain = record { shift = false; control = false; mod1 = false; super = false }

key_of_a : (kget (λ k. k) b'a' == 0) ≡ false
unfolding kget
key_of_a = refl

key_in_range : kget (λ k. k) b'a' < 65536
unfolding kget
key_in_range = omega arith

kpress-Served_example :
    Returns
      (round langs (key (record { fd = 4; ks = kget (λ k. k) b'a'; mods = mget plain })) start)
      (Served (λ k. k) b'a' plain 3 4 (0 ∷ 0 ∷ []))
kpress-Served_example =
    kpress-Served langs start (λ k. k) b'a' plain 3 4 (0 ∷ 0 ∷ []) utf8-IsUtf langs-AllFit
      start-IsValid key_of_a key_in_range

-- A key, its release, and a change of the focus.
abbrev typed : List ContextEvent
typed = event (some 3) true b'a' plain ∷ event none false b'a' plain ∷ unfocus ∷ []

abbrev untouched : Talk
untouched = record { fd = init; im = start; left = []; heard = []; commits = [] }

talk-Talked_example :
    Returns (talk (λ k. k) langs 4 typed untouched) (Talked (λ k. k) typed untouched)
talk-Talked_example =
    talk-Talked utf8-IsUtf (λ k. k) langs langs-AllFit 4 typed untouched start-IsValid refl

srvinit-Meets_example :
    Returns
      (srvinit (codes "1000") (equal (codes "unix!/tmp/strans.1000")))
      (Meets (codes "1000") 3 (equal (codes "/tmp/strans.1000")))
unfolding equal
srvinit-Meets_example =
    srvinit-Meets (codes "1000") 3 (equal (codes "unix!/tmp/strans.1000"))
      (equal (codes "/tmp/strans.1000")) (omega arith) refl λ path h. h

abbrev two_keys : Mapping
two_keys = record { keysyms_per_keycode = 2; keysyms = b'a' ∷ b'A' ∷ b'b' ∷ b'B' ∷ [] }

kget-kinit_example : Returns (kinit (some (8, 9)) (some two_keys)) λ map.
    Returns
      (Xim.kget map 9 1)
      λ keysym. if ltb 9 8 || ltb 9 9 then keysym ≡ 0 else keysym_at 8 two_keys 9 1 ≡ some keysym
kget-kinit_example =
    kget-kinit 8 9 two_keys 9 1
      (record { range = omega arith; row = omega arith; rows = omega arith })

abbrev letters : Keymap
letters = record { kmap = some two_keys.keysyms; minkc = 8; maxkc = 9; symsper = 2 }

keysym_of_b : Xim.kget letters 9 0 ≡ ok b'b'
unfolding Xim.kget Xim.column
keysym_of_b = refl

kpress-Converses_example :
    Returns
      (round langs (key (record { fd = 4; ks = b'b'; mods = 0 })) start)
      (Converses (λ s. some s) letters 9 0 b'b' 4 (0 ∷ 0 ∷ []))
kpress-Converses_example =
    kpress-Converses (λ s. some s) letters 9 0 b'b' keysym_of_b langs start 4 (0 ∷ 0 ∷ [])
      utf8-IsUtf (omega arith) langs-AllFit start-IsValid
