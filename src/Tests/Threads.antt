-- ===== src/Tests/Threads.antt =====
-- The threads together: witnesses.
use strans.Base.{◌≤◌, ℕ, Option, codes, arith, length, inl, ◌≡◌, refl, List, [], ◌∷◌, none, some}
use strans.Lang.{langs, getlang}
use strans.Run.{ok, Returns}
use strans.System.Lookups.{DictsFit}
use strans.System.Replies.{keys_ever}
use strans.System.Safe.{IsOk, Reach-booted}
use strans.System.Settles.{Inevitable, Served, Reach-Inevitable}
use strans.System.{
  System, alts, DictThread, DrawThread, Reach, here, next, connect, boot, threadmain, rounds, tick,
  sendkey, write, note_reply,
}
use strans.System.Files.{IsMapFile, IsDictFile, MapFiles, DictFiles}
use strans.System.Startup.{Started, threadmain-Started}
use strans.Client.{clientthread}
use strans.Trie.Refines.{parse}
use strans.Trie.{split_tab}
use strans.Str.{sinit}
use strans.Hash.{until_zero, bytes}
use strans.Tests.Engine.{english, langs-AllFit, getlang_en}
use strans.Tests.Utf8.{utf8, utf8-IsUtf, utf8-IsPlain, encode}
use strans.Dict.Text.{IsKey, c_string, sinit_back}
use strans.Dict.Bytes.{utf}
use strans.Im.{Im}
use strans.Key.{keystroke}
use strans.System.Measure.{keys_left}
use strans.System.Progress.{Quiet}
use strans.System.Shown.{Shows, Reach-Shows}
use strans.Thread.{init, Keyreq, Event, Output, round, response}

langs-DictsFit : DictsFit langs
unfolding langs
langs-DictsFit = (tt, (tt, (tt, (tt, (tt, (tt, tt))))))

abbrev booted : System
booted = record {
  clients = [];
  im = record { l = english; pre = []; kouho = []; sel = some 0 };
  im_thread = alts;
  requests = [];
  dict_thread = DictThread.receives;
  draws = [];
  draw_thread = DrawThread.receives;
  shown = none;
  accepted = [];
  written = [];
  dropped = [];
}

boot_booted : boot langs ≡ ok booted
unfolding boot init getlang langs
boot_booted = refl

-- A client that sends the letter k, and another that sends nothing.
abbrev clients_bytes : List ℕ
clients_bytes = 0 ∷ 0 ∷ b'k' ∷ 0 ∷ []

abbrev asked : System
asked = record booted { clients = (record { fd = 3; ks = b'k'; mods = 0 } ∷ []) ∷ [] }

booted-asked : Reach langs booted asked
unfolding clientthread
booted-asked = next here (connect booted 3 clients_bytes)

Reach-booted_example : IsOk langs asked
Reach-booted_example =
    Reach-booted langs langs-AllFit langs-DictsFit english getlang_en boot_booted booted-asked

Reach-Inevitable_example : Inevitable langs (Served langs (keys_ever asked)) asked
Reach-Inevitable_example =
    Reach-Inevitable langs langs-AllFit langs-DictsFit english getlang_en boot_booted booted-asked

-- Every file has the line of the letter k.
abbrev files : List ℕ → Option (List (List ℕ))
files path = some (codes "k\ty" ∷ [])

abbrev dir : List ℕ
dir = codes "map"

file_of_k : (name : List ℕ) → length name ≤ 1000 → IsMapFile files dir name
unfolding parse split_tab
file_of_k name h = record {
  lines = codes "k\ty" ∷ [];
  entries = (codes "k", codes "y") ∷ [];
  there = refl;
  path = omega (arith, h);
  parsed = refl;
  short = (omega arith, omega arith, tt);
}

k-IsKey : IsKey (codes "k")
k-IsKey = record { runes = (inl (omega arith), tt); few = omega arith; no_zero = (refl, tt) }

utf_k : utf (codes "k") ≡ codes "k"
unfolding utf encode
utf_k = refl

sinit_k : sinit (codes "k") (length (codes "k")) ≡ codes "k"
sinit_k = rw utf_k at (sinit_back utf8-IsUtf utf8-IsPlain (codes "k") k-IsKey)

key_of_k :
    until_zero (bytes (sinit (codes "k") (length (codes "k"))))
    ≡ bytes (sinit (codes "k") (length (codes "k")))
key_of_k = rw sinit_k (c_string utf8-IsUtf utf8-IsPlain (codes "k") k-IsKey)

dict_of_k : (name : List ℕ) → length name ≤ 1000 → IsDictFile files dir name
unfolding split_tab
dict_of_k name h = record {
  lines = codes "k\ty" ∷ [];
  there = refl;
  path = omega (arith, h);
  keys = (key_of_k, tt);
}

langs-MapFiles : MapFiles files dir langs
unfolding langs
langs-MapFiles = (
  file_of_k _ (omega arith),
  (
    file_of_k _ (omega arith),
    (
      file_of_k _ (omega arith),
      (file_of_k _ (omega arith), (file_of_k _ (omega arith), (file_of_k _ (omega arith), tt))),
    ),
  ),
)

langs-DictFiles : DictFiles files dir langs
unfolding langs
langs-DictFiles = (
  tt,
  (
    dict_of_k _ (omega arith),
    (dict_of_k _ (omega arith), (tt, (dict_of_k _ (omega arith), (tt, tt)))),
  ),
)

threadmain-Started_example :
    Returns
      (threadmain files (codes "strans" ∷ dir ∷ codes "font" ∷ []) langs)
      (Started files dir langs)
threadmain-Started_example =
    threadmain-Started files dir (codes "strans") (codes "font") langs english utf8-IsUtf
      langs-AllFit langs-DictsFit langs-MapFiles langs-DictFiles getlang_en

-- A key on Super, which is eaten and changes nothing, from the socket to the response.
abbrev super : Keyreq
super = record { fd = 3; ks = 0xf0eb; mods = 0 }

abbrev eaten : Im × Output
eaten = (
  record { l = english; pre = []; kouho = []; sel = some 0 },
  record { sent = []; reply = some (3, 1 ∷ 0 ∷ []) },
)

round_super : round langs (Event.key super) booted.im ≡ ok eaten
unfolding round keystroke response
round_super = refl

abbrev after_super : System
after_super = record booted {
  clients = [] ∷ [];
  accepted = super ∷ [];
  written = (3, 1 ∷ 0 ∷ []) ∷ [];
}

abbrev asked_super : System
asked_super = record booted { clients = (super ∷ []) ∷ [] }

abbrev rounded : System
rounded = record booted {
  clients = [] ∷ [];
  im_thread = rounds [] (some (3, 1 ∷ 0 ∷ []));
  accepted = super ∷ [];
}

booted-after_super : Reach langs booted after_super
unfolding clientthread note_reply
booted-after_super =
    next
      (next (next here (connect booted 3 (0 ∷ 0 ∷ 0xeb ∷ 0xf0 ∷ [])))
        (tick (sendkey asked_super [] [] super [] eaten refl refl round_super)))
      (tick (write rounded (some (3, 1 ∷ 0 ∷ [])) refl))

after_super-Quiet : Quiet after_super
unfolding keys_left
after_super-Quiet = record {
  clients = refl;
  im = refl;
  requests = refl;
  dict = refl;
  draws = refl;
  drawer = refl;
}

Reach-Shows_example : Shows after_super
Reach-Shows_example = Reach-Shows langs boot_booted booted-after_super after_super-Quiet
