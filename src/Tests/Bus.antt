-- ===== src/Tests/Bus.antt =====
-- ibus.c: witnesses, with a client that presses a key.
use mathlib.Core.Option.{some-injective}
use strans.Base.{subst, ◌+◌, ◌≡◌, ◌==◌, true, false, not, refl, [], ◌∷◌, none, some, arith, codes}
use strans.Ibus.Answers.{onmsg-Outcome, Outcome, handlekey-Forwards, Forwards}
use strans.Ibus.Announce.{Opening, ibusinit-Opening}
use strans.Ibus.Address.{split_at}
use strans.Ibus.Init.{Machine, ibusinit}
use strans.Ibus.Loop.{add, remove, watch, connect, Happens, ibusthread}
use strans.Ibus.Thread.{Steady, ibusthread-Steady}
use strans.Ibus.Watches.Laws.{keep}
use strans.Ibus.Watches.Prune.{pruneconns-keep}
use strans.Ibus.Watches.{WatchTable, Flags, WatchInfo, pruneconns}
use strans.Ibus.{Message, Bus, Outside, onmsg, handlekey}
use strans.Lang.{langs}
use strans.Run.{ok, Returns}
use strans.Tests.Engine.{start, start-IsValid, langs-AllFit}
use strans.Tests.Utf8.{utf8, utf8-IsUtf}

abbrev out : Outside
out = record { decimal = λ n. (b'0' + n) ∷ []; pipe = some 4; xml = codes "<node/>" }

abbrev press : Message
press = record {
  is_call = true;
  iface = some (codes "org.freedesktop.IBus.InputContext");
  method = some (codes "ProcessKeyEvent");
  path = some (codes "/ic");
  args = some (b'c', 54, 0);
}

abbrev bus : Bus
bus = record { icctr = 1; busctr = 1; im = start }

onmsg-Outcome_example : Returns (onmsg out langs press bus) (Outcome press bus)
onmsg-Outcome_example = onmsg-Outcome out langs langs-AllFit press bus start-IsValid

handlekey-Forwards_example :
    Returns (handlekey out langs press bus) (Forwards langs press 4 b'c' 0 bus)
handlekey-Forwards_example =
    handlekey-Forwards out langs langs-AllFit utf8-IsUtf press bus 4 b'c' 54 0 start-IsValid refl
      refl refl

abbrev readable : Flags
readable = record { readable = true; writable = false; hangup = false; error = false }

abbrev info : WatchInfo
info = record { enabled = λ w. not (w == 2); unix_fd = λ w. w + 10; flags = λ _. readable }

abbrev slots : WatchTable
slots = some 1 ∷ none ∷ some 2 ∷ some 3 ∷ []

abbrev visit : Happens
visit = record {
  info = info;
  revents = some (readable ∷ []);
  callbacks = λ w f. watch (add 5) ∷ connect 8 ∷ [];
  messages = λ _. press ∷ [];
  dispatching = λ c. remove 3 ∷ [];
  connected = λ c. c == 7;
  unref = λ c. remove 1 ∷ [];
}

ibusthread-Steady_example :
    Returns
      (ibusthread out langs
        (visit ∷ visit ∷ [])
        (record { watches = slots; conns = 6 ∷ 7 ∷ [] })
        bus)
      λ r. Steady r.0 r.1
ibusthread-Steady_example =
    ibusthread-Steady out langs langs-AllFit (visit ∷ visit ∷ [])
      (record { watches = slots; conns = 6 ∷ 7 ∷ [] }) bus
      (record { watches = omega arith; conns = omega arith }) start-IsValid

pruneconns-keep_example :
    pruneconns (λ c. c == 7) (6 ∷ 7 ∷ 8 ∷ [])
    ≡ ok (keep (λ c. c == 7) (6 ∷ 7 ∷ 8 ∷ []), keep (λ c. not (c == 7)) (6 ∷ 7 ∷ 8 ∷ []))
pruneconns-keep_example = pruneconns-keep (λ c. c == 7) (6 ∷ 7 ∷ 8 ∷ [])

abbrev machine : Machine
machine = record {
  env = record {
    etc_id = some (codes "c0ffee\n");
    var_id = none;
    display = some (codes ":0");
    config_home = none;
    home = some (codes "/home/u");
  };
  has_dir = true;
  pid = codes "42";
  listen = λ addr. some (codes "unix:abstract=strans-42,guid=1");
  opens = λ path. true;
}

one_line : split_at b'\n' (codes "unix:abstract=strans-42,guid=1") ≡ none
unfolding split_at
one_line = refl

ibusinit-Opening_example : Opening machine (λ p. none) (ibusinit machine λ p. none)
unfolding split_at
ibusinit-Opening_example =
    ibusinit-Opening machine (λ p. none) refl
      λ addr full e. subst (λ s. split_at b'\n' s ≡ none) (some-injective _ full e) one_line
