-- ===== src/Bench.antt =====
-- bench/main.c: a client that sends the keys of a file to the engine, over and over, and reads each
-- response. Time is not modelled.
pub mod Load
pub mod Rounds
use strans.Base.{
  ℕ, zero, suc, ◌+◌, ◌*◌, ◌/◌, ◌%◌, Bool, true, false, ◌||◌, not, List, [], ◌∷◌, ◌++◌, Option, none,
  some, ◌==◌, ltb, leb, if◌then◌else◌, length, drop,
}
use strans.Client.{clientthread}
use strans.Im.{Im}
use strans.Lang.{Lang}
use strans.Run.{Run, ok, died, fault, ◌>>=◌}
use strans.Thread.{Keyreq, Event, Output, imthread}
use strans.Utf.{Utf}

abbrev pub kback : ℕ
kback = 0xf008

abbrev pub kret : ℕ
kret = 0xf00d

abbrev pub kesc : ℕ
kesc = 0xf01b

abbrev pub mctrl : ℕ
mctrl = 4

pub record Key : Type 0 where
  pub k : ℕ
  pub mods : ℕ

-- `keys` is the first `nkeys` keys of an array with room for `cap`.
pub record Keys : Type 0 where
  pub cap : ℕ
  pub keys : List Key

-- The array before the first key.
abbrev pub no_keys : Keys
no_keys = record { cap = 0; keys = [] }

unfoldable pub addkey : Keys → ℕ → ℕ → Run Keys
addkey ks k mods =
    let cap =
      if leb ks.cap (length ks.keys) then (if ks.cap == 0 then 256 else ks.cap * 2) else ks.cap in
    if ltb (length ks.keys) cap
    then ok (record { cap = cap; keys = ks.keys ++ record { k = k; mods = mods } ∷ [] })
    else fault

-- The `switch`, on the byte behind a caret.
unfoldable pub add_named : Keys → ℕ → Run Keys
add_named ks c =
    if c == b'B'
    then addkey ks kback 0
    else if c == b'R'
    then addkey ks kret 0
    else if c == b'E'
    then addkey ks kesc 0
    else addkey ks c mctrl

-- The loop of `loadkeys`, on the bytes that are left; `caret` after a caret was read.
unfoldable pub load_loop : Bool → List ℕ → Keys → Run Keys
load_loop caret [] ks = ok ks
load_loop true (c ∷ file) ks = add_named ks c >>= load_loop false file
load_loop false (c ∷ file) ks =
    let added = if c == b'\n' || c == b'\r' || c == b'^' then ok ks else addkey ks c 0 in
    added >>= load_loop (c == b'^') file

-- `file` is none where it cannot be opened.
unfoldable pub loadkeys : Option (List ℕ) → Run Keys
loadkeys none = died
loadkeys (some file) = load_loop false file no_keys

unfoldable pub sendkey : Key → List ℕ
sendkey key = 0 ∷ key.mods % 256 ∷ key.k % 256 ∷ key.k / 256 % 256 ∷ []

-- What is left of the bytes of the engine; `none` is -1. `fault` is a text that does not fit `buf`.
unfoldable pub readresp : List ℕ → Run (Option (List ℕ))
readresp (verdict ∷ n ∷ bytes) =
    if leb (n + 2) 256
    then ok (if leb n (length bytes) then some (drop n bytes) else none)
    else fault
readresp _ = ok none

-- The engine at the other end of the socket: what it writes to the client `fd` for these bytes.
unfoldable pub events : List Keyreq → List Event
events [] = []
events (kr ∷ krs) = Event.key kr ∷ events krs

unfoldable pub written : ℕ → List Output → List ℕ
written fd [] = []
written fd (out ∷ outs) = elim out.reply [
  | none ↦ written fd outs
  | some (to, bytes) ↦ let rest = written fd outs in if to == fd then bytes ++ rest else rest
]

unfoldable pub serve : ⦃u : Utf⦄ → List Lang → ℕ → List ℕ → Im → Run (Im × List ℕ)
serve langs fd bytes im = do
  (im', outs) ← imthread langs (events (clientthread fd bytes)) im
  ok (im', written fd outs)

-- The inner loop of `main`; `left` is what was written to the socket and not read yet. `died` is
-- `exit(1)`.
unfoldable pub send_keys : ⦃u : Utf⦄ → List Lang → ℕ → List Key → Im → List ℕ → Run (Im × List ℕ)
send_keys langs fd [] im left = ok (im, left)
send_keys langs fd (key ∷ keys) im left = do
  (im', bytes) ← serve langs fd (sendkey key) im
  resp ← readresp (left ++ bytes)
  elim resp [ none ↦ died | some left' ↦ send_keys langs fd keys im' left' ]

-- The outer loop, `niter` times.
unfoldable pub iterate : ⦃u : Utf⦄ → List Lang → ℕ → ℕ → List Key → Im → List ℕ → Run (Im × List ℕ)
iterate langs fd zero keys im left = ok (im, left)
iterate langs fd (suc niter) keys im left = do
  (im', left') ← send_keys langs fd keys im left
  iterate langs fd niter keys im' left'

-- `main` behind its arguments: the file, and the engine it is connected with.
unfoldable pub main : ⦃u : Utf⦄ → List Lang → ℕ → Option (List ℕ) → ℕ → Im → Run (Im × List ℕ)
main langs fd file niter im = do ks ← loadkeys file; iterate langs fd niter ks.keys im []
