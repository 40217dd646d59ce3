-- ===== src/Ibus/Keys.antt =====
-- ibus.c: keys on their way to the engine, and its answer.
use Prim.Native.Nat.{bit_and}
use strans.Base.{
  ℕ, ◌+◌, ◌-◌, List, [], ◌∷◌, Option, none, some, ltb, leb, ◌==◌, ◌&&◌, if◌then◌else◌, length, take,
}
use strans.Im.{Im}
use strans.Key.{kspec, kesc, mshift, mctrl, malt, msuper}
use strans.Lang.{Lang}
use strans.Run.{Run, ok, ◌>>=◌}
use strans.Thread.{Event, Output, round}
use strans.Utf.{Utf}

-- The keysyms of X for special keys stand at 0xff00.
unfoldable pub kget : ℕ → ℕ
kget sym = if leb 0xff00 sym && leb sym 0xffff then kspec + (sym - 0xff00) else sym

-- The four bits do not overlap, so `|=` is a sum.
unfoldable pub mget : ℕ → ℕ
mget state =
    (if bit_and state 1 == 0 then 0 else mshift)
    + (if bit_and state 4 == 0 then 0 else mctrl)
    + (if bit_and state 8 == 0 then 0 else malt)
    + (if bit_and state 64 == 0 then 0 else msuper)

-- What `sendkey` reads from the pipe into `out`, with `*eaten`: the bytes are all that the engine
-- wrote, and an answer of less than two bytes leaves 0 and the empty text.
unfoldable pub readkey : ℕ → List ℕ → ℕ × List ℕ
readkey sz (eaten ∷ n ∷ bytes) =
    (eaten, if ltb 0 n && ltb n sz then (if leb n (length bytes) then take n bytes else []) else [])
readkey sz _ = (0, [])

-- What the engine wrote to the pipe in a round, or nothing.
abbrev pub written : Output → List ℕ
written out = elim out.reply [ none ↦ [] | some (fd, bytes) ↦ bytes ]

-- `sendkey`: the engine runs a round on the key. `pipe` is the descriptor that the engine writes to,
-- or `none` where there is no pipe to be had.
unfoldable pub sendkey : ⦃u : Utf⦄ → List Lang → Option ℕ → ℕ → ℕ → ℕ → Im → Run (Im × ℕ × List ℕ)
sendkey langs none ks mods sz im = ok (im, 0, [])
sendkey langs (some fd) ks mods sz im = do
  (im', out) ← round langs (Event.key (record { fd = fd; ks = ks; mods = mods })) im
  let (eaten, text) = readkey sz (written out)
  ok (im', eaten, text)

-- The answer to the key is read and dropped.
unfoldable pub sendreset : ⦃u : Utf⦄ → List Lang → Option ℕ → Im → Run Im
sendreset langs pipe im = do (im', eaten, text) ← sendkey langs pipe kesc 0 64 im; ok im'
