-- ===== src/Thread.antt =====
-- strans.c: `init` and the rounds of `imthread`.
pub mod Draws
pub mod Typing
pub mod Presses
pub mod Safe
pub mod Answers
pub mod Responds
pub mod Hangul
pub mod Chosen
use strans.Base.{ℕ, ◌-◌, Bool, List, [], ◌∷◌, Option, none, some, ◌==◌, ltb, if◌then◌else◌, length}
use strans.Dict.{Dictres}
use strans.Im.{Im, Sent, setkouho, show}
use strans.Key.{keystroke}
use strans.Lang.{Lang, getlang, lang_en}
use strans.Run.{Run, ok, fault, ◌>>=◌}
use strans.Str.{Str, scmp, stoutf}
use strans.Utf.{Utf}

pub record Keyreq : Type 0 where
  pub fd : ℕ
  pub ks : ℕ
  pub mods : ℕ

-- `memset` leaves 0 in `sel`, not the -1 of `clearkouho`.
unfoldable pub init : List Lang → Run Im
init langs = elim (getlang langs lang_en) [
  | none ↦ fault
  | some l ↦ ok (record { l = l; pre = []; kouho = []; sel = some 0 })
]

-- The bytes that are written to the client: the verdict, a length and the text.
unfoldable pub response : ⦃u : Utf⦄ → Bool → Str → List ℕ
response r text =
    let bytes = stoutf text (256 - 2) in
    let verdict = if r then 1 else 0 in
    if ltb 0 (length text) then verdict ∷ length bytes ∷ bytes else verdict ∷ 0 ∷ []

-- What `alt` can choose.
pub data Event : Type 0 where
  key : Keyreq → Event
  answer : Dictres → Event

-- What a round sends to the other threads, and to a client.
pub record Output : Type 0 where
  pub sent : List Sent
  pub reply : Option (ℕ × List ℕ)

-- One round of the loop.
unfoldable pub round : ⦃u : Utf⦄ → List Lang → Event → Im → Run (Im × Output)
round langs (key kr) im = do
  (r, t) ← keystroke langs kr.ks kr.mods (record { im = im; text = []; sent = [] })
  ok (t.im, record { sent = t.sent; reply = some (kr.fd, response r t.text) })
round langs (answer res) im =
    if scmp res.key im.pre == 0
    then setkouho im res >>= (λ im'.
      show (record { im = im'; text = []; sent = [] })
      >>= (λ t. ok (t.im, record { sent = t.sent; reply = none })))
    else ok (im, record { sent = []; reply = none })

-- The thread on a sequence of events.
unfoldable pub imthread : ⦃u : Utf⦄ → List Lang → List Event → Im → Run (Im × List Output)
imthread langs [] im = ok (im, [])
imthread langs (e ∷ es) im = do
  (im', out) ← round langs e im
  (im'', outs) ← imthread langs es im'
  ok (im'', out ∷ outs)
