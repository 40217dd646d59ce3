-- ===== src/System/Measure.antt =====
-- The threads together: how much is left to do, and that each step of a thread leaves less.
use strans.Base.{
  ℕ, suc, ◌+◌, ◌*◌, ◌≤◌, ◌<◌, ◌≡◌, refl, ap, List, [], ◌∷◌, ◌++◌, arith, length, length-append, inl,
  inr,
}
use strans.Dict.{Dictreq, Dictres}
use strans.Im.{Im, Drawcmd, Sent, draw, request}
use strans.Lang.{Lang}
use strans.Run.{of_run}
use strans.System.Safe.{IsOk, answer_Found}
use strans.System.{
  System, ImThread, alts, rounds, DictThread, DrawThread, Tick, sendkey, take_answer, send_draw,
  send_request, write, receive_request, drain_request, look_up, receive_draw, drain_draw, redraw,
  channbsend,
}
use strans.Thread.Answers.{Takes, round-Takes}
use strans.Thread.{Keyreq, Output}
use strans.Utf.{Utf}

unfoldable pub keys_left : List (List Keyreq) → ℕ
keys_left [] = 0
keys_left (ks ∷ clients) = length ks + keys_left clients

-- 4 for each request to be sent, and 3 for each draw command.
unfoldable pub to_ask : List Sent → ℕ
to_ask [] = 0
to_ask (draw dc ∷ sent) = to_ask sent
to_ask (request req ∷ sent) = 4 + to_ask sent

unfoldable pub to_draw : List Sent → ℕ
to_draw [] = 0
to_draw (draw dc ∷ sent) = 3 + to_draw sent
to_draw (request req ∷ sent) = to_draw sent

abbrev pub im_asks : ImThread → ℕ
im_asks alts = 0
im_asks (rounds todo reply) = to_ask todo

abbrev pub im_draws : ImThread → ℕ
im_draws alts = 0
im_draws (rounds todo reply) = 1 + to_draw todo

abbrev pub dict_work : DictThread → ℕ
dict_work DictThread.receives = 0
dict_work (DictThread.drains req) = 2
dict_work (DictThread.answers res) = 1

abbrev pub draw_work : DrawThread → ℕ
draw_work DrawThread.receives = 0
draw_work (DrawThread.drains dc) = 1

abbrev pub keys : System → ℕ
keys s = keys_left s.clients

abbrev pub asking : System → ℕ
asking s = im_asks s.im_thread + length s.requests * 3 + dict_work s.dict_thread

abbrev pub drawing : System → ℕ
drawing s = im_draws s.im_thread + length s.draws * 2 + draw_work s.draw_thread

-- Fewer keys; or as many and less for the dictionary; or no more of both and less to draw.
pub data Lowers (s t : System) : Type 0 where
  fewer_keys : keys t < keys s → Lowers s t
  less_asking : keys t ≤ keys s → asking t < asking s → Lowers s t
  less_drawing : keys t ≤ keys s → asking t ≤ asking s → drawing t < drawing s → Lowers s t

pub keys_left-split :
    (before after : List (List Keyreq)) (kr : Keyreq) (ks : List Keyreq)
    → keys_left (before ++ (kr ∷ ks) ∷ after) ≡ suc (keys_left (before ++ ks ∷ after))
unfolding keys_left
keys_left-split [] after kr ks = omega arith
keys_left-split (x ∷ before) after kr ks = omega (arith, keys_left-split before after kr ks)

channbsend_less :
    (q : List Dictreq) (req : Dictreq) → length (channbsend q req) * 3 < 4 + length q * 3
unfolding channbsend
channbsend_less q req = ground (arith, length-append q (req ∷ []))

-- A round on an answer asks for nothing.
Takes-to_ask : (im : Im) (res : Dictres) (r : Im × Output) → Takes im res r → to_ask r.1.sent ≡ 0
unfolding to_ask
Takes-to_ask im res r k = elim k.draws [
  | inl nothing ↦ rw nothing refl
  | inr (dc, one) ↦ rw one refl
]

module _ ⦃u : Utf⦄ (langs : List Lang) where
  pub Tick-Lowers : {s t : System} → Tick langs s t → IsOk langs s → Lowers s t
  unfolding to_ask to_draw
  Tick-Lowers (sendkey s before after kr ks r waits pending run) w =
      fewer_keys (omega (arith, keys_left-split before after kr ks, ap keys_left pending))
  Tick-Lowers (take_answer s res r waits ready run) w =
      let asks : to_ask r.1.sent ≡ 0 = Takes-to_ask s.im res r (
        of_run run (round-Takes langs res s.im w.im (answer_Found langs s res w ready).fits.few)) in
      less_asking (omega arith) (omega (arith, asks, ap im_asks waits, ap dict_work ready))
  Tick-Lowers (send_draw s dc todo reply busy room) w =
      less_drawing (omega arith) (omega (arith, ap im_asks busy))
        (omega (arith, ap im_draws busy, length-append s.draws (dc ∷ [])))
  Tick-Lowers (send_request s req todo reply busy) w =
      less_asking (omega arith) (omega (arith, ap im_asks busy, channbsend_less s.requests req))
  Tick-Lowers (write s reply busy) w =
      less_drawing (omega arith) (omega (arith, ap im_asks busy)) (omega (arith, ap im_draws busy))
  Tick-Lowers (receive_request s req rest waits more) w =
      less_asking (omega arith) (omega (arith, ap dict_work waits, ap (length {A = Dictreq}) more))
  Tick-Lowers (drain_request s old req rest holds more) w =
      less_asking (omega arith) (omega (arith, ap dict_work holds, ap (length {A = Dictreq}) more))
  Tick-Lowers (look_up s req res holds none_left run) w =
      less_asking (omega arith) (omega (arith, ap dict_work holds))
  Tick-Lowers (receive_draw s dc rest waits more) w =
      less_drawing (omega arith) (omega arith)
        (omega (arith, ap draw_work waits, ap (length {A = Drawcmd}) more))
  Tick-Lowers (drain_draw s old dc rest holds more) w =
      less_drawing (omega arith) (omega arith)
        (omega (arith, ap draw_work holds, ap (length {A = Drawcmd}) more))
  Tick-Lowers (redraw s dc holds none_left) w =
      less_drawing (omega arith) (omega arith) (omega (arith, ap draw_work holds))
