-- ===== src/System/Shown.antt =====
-- The threads together: once they rest, the window shows the state of the engine.
use strans.Base.{
  ◌≡◌, refl, sym, ap, ap₂, ◌∙◌, subst, inl, inr, List, [], ◌∷◌, ◌++◌, Option, none, some, ltb,
  length, Bool-cases,
}
use mathlib.Core.Option.{some-injective, none-ne-some}
use strans.Dict.{Dictreq, dictlookup, dictthread_round, newest}
use strans.Im.{Im, Drawcmd, Sent, drawcmd}
use strans.Key.Draws.{Drawn, Redraws, same, drawn, asked}
use strans.Lang.{Lang, getlang, lang_en}
use strans.Run.{ok, Ensures, bind_Ensures, ok_Ensures, Option_Ensures}
use strans.Str.{Str}
use strans.System.Progress.{Quiet}
use strans.System.Window.{
  or_else, or_else_assoc, last, last-concat, last_draw, last_asked, last_draw-concat, im_draw,
  im_asked, held_draw, held_asked, queue_asked, queue_asked-concat, window, awaits, Lost,
  Lost-append, Lost-concat, IsFresh, current, undrawn, awaited, dropped, Fresh, carry,
}
use strans.System.{
  System, Tick, sendkey, take_answer, send_draw, send_request, write, receive_request,
  drain_request, look_up, receive_draw, drain_draw, redraw, tick, connect, Reach, here, next,
  channbsend, note_drop, dictreqc_size, boot,
}
use strans.Thread.{init}
use strans.Thread.Draws.{round_key-Redraws, round_answer-Takes}
use strans.Utf.{Utf}

-- What the rounds before the one at hand drew, and asked.
abbrev drawn_before : System → Option Drawcmd
drawn_before s = or_else (last s.draws) (or_else (held_draw s.draw_thread) s.shown)

abbrev asked_before : System → Option Str
asked_before s = or_else (queue_asked s.requests) (held_asked s.dict_thread)

module _ ⦃u : Utf⦄ where
  Drawn-IsFresh :
      (im : Im) (sent : List Sent) (w : Option Drawcmd) (a : Option Str) (lost : List Dictreq)
      → Drawn im sent
      → IsFresh im (or_else (last_draw sent) w) a lost
  Drawn-IsFresh im sent w a lost d =
      current d.dc
        (ap (λ s. or_else (last_draw s) w) d.last
          ∙ ap (λ o. or_else o w) (last_draw-concat d.before d.dc))
        d.current

  -- A round that draws, asks, or leaves all as it was.
  Redraws-IsFresh :
      (im im' : Im) (sent : List Sent) (w : Option Drawcmd) (a : Option Str) (lost : List Dictreq)
      → Redraws im im' sent
      → (im' ≡ im → IsFresh im w a lost)
      → IsFresh im' (or_else (last_draw sent) w) (or_else (last_asked sent) a) lost
  Redraws-IsFresh im im' sent w a lost (same e n) f =
      subst (λ s. IsFresh im' (or_else (last_draw s) w) (or_else (last_asked s) a) lost) (sym n)
        (subst (λ i. IsFresh i w a lost) (sym e) (f e))
  Redraws-IsFresh im im' sent w a lost (drawn d) f = Drawn-IsFresh im' sent w _ lost d
  Redraws-IsFresh im im' sent w a lost (asked req e s) f =
      awaited (ap (λ s. or_else (last_asked s) a) s ∙ ap some e)

  -- A round on the answer to `key`, which was awaited if nothing newer was.
  answer-IsFresh :
      (im im' : Im) (sent : List Sent) (w : Option Drawcmd) (q : Option Str) (key : Str)
      (lost : List Dictreq)
      → Redraws im im' sent
      → (key ≡ im.pre → Drawn im' sent)
      → IsFresh im w (or_else q (some key)) lost
      → IsFresh im' (or_else (last_draw sent) w) (or_else (last_asked sent) (or_else q none)) lost
  answer-IsFresh im im' sent w q key lost r timely (current dc e d) =
      Redraws-IsFresh im im' sent w _ lost r λ _. current dc e d
  answer-IsFresh im im' sent w q key lost r timely (undrawn e p k) =
      Redraws-IsFresh im im' sent w _ lost r λ _. undrawn e p k
  answer-IsFresh im im' sent w q key lost r timely (dropped l) =
      Redraws-IsFresh im im' sent w _ lost r λ _. dropped l
  answer-IsFresh im im' sent w (some p) key lost r timely (awaited e) =
      Redraws-IsFresh im im' sent w _ lost r λ _. awaited e
  answer-IsFresh im im' sent w none key lost r timely (awaited e) =
      Drawn-IsFresh im' sent w _ lost (timely (some-injective key im.pre e))

  init_empty : (langs : List Lang) → Ensures (init langs) λ im. (im.pre ≡ []) × (im.kouho ≡ [])
  unfolding init
  init_empty langs =
      Option_Ensures (getlang langs lang_en) _ (λ a e. cc)
        λ l _. ok_Ensures _ (λ im. (im.pre ≡ []) × (im.kouho ≡ [])) (refl, refl)

  look_up_key :
      (langs : List Lang) (req : Dictreq)
      → Ensures (dictthread_round langs req []) λ res. res.key ≡ req.pre
  unfolding dictthread_round newest
  look_up_key langs req =
      bind_Ensures (dictlookup langs req) _ (λ res. res.key ≡ req.pre)
        λ kouho _. ok_Ensures _ (λ res. res.key ≡ req.pre) refl

  -- A request that is sent is awaited next, or dropped.
  send-IsFresh :
      (im : Im) (w : Option Drawcmd) (todo : Option Str) (q : List Dictreq) (req : Dictreq)
      (h : Option Str) (lost : List Dictreq)
      → IsFresh im w (or_else (or_else todo (some req.pre)) (or_else (queue_asked q) h)) lost
      → IsFresh im w
          (or_else todo (or_else (queue_asked (channbsend q req)) h))
          (note_drop q req lost)
  unfolding channbsend note_drop
  send-IsFresh im w todo q req h lost f = elim (Bool-cases (ltb (length q) dictreqc_size)) [
    | inl room ↦
        rw (room, channbsend, note_drop)
          (carry refl
            (or_else_assoc todo (some req.pre) (or_else (queue_asked q) h)
              ∙ ap (λ o. or_else todo (or_else o h)) (sym (queue_asked-concat q req)))
            f)
    | inr full ↦ rw (full, channbsend, note_drop) (left_out todo f)
  ]
    where
      left_out :
          (todo : Option Str)
          → IsFresh im w (or_else (or_else todo (some req.pre)) (or_else (queue_asked q) h)) lost
          → IsFresh im w (or_else todo (or_else (queue_asked q) h)) (lost ++ req ∷ [])
      left_out todo (current dc e d) = current dc e d
      left_out todo (undrawn e p k) = undrawn e p k
      left_out todo (dropped l) = dropped (Lost-append im.pre lost (req ∷ []) l)
      left_out none (awaited e) =
          dropped (Lost-concat im.pre lost req (some-injective req.pre im.pre e))
      left_out (some p) (awaited e) = awaited e

  module _ (langs : List Lang) where
    pub Tick-Fresh : {s t : System} → Tick langs s t → Fresh s → Fresh t
    Tick-Fresh (sendkey s before after kr ks r waits pending run) f =
        Redraws-IsFresh s.im r.0 r.1.sent _ _ s.dropped (round_key-Redraws langs s.im kr r run) λ _.
          carry (ap (λ i. or_else (im_draw i) (drawn_before s)) waits)
            (ap (λ i. or_else (im_asked i) (asked_before s)) waits) f
    Tick-Fresh (take_answer s res r waits ready run) f =
        let p = round_answer-Takes langs s.im res r run in
        answer-IsFresh s.im r.0 r.1.sent _ (queue_asked s.requests) res.key s.dropped p.redraws
          p.timely
          (carry (ap (λ i. or_else (im_draw i) (drawn_before s)) waits)
            (ap₂ (λ i d. or_else (im_asked i) (or_else (queue_asked s.requests) (held_asked d)))
              waits ready)
            f)
    Tick-Fresh (send_draw s dc todo reply busy room) f =
        carry
          (ap (λ i. or_else (im_draw i) (drawn_before s)) busy
            ∙ or_else_assoc (last_draw todo) (some dc) _
            ∙ ap
                (λ o.
                  or_else (last_draw todo) (or_else o (or_else (held_draw s.draw_thread) s.shown)))
                (sym (last-concat s.draws dc)))
          (ap (λ i. or_else (im_asked i) (asked_before s)) busy) f
    Tick-Fresh (send_request s req todo reply busy) f =
        send-IsFresh s.im _ (last_asked todo) s.requests req (held_asked s.dict_thread) s.dropped (
          carry (ap (λ i. or_else (im_draw i) (drawn_before s)) busy)
            (ap (λ i. or_else (im_asked i) (asked_before s)) busy) f)
    Tick-Fresh (write s reply busy) f =
        carry (ap (λ i. or_else (im_draw i) (drawn_before s)) busy)
          (ap (λ i. or_else (im_asked i) (asked_before s)) busy) f
    Tick-Fresh (receive_request s req rest waits more) f =
        carry refl
          (ap (or_else (im_asked s.im_thread)) (
            ap₂ (λ q d. or_else (queue_asked q) (held_asked d)) more waits
            ∙ or_else_assoc (queue_asked rest) (some req.pre) none))
          f
    Tick-Fresh (drain_request s old req rest holds more) f =
        carry refl
          (ap (or_else (im_asked s.im_thread)) (
            ap₂ (λ q d. or_else (queue_asked q) (held_asked d)) more holds
            ∙ or_else_assoc (queue_asked rest) (some req.pre) (some old.pre)))
          f
    Tick-Fresh (look_up s req res holds none_left run) f =
        carry refl
          (ap (λ d. or_else (im_asked s.im_thread) (or_else (queue_asked s.requests) d))
            (ap held_asked holds ∙ ap some (sym (look_up_key langs req res run))))
          f
    Tick-Fresh (receive_draw s dc rest waits more) f =
        carry
          (ap (or_else (im_draw s.im_thread)) (
            ap₂ (λ q d. or_else (last q) (or_else (held_draw d) s.shown)) more waits
            ∙ or_else_assoc (last rest) (some dc) s.shown))
          refl f
    Tick-Fresh (drain_draw s old dc rest holds more) f =
        carry
          (ap (or_else (im_draw s.im_thread)) (
            ap₂ (λ q d. or_else (last q) (or_else (held_draw d) s.shown)) more holds
            ∙ or_else_assoc (last rest) (some dc) (some old)))
          refl f
    Tick-Fresh (redraw s dc holds none_left) f =
        carry
          (ap (λ d. or_else (im_draw s.im_thread) (or_else (last s.draws) d))
            (ap (λ d. or_else (held_draw d) s.shown) holds))
          refl f

    Reach-Fresh : {s t : System} → Reach langs s t → Fresh s → Fresh t
    Reach-Fresh here f = f
    Reach-Fresh (next r (tick k)) f = Tick-Fresh k (Reach-Fresh r f)
    Reach-Fresh (next r (connect s fd bytes)) f = Reach-Fresh r f

    boot-Fresh : Ensures (boot langs) Fresh
    unfolding boot
    boot-Fresh = bind_Ensures (init langs) _ Fresh λ im started.
        let (p, k) = init_empty langs im started in ok_Ensures _ Fresh (undrawn refl p k)

  -- The window shows the state; or nothing, as there is nothing to show and was not yet; or the
  -- request for the preedit was dropped.
  pub data Shows (s : System) : Type 0 where
    shows : (dc : Drawcmd) → s.shown ≡ some dc → drawcmd s.im ≡ ok dc → Shows s
    nothing : s.shown ≡ none → s.im.pre ≡ [] → s.im.kouho ≡ [] → Shows s
    lost : Lost s.im.pre s.dropped → Shows s

  Fresh-Shows : (s : System) → Quiet s → Fresh s → Shows s
  Fresh-Shows s q f = at_rest (carry window_shown none_awaited f)
    where
      window_shown : window s ≡ s.shown
      window_shown = rw (q.im, q.draws, q.drawer) refl

      none_awaited : awaits s ≡ none
      none_awaited = rw (q.im, q.requests, q.dict) refl

      at_rest : IsFresh s.im s.shown none s.dropped → Shows s
      at_rest (current dc e d) = shows dc e d
      at_rest (undrawn e p k) = nothing e p k
      at_rest (awaited e) = absurd (none-ne-some s.im.pre e)
      at_rest (dropped l) = lost l

  -- In every state that the threads reach from `boot`, in any order of their steps and with any
  -- clients, in which they rest (every key is taken, the channels are empty and each thread
  -- waits for another), the window shows the engine: the last draw command it was given is the
  -- one for the preedit, the candidates and the selection that the engine has. The exceptions
  -- are a start in which nothing was drawn and there is neither a preedit nor a candidate, and
  -- a request for the very preedit that was dropped as the channel was full.
  pub Reach-Shows :
      (langs : List Lang) {s t : System} → boot langs ≡ ok s → Reach langs s t → Quiet t → Shows t
  Reach-Shows langs {s} {t} e r q = Fresh-Shows t q (Reach-Fresh langs r (boot-Fresh langs s e))
