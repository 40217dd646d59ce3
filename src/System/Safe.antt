-- ===== src/System/Safe.antt =====
-- The threads together: what holds in every state that they reach.
use strans.Base.{◌≤◌, ◌≡◌, refl, subst, ap, List, [], ◌∷◌, some, arith, length, length-append}
use strans.Dict.{Dictreq, Dictres}
use strans.Im.Valid.{IsValid}
use strans.Im.{Im}
use strans.Key.Valid.{AllFit}
use strans.Lang.{Lang, getlang, lang_en}
use strans.Run.{ok, Returns, bind_Returns, of_run}
use strans.System.Lookups.{Found, DictsFit, look_up-Found}
use strans.System.{
  System, DictThread, Tick, sendkey, take_answer, send_draw, send_request, write, receive_request,
  drain_request, look_up, receive_draw, drain_draw, redraw, Step, tick, connect, Reach, here, next,
  channbsend, dictreqc_size, drawc_size, boot,
}
use strans.Thread.Responds.{round-Responds}
use strans.Thread.Safe.{answer-Returns, init-Returns}
use strans.Thread.{Event, Keyreq, round}
use strans.Utf.{Utf}

module _ ⦃u : Utf⦄ (langs : List Lang) where
  -- An answer on its way is one to a request.
  abbrev pub AnswerFits : DictThread → Type 0
  AnswerFits DictThread.receives = Unit {0}
  AnswerFits (DictThread.drains req) = Unit {0}
  AnswerFits (DictThread.answers res) = Found langs res

  pub record IsOk (s : System) : Type 0 where
    pub im : IsValid s.im
    pub requests : length s.requests ≤ dictreqc_size
    pub draws : length s.draws ≤ drawc_size
    pub answer : AnswerFits s.dict_thread

  pub answer_Found :
      (s : System) (res : Dictres)
      → IsOk s
      → s.dict_thread ≡ DictThread.answers res
      → Found langs res
  answer_Found s res h e = subst AnswerFits e h.answer

  channbsend-bounded :
      (q : List Dictreq) (req : Dictreq)
      → length q ≤ dictreqc_size
      → length (channbsend q req) ≤ dictreqc_size
  unfolding channbsend
  channbsend-bounded q req h = ground (arith, length-append q (req ∷ []))

  module _ (h : AllFit langs) (d : DictsFit langs) where
    key-IsValid :
        (im : Im) (kr : Keyreq)
        → IsValid im
        → Returns (round langs (Event.key kr) im) λ r. IsValid r.0
    key-IsValid im kr v = let (r, run, p) = round-Responds langs kr im h v in (r, run, p.valid)

    pub Tick-IsOk : {s t : System} → Tick langs s t → IsOk s → IsOk t
    Tick-IsOk (sendkey s before after kr keys r waits pending run) w = record {
      im = of_run run (key-IsValid s.im kr w.im);
      requests = w.requests;
      draws = w.draws;
      answer = w.answer;
    }
    Tick-IsOk (take_answer s res r waits ready run) w = record {
      im = of_run run (answer-Returns langs res s.im w.im (answer_Found s res w ready).fits.few);
      requests = w.requests;
      draws = w.draws;
      answer = tt;
    }
    Tick-IsOk (send_draw s dc todo reply busy room) w = record {
      im = w.im;
      requests = w.requests;
      draws = omega (arith, room, length-append s.draws (dc ∷ []));
      answer = w.answer;
    }
    Tick-IsOk (send_request s req todo reply busy) w = record {
      im = w.im;
      requests = channbsend-bounded s.requests req w.requests;
      draws = w.draws;
      answer = w.answer;
    }
    Tick-IsOk (write s reply busy) w = record {
      im = w.im;
      requests = w.requests;
      draws = w.draws;
      answer = w.answer;
    }
    Tick-IsOk (receive_request s req rest waits more) w = record {
      im = w.im;
      requests = omega (arith, w.requests, ap (length {A = Dictreq}) more);
      draws = w.draws;
      answer = tt;
    }
    Tick-IsOk (drain_request s old req rest holds more) w = record {
      im = w.im;
      requests = omega (arith, w.requests, ap (length {A = Dictreq}) more);
      draws = w.draws;
      answer = tt;
    }
    Tick-IsOk (look_up s req res holds none_left run) w = record {
      im = w.im;
      requests = w.requests;
      draws = w.draws;
      answer = of_run run (look_up-Found langs req d);
    }
    Tick-IsOk (receive_draw s dc rest waits more) w = record {
      im = w.im;
      requests = w.requests;
      draws = omega (arith, w.draws, ap length more);
      answer = w.answer;
    }
    Tick-IsOk (drain_draw s old dc rest holds more) w = record {
      im = w.im;
      requests = w.requests;
      draws = omega (arith, w.draws, ap length more);
      answer = w.answer;
    }
    Tick-IsOk (redraw s dc holds none_left) w = record {
      im = w.im;
      requests = w.requests;
      draws = w.draws;
      answer = w.answer;
    }

    pub Step-IsOk : {s t : System} → Step langs s t → IsOk s → IsOk t
    Step-IsOk (tick k) w = Tick-IsOk k w
    Step-IsOk (connect s fd bytes) w = record {
      im = w.im;
      requests = w.requests;
      draws = w.draws;
      answer = w.answer;
    }

    pub Reach-IsOk : {s t : System} → Reach langs s t → IsOk s → IsOk t
    Reach-IsOk here w = w
    Reach-IsOk (next r k) w = Step-IsOk k (Reach-IsOk r w)

    pub boot-IsOk : (l : Lang) → getlang langs lang_en ≡ some l → Returns (boot langs) IsOk
    unfolding boot
    boot-IsOk l e = bind_Returns IsValid IsOk (init-Returns langs l h e) λ im v.
        (_, refl, record { im = v; requests = omega arith; draws = omega arith; answer = tt })

    -- If every language has a map that fits its strings, a matching pair of handlers and no
    -- dictionary or one whose chains end, and English is one of the languages, then in every
    -- state that the threads reach from `boot`, in any order of their steps and with any
    -- clients, the state of the engine is valid, the channels of requests and of draw
    -- commands hold at most four messages each, and an answer on its way to the engine has
    -- the candidates that the dictionary gives for some request, at most 32 and without its
    -- key, and is marked with the preedit of that request.
    pub Reach-booted :
        (english : Lang) {s t : System}
        → getlang langs lang_en ≡ some english
        → boot langs ≡ ok s
        → Reach langs s t
        → IsOk t
    Reach-booted english l e r = Reach-IsOk r (of_run e (boot-IsOk english l))
