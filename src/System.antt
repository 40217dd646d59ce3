-- ===== src/System.antt =====
-- main.c, and the loops of the threads: `imthread` (strans.c), `dictthread` (dict.c), `drawthread`
-- (win.c), `srvthread` and `clientthread` (srv.c), with the four channels between them. A step is
-- one of one thread, in any order.
pub mod Lookups
pub mod Safe
pub mod Measure
pub mod Progress
pub mod Replies
pub mod Settles
pub mod Window
pub mod Shown
pub mod Files
pub mod Startup
use strans.Base.{
  ℕ, ◌≤◌, ◌<◌, ◌≡◌, List, [], ◌∷◌, ◌++◌, Option, none, some, length, ltb, if◌then◌else◌,
}
use strans.Client.{clientthread}
use strans.Dict.{Dictreq, Dictres, dictthread_round, dictinit}
use strans.Im.{Im, Drawcmd, Sent, draw, request}
use strans.Lang.{Lang, mapinit}
use strans.Run.{Run, ok, died, ◌>>=◌}
use strans.Thread.{Keyreq, Event, Output, init, round}
use strans.Utf.{Utf}

-- `chancreate`: how many messages `drawc` and `dictreqc` hold. `keyc` and `dictresc` hold none: a
-- send there waits for its receive.
abbrev pub drawc_size : ℕ
drawc_size = 4

abbrev pub dictreqc_size : ℕ
dictreqc_size = 4

-- `imthread` waits in `alt`, or is in a round, with these sends and this write still to do.
pub data ImThread : Type 0 where
  alts : ImThread
  rounds : List Sent → Option (ℕ × List ℕ) → ImThread

-- `dictthread` waits in `chanrecv`, takes what else waits in the channel, or sends an answer.
pub data DictThread : Type 0 where
  receives : DictThread
  drains : Dictreq → DictThread
  answers : Dictres → DictThread

pub data DrawThread : Type 0 where
  receives : DrawThread
  drains : Drawcmd → DrawThread

-- `clients` has, for each client thread, the keys it has not sent; `requests` and `draws` are what
-- `dictreqc` and `drawc` hold, oldest first; `shown` is the last command given to the window.
-- `accepted` and `written` note the keys received and the responses written, and `dropped` the
-- requests for which there was no room, oldest first.
pub record System : Type 0 where
  pub clients : List (List Keyreq)
  pub im : Im
  pub im_thread : ImThread
  pub requests : List Dictreq
  pub dict_thread : DictThread
  pub draws : List Drawcmd
  pub draw_thread : DrawThread
  pub shown : Option Drawcmd
  pub accepted : List Keyreq
  pub written : List (ℕ × List ℕ)
  pub dropped : List Dictreq

-- `channbsend(dictreqc, &req)`: a request that does not fit is dropped.
unfoldable pub channbsend : List Dictreq → Dictreq → List Dictreq
channbsend queue req = if ltb (length queue) dictreqc_size then queue ++ req ∷ [] else queue

unfoldable pub note_drop : List Dictreq → Dictreq → List Dictreq → List Dictreq
note_drop queue req dropped =
    if ltb (length queue) dictreqc_size then dropped else dropped ++ req ∷ []

unfoldable pub note_reply : Option (ℕ × List ℕ) → List (ℕ × List ℕ) → List (ℕ × List ℕ)
note_reply none ws = ws
note_reply (some w) ws = ws ++ w ∷ []

-- `boot`: empty channels, and no client yet.
unfoldable pub boot : List Lang → Run System
boot langs = do
  im ← init langs
  ok (record {
    clients = [];
    im = im;
    im_thread = alts;
    requests = [];
    dict_thread = receives;
    draws = [];
    draw_thread = receives;
    shown = none;
    accepted = [];
    written = [];
    dropped = [];
  })

-- `threadmain`, on the languages and their files; `usage` ends the process, as `die` does.
unfoldable pub threadmain :
    ⦃u : Utf⦄
    → (List ℕ → Option (List (List ℕ)))
    → List (List ℕ)
    → List Lang
    → Run (List Lang × System)
threadmain files (_ ∷ mapdir ∷ fontdir ∷ []) langs = do
  mapped ← mapinit files mapdir langs
  loaded ← dictinit files mapdir mapped
  s ← boot loaded
  ok (loaded, s)
threadmain files argv langs = died

module _ ⦃u : Utf⦄ (langs : List Lang) where
  -- A step of a thread on what is there already.
  pub data Tick : System → System → Type 0 where
    sendkey :
        (s : System) (before after : List (List Keyreq)) (kr : Keyreq) (keys : List Keyreq)
        (r : Im × Output)
        → s.im_thread ≡ alts
        → s.clients ≡ before ++ (kr ∷ keys) ∷ after
        → round langs (Event.key kr) s.im ≡ ok r
        → Tick s (record s {
          clients = before ++ keys ∷ after;
          im = r.0;
          im_thread = rounds r.1.sent r.1.reply;
          accepted = s.accepted ++ kr ∷ [];
        })
    take_answer :
        (s : System) (res : Dictres) (r : Im × Output)
        → s.im_thread ≡ alts
        → s.dict_thread ≡ answers res
        → round langs (Event.answer res) s.im ≡ ok r
        → Tick s
            (record s { im = r.0; im_thread = rounds r.1.sent r.1.reply; dict_thread = receives })
    send_draw :
        (s : System) (dc : Drawcmd) (todo : List Sent) (reply : Option (ℕ × List ℕ))
        → s.im_thread ≡ rounds (draw dc ∷ todo) reply
        → length s.draws < drawc_size
        → Tick s (record s { im_thread = rounds todo reply; draws = s.draws ++ dc ∷ [] })
    send_request :
        (s : System) (req : Dictreq) (todo : List Sent) (reply : Option (ℕ × List ℕ))
        → s.im_thread ≡ rounds (request req ∷ todo) reply
        → Tick s (record s {
          im_thread = rounds todo reply;
          requests = channbsend s.requests req;
          dropped = note_drop s.requests req s.dropped;
        })
    write :
        (s : System) (reply : Option (ℕ × List ℕ))
        → s.im_thread ≡ rounds [] reply
        → Tick s (record s { im_thread = alts; written = note_reply reply s.written })
    receive_request :
        (s : System) (req : Dictreq) (rest : List Dictreq)
        → s.dict_thread ≡ receives
        → s.requests ≡ req ∷ rest
        → Tick s (record s { requests = rest; dict_thread = drains req })
    drain_request :
        (s : System) (old req : Dictreq) (rest : List Dictreq)
        → s.dict_thread ≡ drains old
        → s.requests ≡ req ∷ rest
        → Tick s (record s { requests = rest; dict_thread = drains req })
    look_up :
        (s : System) (req : Dictreq) (res : Dictres)
        → s.dict_thread ≡ drains req
        → s.requests ≡ []
        → dictthread_round langs req [] ≡ ok res
        → Tick s (record s { dict_thread = answers res })
    receive_draw :
        (s : System) (dc : Drawcmd) (rest : List Drawcmd)
        → s.draw_thread ≡ receives
        → s.draws ≡ dc ∷ rest
        → Tick s (record s { draws = rest; draw_thread = drains dc })
    drain_draw :
        (s : System) (old dc : Drawcmd) (rest : List Drawcmd)
        → s.draw_thread ≡ drains old
        → s.draws ≡ dc ∷ rest
        → Tick s (record s { draws = rest; draw_thread = drains dc })
    redraw :
        (s : System) (dc : Drawcmd)
        → s.draw_thread ≡ drains dc
        → s.draws ≡ []
        → Tick s (record s { draw_thread = receives; shown = some dc })

  -- A step of a thread, or `srvthread` accepts a client that will send these bytes.
  pub data Step : System → System → Type 0 where
    tick : {s t : System} → Tick s t → Step s t
    connect :
        (s : System) (fd : ℕ) (bytes : List ℕ)
        → Step s (record s { clients = clientthread fd bytes ∷ s.clients })

  pub data Reach (s : System) : System → Type 0 where
    here : Reach s s
    next : {t v : System} → Reach s t → Step t v → Reach s v
