-- ===== src/System/Progress.antt =====
-- The threads together: while anything is left to do, a thread can go on.
use strans.Base.{◌≡◌, refl, ap, ◌⊎◌, inl, inr, List, [], ◌∷◌, ◌++◌, arith, length}
use strans.Dict.{Dictreq}
use strans.Im.{Drawcmd, draw, request}
use strans.Key.Valid.{AllFit}
use strans.Lang.{Lang}
use strans.System.Lookups.{DictsFit, look_up-Found}
use strans.System.Measure.{keys_left}
use strans.System.Safe.{IsOk, answer_Found}
use strans.System.{
  System, ImThread, alts, rounds, DictThread, DrawThread, Tick, sendkey, take_answer, send_draw,
  send_request, write, receive_request, drain_request, look_up, receive_draw, drain_draw, redraw,
}
use strans.Thread.Answers.{round-Takes}
use strans.Thread.Responds.{round-Responds}
use strans.Thread.{Keyreq}
use strans.Utf.{Utf}

-- All keys are taken, the channels are empty, and each thread waits for another.
pub record Quiet (s : System) : Type 0 where
  pub clients : keys_left s.clients ≡ 0
  pub im : s.im_thread ≡ alts
  pub requests : s.requests ≡ []
  pub dict : s.dict_thread ≡ DictThread.receives
  pub draws : s.draws ≡ []
  pub drawer : s.draw_thread ≡ DrawThread.receives

-- A client with a key.
record Waits (clients : List (List Keyreq)) : Type 0 where
  before : List (List Keyreq)
  after : List (List Keyreq)
  kr : Keyreq
  keys : List Keyreq
  split : clients ≡ before ++ (kr ∷ keys) ∷ after

find_client : (clients : List (List Keyreq)) → (keys_left clients ≡ 0) ⊎ Waits clients
unfolding keys_left
find_client [] = inl refl
find_client ((kr ∷ ks) ∷ clients) =
    inr (record { before = []; after = clients; kr = kr; keys = ks; split = refl })
find_client ([] ∷ clients) = elim (find_client clients) [
  | inl none_left ↦ inl (omega (arith, none_left))
  | inr w ↦ inr (record {
    before = [] ∷ w.before;
    after = w.after;
    kr = w.kr;
    keys = w.keys;
    split = ap (λ c. [] ∷ c) w.split;
  })
]

module _ ⦃u : Utf⦄ (langs : List Lang) (h : AllFit langs) (d : DictsFit langs) where
  abbrev pub CanTick : System → Type 0
  CanTick s = (t : System) × Tick langs s t

  module _ (s : System) (w : IsOk langs s) where
    next_key :
        s.im_thread ≡ alts
        → s.requests ≡ []
        → s.dict_thread ≡ DictThread.receives
        → s.draws ≡ []
        → s.draw_thread ≡ DrawThread.receives
        → Quiet s ⊎ CanTick s
    next_key im q dict ds drawer = elim (find_client s.clients) [
      | inl none_left ↦ inl (record {
        clients = none_left;
        im = im;
        requests = q;
        dict = dict;
        draws = ds;
        drawer = drawer;
      })
      | inr c ↦
          let (r, run, _) = round-Responds langs c.kr s.im h w.im in
          inr (_, sendkey s c.before c.after c.kr c.keys r im c.split run)
    ]

    dict_goes :
        (dt : DictThread) (q : List Dictreq)
        → s.dict_thread ≡ dt
        → s.requests ≡ q
        → s.im_thread ≡ alts
        → s.draws ≡ []
        → s.draw_thread ≡ DrawThread.receives
        → Quiet s ⊎ CanTick s
    dict_goes (DictThread.answers res) q e e' im ds drawer =
        let (r, run, _) = round-Takes langs res s.im w.im (answer_Found langs s res w e).fits.few in
        inr (_, take_answer s res r im e run)
    dict_goes (DictThread.drains req) [] e e' im ds drawer =
        let (res, run, _) = look_up-Found langs req d in inr (_, look_up s req res e e' run)
    dict_goes (DictThread.drains req) (r ∷ q) e e' im ds drawer =
        inr (_, drain_request s req r q e e')
    dict_goes DictThread.receives (r ∷ q) e e' im ds drawer = inr (_, receive_request s r q e e')
    dict_goes DictThread.receives [] e e' im ds drawer = next_key im e' e ds drawer

    im_goes :
        (it : ImThread)
        → s.im_thread ≡ it
        → s.draws ≡ []
        → s.draw_thread ≡ DrawThread.receives
        → Quiet s ⊎ CanTick s
    im_goes alts e ds drawer = dict_goes s.dict_thread s.requests refl refl e ds drawer
    im_goes (rounds [] reply) e ds drawer = inr (_, write s reply e)
    im_goes (rounds (request req ∷ todo) reply) e ds drawer =
        inr (_, send_request s req todo reply e)
    im_goes (rounds (draw dc ∷ todo) reply) e ds drawer =
        inr (_, send_draw s dc todo reply e (omega (arith, ap (length {A = Drawcmd}) ds)))

    draw_goes :
        (dt : DrawThread) (ds : List Drawcmd)
        → s.draw_thread ≡ dt
        → s.draws ≡ ds
        → Quiet s ⊎ CanTick s
    draw_goes (DrawThread.drains dc) [] e e' = inr (_, redraw s dc e e')
    draw_goes (DrawThread.drains old) (dc ∷ ds) e e' = inr (_, drain_draw s old dc ds e e')
    draw_goes DrawThread.receives (dc ∷ ds) e e' = inr (_, receive_draw s dc ds e e')
    draw_goes DrawThread.receives [] e e' = im_goes s.im_thread refl e' e

    pub goes_on : Quiet s ⊎ CanTick s
    goes_on = draw_goes s.draw_thread s.draws refl refl
