-- ===== src/System/Replies.antt =====
-- The threads together: each key that the engine takes gets one response, in the order of the keys.
use strans.Base.{
  ℕ, ◌+◌, ◌≡◌, refl, ap, subst, Bool, List, [], ◌∷◌, ◌++◌, arith, length, length-append,
}
use strans.Key.Valid.{AllFit}
use strans.Lang.{Lang}
use strans.Run.{of_run}
use strans.Str.{Str}
use strans.System.Lookups.{DictsFit}
use strans.System.Measure.{keys, keys_left-split, keys_left}
use strans.System.Safe.{IsOk, answer_Found}
use strans.System.{
  System, ImThread, alts, rounds, Tick, sendkey, take_answer, send_draw, send_request, write,
  receive_request, drain_request, look_up, receive_draw, drain_draw, redraw, note_reply,
}
use strans.Thread.Answers.{round-Takes}
use strans.Thread.Responds.{round-Responds}
use strans.Thread.{Keyreq, response}
use strans.Utf.{Utf}

-- What is written, and what the round at hand has still to write.
unfoldable pub owed : ImThread → List (ℕ × List ℕ) → List (ℕ × List ℕ)
owed alts ws = ws
owed (rounds todo reply) ws = note_reply reply ws

module _ ⦃u : Utf⦄ where
  -- A response to the client of the key.
  pub record Answers (kr : Keyreq) (w : ℕ × List ℕ) : Type 0 where
    pub verdict : Bool
    pub text : Str
    pub frame : w ≡ (kr.fd, response verdict text)

  -- The responses to these keys, one for each, in their order.
  abbrev pub Replies : List Keyreq → List (ℕ × List ℕ) → Type 0
  Replies [] [] = Unit {0}
  Replies (kr ∷ krs) (w ∷ ws) = Answers kr w × Replies krs ws
  Replies [] (w ∷ ws) = ⊥
  Replies (kr ∷ krs) [] = ⊥

  Replies-concat :
      (krs : List Keyreq) (ws : List (ℕ × List ℕ)) (kr : Keyreq) (w : ℕ × List ℕ)
      → Replies krs ws
      → Answers kr w
      → Replies (krs ++ kr ∷ []) (ws ++ w ∷ [])
  Replies-concat [] [] kr w h a = (a, tt)
  Replies-concat (k ∷ krs) (x ∷ ws) kr w h a = (h.0, Replies-concat krs ws kr w h.1 a)
  Replies-concat [] (x ∷ ws) kr w h a = absurd h
  Replies-concat (k ∷ krs) [] kr w h a = absurd h

  pub record IsReplied (s : System) : Type 0 where
    pub replies : Replies s.accepted (owed s.im_thread s.written)

  -- The keys taken and the keys to come.
  abbrev pub keys_ever : System → ℕ
  keys_ever s = length s.accepted + keys s

  module _ (langs : List Lang) (h : AllFit langs) (d : DictsFit langs) where
    pub Tick-IsReplied : {s t : System} → Tick langs s t → IsOk langs s → IsReplied s → IsReplied t
    unfolding owed note_reply
    Tick-IsReplied (sendkey s before after kr ks r waits pending run) w a =
        let p = of_run run (round-Responds langs kr s.im h w.im) in
        record {
          replies = rw p.reply (
              Replies-concat s.accepted s.written kr _
                (subst (λ i. Replies s.accepted (owed i s.written)) waits a.replies)
                (record { verdict = p.verdict; text = p.text; frame = refl }));
        }
    Tick-IsReplied (take_answer s res r waits ready run) w a =
        let p =
          of_run run
            (round-Takes langs res s.im w.im (answer_Found langs s res w ready).fits.few) in
        record {
          replies =
              rw p.silent (subst (λ i. Replies s.accepted (owed i s.written)) waits a.replies);
        }
    Tick-IsReplied (send_draw s dc todo reply busy room) w a = record {
      replies = subst (λ i. Replies s.accepted (owed i s.written)) busy a.replies;
    }
    Tick-IsReplied (send_request s req todo reply busy) w a = record {
      replies = subst (λ i. Replies s.accepted (owed i s.written)) busy a.replies;
    }
    Tick-IsReplied (write s reply busy) w a = record {
      replies = subst (λ i. Replies s.accepted (owed i s.written)) busy a.replies;
    }
    Tick-IsReplied (receive_request s req rest waits more) w a = record { replies = a.replies }
    Tick-IsReplied (drain_request s old req rest holds more) w a = record { replies = a.replies }
    Tick-IsReplied (look_up s req res holds none_left run) w a = record { replies = a.replies }
    Tick-IsReplied (receive_draw s dc rest waits more) w a = record { replies = a.replies }
    Tick-IsReplied (drain_draw s old dc rest holds more) w a = record { replies = a.replies }
    Tick-IsReplied (redraw s dc holds none_left) w a = record { replies = a.replies }

    -- A step of a thread neither makes nor loses a key.
    pub Tick-keys_ever : {s t : System} → Tick langs s t → keys_ever t ≡ keys_ever s
    Tick-keys_ever (sendkey s before after kr ks r waits pending run) = omega (
      arith,
      length-append s.accepted (kr ∷ []),
      ap keys_left pending,
      keys_left-split before after kr ks,
    )
    Tick-keys_ever (take_answer s res r waits ready run) = refl
    Tick-keys_ever (send_draw s dc todo reply busy room) = refl
    Tick-keys_ever (send_request s req todo reply busy) = refl
    Tick-keys_ever (write s reply busy) = refl
    Tick-keys_ever (receive_request s req rest waits more) = refl
    Tick-keys_ever (drain_request s old req rest holds more) = refl
    Tick-keys_ever (look_up s req res holds none_left run) = refl
    Tick-keys_ever (receive_draw s dc rest waits more) = refl
    Tick-keys_ever (drain_draw s old dc rest holds more) = refl
    Tick-keys_ever (redraw s dc holds none_left) = refl
