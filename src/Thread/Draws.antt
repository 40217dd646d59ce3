-- ===== src/Thread/Draws.antt =====
-- strans.c: what a round of `imthread` sends to the window.
use strans.Base.{◌≡◌, refl, List, [], ◌==◌, Bool-cases, inl, inr, arith}
use strans.Dict.{Dictres}
use strans.Im.{Im, Turn, setkouho, show}
use strans.Key.Draws.{Drawn, Redraws, same, drawn, show-Drawn, keystroke-Redraws}
use strans.Key.{keystroke}
use strans.Lang.{Lang}
use strans.Run.{Ensures, bind_Ensures, ok_Ensures}
use strans.Str.Laws.{scmp_iff}
use strans.Str.{scmp}
use strans.Thread.{Event, Keyreq, Output, round}
use strans.Utf.{Utf}

module _ ⦃u : Utf⦄ (langs : List Lang) (im : Im) where
  abbrev Answers : Im × Output → Type 0
  Answers r = Redraws im r.0 r.1.sent

  pub round_key-Redraws :
      (kr : Keyreq) → Ensures (round langs (Event.key kr) im) λ r. Redraws im r.0 r.1.sent
  unfolding round
  round_key-Redraws kr =
      let t : Turn = record { im = im; text = []; sent = [] } in
      bind_Ensures (keystroke langs kr.ks kr.mods t) _ Answers
        λ r e. ok_Ensures _ Answers (keystroke-Redraws im t refl refl langs kr.ks kr.mods r e)

  -- An answer to the preedit is drawn; another changes nothing.
  pub record Takes (res : Dictres) (r : Im × Output) : Type 0 where
    pub timely : res.key ≡ im.pre → Drawn r.0 r.1.sent
    pub redraws : Redraws im r.0 r.1.sent

  pub round_answer-Takes : (res : Dictres) → Ensures (round langs (Event.answer res) im) (Takes res)
  unfolding round
  round_answer-Takes res = elim (Bool-cases (scmp res.key im.pre == 0)) [
    | inr late ↦
        rw (late, round)
          (ok_Ensures _ (Takes res) (record {
            timely = λ e. absurd (ground (arith, late, (scmp_iff res.key im.pre).1 e));
            redraws = same refl refl;
          }))
    | inl timely ↦
        rw (timely, round)
          (bind_Ensures (setkouho im res) _ (Takes res) λ im' _.
            let t : Turn = record { im = im'; text = []; sent = [] } in
            bind_Ensures (show t) _ (Takes res) λ t' e.
              let d = (show-Drawn t t' e).1 in
              ok_Ensures _ (Takes res) (record { timely = λ _. d; redraws = drawn d }))
  ]
