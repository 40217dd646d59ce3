-- ===== src/Thread/Responds.antt =====
-- strans.c: what a round of `imthread` on a key gives.
use strans.Base.{ℕ, ◌≡◌, refl, Bool, List, [], some, arith}
use strans.Im.Valid.{IsValid}
use strans.Im.{Im}
use strans.Key.Total.{keystroke-Returns}
use strans.Key.Valid.{Handled, AllFit}
use strans.Lang.{Lang}
use strans.Run.{Returns, bind_Returns}
use strans.Str.{Str}
use strans.Thread.{Event, Output, Keyreq, round, response}
use strans.Utf.{Utf}

module _ ⦃u : Utf⦄ where
  -- What a round on a key gives: a valid state, and a response to the client.
  pub record Responds (fd : ℕ) (r : Im × Output) : Type 0 where
    pub valid : IsValid r.0
    pub verdict : Bool
    pub text : Str
    pub reply : r.1.reply ≡ some (fd, response verdict text)

  pub round-Responds :
      (langs : List Lang) (kr : Keyreq) (im : Im)
      → AllFit langs
      → IsValid im
      → Returns (round langs (Event.key kr) im) (Responds kr.fd)
  unfolding round
  round-Responds langs kr im h v =
      bind_Returns Handled _
        (keystroke-Returns langs kr.ks kr.mods (record { im = im; text = []; sent = [] }) h
          (record { valid = v; text = omega arith }) refl)
        λ r k. (_, refl, record { valid = k.valid; verdict = r.0; text = r.1.text; reply = refl })
