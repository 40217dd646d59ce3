-- ===== src/Ibus/Asks.antt =====
-- ibus.c, `sendkey`: what the engine answers to a key.
use strans.Base.{
  ◌∙◌, ℕ, ◌<◌, ◌≡◌, refl, ap, Bool, true, ◌&&◌, List, [], ◌∷◌, Option, none, some, arith, ltb, leb,
  length, take-of_le, if◌then◌else◌,
}
use strans.Ibus.Keys.{readkey, sendkey}
use strans.Im.Valid.{IsValid}
use strans.Im.{Im}
use strans.Key.Valid.{AllFit}
use strans.Lang.{Lang}
use strans.Run.{ok, Returns, bind_Returns}
use strans.Str.{Str}
use strans.Thread.Safe.{response_frame}
use strans.Thread.{Keyreq, Event, round, response}
use strans.Im.{Sent}
use strans.Utf.{Utf, IsUtf}
use strans.Thread.Responds.{Responds, round-Responds}

module _ ⦃u : Utf⦄ where
  -- A buffer of 256 bytes takes every text.
  readkey-response :
      IsUtf u
      → (r : Bool) (text : Str)
      → (bs : List ℕ) × (response r text ≡ (if r then 1 else 0) ∷ length bs ∷ bs)
        × (readkey 256 (response r text) ≡ (if r then 1 else 0, bs))
  unfolding readkey
  readkey-response laws r text =
      let (bs, e, short) = response_frame laws r text in (bs, e, rw e (whole bs short))
    where
      whole :
          (bs : List ℕ)
          → length bs < 254
          → readkey 256 ((if r then 1 else 0) ∷ length bs ∷ bs) ≡ (if r then 1 else 0, bs)
      whole [] h = refl
      whole (b ∷ bs) h =
          let e : (ltb 0 (length (b ∷ bs)) && ltb (length (b ∷ bs)) 256) ≡ true = ground arith in
          let e' : leb (length (b ∷ bs)) (length (b ∷ bs)) ≡ true = ground arith in
          rw (e, e')
            (ap (λ t. (if r then 1 else 0, t))
              (take-of_le (length (b ∷ bs)) (b ∷ bs) (omega arith)))

  -- What `sendkey` gives: a valid state, and the verdict and all of the text that the engine sent.
  pub record Asks (langs : List Lang) (fd ks mods : ℕ) (im : Im) (r : Im × ℕ × List ℕ)
      : Type 0 where
    pub valid : IsValid r.0
    pub sent : List Sent
    pub verdict : Bool
    pub text : Str
    pub asked :
        round langs (Event.key (record { fd = fd; ks = ks; mods = mods })) im
        ≡ ok (r.0, record { sent = sent; reply = some (fd, response verdict text) })
    pub all : response verdict text ≡ r.1 ∷ length r.2 ∷ r.2
    pub eaten : r.1 ≡ (if verdict then 1 else 0)

  pub sendkey-Asks :
      IsUtf u
      → (langs : List Lang) (fd ks mods : ℕ) (im : Im) → AllFit langs
      → IsValid im
      → Returns (sendkey langs (some fd) ks mods 256 im) (Asks langs fd ks mods im)
  unfolding sendkey
  sendkey-Asks laws langs fd ks mods im h v =
      let kr : Keyreq = record { fd = fd; ks = ks; mods = mods } in
      let (r₀, run₀, s₀) = round-Responds langs kr im h v in
      bind_Returns (λ r. Responds fd r × (round langs (Event.key kr) im ≡ ok r)) _
        (r₀, run₀, (s₀, run₀))
        λ r (s, run).
          let (bs, e, e') = readkey-response laws s.verdict s.text in
          (
            (r.0, (if s.verdict then 1 else 0), bs),
            rw (s.reply, e') refl,
            record {
              valid = s.valid;
              sent = r.1.sent;
              verdict = s.verdict;
              text = s.text;
              asked = run ∙ ap (λ o. ok (r.0, record { sent = r.1.sent; reply = o })) s.reply;
              all = e;
              eaten = refl;
            },
          )

  pub sendkey-IsValid :
      (langs : List Lang) (pipe : Option ℕ) (ks mods sz : ℕ) (im : Im)
      → AllFit langs
      → IsValid im
      → Returns (sendkey langs pipe ks mods sz im) λ r. IsValid r.0
  unfolding sendkey
  sendkey-IsValid langs none ks mods sz im h v = (_, refl, v)
  sendkey-IsValid langs (some fd) ks mods sz im h v =
      bind_Returns _ _ (round-Responds langs (record { fd = fd; ks = ks; mods = mods }) im h v)
        λ r s. (_, refl, s.valid)
