-- ===== src/Thread/Answers.antt =====
-- strans.c, `imthread`: what an answer of the dictionary changes.
use strans.Base.{
  ◌≤◌, ◌≡◌, ◌≢◌, refl, ap, ◌∙◌, ◌⊎◌, inl, inr, List, [], ◌∷◌, ◌++◌, none, arith, length, leb, ◌==◌,
  ==_iff,
}
use strans.Dict.{Dictres, max_kouho}
use strans.Im.Valid.{IsValid, PreFits-short}
use strans.Im.{Im, Turn, Drawcmd, draw, setkouho, show, drawcmd}
use strans.Lang.{Lang}
use strans.Map.Fits.{translated-Returns}
use strans.Run.{Returns, bind_Returns, if_Returns}
use strans.Str.Laws.{scmp_iff}
use strans.Str.{scmp}
use strans.Thread.{Output, answer, round}
use strans.Utf.{Utf}

-- An answer to the preedit brings its candidates, with none selected; a late one changes nothing.
pub record Takes (im : Im) (res : Dictres) (r : Im × Output) : Type 0 where
  pub silent : r.1.reply ≡ none
  pub draws : (r.1.sent ≡ []) ⊎ ((dc : Drawcmd) × (r.1.sent ≡ draw dc ∷ []))
  pub preedit : r.0.pre ≡ im.pre
  pub timely : res.key ≡ im.pre → (r.0.kouho ≡ res.kouho) × (r.0.sel ≡ none)
  pub late : res.key ≢ im.pre → (r.0 ≡ im) × (r.1.sent ≡ [])

module _ ⦃u : Utf⦄ where
  pub show_same :
      (t : Turn)
      → IsValid t.im
      → Returns
          (show t)
          λ t'. (t'.im ≡ t.im) × ((dc : Drawcmd) × (t'.sent ≡ t.sent ++ draw dc ∷ []))
  unfolding show drawcmd
  show_same t v =
      bind_Returns (λ _. Unit {0}) _
        (bind_Returns _ (λ _. Unit {0})
          (translated-Returns v.lang.map_fits t.im.pre (PreFits-short _ _ t.im.pre v.pre))
          λ pre _. (_, refl, tt))
        λ dc _. (_, refl, (refl, (dc, refl)))

  setkouho_lem :
      (im : Im) (res : Dictres)
      → IsValid im
      → length res.kouho ≤ max_kouho
      → Returns
          (setkouho im res)
          λ im'. IsValid im' × (im' ≡ record im { kouho = res.kouho; sel = none })
  unfolding setkouho
  setkouho_lem im res v h =
      if_Returns (leb (length res.kouho) max_kouho) _
        (λ _. (_, refl, (record { lang = v.lang; pre = v.pre; few = h; sel = tt }, refl)))
        λ more. absurd (ground arith)

  -- In a valid state, on an answer with at most 32 candidates, the round of the engine thread
  -- returns, writes to no client, keeps the preedit, and sends one draw command or nothing. If
  -- the answer is to the preedit, its candidates become the list, with none selected; if not,
  -- the state stays as it was and nothing is sent.
  pub round-Takes :
      (langs : List Lang) (res : Dictres) (im : Im)
      → IsValid im
      → length res.kouho ≤ max_kouho
      → Returns (round langs (answer res) im) (Takes im res)
  unfolding round
  round-Takes langs res im v h =
      if_Returns (scmp res.key im.pre == 0) (Takes im res)
        (λ same.
          let equal = (scmp_iff res.key im.pre).0 ((==_iff _ 0).0 same) in
          bind_Returns _ (Takes im res) (setkouho_lem im res v h) λ im' s.
            bind_Returns _ (Takes im res) (show_same _ s.0) λ t e.
              let p = e.0 ∙ s.1 in
              (
                _,
                refl,
                record {
                  silent = refl;
                  draws = inr e.1;
                  preedit = ap (λ i. i.pre) p;
                  timely = λ _. (ap (λ i. i.kouho) p, ap (λ i. i.sel) p);
                  late = λ n. absurd (n equal);
                },
              ))
        λ differ. (
          _,
          refl,
          record {
            silent = refl;
            draws = inl refl;
            preedit = refl;
            timely = λ e. absurd (ground (arith, (scmp_iff res.key im.pre).1 e));
            late = λ _. (refl, refl);
          },
        )
