-- ===== src/Key/Draws.antt =====
-- strans.c: what `keystroke` sends to the window. Either the last send is the draw command of the
-- state that it leaves, or nothing changes, or (Backspace) a request for the new preedit is sent,
-- whose answer draws.
use Prim.Native.Nat.{bit_and}
use strans.Base.{
  ℕ, ◌≡◌, refl, sym, ap, ◌∙◌, true, false, Bool, not, ◌||◌, ◌&&◌, List, [], ◌∷◌, ◌++◌, some, ◌==◌,
  ltb, leb, length, get_elem?, ◌+◌, Option-cases, inl, inr,
}
use strans.Dict.{Dictreq}
use strans.Im.{
  Im, Turn, Drawcmd, Sent, draw, request, drawcmd, show, reset, clearkouho, dictsend, dictqmap,
  commit, dotrans, back, setlang,
}
use strans.Key.{
  kspec, kback, ktab, kret, kesc, kup, kdown, kshift, ksuper, mctrl, malt, msuper, key_arrow, digit,
  choose, key_commit, key_return, key_back, key_escape, control, key_control, key_plain, key_text,
  key_modified, key_edit, keystroke,
}
use strans.Lang.{Lang, getlang}
use strans.Map.{translated, mapget}
use strans.Run.{Run, ok, ◌>>=◌, Ensures, bind_Ensures, if_Ensures, Option_Ensures, ok_Ensures}
use strans.Str.{sputr}
use strans.Utf.{Utf}
use mathlib.Core.Option.{some-injective}

module _ ⦃u : Utf⦄ where
  -- The last send is the draw command of the state.
  pub record Drawn (im : Im) (sent : List Sent) : Type 0 where
    pub dc : Drawcmd
    pub before : List Sent
    pub current : drawcmd im ≡ ok dc
    pub last : sent ≡ before ++ draw dc ∷ []

  pub data Redraws (im : Im) (im' : Im) (sent : List Sent) : Type 0 where
    same : im' ≡ im → sent ≡ [] → Redraws im im' sent
    drawn : Drawn im' sent → Redraws im im' sent
    asked : (req : Dictreq) → req.pre ≡ im'.pre → sent ≡ request req ∷ [] → Redraws im im' sent

  abbrev TurnDrawn : Turn → Type 0
  TurnDrawn t = Drawn t.im t.sent

  pub show-Drawn : (t : Turn) → Ensures (show t) λ t'. (t'.im ≡ t.im) × TurnDrawn t'
  unfolding show
  show-Drawn t =
      bind_Ensures (drawcmd t.im) _ (λ t'. (t'.im ≡ t.im) × TurnDrawn t')
        λ dc e.
          ok_Ensures _ (λ t'. (t'.im ≡ t.im) × TurnDrawn t')
            (refl, record { dc = dc; before = t.sent; current = e; last = refl })

  abbrev cleared : Im → Im
  cleared im = clearkouho (record im { pre = [] })

  reset-Drawn : (t : Turn) → Ensures (reset t) λ t'. (t'.im ≡ cleared t.im) × TurnDrawn t'
  unfolding reset
  reset-Drawn t = show-Drawn (record t { im = cleared t.im })

  drawcmd_empty : (im : Im) (l : Lang) → im.pre ≡ [] → drawcmd (record im { l = l }) ≡ drawcmd im
  unfolding drawcmd translated mapget
  drawcmd_empty im l e = rw e refl

  -- A state without a preedit is drawn alike in every language.
  setlang-drawcmd :
      (langs : List Lang) (c : ℕ) (im im' : Im)
      → im.pre ≡ []
      → setlang langs c im ≡ some im'
      → drawcmd im' ≡ drawcmd im
  unfolding setlang
  setlang-drawcmd langs c im im' e known = elim (Option-cases (getlang langs c)) [
    | inl unknown ↦ absurd (cc (rw (unknown, setlang) at known))
    | inr (l, found) ↦
        ap drawcmd (sym (some-injective (record im { l = l }) im' (rw (found, setlang) at known)))
        ∙ drawcmd_empty im l e
  ]

  module _ (im : Im) where
    abbrev pub Answers : Bool × Turn → Type 0
    Answers r = Redraws im r.1.im r.1.sent

    by_draw :
        (b : Bool) (m : Run Turn) → Ensures m TurnDrawn → Ensures (m >>= (λ t. ok (b, t))) Answers
    by_draw b m h = bind_Ensures m _ Answers λ t e. ok_Ensures (b, t) Answers (drawn (h t e))

    by_show : (b : Bool) (t : Turn) → Ensures (show t >>= (λ t. ok (b, t))) Answers
    by_show b t = by_draw b (show t) λ t' e. (show-Drawn t t' e).1

    by_reset : (b : Bool) (t : Turn) → Ensures (reset t >>= (λ t. ok (b, t))) Answers
    by_reset b t = by_draw b (reset t) λ t' e. (reset-Drawn t t' e).1

    by_commit : (b : Bool) (t : Turn) → Ensures (commit t >>= reset >>= (λ t. ok (b, t))) Answers
    by_commit b t =
        by_draw b (commit t >>= reset)
          (bind_Ensures (commit t) reset TurnDrawn λ t' _ t'' e. (reset-Drawn t' t'' e).1)

    module _ (t : Turn) (e : t.im ≡ im) (none_sent : t.sent ≡ []) where
      unchanged : (b : Bool) → Ensures (ok (b, t)) Answers
      unchanged b = ok_Ensures (b, t) Answers (same e none_sent)

      key_arrow-Redraws : (ks : ℕ) → Ensures (key_arrow ks t) Answers
      unfolding key_arrow
      key_arrow-Redraws ks =
          if_Ensures (length t.im.kouho == 0) Answers (unchanged false) (by_show true _)

      choose-Redraws : (i : ℕ) → Ensures (choose i t) Answers
      unfolding choose
      choose-Redraws i =
          Option_Ensures (get_elem? t.im.kouho i) Answers (λ a e. cc) λ s _. by_reset true _

      key_commit-Redraws : Ensures (key_commit t) Answers
      unfolding key_commit
      key_commit-Redraws =
          if_Ensures (ltb 0 (length t.im.pre)) Answers (by_commit true t) (unchanged false)

      key_return-Redraws : Ensures (key_return t) Answers
      unfolding key_return
      key_return-Redraws = Option_Ensures t.im.sel Answers key_commit-Redraws λ s _.
          if_Ensures (ltb s (length t.im.kouho)) Answers (choose-Redraws s) key_commit-Redraws

      dictqmap-Redraws :
          (t' : Turn) → t'.sent ≡ [] → Ensures (dictqmap t' >>= (λ t. ok (true, t))) Answers
      unfolding dictqmap dictsend
      dictqmap-Redraws t' n = bind_Ensures (dictqmap t') _ Answers (
          bind_Ensures (mapget t'.im.l.map t'.im.pre) _ _ λ dict _.
            Option_Ensures dict _
              (λ t'' e. ok_Ensures (true, t'') Answers (drawn (show-Drawn _ t'' e).1))
              λ key _.
                let req : Dictreq = record { key = key; pre = t'.im.pre; lang = t'.im.l.lang } in
                ok_Ensures (dictsend t' key) (λ x. Ensures (ok (true, x)) Answers)
                  (ok_Ensures (true, dictsend t' key) Answers
                    (asked req refl (ap (λ s. s ++ request req ∷ []) n))))

      key_back-Redraws : Ensures (key_back t) Answers
      unfolding key_back
      key_back-Redraws = if_Ensures (length t.im.pre == 0) Answers (unchanged false) (
          bind_Ensures (back t.im.l t.im.pre) _ Answers λ pre _.
            if_Ensures (length pre == 0) Answers (by_reset true _)
              (dictqmap-Redraws (record t { im = record t.im { pre = pre } }) none_sent))

      key_escape-Redraws : Ensures (key_escape t) Answers
      unfolding key_escape
      key_escape-Redraws =
          if_Ensures (length t.im.pre == 0) Answers (unchanged false) (by_reset true t)

      key_control-Redraws : (langs : List Lang) (ks : ℕ) → Ensures (key_control langs ks t) Answers
      unfolding key_control
      key_control-Redraws langs ks = bind_Ensures (reset t) _ Answers λ t' e.
          let (cleared_im, d) = reset-Drawn t t' e in
          Option_Ensures (setlang langs (control ks) t'.im) Answers
            (ok_Ensures (false, t') Answers (drawn d))
            λ im' known.
              ok_Ensures (true, record t' { im = im' }) Answers
                (drawn (record {
                  dc = d.dc;
                  before = d.before;
                  current =
                      setlang-drawcmd langs (control ks) t'.im im' (ap (λ i. i.pre) cleared_im)
                        known
                      ∙ d.current;
                  last = d.last;
                }))

      key_plain-Redraws : (ks : ℕ) → Ensures (key_plain ks t) Answers
      unfolding key_plain
      key_plain-Redraws ks =
          bind_Ensures (commit t) _ Answers
            λ t' _. bind_Ensures (sputr t'.text ks) _ Answers λ text _. by_reset true _

      key_text-Redraws : (ks : ℕ) → Ensures (key_text ks t) Answers
      unfolding key_text
      key_text-Redraws ks =
          if_Ensures (ks == b'0' && ltb 0 (length t.im.kouho)) Answers (by_commit true t) (
            if_Ensures (ltb 0x7f ks || ks == b' ') Answers (key_plain-Redraws ks) (
              by_draw true (dotrans ks t >>= show)
                (bind_Ensures (dotrans ks t) show TurnDrawn λ t' _ t'' e. (show-Drawn t' t'' e).1)))

      key_edit-Redraws :
          (langs : List Lang) (ks mods : ℕ) → Ensures (key_edit langs ks mods t) Answers
      unfolding key_edit key_modified
      key_edit-Redraws langs ks mods =
          if_Ensures (ks == ktab || ks == kret) Answers key_return-Redraws (
            if_Ensures (ks == kback) Answers key_back-Redraws (
              if_Ensures (ks == kesc) Answers key_escape-Redraws (
                if_Ensures (leb kspec ks || not (bit_and mods (malt + msuper) == 0)) Answers
                  (by_commit false t)
                  (if_Ensures (not (bit_and mods mctrl == 0)) Answers (key_control-Redraws langs ks)
                    (key_text-Redraws ks)))))

      pub keystroke-Redraws :
          (langs : List Lang) (ks mods : ℕ) → Ensures (keystroke langs ks mods t) Answers
      unfolding keystroke
      keystroke-Redraws langs ks mods =
          if_Ensures (ks == ksuper || ks == kshift) Answers (unchanged true) (
            if_Ensures (ks == kdown || ks == kup) Answers (key_arrow-Redraws ks) (
              Option_Ensures (digit ks t.im) Answers (key_edit-Redraws langs ks mods)
                λ i _. choose-Redraws i))
