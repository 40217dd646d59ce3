-- ===== src/Thread/Hangul.antt =====
-- strans.c with ko.c: letters typed in the Hangul mode, from the key to the bytes for the client.
use strans.Base.{
  ℕ, ◌≤◌, ◌<◌, ◌≡◌, refl, sym, ap, ◌∙◌, Bool, true, false, List, [], ◌∷◌, ◌++◌, append-nil,
  append_assoc, subst, some, arith, ltb, ◌==◌, if◌then◌else◌, length, take-of_le, Bool-cases, inl,
  inr, all_below, all_below_sound,
}
use strans.Im.Valid.{LangFits}
use strans.Im.{Im, Turn, show, drawcmd, dictsend, trans, dotrans}
use strans.Key.{keystroke}
use strans.Ko.Letters.{IsPreedit, spelling}
use strans.Ko.Spells.{Types}
use strans.Ko.Typing.{transko-Types}
use strans.Ko.Tables.{jamomap}
use strans.Ko.{transko, keytojamo}
use strans.Lang.{Lang, by_ko}
use strans.Map.Fits.{MapFits, translated-Returns}
use strans.Run.{Returns, bind_Returns}
use strans.Str.Laws.{sappend-take}
use strans.Str.{Str, sappend}
use strans.Thread.Presses.{presses, Replies}
use strans.Key.Typed.{Unmodified, keystroke_typed}
use strans.Thread.{key, Output, response, round, imthread}
use strans.Utf.{Utf}

low_table : all_below 65 (λ k. keytojamo k == 0) ≡ true
unfolding keytojamo jamomap all_below
low_table = refl

-- The keys of letters are those of Latin letters.
letter_key : (k : ℕ) → (keytojamo k == 0) ≡ false → (65 ≤ k) × (k < 128)
letter_key k h = elim (Bool-cases (ltb k 65)) [
  | inl low ↦ absurd (cc (all_below_sound 65 (λ k. keytojamo k == 0) k low_table (ground arith), h))
  | inr high ↦ (
    ground arith,
    elim (Bool-cases (ltb k 128)) [
      | inl small ↦ ground arith
      | inr large ↦ absurd (unfold keytojamo in cc (rw large at h))
    ],
  )
]

sappend_nil : (s : Str) → length s ≤ 1 → sappend [] s ≡ s
sappend_nil s h = sappend-take [] s (omega arith) ∙ take-of_le 64 s (omega arith)

append_text : (s : Str) → length s ≤ 1 → (if ltb 0 (length s) then sappend [] s else []) ≡ s
append_text [] h = refl
append_text (r ∷ s) h =
    let some_rune : ltb 0 (length (r ∷ s)) ≡ true = ground arith in
    rw (some_rune, sappend_nil (r ∷ s) h) refl

module _ ⦃u : Utf⦄ where
  pub record InHangul (im : Im) : Type 0 where
    pub fits : LangFits im.l
    pub by_hangul : im.l.trans ≡ by_ko
    pub pre : IsPreedit im.pre

  trans_ko : (l : Lang) (pre : Str) (c : ℕ) → l.trans ≡ by_ko → trans l pre c ≡ transko pre c
  unfolding trans
  trans_ko l pre c e = rw e refl

  -- What a letter leaves: nothing of it is lost.
  pub record Steps (im : Im) (k : ℕ) (t : Turn) : Type 0 where
    pub lang : t.im.l ≡ im.l
    pub pre : IsPreedit t.im.pre
    pub short : length t.text ≤ 1
    pub spells : spelling t.text ++ spelling t.im.pre ≡ spelling im.pre ++ keytojamo k ∷ []

  dictsend-Steps :
      (im : Im) (k : ℕ) (b : Bool) (t : Turn) (dict : Str)
      → Steps im k t
      → Steps im k (if b then dictsend t dict else t)
  unfolding dictsend
  dictsend-Steps im k true t dict s = record {
    lang = s.lang;
    pre = s.pre;
    short = s.short;
    spells = s.spells;
  }
  dictsend-Steps im k false t dict s = s

  dotrans-Steps :
      (k : ℕ) (im : Im)
      → InHangul im
      → (keytojamo k == 0) ≡ false
      → Returns (dotrans k (record { im = im; text = []; sent = [] })) (Steps im k)
  unfolding dotrans
  dotrans-Steps k im h letter =
      bind_Returns {m = trans im.l im.pre k} (Types im.pre (keytojamo k)) (Steps im k)
        (rw (trans_ko im.l im.pre k h.by_hangul) (transko-Types im.pre k h.pre letter))
        λ r ty.
          let text = append_text r.1.s ty.short in
          let next = sappend_nil r.1.next (omega (arith, ty.single)) in
          (
            _,
            refl,
            dictsend-Steps im k _ _ r.1.dict (record {
              lang = refl;
              pre = rw next ty.hangul;
              short = rw text ty.short;
              spells = rw (text, next) ty.spells;
            }),
          )

  show-Steps :
      (im : Im) (k : ℕ) (t : Turn) → InHangul im → Steps im k t → Returns (show t) (Steps im k)
  unfolding show drawcmd
  show-Steps im k t h s =
      bind_Returns (λ _. Unit {0}) (Steps im k)
        (bind_Returns _ (λ _. Unit {0})
          (translated-Returns (subst (λ l. MapFits l.map) (sym s.lang) h.fits.map_fits) t.im.pre
            (one_rune t.im.pre s.pre))
          λ pre _. (_, refl, tt))
        λ dc _. (_, refl, record { lang = s.lang; pre = s.pre; short = s.short; spells = s.spells })
    where
      one_rune : (pre : Str) → IsPreedit pre → length pre < 64
      one_rune [] p = omega arith
      one_rune (r ∷ []) p = omega arith
      one_rune (r ∷ r' ∷ pre) p = absurd p

  -- A round on a letter: still in the mode, and the client is sent a text.
  pub record Answered (im : Im) (fd k : ℕ) (r : Im × Output) : Type 0 where
    pub mode : InHangul r.0
    pub text : Str
    pub reply : r.1.reply ≡ some (fd, response true text)
    pub spells : spelling text ++ spelling r.0.pre ≡ spelling im.pre ++ keytojamo k ∷ []

  round-Answered :
      (langs : List Lang) (fd k mods : ℕ) (im : Im)
      → InHangul im
      → (keytojamo k == 0) ≡ false
      → Unmodified mods
      → Returns (round langs (key (record { fd = fd; ks = k; mods = mods })) im) (Answered im fd k)
  unfolding round
  round-Answered langs fd k mods im h letter plain =
      let (lo, hi) = letter_key k letter in
      let t : Turn = record { im = im; text = []; sent = [] } in
      bind_Returns {m = keystroke langs k mods t} (λ r. (r.0 ≡ true) × Steps im k r.1)
        (Answered im fd k)
        (rw (keystroke_typed langs k mods t (omega arith, hi, inr (omega arith)) plain) (
          bind_Returns (Steps im k) _
            (bind_Returns (Steps im k) (Steps im k) (dotrans-Steps k im h letter)
              λ t' s. show-Steps im k t' h s)
            λ t' s. (_, refl, (refl, s))))
        λ r s. (
          _,
          refl,
          record {
            mode = record {
              fits = subst (λ l. LangFits l) (sym s.1.lang) h.fits;
              by_hangul = ap (λ l. l.trans) s.1.lang ∙ h.by_hangul;
              pre = s.1.pre;
            };
            text = r.1.text;
            reply = ap (λ b. some (fd, response b r.1.text)) s.0;
            spells = s.1.spells;
          },
        )

  abbrev pub AllLetters : List ℕ → Type 0
  AllLetters [] = Unit {0}
  AllLetters (k ∷ ks) = ((keytojamo k == 0) ≡ false) × AllLetters ks

  unfoldable pub jamo_of : List ℕ → List ℕ
  jamo_of [] = []
  jamo_of (k ∷ ks) = keytojamo k ∷ jamo_of ks

  unfoldable pub spelled : List Str → List ℕ
  spelled [] = []
  spelled (t ∷ ts) = spelling t ++ spelled ts

  pub record Typed (im : Im) (fd : ℕ) (ks : List ℕ) (r : Im × List Output) : Type 0 where
    pub mode : InHangul r.0
    pub texts : List Str
    pub replies : Replies fd r.1 texts
    pub spells : spelled texts ++ spelling r.0.pre ≡ spelling im.pre ++ jamo_of ks

  -- In the Hangul mode (the language has `transko` and a map that fits its strings, the preedit
  -- is empty, or one Hangul syllable or lone letter) the engine thread gets through every
  -- sequence of letter keys that a client presses without Ctrl, Alt and Super. It answers each
  -- key with the verdict that it was eaten and a text, stays in the mode, and loses no letter:
  -- the letters of the texts sent, one after the other, and of the preedit at the end are those
  -- of the preedit at the start followed by the letters of the keys.
  pub imthread-Typed :
      (langs : List Lang) (fd mods : ℕ) (ks : List ℕ) (im : Im)
      → InHangul im
      → AllLetters ks
      → Unmodified mods
      → Returns (imthread langs (presses fd mods ks) im) (Typed im fd ks)
  unfolding imthread presses jamo_of spelled
  imthread-Typed langs fd mods [] im h l plain = (
    _,
    refl,
    record { mode = h; texts = []; replies = tt; spells = sym (append-nil (spelling im.pre)) },
  )
  imthread-Typed langs fd mods (k ∷ ks) im h (letter, l) plain =
      bind_Returns (Answered im fd k) _ (round-Answered langs fd k mods im h letter plain) λ r a.
        bind_Returns (Typed r.0 fd ks) _ (imthread-Typed langs fd mods ks r.0 a.mode l plain)
          λ r' y. (
            _,
            refl,
            record {
              mode = y.mode;
              texts = a.text ∷ y.texts;
              replies = (a.reply, y.replies);
              spells =
                  append_assoc (spelling a.text) (spelled y.texts) (spelling r'.0.pre)
                  ∙ ap (λ s. spelling a.text ++ s) y.spells
                  ∙ sym (append_assoc (spelling a.text) (spelling r.0.pre) (jamo_of ks))
                  ∙ ap (λ s. s ++ jamo_of ks) a.spells
                  ∙ append_assoc (spelling im.pre) (keytojamo k ∷ []) (jamo_of ks);
            },
          )
