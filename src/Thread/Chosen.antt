-- ===== src/Thread/Chosen.antt =====
-- strans.c: a candidate of the dictionary, chosen with a digit.
use strans.Base.{
  ltb, ℕ, ◌+◌, ◌≤◌, ◌<◌, ◌≡◌, refl, ap, ◌∙◌, subst, true, false, ◌||◌, List, [], ◌∷◌, none, some,
  arith, ◌==◌, length, get_elem?, lt-of-get_elem?, take-of_le,
}
use strans.Dict.{Dictres, max_kouho}
use strans.Im.Valid.{IsValid, Keeps, reset-Returns}
use strans.Im.{Im, Turn, max_disp, first_shown, clearkouho}
use strans.Key.{ksuper, kshift, kdown, kup, digit, choose, keystroke}
use strans.Lang.{Lang}
use strans.Run.{◌>>=◌, Returns, bind_Returns}
use strans.Str.Laws.{sappend-take}
use strans.Str.{Str, sappend, sinit, sinit_loop, stoutf}
use strans.Thread.Answers.{round-Takes}
use strans.Thread.Safe.{answer-Returns}
use strans.Thread.{key, answer, Output, response, round, imthread}
use strans.Utf.{Utf, IsUtf}
use strans.Str.Codec.{AllRunes, sinit-stoutf}

-- The digit of the row `n`, counted from 0, with nothing selected.
digit_row :
    (n : ℕ) (im : Im)
    → n < max_disp
    → n < length im.kouho
    → im.sel ≡ none
    → digit (b'1' + n) im ≡ some n
unfolding digit first_shown
digit_row n im h k s = rw s (ground arith)

module _ ⦃u : Utf⦄ where
  -- The preedit is gone, and so are the candidates.
  pub record Cleared (fd : ℕ) (s : Str) (r : Im × Output) : Type 0 where
    pub pre : r.0.pre ≡ []
    pub kouho : r.0.kouho ≡ []
    pub sel : r.0.sel ≡ none
    pub reply : r.1.reply ≡ some (fd, response true s)

  choose-Cleared :
      (n : ℕ) (t : Turn) (s : Str)
      → Keeps t
      → t.text ≡ []
      → get_elem? t.im.kouho n ≡ some s
      → length s ≤ 64
      → Returns
          (choose n t)
          λ r. (r.0 ≡ true) × (r.1.im ≡ clearkouho (record t.im { pre = [] })) × (r.1.text ≡ s)
  unfolding choose
  choose-Cleared n t s k e at_n short =
      let text : sappend t.text s ≡ s =
        ap (λ x. sappend x s) e ∙ sappend-take [] s (omega arith) ∙ take-of_le 64 s short in
      rw (at_n, choose)
        (bind_Returns _ _
          (reset-Returns (record t { text = sappend t.text s }) k.valid.lang
            (omega (arith, short, ap (length {A = ℕ}) text)))
          λ t' r. (_, refl, (refl, r.1, r.2 ∙ text)))

  round-Cleared :
      (langs : List Lang) (fd n mods : ℕ) (im : Im) (s : Str)
      → IsValid im
      → n < max_disp
      → im.sel ≡ none
      → get_elem? im.kouho n ≡ some s
      → length s ≤ 64
      → Returns
          (round langs (key (record { fd = fd; ks = b'1' + n; mods = mods })) im)
          (Cleared fd s)
  unfolding round keystroke
  round-Cleared langs fd n mods im s v h none_selected at_n short =
      let t : Turn = record { im = im; text = []; sent = [] } in
      let e₁ : (b'1' + n == ksuper || b'1' + n == kshift) ≡ false = ground arith in
      let e₂ : (b'1' + n == kdown || b'1' + n == kup) ≡ false = ground arith in
      bind_Returns {m = keystroke langs (b'1' + n) mods t}
        (λ r. (r.0 ≡ true) × (r.1.im ≡ clearkouho (record im { pre = [] })) × (r.1.text ≡ s))
        (Cleared fd s)
        (rw (e₁, e₂, digit_row n im h (lt-of-get_elem? im.kouho n at_n) none_selected)
          (choose-Cleared n t s (record { valid = v; text = omega arith }) refl at_n short))
        λ r c. (
          _,
          refl,
          record {
            pre = ap (λ i. i.pre) c.1;
            kouho = ap (λ i. i.kouho) c.1;
            sel = ap (λ i. i.sel) c.1;
            reply =
                ap (λ b. some (fd, response b r.1.text)) c.0
                ∙ ap (λ x. some (fd, response true x)) c.2;
          },
        )

  -- A text of at most 63 runes has room in a response, and is read back from it.
  response-whole :
      (s : Str)
      → IsUtf u
      → AllRunes s
      → length s ≤ 63
      → (bytes : List ℕ) × (response true s ≡ 1 ∷ length bytes ∷ bytes)
        × (sinit bytes (length bytes) ≡ s)
  unfolding response
  response-whole [] laws v few = ([], refl, unfold sinit sinit_loop in refl)
  response-whole (r ∷ s) laws v few =
      let given : ltb 0 (length (r ∷ s)) ≡ true = ground arith in
      (
        stoutf (r ∷ s) 254,
        rw given refl,
        sinit-stoutf laws (r ∷ s) 254 v (omega arith) (omega arith),
      )

  -- The two outputs, of which the second is the reply.
  pub record Chosen (fd : ℕ) (s : Str) (r : Im × List Output) : Type 0 where
    pub asked : Output
    pub answered : Output
    pub both : r.1 ≡ asked ∷ answered ∷ []
    pub silent : asked.reply ≡ none
    pub cleared : Cleared fd s (r.0, answered)
    pub bytes : List ℕ
    pub reply : answered.reply ≡ some (fd, 1 ∷ length bytes ∷ bytes)
    pub whole : sinit bytes (length bytes) ≡ s

  -- With a lawful UTF-8 codec, in a valid state, when an answer of the dictionary to the
  -- preedit, with at most 32 candidates, is followed by the digit of one of its first 8
  -- candidates (1 for the first), of at most 63 valid runes, the engine thread gets through
  -- both. It writes nothing for the answer, and for the digit sends the client the verdict that
  -- the key was eaten, the number of bytes behind it, and bytes from which exactly that
  -- candidate is read back; then the preedit and the candidates are empty and nothing is
  -- selected.
  pub imthread-Chosen :
      (langs : List Lang) (im : Im) (res : Dictres) (fd n mods : ℕ) (s : Str)
      → IsValid im
      → length res.kouho ≤ max_kouho
      → res.key ≡ im.pre
      → n < max_disp
      → get_elem? res.kouho n ≡ some s
      → IsUtf u
      → AllRunes s
      → length s ≤ 63
      → Returns
          (imthread langs
            (answer res ∷ key (record { fd = fd; ks = b'1' + n; mods = mods }) ∷ [])
            im)
          (Chosen fd s)
  unfolding imthread
  imthread-Chosen langs im res fd n mods s v few same h at_n laws runes short =
      let (bytes, framed, whole) = response-whole s laws runes short in
      let (r, run, takes) = round-Takes langs res im v few in
      let (r', run', v') = answer-Returns langs res im v few in
      let p : r' ≡ r = cc (run, run') in
      let (kouho, sel) = takes.timely same in
      let (r'', run'', c) =
        round-Cleared langs fd n mods r.0 s (subst (λ r. IsValid r.0) p v') h sel
          (ap (λ k. get_elem? k n) kouho ∙ at_n) (omega (arith, short)) in
      (
        (r''.0, r.1 ∷ r''.1 ∷ []),
        rw (run, ◌>>=◌, run'', ◌>>=◌) refl,
        record {
          asked = r.1;
          answered = r''.1;
          both = refl;
          silent = takes.silent;
          cleared = c;
          bytes = bytes;
          reply = c.reply ∙ ap (λ b. some (fd, b)) framed;
          whole = whole;
        },
      )
