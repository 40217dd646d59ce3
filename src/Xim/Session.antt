-- ===== src/Xim/Session.antt =====
-- xim/main.c, srv.c and strans.c together: a key on its way from the XIM client to the engine and back.
use strans.Base.{
  none, ◌==◌, ℕ, ◌+◌, ◌-◌, ◌*◌, ◌/◌, ◌%◌, ◌<◌, ◌≡◌, refl, sym, ap, ◌∙◌, Bool, true, false, List, [],
  ◌∷◌, ◌++◌, some, arith, leb, if◌then◌else◌, length,
}
use strans.Client.{clientthread}
use strans.Im.Valid.{IsValid}
use strans.Im.{Im}
use strans.Key.Valid.{AllFit}
use strans.Key.{kspec}
use strans.Lang.{Lang}
use strans.Run.{ok, fault, ◌>>=◌, Returns}
use strans.Thread.Responds.{round-Responds}
use strans.Thread.{Keyreq, Event, Output, round}
use strans.Utf.{Utf, IsUtf}
use strans.Xim.Laws.{readresp_cases}
use strans.Xim.{
  Keymap, write, Convert, Act, commit, forward, kget, readresp, commit_acts, engine_key,
  request_bytes, forwards, kpress,
}

-- What commits a text: nothing where it is empty or cannot be converted.
abbrev pub compound_text : Convert → List ℕ → List Act
compound_text convert bytes =
    if length bytes == 0
    then []
    else elim (convert bytes) [ none ↦ [] | some text ↦ commit text ∷ [] ]

commit_acts-compound_text :
    (convert : Convert) (bs : List ℕ) → commit_acts convert bs ≡ compound_text convert bs
unfolding commit_acts
commit_acts-compound_text convert [] = refl
commit_acts-compound_text convert (b ∷ bs) = ground arith

-- The key of the engine for a keysym of X, where the special keys have other numbers.
abbrev pub named : ℕ → ℕ
named keysym = if leb 0xff00 keysym then kspec + (keysym - 0xff00) else keysym

abbrev pub request : ℕ → ℕ → ℕ → Keyreq
request fd keysym state = record { fd = fd; ks = named keysym; mods = state % 256 }

two_bytes :
    (keysym : ℕ)
    → keysym < 65536
    → engine_key keysym % 256 + engine_key keysym / 256 % 256 * 256 ≡ named keysym
unfolding engine_key
two_bytes keysym h = ground (arith, h)

clientthread-request :
    (fd keysym state : ℕ)
    → keysym < 65536
    → clientthread fd (request_bytes (engine_key keysym) state) ≡ request fd keysym state ∷ []
unfolding clientthread request_bytes
clientthread-request fd keysym state h =
    ap (λ k. record { fd = fd; ks = k; mods = state % 256 } ∷ []) (two_bytes keysym h)

module _ ⦃u : Utf⦄ where
  -- What the client does while the engine answers its key.
  pub record Converses (convert : Convert) (map : Keymap) (detail state keysym fd : ℕ)
      (rest : List ℕ) (r : Im × Output) : Type 0 where
    pub valid : IsValid r.0
    pub verdict : Bool
    pub bytes : List ℕ
    pub reply : r.1.reply ≡ some (fd, (if verdict then 1 else 0) ∷ length bytes ∷ bytes)
    pub request :
        clientthread fd (request_bytes (engine_key keysym) state)
        ≡ record { fd = fd; ks = named keysym; mods = state % 256 } ∷ []
    pub short :
        length bytes < 63
        → kpress convert map true
            (((if verdict then 1 else 0) ∷ length bytes ∷ bytes) ++ rest)
            detail
            state
          ≡ ok (
            write (request_bytes (engine_key keysym) state)
                ∷ (compound_text convert bytes ++ (if verdict then [] else forward ∷ [])),
            rest,
          )
    pub full :
        length bytes ≡ 63
        → kpress convert map true
            (((if verdict then 1 else 0) ∷ length bytes ∷ bytes) ++ rest)
            detail
            state
          ≡ fault
    pub long :
        63 < length bytes
        → kpress convert map true
            (((if verdict then 1 else 0) ∷ length bytes ∷ bytes) ++ rest)
            detail
            state
          ≡ ok (
            write (request_bytes (engine_key keysym) state)
                ∷ (if verdict then [] else forward ∷ []),
            bytes ++ rest,
          )

  forwards-verdict :
      (v : Bool) → forwards (some (if v then 1 else 0)) ≡ (if v then [] else forward ∷ [])
  unfolding forwards
  forwards-verdict true = refl
  forwards-verdict false = refl

  module _ (convert : Convert) (map : Keymap) (detail state keysym : ℕ)
      (known : kget map detail state ≡ ok keysym) where
    kpress-read :
        (socket : List ℕ) (v : ℕ) (text left : List ℕ)
        → readresp socket ≡ ok (some v, text, left)
        → kpress convert map true socket detail state
          ≡ ok (
            write (request_bytes (engine_key keysym) state)
                ∷ (commit_acts convert text ++ forwards (some v)),
            left,
          )
    unfolding kpress
    kpress-read socket v text left e = rw (known, ◌>>=◌, e, ◌>>=◌) refl

    kpress-fault :
        (socket : List ℕ)
        → readresp socket ≡ fault
        → kpress convert map true socket detail state ≡ fault
    unfolding kpress
    kpress-fault socket e = rw (known, ◌>>=◌, e, ◌>>=◌) refl

    -- With a lawful UTF-8 codec, languages whose maps fit, a valid state, any conversion to
    -- compound text, and a key press whose keysym is below 65536: the bytes that `kpress` of
    -- the XIM client writes are read by the server as that key, a special key with the number
    -- the engine has for it, with the low 8 bits of the state as modifiers. The round of the
    -- engine on it returns a valid state and replies with a verdict and a text. With that
    -- reply in front of what follows on its socket, the client commits a text of fewer than
    -- 63 bytes as its conversion gives it, if it is not empty and the conversion does not
    -- give NULL, forwards the event exactly if the verdict is false, and leaves what follows;
    -- a text of 63 bytes is written past the end of its buffer; a longer text is not
    -- committed, and its bytes stay in front of what follows.
    pub kpress-Converses :
        (langs : List Lang) (im : Im) (fd : ℕ) (rest : List ℕ)
        → IsUtf u
        → keysym < 65536
        → AllFit langs
        → IsValid im
        → Returns
            (round langs (Event.key (request fd keysym state)) im)
            (Converses convert map detail state keysym fd rest)
    unfolding commit_acts
    kpress-Converses langs im fd rest laws low h v =
        let (r, run, p) = round-Responds langs (request fd keysym state) im h v in
        let (bs, frame, (short, full, long)) = readresp_cases laws p.verdict p.text rest in
        let sent = write (request_bytes (engine_key keysym) state) in
        (
          r,
          run,
          record {
            valid = p.valid;
            verdict = p.verdict;
            bytes = bs;
            reply = p.reply ∙ ap (λ b. some (fd, b)) frame;
            request = clientthread-request fd keysym state low;
            short = λ few.
                kpress-read _ _ _ _ (ap (λ b. readresp (b ++ rest)) (sym frame) ∙ short few)
                ∙ ap (λ f. ok (sent ∷ (commit_acts convert bs ++ f), rest))
                    (forwards-verdict p.verdict)
                ∙ ap (λ a. ok (sent ∷ (a ++ (if p.verdict then [] else forward ∷ [])), rest))
                    (commit_acts-compound_text convert bs);
            full = λ same. kpress-fault _ (ap (λ b. readresp (b ++ rest)) (sym frame) ∙ full same);
            long = λ more.
                kpress-read _ _ _ _ (ap (λ b. readresp (b ++ rest)) (sym frame) ∙ long more)
                ∙ ap (λ f. ok (sent ∷ f, bs ++ rest)) (forwards-verdict p.verdict);
          },
        )
