-- ===== src/Client/Session.antt =====
-- gtk/main.c, srv.c and strans.c together: a key on its way from the GTK client to the engine and back.
use strans.Base.{
  ℕ, ◌<◌, ◌≡◌, refl, sym, ap, ◌∙◌, Bool, true, false, List, [], ◌∷◌, ◌++◌, append-nil, subst, none,
  some, arith, ◌==◌, if◌then◌else◌, length, Option-cases, inl, inr,
}
use strans.Client.Frames.{clientthread-request_bytes}
use strans.Client.Gtk.{kget, Modifiers, mget, kpress, ask, Pressed, kpress-Pressed}
use strans.Client.{clientthread, request_bytes, readresp}
use strans.Thread.Responds.{round-Responds}
use strans.Im.Valid.{IsValid}
use strans.Im.{Im}
use strans.Key.Valid.{AllFit}
use strans.Lang.{Lang}
use strans.Run.{Returns}
use strans.Str.{Str}
use strans.Thread.{Keyreq, key, Output, round}
use strans.Utf.{Utf, IsUtf}

mget_lt : (m : Modifiers) → mget m < 256
unfolding mget
mget_lt m = ground arith

pub wrote_lem :
    (to_unicode : ℕ → ℕ) (fd keyval : ℕ) (state : Modifiers) (socket : List ℕ)
    → (kget to_unicode keyval == 0) ≡ false
    → (kpress to_unicode none true socket true keyval state (some fd)).wrote
      ≡ request_bytes (kget to_unicode keyval) (mget state)
unfolding kpress ask
wrote_lem to_unicode fd keyval state socket given = elim (Option-cases (readresp 64 socket)) [
  | inl closed ↦ rw (given, closed) refl
  | inr (r, answered) ↦ rw (given, answered) refl
]

module _ ⦃u : Utf⦄ where
  -- What the client does while the engine answers its key.
  pub record Served (to_unicode : ℕ → ℕ) (keyval : ℕ) (state : Modifiers) (conn fd : ℕ)
      (rest : List ℕ) (r : Im × Output) : Type 0 where
    pub valid : IsValid r.0
    pub verdict : Bool
    pub text : Str
    pub bytes : List ℕ
    pub reply : r.1.reply ≡ some (fd, (if verdict then 1 else 0) ∷ length bytes ∷ bytes)
    pub request :
        clientthread fd
          (kpress to_unicode none true
            (((if verdict then 1 else 0) ∷ length bytes ∷ bytes) ++ rest)
            true
            keyval
            state
            (some conn)).wrote
        ≡ record { fd = fd; ks = kget to_unicode keyval; mods = mget state } ∷ []
    pub pressed : Pressed verdict bytes rest (
        kpress to_unicode none true
          (((if verdict then 1 else 0) ∷ length bytes ∷ bytes) ++ rest)
          true
          keyval
          state
          (some conn))

  -- With a lawful UTF-8 codec, languages whose maps fit, a valid state, and a key press whose
  -- key is neither 0 nor above 65535, on a connection that can be written: the round of the
  -- engine on the key and the modifiers of that press returns a valid state and replies with a
  -- verdict and a text. With that reply in front of what follows on its socket, `kpress` of the
  -- GTK client writes bytes that the server reads as exactly that key and those modifiers, and
  -- has the verdict as its result. Of a text of fewer than 64 bytes it commits the bytes in
  -- front of the first zero byte, if there are any and the verdict is true, and leaves what
  -- follows; with the verdict false no text is committed; a text of 64 or more bytes is not
  -- committed, and its bytes stay in front of what follows.
  pub kpress-Served :
      (langs : List Lang) (im : Im) (to_unicode : ℕ → ℕ) (keyval : ℕ) (state : Modifiers)
      (conn fd : ℕ) (rest : List ℕ)
      → IsUtf u
      → AllFit langs
      → IsValid im
      → (kget to_unicode keyval == 0) ≡ false
      → kget to_unicode keyval < 65536
      → Returns
          (round langs
            (key (record { fd = fd; ks = kget to_unicode keyval; mods = mget state }))
            im)
          (Served to_unicode keyval state conn fd rest)
  unfolding clientthread
  kpress-Served langs im to_unicode keyval state conn fd rest laws fits v given small =
      let kr : Keyreq = record { fd = fd; ks = kget to_unicode keyval; mods = mget state } in
      let (r, run, s) = round-Responds langs kr im fits v in
      let (bs, e, p) =
        kpress-Pressed laws to_unicode conn keyval state s.verdict s.text rest given in
      (
        r,
        run,
        record {
          valid = s.valid;
          verdict = s.verdict;
          text = s.text;
          bytes = bs;
          reply = s.reply ∙ ap (λ b. some (fd, b)) e;
          request =
              ap (clientthread fd)
                (wrote_lem to_unicode conn keyval state _ given ∙ sym (append-nil _))
              ∙ clientthread-request_bytes fd (kget to_unicode keyval) (mget state) [] small
                  (mget_lt state);
          pressed =
              subst
                (λ b.
                  Pressed s.verdict bs rest
                    (kpress to_unicode none true (b ++ rest) true keyval state (some conn)))
                e p;
        },
      )
