-- ===== src/Client/Talk/Steps.antt =====
-- gtk/main.c with srv.c and strans.c: what one event changes.
use strans.Base.{
  Option, none, ℕ, ◌<◌, ◌≡◌, refl, sym, ap, ◌∙◌, Bool, true, false, List, [], ◌∷◌, ◌++◌, append-nil,
  subst, Option, some, arith, ◌==◌, if◌then◌else◌, length, Bool-cases, Option-cases, inl, inr,
}
use strans.Bench.Rounds.{serve-Returns}
use strans.Bench.{sendkey, serve, events, written}
use strans.Client.Frames.{Reads, readresp-response}
use strans.Client.Gtk.{
  kget, Modifiers, mget, srvconnect, kpress, ask, committed, committed-said, sendreset,
}
use strans.Client.{clientthread, request_bytes, reset_bytes, readresp}
use strans.Im.Valid.{IsValid}
use strans.Im.{Im}
use strans.Key.{kesc}
use strans.Key.Valid.{AllFit}
use strans.Lang.{Lang}
use strans.Run.{ok, Returns}
use strans.Str.{Str}
use strans.Thread.{imthread, response}
use strans.Utf.{Utf, IsUtf}
use strans.Client.Talk.{
  ContextEvent, asks, next_fd, event, unfocus, Talk, with_commit, context_step, Reply, frame,
  to_commit,
}

-- What an event changes: nothing on the socket, or one response.
pub data Stepped (to_unicode : ℕ → ℕ) (e : ContextEvent) (t t' : Talk) : Type 0 where
  quiet :
      asks to_unicode e (next_fd e t.fd) ≡ []
      → t'.left ≡ t.left
      → t'.heard ≡ t.heard
      → t'.commits ≡ t.commits
      → Stepped to_unicode e t t'
  answered :
      (r : Reply)
      → asks to_unicode e (next_fd e t.fd) ≡ r.pressed ∷ []
      → t'.heard ≡ t.heard ++ frame r
      → (length r.text < 64
          → t.left ≡ []
          → (t'.left ≡ []) × (t'.commits ≡ with_commit t.commits (to_commit r)))
      → Stepped to_unicode e t t'

module _ ⦃u : Utf⦄ (laws : IsUtf u) (to_unicode : ℕ → ℕ) (langs : List Lang) (fits : AllFit langs)
    (to : ℕ) where
  serve_nothing : (im : Im) → serve langs to [] im ≡ ok (im, [])
  unfolding serve events clientthread imthread written
  serve_nothing im = refl

  -- What the engine answers four bytes.
  record Served (im : Im) (r : Im × List ℕ) : Type 0 where
    valid : IsValid r.0
    verdict : Bool
    text : Str
    bytes : List ℕ
    reply : r.1 ≡ response verdict text
    framed : response verdict text ≡ (if verdict then 1 else 0) ∷ length bytes ∷ bytes
    reads : Reads 64 (if verdict then 1 else 0) bytes [] (readresp 64 (response verdict text ++ []))

  serve-Served :
      (key mods : ℕ) (im : Im)
      → IsValid im
      → Returns (serve langs to (request_bytes key mods) im) (Served im)
  unfolding sendkey request_bytes
  serve-Served key mods im v =
      let (r, run, (valid, (verdict, text, reply))) =
        serve-Returns laws langs fits to (record { k = key; mods = mods }) im v in
      let (bytes, framed, reads) = readresp-response laws verdict text [] 64 (omega arith) in
      (
        r,
        run,
        record {
          valid = valid;
          verdict = verdict;
          text = text;
          bytes = bytes;
          reply = reply;
          framed = framed;
          reads = reads;
        },
      )

  -- Where the socket holds the response alone.
  alone : (left b c : List ℕ) → left ≡ [] → b ≡ c → left ++ b ≡ c ++ []
  alone left b c e e' = rw (e, e') (sym (append-nil c))

  after_unfocus :
      (conn : ℕ) (im : Im) (left : List ℕ) (r : Im × List ℕ) (s : Served im r)
      → length s.bytes < 64
      → left ≡ []
      → (sendreset (some conn) true (left ++ r.1)).1 ≡ []
  unfolding sendreset
  after_unfocus conn im left r s short empty =
      subst (λ b. (sendreset (some conn) true b).1 ≡ []) (sym (alone left r.1 _ empty s.reply))
        (rw (s.reads.0 short, sendreset) refl)

  pub unfocus-Stepped :
      (t : Talk)
      → IsValid t.im
      → Returns
          (context_step to_unicode langs to unfocus t)
          λ t'. IsValid t'.im × (t'.fd ≡ next_fd unfocus t.fd) × Stepped to_unicode unfocus t t'
  unfolding context_step sendreset reset_bytes request_bytes asks next_fd
  unfocus-Stepped t v = elim (Option-cases t.fd) [
    | inl none_yet ↦
        rw (none_yet, context_step, serve_nothing t.im)
          (_, refl, (v, refl, quiet refl (append-nil t.left) (append-nil t.heard) refl))
    | inr (conn, connected) ↦
        let (r, run, s) = serve-Served kesc 0 t.im v in
        rw (connected, context_step, run)
          (
            _,
            refl,
            (
              s.valid,
              refl,
              answered (record { pressed = false; verdict = s.verdict; text = s.bytes }) refl
                  (ap (◌++◌ t.heard) (s.reply ∙ s.framed))
                  λ short empty. (
                    after_unfocus conn t.im t.left r s short empty,
                    unfold with_commit to_commit in refl,
                  ),
            ),
          )
  ]

  -- What the question of a press leaves, where the socket holds the response alone.
  ask-rest :
      (conn keyval : ℕ) (state : Modifiers) (im : Im) (r : Im × List ℕ) (s : Served im r)
      → (kget to_unicode keyval == 0) ≡ false
      → length s.bytes < 64
      → ((ask to_unicode true (response s.verdict s.text ++ []) keyval state (some conn)).rest ≡ [])
        × ((ask to_unicode true (response s.verdict s.text ++ []) keyval state (some conn)).commit
            ≡ committed (if s.verdict then 1 else 0) s.bytes)
  unfolding ask
  ask-rest conn keyval state im r s given short = rw (given, s.reads.0 short, ask) (refl, refl)

  after_press :
      (fresh : Option ℕ) (conn keyval : ℕ) (state : Modifiers) (t : Talk) (r : Im × List ℕ)
      (s : Served t.im r)
      → srvconnect t.fd fresh ≡ some conn
      → (kget to_unicode keyval == 0) ≡ false
      → length s.bytes < 64
      → t.left ≡ []
      → ((kpress to_unicode fresh true (t.left ++ r.1) true keyval state t.fd).rest ≡ [])
        × ((kpress to_unicode fresh true (t.left ++ r.1) true keyval state t.fd).commit
            ≡ committed (if s.verdict then 1 else 0) s.bytes)
  unfolding kpress
  after_press fresh conn keyval state t r s connected given short empty =
      subst
        (λ b.
          ((kpress to_unicode fresh true b true keyval state t.fd).rest ≡ [])
          × ((kpress to_unicode fresh true b true keyval state t.fd).commit
              ≡ committed (if s.verdict then 1 else 0) s.bytes))
        (sym (alone t.left r.1 _ empty s.reply))
        (rw (connected, kpress) (ask-rest conn keyval state t.im r s given short))

  wrote-event :
      (fresh : Option ℕ) (conn keyval : ℕ) (state : Modifiers) (fd : Option ℕ)
      → srvconnect fd fresh ≡ some conn
      → (kget to_unicode keyval == 0) ≡ false
      → (kpress to_unicode fresh true [] true keyval state fd).wrote
        ≡ request_bytes (kget to_unicode keyval) (mget state)
  unfolding kpress ask readresp
  wrote-event fresh conn keyval state fd connected given = rw (connected, given, kpress, ask) refl

  no_press :
      (fresh : Option ℕ) (keyval : ℕ) (state : Modifiers) (fd : Option ℕ)
      → asks to_unicode (event fresh false keyval state) fd ≡ []
  unfolding asks
  no_press fresh keyval state none = refl
  no_press fresh keyval state (some fd) = refl

  after_srvconnect :
      (fresh : Option ℕ) (keyval : ℕ) (state : Modifiers) (fd : Option ℕ)
      → srvconnect fd fresh ≡ next_fd (event fresh true keyval state) fd
  unfolding srvconnect next_fd
  after_srvconnect fresh keyval state none = refl
  after_srvconnect fresh keyval state (some fd) = refl

  asks-press :
      (fresh : Option ℕ) (conn keyval : ℕ) (state : Modifiers) (fd : Option ℕ) (b : Bool)
      → srvconnect fd fresh ≡ some conn
      → (kget to_unicode keyval == 0) ≡ b
      → asks to_unicode (event fresh true keyval state) (next_fd (event fresh true keyval state) fd)
        ≡ (if b then [] else true ∷ [])
  unfolding asks kget
  asks-press fresh conn keyval state fd b connected key =
      ap (asks to_unicode (event fresh true keyval state))
        (sym (after_srvconnect fresh keyval state fd) ∙ connected)
      ∙ ap (λ b. if b then [] else true ∷ []) key

  ask-fd :
      (socket : List ℕ) (keyval : ℕ) (state : Modifiers) (fd : Option ℕ)
      → (ask to_unicode true socket keyval state fd).fd ≡ fd
  unfolding ask
  ask-fd socket keyval state none = refl
  ask-fd socket keyval state (some fd) = elim (Bool-cases (kget to_unicode keyval == 0)) [
    | inl no_key ↦ rw (no_key, ask) refl
    | inr given ↦ elim (Option-cases (readresp 64 socket)) [
      | inl closed ↦ rw (given, closed, ask) refl
      | inr (r, replied) ↦ rw (given, replied, ask) refl
    ]
  ]

  pub event-Stepped :
      (fresh : Option ℕ) (is_press : Bool) (keyval : ℕ) (state : Modifiers) (t : Talk)
      → IsValid t.im
      → Returns (context_step to_unicode langs to (event fresh is_press keyval state) t) λ t'.
        IsValid t'.im
        × (t'.fd ≡ next_fd (event fresh is_press keyval state) t.fd)
        × Stepped to_unicode (event fresh is_press keyval state) t t'
  unfolding context_step kpress ask asks next_fd kget
  event-Stepped fresh false keyval state t v =
      rw (serve_nothing t.im, context_step, kpress)
        (
          _,
          refl,
          (
            v,
            refl,
            quiet (no_press fresh keyval state t.fd) (append-nil t.left) (append-nil t.heard)
                (unfold with_commit in refl),
          ),
        )
  event-Stepped fresh true keyval state t v = elim (Option-cases (srvconnect t.fd fresh)) [
    | inl refused ↦
        rw (refused, context_step, serve_nothing t.im)
          (
            _,
            refl,
            (
              v,
              sym refused ∙ after_srvconnect fresh keyval state t.fd,
              quiet
                  (ap (asks to_unicode (event fresh true keyval state))
                    (sym (after_srvconnect fresh keyval state t.fd) ∙ refused))
                  (append-nil t.left) (append-nil t.heard) (unfold with_commit in refl),
            ),
          )
    | inr (conn, connected) ↦ elim (Bool-cases (kget to_unicode keyval == 0)) [
      | inl no_key ↦
          rw (connected, no_key, context_step, serve_nothing t.im)
            (
              _,
              refl,
              (
                v,
                sym connected ∙ after_srvconnect fresh keyval state t.fd,
                quiet (asks-press fresh conn keyval state t.fd true connected no_key)
                    (append-nil t.left) (append-nil t.heard) (unfold with_commit in refl),
              ),
            )
      | inr given ↦
          let (r, run, s) = serve-Served (kget to_unicode keyval) (mget state) t.im v in
          rw (wrote-event fresh conn keyval state t.fd connected given, run, context_step)
            (
              _,
              refl,
              (
                s.valid,
                ask-fd (t.left ++ r.1) keyval state (srvconnect t.fd fresh)
                    ∙ after_srvconnect fresh keyval state t.fd,
                answered (record { pressed = true; verdict = s.verdict; text = s.bytes })
                    (asks-press fresh conn keyval state t.fd false connected given)
                    (ap (◌++◌ t.heard) (s.reply ∙ s.framed))
                    λ short empty.
                      let (rest, commit) =
                        after_press fresh conn keyval state t r s connected given short empty in
                      (
                        rest,
                        ap (with_commit t.commits)
                            (commit ∙ committed-said s.verdict s.bytes ∙ unfold to_commit in refl),
                      ),
              ),
            )
    ]
  ]
