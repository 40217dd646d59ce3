-- ===== src/Client/Talk.antt =====
-- gtk/main.c with srv.c and strans.c: an input context and the engine, event after event.
pub mod Steps
pub mod InStep
use strans.Client.Frames.{said}
use strans.Base.{
  ◌-◌, leb, map, ◌&&◌, ◌≤◌, ◌⊎◌, ℕ, ◌+◌, ◌<◌, ◌≡◌, refl, sym, ap, ap₂, ◌∙◌, Bool, true, false, List,
  [], ◌∷◌, ◌++◌, append-nil, append_assoc, subst, Option, none, some, arith, ◌==◌, if◌then◌else◌,
  length, Bool-cases, Option-cases, inl, inr,
}
use strans.Bench.Rounds.{serve-Returns}
use strans.Bench.{Key, sendkey, serve, events, written}
use strans.Client.Frames.{Reads, readresp-response}
use strans.Client.Gtk.{
  kget, Modifiers, mget, srvconnect, kpress, ask, committed, sendreset, Pressed, kpress-Pressed,
  Outcome,
}
use strans.Client.Session.{wrote_lem}
use strans.Client.{clientthread, request_bytes, reset_bytes, readresp}
use strans.Im.Valid.{IsValid}
use strans.Im.{Im}
use strans.Key.{kesc}
use strans.Key.Valid.{AllFit}
use strans.Lang.{Lang}
use strans.Run.{Run, ok, ◌>>=◌, Returns, bind_Returns}
use strans.Str.{Str}
use strans.Thread.{imthread, response}
use strans.Utf.{Utf, IsUtf}

-- What GTK calls: `kpress`, with what `srvconnect` would get and whether it is a press, and `reset` or
-- `focusout`, which do the same.
pub data ContextEvent : Type 0 where
  event : Option ℕ → Bool → ℕ → Modifiers → ContextEvent
  unfocus : ContextEvent

-- The descriptor of the context, the engine, what the engine wrote and the context has not read, all
-- that the engine wrote, and the texts that the context committed.
pub record Talk : Type 0 where
  pub fd : Option ℕ
  pub im : Im
  pub left : List ℕ
  pub heard : List ℕ
  pub commits : List (List ℕ)

unfoldable pub with_commit : List (List ℕ) → Option (List ℕ) → List (List ℕ)
with_commit ts none = ts
with_commit ts (some t) = ts ++ t ∷ []

module _ ⦃u : Utf⦄ (to_unicode : ℕ → ℕ) (langs : List Lang) (to : ℕ) where
  -- An event, with the engine in between: what a call writes comes before what it reads, and does not
  -- depend on it.
  unfoldable pub context_step : ContextEvent → Talk → Run Talk
  unfolding serve kpress sendreset with_commit
  context_step (event fresh is_press keyval state) t =
      let call : List ℕ → Outcome =
        λ socket. kpress to_unicode fresh true socket is_press keyval state t.fd in
      serve langs to (call []).wrote t.im >>= (λ r.
        let o = call (t.left ++ r.1) in
        ok (record {
          fd = o.fd;
          im = r.0;
          left = o.rest;
          heard = t.heard ++ r.1;
          commits = with_commit t.commits o.commit;
        }))
  context_step unfocus t = serve langs to (sendreset t.fd true []).0 t.im >>= (λ r. ok (record t {
    im = r.0;
    left = (sendreset t.fd true (t.left ++ r.1)).1;
    heard = t.heard ++ r.1;
  }))

  unfoldable pub talk : List ContextEvent → Talk → Run Talk
  unfolding context_step
  talk [] t = ok t
  talk (e ∷ es) t = context_step e t >>= talk es

-- A response of the engine, and whether a press asked for it.
pub record Reply : Type 0 where
  pub pressed : Bool
  pub verdict : Bool
  pub text : List ℕ

abbrev pub frame : Reply → List ℕ
frame r = (if r.verdict then 1 else 0) ∷ length r.text ∷ r.text

-- What the context commits for it.
unfoldable pub to_commit : Reply → Option (List ℕ)
to_commit r = if r.pressed && r.verdict then said r.text else none

-- The key of the engine for a keyval of GDK: the special keys stand at 0xf000.
abbrev pub key_of : (ℕ → ℕ) → ℕ → ℕ
key_of to_unicode keyval =
    if leb 0xff00 keyval then 0xf000 + (keyval - 0xff00) else to_unicode keyval

-- The descriptor behind an event: a press connects, where the context is not connected.
unfoldable pub next_fd : ContextEvent → Option ℕ → Option ℕ
next_fd (event fresh true keyval state) none = fresh
next_fd (event fresh true keyval state) (some fd) = some fd
next_fd (event fresh false keyval state) fd = fd
next_fd unfocus fd = fd

-- What an event asks the engine with this descriptor, if it does: whether that is a press.
unfoldable pub asks : (ℕ → ℕ) → ContextEvent → Option ℕ → List Bool
asks to_unicode e none = []
asks to_unicode (event fresh false keyval state) (some fd) = []
asks to_unicode (event fresh true keyval state) (some fd) =
    if key_of to_unicode keyval == 0 then [] else true ∷ []
asks to_unicode unfocus (some fd) = false ∷ []

unfoldable pub questions : (ℕ → ℕ) → List ContextEvent → Option ℕ → List Bool
questions to_unicode [] fd = []
questions to_unicode (e ∷ es) fd =
    asks to_unicode e (next_fd e fd) ++ questions to_unicode es (next_fd e fd)

unfoldable pub frames : List Reply → List ℕ
frames [] = []
frames (r ∷ rs) = frame r ++ frames rs

unfoldable pub commit_all : List (List ℕ) → List Reply → List (List ℕ)
commit_all ts [] = ts
commit_all ts (r ∷ rs) = commit_all (with_commit ts (to_commit r)) rs

-- A text does not fit the buffer of the context.
pub data HasLong : List Reply → Type 0 where
  here : (r : Reply) (rs : List Reply) → 64 ≤ length r.text → HasLong (r ∷ rs)
  there : (r : Reply) (rs : List Reply) → HasLong rs → HasLong (r ∷ rs)

-- What a sequence of events comes to, from a socket that is read to its end.
pub record Talked ⦃u : Utf⦄ (to_unicode : ℕ → ℕ) (es : List ContextEvent) (t t' : Talk)
    : Type 0 where
  pub valid : IsValid t'.im
  pub replies : List Reply
  pub heard : t'.heard ≡ t.heard ++ frames replies
  pub asked : map (λ r. r.pressed) replies ≡ questions to_unicode es t.fd
  pub in_step : ((t'.left ≡ []) × (t'.commits ≡ commit_all t.commits replies)) ⊎ HasLong replies
