-- ===== src/Ibus/Answers.antt =====
-- ibus.c: what a client is answered, and that the bridge loses no text of the engine.
use Prim.Native.Nat.{bit_and}
use strans.Base.{
  ◌+◌, ◌-◌, leb, subst, ℕ, ◌≡◌, refl, sym, ap, ◌∙◌, Bool, true, false, not, ◌&&◌, List, [], ◌∷◌,
  ◌++◌, some, ltb, ◌==◌, length, if◌then◌else◌,
}
use strans.Ibus.Keys.{kget, mget, sendreset}
use strans.Ibus.{
  Message, Value, reply, boolean, commit_text, Bus, Handling, Outside, ignored, answered, relmask,
  commits, is, is_reset, is_noop, is_matching, handlekey, handlereset, on_context, on_call, onmsg,
  dispatch,
}
use strans.Im.Valid.{IsValid}
use strans.Key.Valid.{AllFit}
use strans.Lang.{Lang}
use strans.Run.{ok, ◌>>=◌, Returns, bind_Returns, if_Returns, Option_Returns}
use strans.Str.{Str}
use strans.Thread.{Event, round, response}
use strans.Im.{Sent}
use strans.Client.Frames.{c_string, until_zero-c_string}
use strans.Hash.{until_zero}
use strans.Utf.{Utf, IsUtf}
use strans.Ibus.Asks.{sendkey-Asks, sendkey-IsValid}

module _ ⦃u : Utf⦄ where
  -- A message is ignored, and nothing has changed; or it is answered with one reply, the last signal,
  -- behind at most one text.
  pub data Outcome (m : Message) (b : Bus) (h : Handling) : Type 0 where
    left_alone : h ≡ ignored b → Outcome m b h
    replied :
        (v : Value) (t : List ℕ)
        → h.handled ≡ true
        → IsValid h.bus.im
        → h.sent
          ≡ (if ltb 0 (length t) then commit_text m.path (c_string t) ∷ [] else []) ++ reply v ∷ []
        → Outcome m b h

  -- The key of the engine for a keysym of X: the special keys stand at 0xf000.
  abbrev pub named : ℕ → ℕ
  named keysym =
      if leb 0xff00 keysym && leb keysym 0xffff then 0xf000 + (keysym - 0xff00) else keysym

  -- Shift, Ctrl, Alt and Super, which stand in the same places of the state.
  abbrev pub modifiers : ℕ → ℕ
  modifiers state =
      (if bit_and state 1 == 0 then 0 else 1)
      + (if bit_and state 4 == 0 then 0 else 4)
      + (if bit_and state 8 == 0 then 0 else 8)
      + (if bit_and state 64 == 0 then 0 else 64)

  -- The answer to a pressed key.
  pub record Forwards (langs : List Lang) (m : Message) (fd keysym state : ℕ) (b : Bus)
      (h : Handling) : Type 0 where
    pub requests : List Sent
    pub verdict : Bool
    pub text : Str
    pub asked :
        round langs (Event.key (record { fd = fd; ks = named keysym; mods = modifiers state })) b.im
        ≡ ok (h.bus.im, record { sent = requests; reply = some (fd, response verdict text) })
    pub bytes : List ℕ
    pub frame : response verdict text ≡ (if verdict then 1 else 0) ∷ length bytes ∷ bytes
    pub sent :
        h.sent
        ≡ (if ltb 0 (length bytes) then commit_text m.path (c_string bytes) ∷ [] else [])
          ++ reply (boolean verdict) ∷ []

module _ ⦃u : Utf⦄ (out : Outside) (langs : List Lang) (fits : AllFit langs) where
  quiet :
      (m : Message) (b b' : Bus) (v : Value)
      → IsValid b'.im
      → Returns (ok (answered b' v)) (Outcome m b)
  quiet m b b' v h = (_, refl, replied v [] refl h refl)

  pass : (m : Message) (b : Bus) → Returns (ok (ignored b)) (Outcome m b)
  pass m b = (_, refl, left_alone refl)

  handlekey-Outcome :
      (m : Message) (b : Bus) → IsValid b.im → Returns (handlekey out langs m b) (Outcome m b)
  unfolding handlekey
  handlekey-Outcome m b v =
      Option_Returns m.args (Outcome m b) (λ _. pass m b)
        λ a _.
          if_Returns (not (bit_and a.2 relmask == 0)) (Outcome m b)
            (λ _. quiet m b b (boolean false) v)
            λ _.
              bind_Returns _ (Outcome m b)
                (sendkey-IsValid langs out.pipe (kget a.0) (mget a.2) 256 b.im fits v)
                λ r w. (
                  _,
                  refl,
                  replied (boolean (not (r.1 == 0))) r.2 refl w (
                      ap
                        (λ x.
                          (if ltb 0 (length r.2) then commit_text m.path x ∷ [] else [])
                          ++ reply (boolean (not (r.1 == 0))) ∷ [])
                        (until_zero-c_string r.2)),
                )

  handlereset-Outcome :
      (m : Message) (b : Bus) → IsValid b.im → Returns (handlereset out langs b) (Outcome m b)
  unfolding handlereset sendreset
  handlereset-Outcome m b v =
      bind_Returns (λ im. IsValid im) (Outcome m b)
        (bind_Returns _ (λ im. IsValid im) (sendkey-IsValid langs out.pipe _ 0 64 b.im fits v)
          λ r w. (_, refl, w))
        λ im w. quiet m b _ _ w

  on_context-Outcome :
      (m : Message) (method : List ℕ) (b : Bus)
      → IsValid b.im
      → Returns (on_context out langs m method b) (Outcome m b)
  unfolding on_context
  on_context-Outcome m method b v =
      if_Returns (is method "ProcessKeyEvent") (Outcome m b) (λ _. handlekey-Outcome m b v)
        λ _.
          if_Returns (is_reset method) (Outcome m b) (λ _. handlereset-Outcome m b v)
            λ _. if_Returns (is_noop method) (Outcome m b) (λ _. quiet m b b _ v) λ _. pass m b

  on_call-Outcome :
      (m : Message) (iface method : List ℕ) (b : Bus)
      → IsValid b.im
      → Returns (on_call out langs m iface method b) (Outcome m b)
  unfolding on_call
  on_call-Outcome m iface method b v =
      if_Returns (is iface "org.freedesktop.DBus.Introspectable" && is method "Introspect")
        (Outcome m b) (λ _. quiet m b b _ v)
        λ _.
          if_Returns (is iface "org.freedesktop.DBus" && is method "Hello") (Outcome m b)
            (λ _. quiet m b _ _ v)
            λ _.
              if_Returns (is iface "org.freedesktop.DBus" && is_matching method) (Outcome m b)
                (λ _. quiet m b b _ v)
                λ _.
                  if_Returns (is iface "org.freedesktop.IBus" && is method "CreateInputContext")
                    (Outcome m b) (λ _. quiet m b _ _ v)
                    λ _.
                      if_Returns (is iface "org.freedesktop.IBus.InputContext") (Outcome m b)
                        (λ _. on_context-Outcome m method b v) λ _. pass m b

  -- If every language has a map that fits and a matching pair of handlers, and the state is
  -- valid, `onmsg` returns on every message. Either it does not handle the message, and then
  -- nothing is sent and nothing has changed; or it handles it, the state is valid, and it sends
  -- at most one text, with the path of the message, and behind it exactly one reply.
  pub onmsg-Outcome :
      (m : Message) (b : Bus) → IsValid b.im → Returns (onmsg out langs m b) (Outcome m b)
  unfolding onmsg
  onmsg-Outcome m b v =
      if_Returns (not m.is_call) (Outcome m b) (λ _. pass m b)
        λ _.
          Option_Returns m.iface (Outcome m b) (λ _. pass m b)
            λ iface _.
              Option_Returns m.method (Outcome m b) (λ _. pass m b)
                λ method _.
                  Option_Returns m.path (Outcome m b) (λ _. pass m b)
                    λ path _. on_call-Outcome m iface method b v

  Outcome-IsValid :
      (m : Message) (b : Bus) (h : Handling) → Outcome m b h → IsValid b.im → IsValid h.bus.im
  Outcome-IsValid m b h (left_alone e) v = subst (λ x. IsValid x.bus.im) (sym e) v
  Outcome-IsValid m b h (replied _ _ _ w _) v = w

  pub dispatch-IsValid :
      (ms : List Message) (b : Bus)
      → IsValid b.im
      → Returns (dispatch out langs ms b) λ r. IsValid r.0.im
  unfolding dispatch
  dispatch-IsValid [] b v = (_, refl, v)
  dispatch-IsValid (m ∷ ms) b v =
      bind_Returns (Outcome m b) (λ r. IsValid r.0.im) (onmsg-Outcome m b v)
        λ h o.
          bind_Returns (λ r. IsValid r.0.im) (λ r. IsValid r.0.im)
            (dispatch-IsValid ms h.bus (Outcome-IsValid m b h o v)) λ r w. (_, refl, w)

  -- With a lawful UTF-8 codec, languages whose maps fit, a valid state, a pipe, and a key event
  -- with three numbers and without the release bit, `handlekey` returns. The engine made one
  -- round, from the state before to the state behind, on the key (a keysym from 0xff00 to
  -- 0xffff with the number the engine has for it) with the Shift, Ctrl, Alt and Super bits of
  -- the state, and answered a verdict and a text to the pipe. `handlekey` sends the bytes of
  -- that answer as `CommitText`, as a string of C, which ends at its first zero byte, if there
  -- are any, and then the verdict as its reply.
  pub handlekey-Forwards :
      IsUtf u
      → (m : Message) (b : Bus) (fd keysym code state : ℕ) → IsValid b.im
      → out.pipe ≡ some fd
      → m.args ≡ some (keysym, code, state)
      → (bit_and state relmask == 0) ≡ true
      → Returns (handlekey out langs m b) (Forwards langs m fd keysym state b)
  unfolding handlekey kget mget
  handlekey-Forwards laws m b fd keysym code state v piped args press =
      let (r, run, a) = sendkey-Asks laws langs fd (kget keysym) (mget state) b.im fits v in
      (
        record {
          bus = record b { im = r.0 };
          handled = true;
          sent = commits out langs m r.2 ++ reply (boolean (not (r.1 == 0))) ∷ [];
        },
        rw (args, handlekey, press, piped, run, ◌>>=◌) refl,
        record {
          requests = a.sent;
          verdict = a.verdict;
          text = a.text;
          asked = a.asked;
          bytes = r.2;
          frame = a.all ∙ ap (λ x. x ∷ length r.2 ∷ r.2) a.eaten;
          sent =
              ap
                (λ x.
                  (if ltb 0 (length r.2) then commit_text m.path (until_zero r.2) ∷ [] else [])
                  ++ reply (boolean (not (x == 0))) ∷ [])
                a.eaten
              ∙ truth a.verdict r.2;
        },
      )
    where
      truth :
          (x : Bool) (t : List ℕ)
          → (if ltb 0 (length t) then commit_text m.path (until_zero t) ∷ [] else [])
              ++ reply (boolean (not ((if x then 1 else 0) == 0))) ∷ []
            ≡ (if ltb 0 (length t) then commit_text m.path (c_string t) ∷ [] else [])
              ++ reply (boolean x) ∷ []
      truth true t = rw (until_zero-c_string t) refl
      truth false t = rw (until_zero-c_string t) refl
