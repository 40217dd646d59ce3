-- ===== src/Ibus.antt =====
-- ibus.c: the bridge to IBus clients. A D-Bus message is what its accessors return, and a
-- connection sends values. libdbus calls back into `addwatch`, `removewatch` and `newconn` while a
-- watch is handled; what it calls is a parameter.
pub mod Watches
pub mod Keys
pub mod Address
pub mod Init
pub mod Announce
pub mod Loop
pub mod Asks
pub mod Answers
pub mod Thread
use Prim.Native.Nat.{bit_and}
use strans.Base.{
  ℕ, ◌+◌, ◌^◌, Bool, true, false, not, ◌&&◌, ◌||◌, List, [], ◌∷◌, ◌++◌, Option, none, some, ltb,
  ◌==◌, equal, if◌then◌else◌, length, codes, String,
}
use strans.Hash.{until_zero}
use strans.Ibus.Keys.{kget, mget, sendkey, sendreset}
use strans.Ibus.Watches.{
  WatchTable, addwatch, removewatch, newconn, pruneconns, Pollfd, WatchInfo, Flags, poll_set, ready,
}
use strans.Im.{Im}
use strans.Lang.{Lang}
use strans.Run.{Run, ok, ◌>>=◌}
use strans.Utf.{Utf}

-- What `dbus_message_get_...` return; `none` is nil. `args` are the three numbers of a key event, or
-- `none` where `dbus_message_get_args` fails.
pub record Message : Type 0 where
  pub is_call : Bool
  pub iface : Option (List ℕ)
  pub method : Option (List ℕ)
  pub path : Option (List ℕ)
  pub args : Option (ℕ × ℕ × ℕ)

pub data Value : Type 0 where
  nothing : Value
  boolean : Bool → Value
  text : List ℕ → Value
  object : List ℕ → Value

-- What a handler sends: a return of the call, and a `CommitText` signal at a path.
pub data Signal : Type 0 where
  reply : Value → Signal
  commit_text : Option (List ℕ) → List ℕ → Signal

-- The two counters, and the engine behind the channel.
pub record Bus : Type 0 where
  pub icctr : ℕ
  pub busctr : ℕ
  pub im : Im

-- The state, whether the result is `HANDLED` and not `NOT_YET_HANDLED`, and what was sent.
pub record Handling : Type 0 where
  pub bus : Bus
  pub handled : Bool
  pub sent : List Signal

abbrev pub ignored : Bus → Handling
ignored b = record { bus = b; handled = false; sent = [] }

abbrev pub answered : Bus → Value → Handling
answered b v = record { bus = b; handled = true; sent = reply v ∷ [] }

-- What the code takes from outside: `decimal` prints a number (`%d`), `pipe` is the descriptor that
-- a key's answer is written to, and `xml` is the text of `introspectxml`.
pub record Outside : Type 0 where
  pub decimal : ℕ → List ℕ
  pub pipe : Option ℕ
  pub xml : List ℕ

abbrev pub relmask : ℕ
relmask = 2 ^ 30

-- `strcmp(s, name) == 0`
abbrev pub is : List ℕ → String → Bool
is s name = equal s (codes name)

-- The calls of an input context that take its focus away or reset it, and those that do nothing.
abbrev pub is_reset : List ℕ → Bool
is_reset method = is method "FocusOut" || is method "Reset"

abbrev pub is_noop : List ℕ → Bool
is_noop method =
    is method "FocusIn"
    || is method "Destroy"
    || is method "SetCapabilities"
    || is method "SetCursorLocation"
    || is method "SetEngine"

abbrev pub is_matching : List ℕ → Bool
is_matching method = is method "AddMatch" || is method "RemoveMatch"

module _ ⦃u : Utf⦄ (out : Outside) (langs : List Lang) where
  unfoldable pub handlehello : Bus → Run Handling
  handlehello b =
      let b' = record b { busctr = b.busctr + 1 } in
      ok (answered b' (text (codes ":1." ++ out.decimal b'.busctr)))

  unfoldable pub handlecreate : Bus → Run Handling
  handlecreate b =
      let b' = record b { icctr = b.icctr + 1 } in
      ok
        (answered b' (object (codes "/org/freedesktop/IBus/InputContext_" ++ out.decimal b'.icctr)))

  -- `emitcommit`, for a text that is not empty: a string of C, which ends at its first zero byte.
  abbrev pub commits : Message → List ℕ → List Signal
  commits m t = if ltb 0 (length t) then commit_text m.path (until_zero t) ∷ [] else []

  unfoldable pub handlekey : Message → Bus → Run Handling
  handlekey m b = elim m.args [
    | none ↦ ok (ignored b)
    | some (sym, code, state) ↦
        if not (bit_and state relmask == 0)
        then ok (answered b (boolean false))
        else sendkey langs out.pipe (kget sym) (mget state) 256 b.im >>= (λ r. ok (record {
          bus = record b { im = r.0 };
          handled = true;
          sent = commits m r.2 ++ reply (boolean (not (r.1 == 0))) ∷ [];
        }))
  ]

  unfoldable pub handlenoop : Bus → Run Handling
  handlenoop b = ok (answered b nothing)

  unfoldable pub handlereset : Bus → Run Handling
  unfolding handlenoop
  handlereset b = do im ← sendreset langs out.pipe b.im; handlenoop (record b { im = im })

  unfoldable pub handleintrospect : Bus → Run Handling
  handleintrospect b = ok (answered b (text out.xml))

  unfoldable pub on_context : Message → List ℕ → Bus → Run Handling
  unfolding handlekey handlereset handlenoop
  on_context m method b =
      if is method "ProcessKeyEvent"
      then handlekey m b
      else if is_reset method
      then handlereset b
      else if is_noop method
      then handlenoop b
      else ok (ignored b)

  -- The tests of `onmsg` on the interface and the member. No two interfaces are equal, so a member
  -- that one of them does not know falls through to the end.
  unfoldable pub on_call : Message → List ℕ → List ℕ → Bus → Run Handling
  unfolding handleintrospect handlehello handlenoop handlecreate on_context
  on_call m iface method b =
      if is iface "org.freedesktop.DBus.Introspectable" && is method "Introspect"
      then handleintrospect b
      else if is iface "org.freedesktop.DBus" && is method "Hello"
      then handlehello b
      else if is iface "org.freedesktop.DBus" && is_matching method
      then handlenoop b
      else if is iface "org.freedesktop.IBus" && is method "CreateInputContext"
      then handlecreate b
      else if is iface "org.freedesktop.IBus.InputContext"
      then on_context m method b
      else ok (ignored b)

  unfoldable pub onmsg : Message → Bus → Run Handling
  unfolding on_call
  onmsg m b = if not m.is_call then ok (ignored b) else elim m.iface [
    | none ↦ ok (ignored b)
    | some iface ↦ elim m.method [
      | none ↦ ok (ignored b)
      | some method ↦ elim m.path [ none ↦ ok (ignored b) | some path ↦ on_call m iface method b ]
    ]
  ]

  -- The messages that `dbus_connection_dispatch` hands to `onmsg`, one after the other.
  unfoldable pub dispatch : List Message → Bus → Run (Bus × List Signal)
  dispatch [] b = ok (b, [])
  dispatch (m ∷ ms) b = do h ← onmsg m b; (b', sent) ← dispatch ms h.bus; ok (b', h.sent ++ sent)
