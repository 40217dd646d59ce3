-- ===== src/Client.antt =====
-- srv.c, and the GTK client in gtk/main.c: requests and responses as bytes on a socket.
pub mod Frames
pub mod Gtk
pub mod Session
pub mod Talk
pub mod Dial
use strans.Base.{
  ℕ, ◌*◌, ◌+◌, ◌/◌, ◌%◌, List, [], ◌∷◌, Option, none, some, ltb, leb, ◌&&◌, if◌then◌else◌, length,
  take, drop,
}
use strans.Key.{kesc}
use strans.Thread.{Keyreq}

-- The loop of `clientthread`, on all bytes that a client sends: a request for each four of them. The
-- two bytes of the key do not overlap, so `|` is a sum.
unfoldable pub clientthread : ℕ → List ℕ → List Keyreq
clientthread fd (_ ∷ mods ∷ lo ∷ hi ∷ req) =
    record { fd = fd; ks = lo + hi * 256; mods = mods } ∷ clientthread fd req
clientthread fd _ = []

-- The four bytes that `kpress` writes for a key and its modifiers.
unfoldable pub request_bytes : ℕ → ℕ → List ℕ
request_bytes key mods = 0 ∷ mods % 256 ∷ key % 256 ∷ key / 256 % 256 ∷ []

-- The four bytes that `sendreset` writes.
unfoldable pub reset_bytes : List ℕ
reset_bytes = 0 ∷ 0 ∷ kesc % 256 ∷ kesc / 256 ∷ []

-- What `readresp` takes from the bytes of the engine: its result, the text in `buf`, and the bytes
-- that are left; `none` is -1.
unfoldable pub readresp : ℕ → List ℕ → Option (ℕ × List ℕ × List ℕ)
readresp bufsz (verdict ∷ n ∷ bytes) =
    if ltb 0 n && ltb n bufsz
    then (if leb n (length bytes) then some (verdict, take n bytes, drop n bytes) else none)
    else some (verdict, [], bytes)
readresp bufsz _ = none
