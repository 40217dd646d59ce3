-- ===== src/Client/Gtk.antt =====
-- gtk/main.c: an input context. What GTK, GDK and the socket give are arguments.
use strans.Base.{
  ℕ, zero, suc, ◌+◌, ◌-◌, ◌≤◌, ◌<◌, ◌≡◌, refl, Bool, true, false, not, ◌&&◌, List, [], ◌∷◌, ◌++◌,
  Option, none, some, leb, ltb, ◌==◌, equal, codes, if◌then◌else◌, length, arith, Bool-cases, inl,
  inr,
}
use strans.Client.Frames.{Reads, readresp-response, c_string, said, until_zero-c_string}
use strans.Hash.{until_zero}
use strans.Client.{request_bytes, reset_bytes, readresp}
use strans.Key.{kspec, mshift, mctrl, malt, msuper}
use strans.Str.{Str}
use strans.Thread.{response}
use strans.Utf.{Utf, IsUtf}

-- `im->fd`, with `none` for a negative one. What `socket` and `connect` give is the second argument.
unfoldable pub srvconnect : Option ℕ → Option ℕ → Option ℕ
srvconnect none fresh = fresh
srvconnect (some fd) fresh = some fd

-- `gdk_keyval_to_unicode` is an argument. `Kspec + (gdk - 0xff00)` does not wrap for a keyval below
-- 2 ^ 32 - 0xf000, and GDK has none above 0x1ffffff.
unfoldable pub kget : (ℕ → ℕ) → ℕ → ℕ
kget to_unicode gdk = if leb 0xff00 gdk then kspec + (gdk - 0xff00) else to_unicode gdk

-- The four masks of GDK, as tested on `state`.
pub record Modifiers : Type 0 where
  pub shift : Bool
  pub control : Bool
  pub mod1 : Bool
  pub super : Bool

unfoldable pub mget : Modifiers → ℕ
mget m =
    (if m.shift then mshift else 0)
    + (if m.control then mctrl else 0)
    + (if m.mod1 then malt else 0)
    + (if m.super then msuper else 0)

-- What a call does: the descriptor it leaves, its result, the bytes that it wrote, the text that it
-- commits, and the bytes left on the socket.
pub record Outcome : Type 0 where
  pub fd : Option ℕ
  pub result : Bool
  pub wrote : List ℕ
  pub commit : Option (List ℕ)
  pub rest : List ℕ

-- `r != 0 && resp[0] != '\0'`, and the text, which ends at its first zero byte.
unfoldable pub committed : ℕ → List ℕ → Option (List ℕ)
committed r [] = none
committed r (b ∷ resp) = if not (r == 0) && not (b == 0) then some (until_zero (b ∷ resp)) else none

abbrev pub nothing_done : Option ℕ → List ℕ → Outcome
nothing_done fd socket = record {
  fd = fd;
  result = false;
  wrote = [];
  commit = none;
  rest = socket;
}

-- `kpress` behind `srvconnect`.
unfoldable pub ask : (ℕ → ℕ) → Bool → List ℕ → ℕ → Modifiers → Option ℕ → Outcome
unfolding kget mget committed
ask to_unicode writes socket keyval state none = nothing_done none socket
ask to_unicode writes socket keyval state (some fd) =
    let key = kget to_unicode keyval in
    let bytes = request_bytes key (mget state) in
    if key == 0
    then nothing_done (some fd) socket
    else if not writes
    then nothing_done (some fd) socket
    else elim (readresp 64 socket) [
      | none ↦ record (nothing_done (some fd) []) { wrote = bytes }
      | some (r, resp, rest) ↦ record {
        fd = some fd;
        result = not (r == 0);
        wrote = bytes;
        commit = committed r resp;
        rest = rest;
      }
    ]

-- `kpress`, on an event that is a key press or not.
unfoldable pub kpress :
    (ℕ → ℕ) → Option ℕ → Bool → List ℕ → Bool → ℕ → Modifiers → Option ℕ → Outcome
unfolding srvconnect ask
kpress to_unicode fresh writes socket is_press keyval state fd =
    if not is_press
    then nothing_done fd socket
    else ask to_unicode writes socket keyval state (srvconnect fd fresh)

-- `sendreset`, which `reset` and `focusout` call: the bytes written, and those left.
unfoldable pub sendreset : Option ℕ → Bool → List ℕ → List ℕ × List ℕ
sendreset none writes socket = ([], socket)
sendreset (some fd) writes socket =
    if writes
    then (reset_bytes, elim (readresp 64 socket) [ none ↦ [] | some (r, resp, rest) ↦ rest ])
    else ([], socket)

-- `init` of the type: no descriptor.
abbrev pub init : Option ℕ
init = none

-- `im_module_create`: whether there is such a context.
unfoldable pub im_module_create : List ℕ → Bool
im_module_create id = equal id (codes "strans")

-- What a pressed key gives, where the engine answers with the verdict `r` and the text `bs`.
pub record Pressed (r : Bool) (bs rest : List ℕ) (o : Outcome) : Type 0 where
  pub result : o.result ≡ r
  pub eaten : r ≡ true → length bs < 64 → o.commit ≡ said bs
  pub lost : r ≡ false → o.commit ≡ none
  pub in_step : length bs < 64 → o.rest ≡ rest
  pub out_of_step : 64 ≤ length bs → (o.commit ≡ none) × (o.rest ≡ bs ++ rest)

pub committed-said :
    (r : Bool) (bs : List ℕ) → committed (if r then 1 else 0) bs ≡ (if r then said bs else none)
unfolding committed c_string
committed-said true [] = refl
committed-said false [] = refl
committed-said true (zero ∷ bs) = ground arith
committed-said true (suc b ∷ bs) = rw (until_zero-c_string (suc b ∷ bs)) (ground arith)
committed-said false (b ∷ bs) = refl

module _ ⦃u : Utf⦄ (laws : IsUtf u) (to_unicode : ℕ → ℕ) (fd : ℕ) (keyval : ℕ)
    (state : Modifiers) where
  answered_lem :
      (r : Bool) (bs rest socket : List ℕ)
      → (kget to_unicode keyval == 0) ≡ false
      → Reads 64 (if r then 1 else 0) bs rest (readresp 64 socket)
      → Pressed r bs rest (kpress to_unicode none true socket true keyval state (some fd))
  unfolding kpress committed
  answered_lem r bs rest socket key (short, long) = elim (Bool-cases (ltb (length bs) 64)) [
    | inl less ↦
        let e = short (ground arith) in
        rw (key, e, kpress, ask)
          (record {
            result = truth r;
            eaten = λ t _. rw t (committed-said true bs);
            lost = λ f. rw f (committed-said false bs);
            in_step = λ _. refl;
            out_of_step = λ h. absurd (ground arith);
          })
    | inr more ↦
        let e = long (ground arith) in
        rw (key, e, kpress, ask)
          (record {
            result = truth r;
            eaten = λ _ h. absurd (ground arith);
            lost = λ _. refl;
            in_step = λ h. absurd (ground arith);
            out_of_step = λ _. (refl, refl);
          })
  ]
    where
      truth : (x : Bool) → not ((if x then 1 else 0) == 0) ≡ x
      truth true = refl
      truth false = refl

  -- With a lawful UTF-8 codec, on a key press whose key is not 0, a connection that can be
  -- written, and the response of the engine in front of what follows on the socket, `kpress` of
  -- the GTK client has the verdict as its result. A text of fewer than 64 bytes is committed if
  -- the verdict is true and the text does not start with a zero byte, and leaves what follows;
  -- with the verdict false no text is committed; a text of 64 or more bytes is not committed,
  -- and its bytes stay in front of what follows.
  pub kpress-Pressed :
      (r : Bool) (text : Str) (rest : List ℕ)
      → (kget to_unicode keyval == 0) ≡ false
      → (bs : List ℕ) × (response r text ≡ (if r then 1 else 0) ∷ length bs ∷ bs)
        × Pressed r bs rest
            (kpress to_unicode none true (response r text ++ rest) true keyval state (some fd))
  kpress-Pressed r text rest key =
      let (bs, e, reads) = readresp-response laws r text rest 64 (omega arith) in
      (bs, e, answered_lem r bs rest (response r text ++ rest) key reads)
