-- ===== src/Xim.antt =====
-- xim/main.c: the bridge to XIM clients. What xcb and the socket give are arguments.
pub mod Laws
pub mod Session
pub mod Screens
use Prim.Native.Nat.{bit_and}
use strans.Base.{
  ℕ, ◌+◌, ◌-◌, ◌*◌, ◌/◌, ◌%◌, ◌^◌, Bool, true, false, not, ◌||◌, ◌&&◌, List, [], ◌∷◌, ◌++◌, Option,
  none, some, ltb, leb, ◌==◌, if◌then◌else◌, length, take, drop, get_elem?,
}
use strans.Key.{kspec, kesc, mshift}
use strans.Run.{Run, ok, died, fault, ◌>>=◌}

-- `kmap`, or `none` for NULL, with `minkc`, `maxkc` and `symsper`.
pub record Keymap : Type 0 where
  pub kmap : Option (List ℕ)
  pub minkc : ℕ
  pub maxkc : ℕ
  pub symsper : ℕ

-- The answer to `xcb_get_keyboard_mapping`.
pub record Mapping : Type 0 where
  pub keysyms_per_keycode : ℕ
  pub keysyms : List ℕ

-- `kinit`, on the keycodes of `xcb_get_setup` and that answer; `none` is NULL.
unfoldable pub kinit : Option (ℕ × ℕ) → Option Mapping → Run Keymap
kinit none _ = died
kinit (some _) none = died
kinit (some (min, max)) (some r) =
    ok (record { kmap = some r.keysyms; minkc = min; maxkc = max; symsper = r.keysyms_per_keycode })

-- `col`
unfoldable pub column : ℕ → ℕ → ℕ
column symsper state =
    let shifted = if bit_and state mshift == 0 then 0 else 1 in
    if leb symsper shifted then 0 else shifted

unfoldable pub kget : Keymap → ℕ → ℕ → Run ℕ
kget map kc state = elim map.kmap [
  | none ↦ ok 0
  | some syms ↦
      if ltb kc map.minkc || ltb map.maxkc kc
      then ok 0
      else elim (get_elem? syms ((kc - map.minkc) * map.symsper + column map.symsper state)) [
        | none ↦ fault
        | some sym ↦ ok sym
      ]
]

-- The loop of `getscreen`, on the screens of the connection.
unfoldable pub find_screen {ℓ} : {A : Type ℓ} → List A → ℕ → Run A
find_screen [] scr = died
find_screen (s ∷ screens) scr =
    let later = find_screen screens (scr - 1) in if scr == 0 then ok s else later

-- `none` is a setup that is NULL.
unfoldable pub getscreen {ℓ} : {A : Type ℓ} → Option (List A) → ℕ → Run A
getscreen none scr = died
getscreen (some screens) scr = find_screen screens scr

-- What `readresp` reads from the socket: its result, the text that it commits, and the bytes left.
-- A text is read behind the first two bytes of an array of 64.
unfoldable pub readresp : List ℕ → Run (Option ℕ × List ℕ × List ℕ)
readresp (verdict ∷ n ∷ bytes) =
    if ltb 0 n && ltb n 64
    then (if ltb 62 n && ltb 62 (length bytes)
        then fault
        else if leb n (length bytes)
        then ok (some verdict, take n bytes, drop n bytes)
        else ok (some verdict, [], []))
    else ok (some verdict, [], bytes)
readresp _ = ok (none, [], [])

-- What the client sends: bytes to the engine, a compound text to commit, or the event, back to the program.
pub data Act : Type 0 where
  write : List ℕ → Act
  commit : List ℕ → Act
  forward : Act

-- `xcb_utf8_to_compound_text`; `none` is NULL.
abbrev pub Convert : Type 0
Convert = List ℕ → Option (List ℕ)

-- `commit` sends nothing for an empty text, and nothing where the conversion fails.
unfoldable pub commit_acts : Convert → List ℕ → List Act
commit_acts convert [] = []
commit_acts convert (b ∷ s) = elim (convert (b ∷ s)) [ none ↦ [] | some ct ↦ commit ct ∷ [] ]

-- The key that goes to the engine, in 32 bits.
unfoldable pub engine_key : ℕ → ℕ
engine_key key = if leb 0xff00 key then (kspec + (key - 0xff00)) % 2 ^ 32 else key

unfoldable pub request_bytes : ℕ → ℕ → List ℕ
request_bytes key state = 0 ∷ state % 256 ∷ key % 256 ∷ key / 256 % 256 ∷ []

-- The event goes back to the program where the engine did not eat it.
unfoldable pub forwards : Option ℕ → List Act
forwards none = []
forwards (some r) = if r == 0 then forward ∷ [] else []

-- `kpress`; `socket` is what the engine answers, and `writes` whether the request can be written.
unfoldable pub kpress : Convert → Keymap → Bool → List ℕ → ℕ → ℕ → Run (List Act × List ℕ)
unfolding commit_acts engine_key request_bytes forwards
kpress convert map writes socket detail state = kget map detail state >>= (λ sym.
    if writes
    then readresp socket >>= (λ r. ok (
      write (request_bytes (engine_key sym) state) ∷ (commit_acts convert r.1 ++ forwards r.0),
      r.2,
    ))
    else died)

unfoldable pub reset : Convert → Bool → List ℕ → Run (List Act × List ℕ)
unfolding commit_acts
reset convert writes socket =
    if writes
    then readresp socket
      >>= (λ r. ok (write (0 ∷ 0 ∷ kesc % 256 ∷ kesc / 256 ∷ []) ∷ commit_acts convert r.1, r.2))
    else died

-- The messages that `callback` tells apart; the event of a forwarded one is nil, or has a type, a
-- keycode and a state.
pub data Packet : Type 0 where
  forward_event : Option (ℕ × ℕ × ℕ) → Packet
  unset_ic_focus : Packet
  other : Packet

-- `XCB_KEY_PRESS` is 2; the top bit of the type says who sent it.
unfoldable pub callback : Convert → Keymap → Bool → List ℕ → Packet → Run (List Act × List ℕ)
callback convert map writes socket (forward_event none) = ok ([], socket)
callback convert map writes socket (forward_event (some (type, detail, state))) =
    if type % 128 == 2 then kpress convert map writes socket detail state else ok ([], socket)
callback convert map writes socket unset_ic_focus = reset convert writes socket
callback convert map writes socket other = ok ([], socket)
