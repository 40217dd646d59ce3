-- ===== src/Key.antt =====
-- strans.c: the key handler.
pub mod Draws
pub mod Typed
pub mod Valid
pub mod Total
pub mod Shown
use Prim.Native.Nat.{bit_and}
use strans.Base.{
  ℕ, zero, suc, ◌+◌, ◌-◌, ◌%◌, ◌^◌, Bool, true, false, not, List, Option, none, some, ltb, leb,
  ◌==◌, ◌&&◌, ◌||◌, if◌then◌else◌, length, get_elem?,
}
use strans.Im.{
  Im, Turn, max_disp, first_shown, show, reset, dictqmap, setlang, commit, back, dotrans,
}
use strans.Lang.{Lang}
use strans.Run.{Run, ok, fault, ◌>>=◌}
use strans.Str.{sappend, sputr}
use strans.Utf.{Utf}

-- ipc.h
abbrev pub kspec : ℕ
kspec = 0xf000

abbrev pub kback : ℕ
kback = 0xf008

abbrev pub ktab : ℕ
ktab = 0xf009

abbrev pub kret : ℕ
kret = 0xf00d

abbrev pub kesc : ℕ
kesc = 0xf01b

abbrev pub kup : ℕ
kup = 0xf052

abbrev pub kdown : ℕ
kdown = 0xf054

abbrev pub kshift : ℕ
kshift = 0xf0e1

abbrev pub ksuper : ℕ
ksuper = 0xf0eb

abbrev pub mshift : ℕ
mshift = 1

abbrev pub mctrl : ℕ
mctrl = 4

abbrev pub malt : ℕ
malt = 8

abbrev pub msuper : ℕ
msuper = 64

abbrev Result : Type 0
Result = Run (Bool × Turn)

abbrev eaten : Run Turn → Result
eaten r = r >>= (λ t. ok (true, t))

abbrev passed : Run Turn → Result
passed r = r >>= (λ t. ok (false, t))

-- The selection after Kdown and after Kup, among `n` candidates, at least one; -1 is below them all.
unfoldable pub sel_down : ℕ → Option ℕ → Option ℕ
sel_down n none = some 0
sel_down n (some s) = if ltb (s + 1) n then some (s + 1) else some s

unfoldable pub sel_up : Option ℕ → Option ℕ
sel_up none = none
sel_up (some zero) = none
sel_up (some (suc s)) = some s

-- `if(ks == Kdown || ks == Kup)`
unfoldable pub key_arrow : ⦃u : Utf⦄ → ℕ → Turn → Result
key_arrow ks t =
    let sel = if ks == kdown then sel_down (length t.im.kouho) t.im.sel else sel_up t.im.sel in
    if length t.im.kouho == 0
    then ok (false, t)
    else eaten (show (record t { im = record t.im { sel = sel } }))

-- The candidate that a digit key stands for: `off + n`, if it is one.
unfoldable pub digit : ℕ → Im → Option ℕ
digit ks im =
    let n = (ks + 2 ^ 32 - b'1') % 2 ^ 32 in
    let i = first_shown im.sel + n in
    if ltb n max_disp && ltb i (length im.kouho) then some i else none

-- A candidate is appended to the text to commit.
unfoldable pub choose : ⦃u : Utf⦄ → ℕ → Turn → Result
choose i t = elim (get_elem? t.im.kouho i) [
  | none ↦ fault
  | some s ↦ eaten (reset (record t { text = sappend t.text s }))
]

-- `if(ks == Ktab || ks == Kret)`, with no candidate selected
unfoldable pub key_commit : ⦃u : Utf⦄ → Turn → Result
key_commit t = if ltb 0 (length t.im.pre) then eaten (commit t >>= reset) else ok (false, t)

-- `if(ks == Ktab || ks == Kret)`
unfoldable pub key_return : ⦃u : Utf⦄ → Turn → Result
key_return t = elim t.im.sel [
  | none ↦ key_commit t
  | some s ↦ if ltb s (length t.im.kouho) then choose s t else key_commit t
]

-- `if(ks == Kback)`
unfoldable pub key_back : ⦃u : Utf⦄ → Turn → Result
key_back t =
    if length t.im.pre == 0
    then ok (false, t)
    else back t.im.l t.im.pre >>= (λ pre.
      let t' = record t { im = record t.im { pre = pre } } in
      if length pre == 0 then eaten (reset t') else eaten (dictqmap t'))

-- `if(ks == Kesc)`
unfoldable pub key_escape : ⦃u : Utf⦄ → Turn → Result
key_escape t = if length t.im.pre == 0 then ok (false, t) else eaten (reset t)

-- The code of a control key.
unfoldable pub control : ℕ → ℕ
control ks = if leb b'a' ks && leb ks b'z' then ks - (b'a' - 1) else ks

-- `if(mods & Mctrl)`
unfoldable pub key_control : ⦃u : Utf⦄ → List Lang → ℕ → Turn → Result
key_control langs ks t = do
  t' ← reset t
  elim (setlang langs (control ks) t'.im) [
    | none ↦ ok (false, t')
    | some im ↦ ok (true, record t' { im = im })
  ]

-- `if(ks > 0x7f || ks == ' ')`
unfoldable pub key_plain : ⦃u : Utf⦄ → ℕ → Turn → Result
key_plain ks t = do
  t' ← commit t
  text ← sputr t'.text ks
  eaten (reset (record t' { text = text }))

-- The last part of `keystroke`, behind the special keys and the modifiers.
unfoldable pub key_text : ⦃u : Utf⦄ → ℕ → Turn → Result
key_text ks t =
    if ks == b'0' && ltb 0 (length t.im.kouho)
    then eaten (commit t >>= reset)
    else if ltb 0x7f ks || ks == b' '
    then key_plain ks t
    else eaten (dotrans ks t >>= show)

-- `keystroke` behind the tests of the keys that choose or edit.
unfoldable pub key_modified : ⦃u : Utf⦄ → List Lang → ℕ → ℕ → Turn → Result
key_modified langs ks mods t =
    if leb kspec ks || not (bit_and mods (malt + msuper) == 0)
    then passed (commit t >>= reset)
    else if not (bit_and mods mctrl == 0)
    then key_control langs ks t
    else key_text ks t

unfoldable pub key_edit : ⦃u : Utf⦄ → List Lang → ℕ → ℕ → Turn → Result
key_edit langs ks mods t =
    if ks == ktab || ks == kret
    then key_return t
    else if ks == kback
    then key_back t
    else if ks == kesc
    then key_escape t
    else key_modified langs ks mods t

unfoldable pub keystroke : ⦃u : Utf⦄ → List Lang → ℕ → ℕ → Turn → Result
keystroke langs ks mods t =
    if ks == ksuper || ks == kshift
    then ok (true, t)
    else if ks == kdown || ks == kup
    then key_arrow ks t
    else elim (digit ks t.im) [ some i ↦ choose i t | none ↦ key_edit langs ks mods t ]
