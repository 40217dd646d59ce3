-- ===== src/Im.antt =====
-- strans.c: the state of the input method, and the steps that its key handler is made of. Sends on
-- the channels are values: a handler returns what it sent, oldest first.
pub mod Valid
pub mod Steps
use strans.Base.{
  ℕ, ◌+◌, ◌-◌, List, [], ◌∷◌, ◌++◌, Option, none, some, ltb, leb, ◌&&◌, if◌then◌else◌, length, take,
  drop,
}
use strans.Dict.{Dictreq, Dictres, max_kouho}
use strans.Emit.{Emit}
use strans.Ko.{transko, backko}
use strans.Lang.{Lang, by_map, by_ko, by_vi, back_map, back_ko, getlang}
use strans.Map.{mapget, transmap, translated}
use strans.Run.{Run, ok, fault, ◌>>=◌}
use strans.Str.{Str, sclear, spopr, sappend}
use strans.Utf.{Utf}
use strans.Vi.{transvi}

abbrev pub max_disp : ℕ
max_disp = 8

-- `kouho` is the first `nkouho` candidates; `none` in `sel` is -1.
pub record Im : Type 0 where
  pub l : Lang
  pub pre : Str
  pub kouho : List Str
  pub sel : Option ℕ

pub record Drawcmd : Type 0 where
  pub pre : Str
  pub kouho : List Str
  pub sel : Option ℕ

-- A send on `drawc`, or one on `dictreqc`, which does not block and may be dropped.
pub data Sent : Type 0 where
  draw : Drawcmd → Sent
  request : Dictreq → Sent

-- What a handler works on: the state, the text to commit, and what was sent.
pub record Turn : Type 0 where
  pub im : Im
  pub text : Str
  pub sent : List Sent

abbrev pub clearkouho : Im → Im
clearkouho im = record im { kouho = []; sel = none }

-- The array has room for `Maxkouho` candidates.
unfoldable pub setkouho : Im → Dictres → Run Im
setkouho im res =
    if leb (length res.kouho) max_kouho
    then ok (record im { kouho = res.kouho; sel = none })
    else fault

-- The first candidate of those that are shown.
unfoldable pub first_shown : Option ℕ → ℕ
first_shown none = 0
first_shown (some s) = if leb max_disp s then s + 1 - max_disp else 0

unfoldable pub show_sel : Option ℕ → Option ℕ
unfolding first_shown
show_sel none = none
show_sel (some s) = some (s - first_shown (some s))

-- The window on the candidates; `nkouho - first` is not negative in a valid state.
unfoldable pub drawcmd : ⦃u : Utf⦄ → Im → Run Drawcmd
drawcmd im = do
  pre ← translated im.l.map im.pre
  ok (record {
    pre = pre;
    kouho = take max_disp (drop (first_shown im.sel) im.kouho);
    sel = show_sel im.sel;
  })

unfoldable pub show : ⦃u : Utf⦄ → Turn → Run Turn
show t = do dc ← drawcmd t.im; ok (record t { sent = t.sent ++ draw dc ∷ [] })

unfoldable pub reset : ⦃u : Utf⦄ → Turn → Run Turn
reset t = show (record t { im = clearkouho (record t.im { pre = sclear t.im.pre }) })

unfoldable pub dictsend : Turn → Str → Turn
dictsend t key =
    let req : Dictreq = record { key = key; pre = t.im.pre; lang = t.im.l.lang } in
    record t { sent = t.sent ++ request req ∷ [] }

unfoldable pub dictqmap : ⦃u : Utf⦄ → Turn → Run Turn
dictqmap t = do
  dict ← mapget t.im.l.map t.im.pre
  elim dict [ none ↦ show (record t { im = clearkouho t.im }) | some key ↦ ok (dictsend t key) ]

-- `none` where there is no such language.
unfoldable pub setlang : List Lang → ℕ → Im → Option Im
setlang langs c im = elim (getlang langs c) [ none ↦ none | some l ↦ some (record im { l = l }) ]

unfoldable pub commit : ⦃u : Utf⦄ → Turn → Run Turn
commit t = do
  val ← translated t.im.l.map t.im.pre
  ok (record t { text = sappend t.text val; im = record t.im { pre = sclear t.im.pre } })

-- `l->trans(im, c)`. Only `transko` changes `im->pre`; it is returned beside the `Emit`.
unfoldable pub trans : ⦃u : Utf⦄ → Lang → Str → ℕ → Run (Str × Emit)
trans l pre c = elim l.trans [
  | by_map ↦ do e ← transmap l.map pre c; ok (pre, e)
  | by_ko ↦ transko pre c
  | by_vi ↦ do e ← transvi l.map pre c; ok (pre, e)
]

-- `l->back(im)`
unfoldable pub back : Lang → Str → Run Str
back l pre = elim l.back [ back_map ↦ ok (spopr pre) | back_ko ↦ backko pre ]

-- `dotrans`; its result, `e.eat`, is used by no caller.
unfoldable pub dotrans : ⦃u : Utf⦄ → ℕ → Turn → Run Turn
dotrans c t = do
  (pre, e) ← trans t.im.l t.im.pre c
  let text = if ltb 0 (length e.s) then sappend t.text e.s else t.text
  let t' = record t { text = text; im = record t.im { pre = sappend (sclear pre) e.next } }
  ok (if e.eat && ltb 0 (length e.dict) then dictsend t' e.dict else t')
