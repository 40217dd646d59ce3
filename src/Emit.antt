-- ===== src/Emit.antt =====
-- dat.h, `Emit`: what a language's automaton returns for a key.
use strans.Base.{Bool, false, []}
use strans.Str.{Str}

-- `s` is to be committed, `next` is the new preedit, `dict` the key to look up.
pub record Emit : Type 0 where
  pub eat : Bool
  pub s : Str
  pub next : Str
  pub dict : Str

-- `Emit e = {0}`
abbrev pub no_emit : Emit
no_emit = record { eat = false; s = []; next = []; dict = [] }
