-- ===== src/System/Window.antt =====
-- The threads together: the draw command that the window will show last, the preedit that the
-- dictionary will answer last, and how the steps carry both on.
use strans.Base.{◌≡◌, refl, ap, subst, ◌⊎◌, inl, inr, List, [], ◌∷◌, ◌++◌, Option, none, some}
use strans.Dict.{Dictreq}
use strans.Im.{Im, Drawcmd, Sent, draw, request, drawcmd}
use strans.Run.{ok}
use strans.Str.{Str}
use strans.System.{System, ImThread, alts, rounds, DictThread, DrawThread}
use strans.Utf.{Utf}

abbrev pub or_else {ℓ} : {A : Type ℓ} → Option A → Option A → Option A
or_else none o = o
or_else (some a) o = some a

pub or_else_assoc {ℓ} :
    {A : Type ℓ} (a b c : Option A) → or_else (or_else a b) c ≡ or_else a (or_else b c)
or_else_assoc none b c = refl
or_else_assoc (some a) b c = refl

abbrev pub last {ℓ} : {A : Type ℓ} → List A → Option A
last [] = none
last (x ∷ xs) = or_else (last xs) (some x)

pub last-concat {ℓ} : {A : Type ℓ} (xs : List A) (x : A) → last (xs ++ x ∷ []) ≡ some x
last-concat [] x = refl
last-concat (y ∷ xs) x = ap (λ o. or_else o (some y)) (last-concat xs x)

-- The last draw command among the sends, and the preedit of the last request.
abbrev pub last_draw : List Sent → Option Drawcmd
last_draw [] = none
last_draw (draw dc ∷ sent) = or_else (last_draw sent) (some dc)
last_draw (request req ∷ sent) = last_draw sent

abbrev pub last_asked : List Sent → Option Str
last_asked [] = none
last_asked (draw dc ∷ sent) = last_asked sent
last_asked (request req ∷ sent) = or_else (last_asked sent) (some req.pre)

pub last_draw-concat :
    (sent : List Sent) (dc : Drawcmd) → last_draw (sent ++ draw dc ∷ []) ≡ some dc
last_draw-concat [] dc = refl
last_draw-concat (draw d ∷ sent) dc = ap (λ o. or_else o (some d)) (last_draw-concat sent dc)
last_draw-concat (request req ∷ sent) dc = last_draw-concat sent dc

abbrev pub im_draw : ImThread → Option Drawcmd
im_draw alts = none
im_draw (rounds todo reply) = last_draw todo

abbrev pub im_asked : ImThread → Option Str
im_asked alts = none
im_asked (rounds todo reply) = last_asked todo

abbrev pub held_draw : DrawThread → Option Drawcmd
held_draw DrawThread.receives = none
held_draw (DrawThread.drains dc) = some dc

abbrev pub held_asked : DictThread → Option Str
held_asked DictThread.receives = none
held_asked (DictThread.drains req) = some req.pre
held_asked (DictThread.answers res) = some res.key

abbrev pub queue_asked : List Dictreq → Option Str
queue_asked [] = none
queue_asked (req ∷ q) = or_else (queue_asked q) (some req.pre)

pub queue_asked-concat :
    (q : List Dictreq) (req : Dictreq) → queue_asked (q ++ req ∷ []) ≡ some req.pre
queue_asked-concat [] req = refl
queue_asked-concat (r ∷ q) req = ap (λ o. or_else o (some r.pre)) (queue_asked-concat q req)

-- What the window shows once all draw commands have reached it.
abbrev pub window : System → Option Drawcmd
window s =
    or_else (im_draw s.im_thread)
      (or_else (last s.draws) (or_else (held_draw s.draw_thread) s.shown))

-- The preedit of the newest request without an answer.
abbrev pub awaits : System → Option Str
awaits s =
    or_else (im_asked s.im_thread) (or_else (queue_asked s.requests) (held_asked s.dict_thread))

-- A request for the preedit is among those dropped.
abbrev pub Lost : Str → List Dictreq → Type 0
Lost pre [] = ⊥
Lost pre (req ∷ reqs) = (req.pre ≡ pre) ⊎ Lost pre reqs

pub Lost-append : (pre : Str) (xs ys : List Dictreq) → Lost pre xs → Lost pre (xs ++ ys)
Lost-append pre [] ys h = absurd h
Lost-append pre (x ∷ xs) ys (inl e) = inl e
Lost-append pre (x ∷ xs) ys (inr h) = inr (Lost-append pre xs ys h)

pub Lost-concat :
    (pre : Str) (xs : List Dictreq) (req : Dictreq) → req.pre ≡ pre → Lost pre (xs ++ req ∷ [])
Lost-concat pre [] req e = inl e
Lost-concat pre (x ∷ xs) req e = inr (Lost-concat pre xs req e)

module _ ⦃u : Utf⦄ where
  -- The window will show the state `im`, `w` being what it will show; or a request for its preedit
  -- has no answer, `a` being the newest without one; or such a request was dropped.
  pub data IsFresh (im : Im) (w : Option Drawcmd) (a : Option Str) (lost : List Dictreq)
      : Type 0 where
    current : (dc : Drawcmd) → w ≡ some dc → drawcmd im ≡ ok dc → IsFresh im w a lost
    undrawn : w ≡ none → im.pre ≡ [] → im.kouho ≡ [] → IsFresh im w a lost
    awaited : a ≡ some im.pre → IsFresh im w a lost
    dropped : Lost im.pre lost → IsFresh im w a lost

  abbrev pub Fresh : System → Type 0
  Fresh s = IsFresh s.im (window s) (awaits s) s.dropped

  pub carry :
      {im : Im} {w w' : Option Drawcmd} {a a' : Option Str} {lost : List Dictreq}
      → w ≡ w'
      → a ≡ a'
      → IsFresh im w a lost
      → IsFresh im w' a' lost
  carry {im} {w} {w'} {a} {a'} {lost} e e' f =
      subst (λ x. IsFresh im w' x lost) e' (subst (λ x. IsFresh im x a lost) e f)
