-- ===== src/Ko/Other.antt =====
-- ko.c: `transko` on every key, and its bounds.
use strans.Base.{ℕ, ◌≤◌, ◌≡◌, [], ◌∷◌, ◌++◌, arith, length, Bool-cases, ◌==◌, inl, inr}
use strans.Emit.{Emit, no_emit}
use strans.Ko.Letters.{IsPreedit}
use strans.Ko.Typing.{transko-Types}
use strans.Ko.{keytojamo, transko}
use strans.Run.{ok, Returns, weaken_Returns}
use strans.Str.Laws.{sputr_ok}
use strans.Str.{Str}

-- A key that is no letter ends the preedit: the code commits it, with the key behind it, and says
-- that the key was not eaten.
pub transko_other :
    (pre : Str) (k : ℕ)
    → IsPreedit pre
    → keytojamo k ≡ 0
    → transko pre k ≡ ok ([], record no_emit { s = pre ++ k ∷ [] })
unfolding transko
transko_other [] k h e = rw (e, sputr_ok [] k (omega arith))
transko_other (x ∷ []) k h e = rw (e, sputr_ok (x ∷ []) k (omega arith))
transko_other (x ∷ y ∷ pre) k h e = absurd h

abbrev pub Bounds : Str × Emit → Type 0
Bounds r = (length r.1.s ≤ 2) × IsPreedit r.1.next

-- In every state of the Hangul automaton (the preedit is empty, or one Hangul syllable or lone
-- letter) `transko` returns on every key, commits at most two runes, and leaves such a state as
-- the next preedit.
pub transko-Returns : (pre : Str) (k : ℕ) → IsPreedit pre → Returns (transko pre k) Bounds
transko-Returns pre k h = elim (Bool-cases (keytojamo k == 0)) [
  | inr key ↦
      weaken_Returns _ Bounds (transko-Types pre k h key) λ r t. (omega (arith, t.short), t.hangul)
  | inl z ↦ (_, transko_other pre k h (ground arith), (short pre h, tt))
]
  where
    short : (p : Str) → IsPreedit p → length (p ++ k ∷ []) ≤ 2
    short [] h = omega arith
    short (x ∷ []) h = omega arith
    short (x ∷ y ∷ p) h = absurd h
