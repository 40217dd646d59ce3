-- ===== src/Thread/Presses.antt =====
-- strans.c: the keys that one client presses, and what the engine answers to them.
use strans.Base.{ℕ, ◌≡◌, true, List, [], ◌∷◌, some}
use strans.Str.{Str}
use strans.Thread.{Event, key, Output, response}
use strans.Utf.{Utf}

-- The keys of a client, pressed one after the other.
unfoldable pub presses : ℕ → ℕ → List ℕ → List Event
presses fd mods [] = []
presses fd mods (k ∷ ks) = key (record { fd = fd; ks = k; mods = mods }) ∷ presses fd mods ks

module _ ⦃u : Utf⦄ where
  -- The replies of the rounds, with these texts.
  abbrev pub Replies : ℕ → List Output → List Str → Type 0
  Replies fd [] [] = Unit {0}
  Replies fd (o ∷ os) (t ∷ ts) = (o.reply ≡ some (fd, response true t)) × Replies fd os ts
  Replies fd _ _ = ⊥
