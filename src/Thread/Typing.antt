-- ===== src/Thread/Typing.antt =====
-- strans.c: keys typed in a language with `transmap`, from the key to the bytes for the client.
use strans.Base.{ℕ, ◌<◌, ◌≡◌, true, List, [], ◌∷◌, ◌++◌, some, length}
use strans.Im.Valid.{LangFits}
use strans.Im.{Im, Turn, trans}
use strans.Key.Typed.{IsTyped}
use strans.Lang.{Lang, by_map}
use strans.Map.Pieces.{Piece, typed_of, text_of, ArePieces}
use strans.Str.{Str}
use strans.Thread.Presses.{Replies}
use strans.Thread.{Output, response}
use strans.Utf.{Utf}

abbrev pub AllTyped : List ℕ → Type 0
AllTyped [] = Unit {0}
AllTyped (k ∷ ks) = IsTyped k × AllTyped ks

-- The texts of the replies, one after the other.
unfoldable pub joined_texts : List Str → Str
joined_texts [] = []
joined_texts (t ∷ ts) = t ++ joined_texts ts

module _ ⦃u : Utf⦄ where
  pub record InMap (im : Im) : Type 0 where
    pub fits : LangFits im.l
    pub mapped : im.l.trans ≡ by_map
    pub short : length im.pre < 64

  -- What a key leaves: the pieces it completed are the text, and the rest is the preedit.
  pub record Steps (im : Im) (k : ℕ) (t : Turn) : Type 0 where
    pub lang : t.im.l ≡ im.l
    pub short : length t.im.pre < 64
    pub pieces : List Piece
    pub are_pieces : ArePieces im.l.map pieces
    pub typed : typed_of pieces ++ t.im.pre ≡ im.pre ++ k ∷ []
    pub text : text_of pieces ≡ t.text

  -- A round on a key: still in the mode, and the client is sent the text of the pieces.
  pub record Answered (im : Im) (fd k : ℕ) (r : Im × Output) : Type 0 where
    pub lang : r.0.l ≡ im.l
    pub short : length r.0.pre < 64
    pub pieces : List Piece
    pub are_pieces : ArePieces im.l.map pieces
    pub typed : typed_of pieces ++ r.0.pre ≡ im.pre ++ k ∷ []
    pub reply : r.1.reply ≡ some (fd, response true (text_of pieces))

  pub record Typed (im : Im) (fd : ℕ) (ks : List ℕ) (r : Im × List Output) : Type 0 where
    pub lang : r.0.l ≡ im.l
    pub short : length r.0.pre < 64
    pub texts : List Str
    pub replies : Replies fd r.1 texts
    pub pieces : List Piece
    pub are_pieces : ArePieces im.l.map pieces
    pub typed : typed_of pieces ++ r.0.pre ≡ im.pre ++ ks
    pub text : text_of pieces ≡ joined_texts texts
