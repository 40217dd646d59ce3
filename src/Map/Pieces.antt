-- ===== src/Map/Pieces.antt =====
-- strans.c, `transmap`: what is typed falls into pieces, and each is read by the map.
use strans.Base.{
  ℕ, ◌<◌, ◌≡◌, refl, sym, ap, ◌∙◌, ◌⊎◌, inl, inr, Bool, true, false, List, [], ◌∷◌, ◌++◌,
  append-nil, append_assoc, arith, length, length-append, subst,
}
use strans.Emit.{Emit}
use strans.Map.Fits.{MapFits, EmitFits, translated-Returns}
use strans.Map.{maplookup, translated, transmap}
use strans.Run.{ok, Returns, bind_Returns, if_Returns}
use strans.Str.Laws.{sputr_ok}
use strans.Str.{Str}
use strans.Trie.{Trie}
use strans.Utf.{Utf}

-- Runes that were typed, and the text that was committed for them.
pub record Piece : Type 0 where
  pub typed : Str
  pub text : Str

unfoldable pub typed_of : List Piece → Str
typed_of [] = []
typed_of (p ∷ ps) = p.typed ++ typed_of ps

unfoldable pub text_of : List Piece → Str
text_of [] = []
text_of (p ∷ ps) = p.text ++ text_of ps

pub typed_of-append : (ps qs : List Piece) → typed_of (ps ++ qs) ≡ typed_of ps ++ typed_of qs
unfolding typed_of
typed_of-append [] qs = refl
typed_of-append (p ∷ ps) qs =
    ap (λ s. p.typed ++ s) (typed_of-append ps qs)
    ∙ sym (append_assoc p.typed (typed_of ps) (typed_of qs))

pub text_of-append : (ps qs : List Piece) → text_of (ps ++ qs) ≡ text_of ps ++ text_of qs
unfolding text_of
text_of-append [] qs = refl
text_of-append (p ∷ ps) qs =
    ap (λ s. p.text ++ s) (text_of-append ps qs)
    ∙ sym (append_assoc p.text (text_of ps) (text_of qs))

module _ ⦃u : Utf⦄ (t : Trie) where
  -- Translated by the map, as a preedit is; or a single rune that begins no key of the map, as it
  -- is.
  abbrev pub IsPiece : Piece → Type 0
  IsPiece p =
      (translated t p.typed ≡ ok p.text)
      ⊎ ((c : ℕ) × (dict : Str) × (p.typed ≡ c ∷ [])
          × (p.text ≡ c ∷ [])
          × (maplookup t (c ∷ []) ≡ ok (false, dict)))

  abbrev pub ArePieces : List Piece → Type 0
  ArePieces [] = Unit {0}
  ArePieces (p ∷ ps) = IsPiece p × ArePieces ps

  pub ArePieces-append : (ps qs : List Piece) → ArePieces ps → ArePieces qs → ArePieces (ps ++ qs)
  ArePieces-append [] qs h k = k
  ArePieces-append (p ∷ ps) qs h k = (h.0, ArePieces-append ps qs h.1 k)

  -- The pieces that a key completes: their text is committed, and the rest is the next preedit.
  pub record Types (pre : Str) (c : ℕ) (e : Emit) : Type 0 where
    pub fits : EmitFits e
    pub pieces : List Piece
    pub are_pieces : ArePieces pieces
    pub typed : typed_of pieces ++ e.next ≡ pre ++ c ∷ []
    pub text : text_of pieces ≡ e.s

  abbrev Looked : Str → Bool × Str → Type 0
  Looked s r = (maplookup t s ≡ ok r) × (r.0 ≡ true → length s < 64)

  module _ (fits : MapFits t) where
    looked : (s : Str) → Returns (maplookup t s) (Looked s)
    looked s = let (r, run, deep) = fits.looks s in (r, run, (run, deep))

    translates :
        (pre : Str)
        → length pre < 64
        → Returns (translated t pre) λ s. (translated t pre ≡ ok s) × (length s < 64)
    translates pre h = let (s, run, short) = translated-Returns fits pre h in (s, run, (run, short))

    pub transmap-Types :
        (pre : Str) (c : ℕ) → length pre < 64 → Returns (transmap t pre c) (Types pre c)
    unfolding transmap typed_of text_of
    transmap-Types pre c h =
        bind_Returns (λ key. key ≡ pre ++ c ∷ []) (Types pre c)
          (pre ++ c ∷ [], sputr_ok pre c h, refl)
          λ key at. bind_Returns (Looked key) (Types pre c) (looked key) λ r look.
            if_Returns r.0 (Types pre c)
              (λ found. (
                _,
                refl,
                record {
                  fits = record { text = omega arith; next = look.1 found };
                  pieces = [];
                  are_pieces = tt;
                  typed = at;
                  text = refl;
                },
              ))
              λ missing. bind_Returns _ (Types pre c) (translates pre h) λ s run.
                bind_Returns (λ one. one ≡ c ∷ []) (Types pre c)
                  (c ∷ [], sputr_ok [] c (omega arith), refl)
                  λ one is. bind_Returns (Looked one) (Types pre c) (looked one) λ r' look'.
                    let whole : Piece = record { typed = pre; text = s } in
                    if_Returns r'.0 (Types pre c)
                      (λ found. (
                        _,
                        refl,
                        record {
                          fits = record { text = omega (arith, run.1); next = look'.1 found };
                          pieces = whole ∷ [];
                          are_pieces = (inl run.0, tt);
                          typed = rw (is, append-nil pre) refl;
                          text = append-nil s;
                        },
                      ))
                      λ none_found.
                        bind_Returns (λ s'. s' ≡ s ++ c ∷ []) (Types pre c)
                          (s ++ c ∷ [], sputr_ok s c run.1, refl)
                          λ s' e. (
                            _,
                            refl,
                            record {
                              fits = record {
                                text =
                                    omega (
                                      arith,
                                      ap (length {A = ℕ}) e,
                                      length-append s (c ∷ []),
                                      run.1,
                                    );
                                next = omega arith;
                              };
                              pieces = whole ∷ record { typed = c ∷ []; text = c ∷ [] } ∷ [];
                              are_pieces = (
                                inl run.0,
                                (
                                  inr (
                                    c,
                                    r'.1,
                                    refl,
                                    refl,
                                    subst (λ o. maplookup t o ≡ ok (false, r'.1)) is
                                        (look'.0 ∙ ap (λ b. ok (b, r'.1)) none_found),
                                  ),
                                  tt,
                                ),
                              );
                              typed = append-nil (pre ++ c ∷ []);
                              text = sym e;
                            },
                          )
