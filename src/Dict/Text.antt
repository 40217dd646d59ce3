-- ===== src/Dict/Text.antt =====
-- dict.c: the text of a line, as the strings that it is converted to.
use strans.Base.{
  ℕ, ◌+◌, ◌*◌, ◌<◌, ◌≡◌, refl, sym, ap, ◌∙◌, List, [], ◌∷◌, ◌++◌, append-nil, append_assoc, some,
  arith, lt→ltb, length, inl,
}
use strans.Dict.Bytes.{Lacks, IsPlain, utf, spaced, AllWords, sinit-utf, utf-Lacks}
use strans.Hash.{bytes, until_zero, sdup}
use strans.Str.Codec.{AllRunes}
use strans.Str.{Str, max_runes, utf_max, sinit, stoutf, stoutf_loop}
use strans.Trie.{split_tab}
use strans.Utf.{Utf, IsUtf}

-- Words in one string, with a space between two of them.
unfoldable pub joined : List Str → Str
joined [] = []
joined (s ∷ []) = s
joined (s ∷ s' ∷ ss) = s ++ b' ' ∷ joined (s' ∷ ss)

AllRunes-append : (a b : Str) → AllRunes a → AllRunes b → AllRunes (a ++ b)
AllRunes-append [] b h k = k
AllRunes-append (r ∷ a) b h k = (h.0, AllRunes-append a b h.1 k)

until_zero-Lacks : (bs : List ℕ) → Lacks 0 bs → until_zero bs ≡ bs
unfolding until_zero
until_zero-Lacks [] h = refl
until_zero-Lacks (b ∷ bs) h = rw h.0 (ap (◌∷◌ b) (until_zero-Lacks bs h.1))

pub split_tab-append : (k v : List ℕ) → Lacks b'\t' k → split_tab (k ++ b'\t' ∷ v) ≡ some (k, v)
unfolding split_tab
split_tab-append [] v h = refl
split_tab-append (b ∷ k) v h = rw (h.0, split_tab-append k v h.1) refl

module _ ⦃u : Utf⦄ where
  -- A string that is written in full into 256 bytes, and as a C string.
  pub record IsKey (k : Str) : Type 0 where
    pub runes : AllRunes k
    pub few : length k < max_runes
    pub no_zero : Lacks 0 k

  -- The words of a value fit a string, and there is one.
  pub record IsValue (ss : List Str) : Type 0 where
    pub words : AllWords ss
    pub some_word : 0 < length (joined ss)
    pub few : length (joined ss) < max_runes
    pub no_zero : Lacks 0 (joined ss)

  AllRunes-joined : (ss : List Str) → AllWords ss → AllRunes (joined ss)
  unfolding joined
  AllRunes-joined [] h = tt
  AllRunes-joined (s ∷ []) h = h.0.runes
  AllRunes-joined (s ∷ s' ∷ ss) h =
      AllRunes-append s (b' ' ∷ joined (s' ∷ ss)) h.0.runes
        (inl (omega arith), AllRunes-joined (s' ∷ ss) h.1)

  pub IsValue-IsKey : (ss : List Str) → IsValue ss → IsKey (joined ss)
  IsValue-IsKey ss v = record {
    runes = AllRunes-joined ss v.words;
    few = v.few;
    no_zero = v.no_zero;
  }

  module _ (laws : IsUtf u) (plain : IsPlain u) where
    stoutf_loop-utf : (s : Str) (n sz : ℕ) → n + 4 * length s < sz → stoutf_loop s n sz ≡ utf s
    unfolding stoutf_loop utf
    stoutf_loop-utf [] n sz h = refl
    stoutf_loop-utf (r ∷ s) n sz h = rw (lt→ltb (n + utf_max) sz (omega arith)) (
        ap (λ t. u.runetochar r ++ t)
          (stoutf_loop-utf s (n + length (u.runetochar r)) sz (omega (arith, laws.wide r))))

    pub bytes-utf : (k : Str) → IsKey k → bytes k ≡ utf k
    unfolding bytes stoutf
    bytes-utf k h = stoutf_loop-utf k 0 256 (omega (arith, h.few))

    pub sdup-utf : (k : Str) → IsKey k → sdup k ≡ utf k
    unfolding sdup
    sdup-utf k h =
        ap until_zero (bytes-utf k h)
        ∙ until_zero-Lacks (utf k) (utf-Lacks laws plain 0 k (omega arith) h.no_zero)

    -- What the hash table asks of a key.
    pub c_string : (k : Str) → IsKey k → until_zero (bytes k) ≡ bytes k
    unfolding sdup
    c_string k h = sdup-utf k h ∙ sym (bytes-utf k h)

    pub sinit_back : (k : Str) → IsKey k → sinit (utf k) (length (utf k)) ≡ k
    sinit_back k h =
        ap (λ p. sinit p (length (utf k))) (sym (append-nil (utf k)))
        ∙ sinit-utf laws plain k [] h.runes (omega (arith, h.few))

    -- Keys are told apart by their bytes.
    pub bytes_inj : (k q : Str) → IsKey k → IsKey q → bytes q ≡ bytes k → q ≡ k
    bytes_inj k q h h' e =
        let e' : utf q ≡ utf k = sym (bytes-utf q h') ∙ e ∙ bytes-utf k h in
        sym (sinit_back q h') ∙ ap (λ b. sinit b (length b)) e' ∙ sinit_back k h

    utf-append : (a b : Str) → utf (a ++ b) ≡ utf a ++ utf b
    unfolding utf
    utf-append [] b = refl
    utf-append (r ∷ a) b =
        ap (λ t. u.runetochar r ++ t) (utf-append a b)
        ∙ sym (append_assoc (u.runetochar r) (utf a) (utf b))

    pub utf-joined : (ss : List Str) → utf (joined ss) ≡ spaced ss
    unfolding joined spaced
    utf-joined [] = unfold utf in refl
    utf-joined (s ∷ []) = refl
    utf-joined (s ∷ s' ∷ ss) =
        utf-append s (b' ' ∷ joined (s' ∷ ss))
        ∙ ap (λ t. utf s ++ t)
            (space (joined (s' ∷ ss)) ∙ ap (λ t. b' ' ∷ t) (utf-joined (s' ∷ ss)))
      where
        space : (t : Str) → utf (b' ' ∷ t) ≡ b' ' ∷ utf t
        space t = unfold utf in rw (plain.itself b' ' (omega arith)) refl
