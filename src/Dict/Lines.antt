-- ===== src/Dict/Lines.antt =====
-- dict.c: the lines of a dictionary file, and what `dictopen` makes of one.
use strans.Base.{
  ℕ, ◌≤◌, ◌<◌, ◌≡◌, refl, sym, ap, ◌∙◌, false, List, [], ◌∷◌, ◌++◌, Option, none, some, arith, ◌==◌,
  equal, if◌then◌else◌, length, take,
}
use strans.Dict.Text.{
  joined, split_tab-append, IsKey, IsValue, IsValue-IsKey, sinit_back, utf-joined,
}
use strans.Dict.Bytes.{Lacks, IsPlain, utf, utf-Lacks, utf_pos, spaced}
use strans.Dict.{dict_line}
use strans.Hash.{Hmap, hmapset}
use strans.Str.{Str, sinit}
use strans.Trie.{split_tab}
use strans.Utf.{Utf, IsUtf}

-- A line of a dictionary: it has nothing, a comment, or a key and its words.
pub data Line : Type 0 where
  blank : Line
  comment : List ℕ → Line
  entry : Str → List Str → Line

abbrev pub or_else : Option (List Str) → Option (List Str) → Option (List Str)
or_else none o = o
or_else (some ss) o = some ss

-- The words of the last entry with the key.
unfoldable pub last_entry : List Line → Str → Option (List Str)
last_entry [] q = none
last_entry (blank ∷ ls) q = last_entry ls q
last_entry (comment s ∷ ls) q = last_entry ls q
last_entry (entry k ss ∷ ls) q = or_else (last_entry ls q) (if equal q k then some ss else none)

module _ ⦃u : Utf⦄ where
  unfoldable pub text_of : Line → List ℕ
  text_of blank = []
  text_of (comment s) = b';' ∷ s
  text_of (entry k ss) = utf k ++ b'\t' ∷ spaced ss

  unfoldable pub texts : List Line → List (List ℕ)
  unfolding text_of
  texts [] = []
  texts (l ∷ ls) = text_of l ∷ texts ls

  -- A key is one without a tab that does not start like a comment.
  pub record IsEntry (k : Str) (ss : List Str) : Type 0 where
    pub key : IsKey k
    pub value : IsValue ss
    pub no_tab : Lacks b'\t' k
    pub front : Lacks b';' (take 1 k)

  abbrev pub AllEntries : List Line → Type 0
  AllEntries [] = Unit {0}
  AllEntries (entry k ss ∷ ls) = IsEntry k ss × AllEntries ls
  AllEntries (_ ∷ ls) = AllEntries ls

  module _ (laws : IsUtf u) (plain : IsPlain u) where
    first_byte :
        (k : Str) (v : List ℕ)
        → Lacks b';' (take 1 k)
        → (b : ℕ) × (rest : List ℕ) × (utf k ++ b'\t' ∷ v ≡ b ∷ rest) × ((b == b';') ≡ false)
    unfolding utf
    first_byte [] v h = (b'\t', v, refl, refl)
    first_byte (r ∷ k) v h =
        at_front (u.runetochar r) (utf k) (laws.wide r).0 (plain.no_other r b';' (omega arith) h.0)
      where
        at_front :
            (bs t : List ℕ)
            → 1 ≤ length bs
            → Lacks b';' bs
            → (b : ℕ) × (rest : List ℕ) × ((bs ++ t) ++ b'\t' ∷ v ≡ b ∷ rest)
              × ((b == b';') ≡ false)
        at_front [] t h l = absurd (omega arith)
        at_front (b ∷ bs) t h l = (b, (bs ++ t) ++ b'\t' ∷ v, refl, l.0)

    dict_line-split :
        (h : Hmap) (b : ℕ) (rest key val : List ℕ)
        → (b == b';') ≡ false
        → split_tab (b ∷ rest) ≡ some (key, val)
        → 0 < length val
        → dict_line h (b ∷ rest) ≡ hmapset h (sinit key (length key)) (sinit val (length val))
    unfolding dict_line
    dict_line-split h b rest key [] n e some_value = absurd (omega arith)
    dict_line-split h b rest key (v ∷ val) n e some_value = rw (n, e, dict_line) refl

    pub dict_line-entry :
        (h : Hmap) (k : Str) (ss : List Str)
        → IsEntry k ss
        → dict_line h (text_of (entry k ss)) ≡ hmapset h k (joined ss)
    unfolding text_of
    dict_line-entry h k ss w =
        let (b, rest, e, n) = first_byte k (spaced ss) w.front in
        let text = utf-joined laws plain ss in
        let whole : IsKey (joined ss) = IsValue-IsKey ss w.value in
        ap (dict_line h) e
        ∙ dict_line-split h b rest (utf k) (spaced ss) n
            (ap split_tab (sym e)
              ∙ split_tab-append (utf k) (spaced ss)
                  (utf-Lacks laws plain b'\t' k (omega arith) w.no_tab))
            (omega (arith, utf_pos laws plain (joined ss) w.value.some_word, ap length text))
        ∙ ap (λ key. hmapset h key (sinit (spaced ss) (length (spaced ss))))
            (sinit_back laws plain k w.key)
        ∙ ap (hmapset h k)
            (ap (λ t. sinit t (length t)) (sym text) ∙ sinit_back laws plain (joined ss) whole)
