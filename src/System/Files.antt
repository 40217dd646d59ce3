-- ===== src/System/Files.antt =====
-- The data files: what a map must be like for `trieopen` (trie.c), and a dictionary for `dictopen`
-- (dict.c).
use strans.Base.{
  ◌+◌, ◌≤◌, String, length-append, take-of_le, ℕ, ◌<◌, ◌≡◌, refl, List, [], ◌∷◌, ◌++◌, Option, none,
  some, arith, length, codes, ◌==◌, Bool-cases, inl, inr,
}
use strans.Dict.{dict_line, dict_lines, dictopen}
use strans.Hash.Refines.{IsHmap, hmapset-Stored, hmapalloc-Empty}
use strans.Hash.{Hmap, hmapalloc, bytes, until_zero}
use strans.Lang.{Lang, data_path}
use strans.Map.Fits.{MapFits}
use strans.Map.Loaded.{loaded-MapFits}
use strans.Run.{ok, Returns, bind_Returns}
use strans.Str.{sinit, sinit_loop}
use strans.Trie.Load.{AllShort, newest_first, trieopen-Refines}
use strans.Trie.Refines.{parse}
use strans.Trie.{split_tab, trieopen}
use strans.Utf.{Utf, IsUtf}

pub newest_first-AllShort :
    (n : ℕ) (es old : List (List ℕ × List ℕ))
    → AllShort n es
    → AllShort n old
    → AllShort n (newest_first es old)
unfolding newest_first
newest_first-AllShort n [] old h o = o
newest_first-AllShort n ((k, v) ∷ es) old (a, b, h) o =
    newest_first-AllShort n es ((k, v) ∷ old) h (a, b, o)

whole_path :
    (dir name : List ℕ) (suffix : String)
    → length dir + length name + length (codes suffix) ≤ 1022
    → data_path dir name suffix ≡ dir ++ (b'/' ∷ (name ++ codes suffix))
unfolding data_path
whole_path dir name suffix h = take-of_le 1023 (dir ++ (b'/' ∷ (name ++ codes suffix))) (
    omega
      (arith, length-append dir (b'/' ∷ (name ++ codes suffix)), length-append name (codes suffix)))

module _ ⦃u : Utf⦄ (files : List ℕ → Option (List (List ℕ))) (dir : List ℕ) where
  -- A map file: lines that are blank or entries, of short keys and values.
  pub record IsMapFile (name : List ℕ) : Type 0 where
    pub lines : List (List ℕ)
    pub entries : List (List ℕ × List ℕ)
    pub there : files (dir ++ (b'/' ∷ (name ++ codes ".map"))) ≡ some lines
    pub path : length dir + length name ≤ 1018
    pub parsed : parse lines ≡ some entries
    pub short : AllShort 63 entries

  -- The key of a line, if it has one and a value, is a C string once it is decoded and encoded.
  abbrev pub KeyFits : Option (List ℕ × List ℕ) → Type 0
  KeyFits none = Unit {0}
  KeyFits (some (key, [])) = Unit {0}
  KeyFits (some (key, v ∷ val)) = let k = sinit key (length key) in until_zero (bytes k) ≡ bytes k

  abbrev pub KeysFit : List (List ℕ) → Type 0
  KeysFit [] = Unit {0}
  KeysFit (line ∷ lines) = KeyFits (split_tab line) × KeysFit lines

  pub record IsDictFile (name : List ℕ) : Type 0 where
    pub lines : List (List ℕ)
    pub there : files (dir ++ (b'/' ∷ (name ++ codes ".dict"))) ≡ some lines
    pub path : length dir + length name ≤ 1017
    pub keys : KeysFit lines

  abbrev pub MapFile : Option (List ℕ) → Type 0
  MapFile none = Unit {0}
  MapFile (some name) = IsMapFile name

  abbrev pub DictFile : Option (List ℕ) → Type 0
  DictFile none = Unit {0}
  DictFile (some name) = IsDictFile name

  -- The files that the languages name are there.
  abbrev pub MapFiles : List Lang → Type 0
  MapFiles [] = Unit {0}
  MapFiles (l ∷ ls) = MapFile l.mapname × MapFiles ls

  abbrev pub DictFiles : List Lang → Type 0
  DictFiles [] = Unit {0}
  DictFiles (l ∷ ls) = DictFile l.dictname × DictFiles ls

  some_rune : (v : ℕ) (val : List ℕ) → 0 < length (sinit (v ∷ val) (length (v ∷ val)))
  unfolding sinit sinit_loop
  some_rune v val = ground arith

  entry-IsHmap :
      (h : Hmap) (o : Option (List ℕ × List ℕ))
      → KeyFits o
      → IsHmap h
      → Returns
          (elim o [
            | none ↦ ok h
            | some (key, []) ↦ ok h
            | some (key, v ∷ val) ↦
                strans.Hash.hmapset h (sinit key (length key)) (sinit (v ∷ val) (length (v ∷ val)))
          ])
          IsHmap
  entry-IsHmap h none k w = (h, refl, w)
  entry-IsHmap h (some (key, [])) k w = (h, refl, w)
  entry-IsHmap h (some (key, v ∷ val)) k w =
      let (h', run, st) = hmapset-Stored _ _ k (some_rune v val) h w in (h', run, st.hmap)

  dict_line-IsHmap :
      (h : Hmap) (line : List ℕ)
      → KeyFits (split_tab line)
      → IsHmap h
      → Returns (dict_line h line) IsHmap
  unfolding dict_line
  dict_line-IsHmap h [] k w = (h, refl, w)
  dict_line-IsHmap h (b ∷ line) k w = elim (Bool-cases (b == b';')) [
    | inl comment ↦ rw (comment, dict_line) (h, refl, w)
    | inr given ↦ rw (given, dict_line) (entry-IsHmap h (split_tab (b ∷ line)) k w)
  ]

  dict_lines-IsHmap :
      (lines : List (List ℕ)) (h : Hmap)
      → KeysFit lines
      → IsHmap h
      → Returns (dict_lines h lines) IsHmap
  unfolding dict_lines
  dict_lines-IsHmap [] h k w = (h, refl, w)
  dict_lines-IsHmap (line ∷ lines) h (k, ks) w =
      bind_Returns IsHmap IsHmap (dict_line-IsHmap h line k w)
        λ h' w'. dict_lines-IsHmap lines h' ks w'

  pub dictopen-IsHmap :
      (name : List ℕ) (f : IsDictFile name)
      → Returns
          (dictopen (files (data_path dir name ".dict")))
          λ h. IsHmap h × (dictopen (some f.lines) ≡ ok h)
  unfolding dictopen
  dictopen-IsHmap name f =
      let (h, run, w) =
        dict_lines-IsHmap f.lines (hmapalloc 4096) f.keys (hmapalloc-Empty 4096 (omega arith)).0 in
      (h, rw (whole_path dir name ".dict" (omega (arith, f.path)), f.there) run, (w, run))

  pub trieopen-MapFits :
      (name : List ℕ)
      → IsUtf u
      → (f : IsMapFile name)
      → Returns
          (trieopen (files (data_path dir name ".map")))
          λ t. MapFits t × (trieopen (some f.lines) ≡ ok t)
  trieopen-MapFits name laws f =
      let (t, run, (is, r)) = trieopen-Refines 63 f.lines f.entries f.parsed f.short in
      (
        t,
        rw (whole_path dir name ".map" (omega (arith, f.path)), f.there) run,
        (
          loaded-MapFits laws t (newest_first f.entries []) is r
              (newest_first-AllShort 63 f.entries [] f.short tt),
          run,
        ),
      )
