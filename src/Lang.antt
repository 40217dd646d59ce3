-- ===== src/Lang.antt =====
-- dat.h, `Lang`, and the table of languages in strans.c.
use strans.Base.{
  ℕ, List, [], ◌∷◌, ◌++◌, Option, none, some, ◌==◌, if◌then◌else◌, String, codes, take,
}
use strans.Hash.{Hmap}
use strans.Run.{Run, ok, ◌>>=◌}
use strans.Trie.{Trie, trieopen, empty}

-- The function pointers `trans` and `back`; `dictq` is `dictqmap` in every row.
pub data Trans : Type 0 where
  by_map by_ko by_vi : Trans

pub data Back : Type 0 where
  back_map back_ko : Back

pub record Lang : Type 0 where
  pub lang : ℕ
  pub mapname : Option (List ℕ)
  pub dictname : Option (List ℕ)
  pub trans : Trans
  pub back : Back
  pub map : Trie
  pub dict : Option Hmap

abbrev pub lang_en : ℕ
lang_en = 0x14

abbrev pub lang_jp : ℕ
lang_jp = 0x0e

abbrev pub lang_jpk : ℕ
lang_jpk = 0x0b

abbrev pub lang_ko : ℕ
lang_ko = 0x13

abbrev pub lang_emoji : ℕ
lang_emoji = 0x05

abbrev pub lang_vi : ℕ
lang_vi = 0x16

-- A row before `mapinit` and `dictinit`: no dictionary, and the map still without keys.
abbrev row : ℕ → String → Option (List ℕ) → Trans → Back → Lang
row code name dictname trans back = record {
  lang = code;
  mapname = some (codes name);
  dictname = dictname;
  trans = trans;
  back = back;
  map = empty;
  dict = none;
}

unfoldable pub langs : List Lang
langs =
    row lang_en "english" none by_map back_map
    ∷ row lang_jp "hira" (some (codes "kanji")) by_map back_map
    ∷ row lang_jpk "kata" (some (codes "kanji")) by_map back_map
    ∷ row lang_ko "hangul" none by_ko back_ko
    ∷ row lang_emoji "emoji" (some (codes "emoji")) by_map back_map
    ∷ row lang_vi "telex" none by_vi back_map
    ∷ []

unfoldable pub getlang : List Lang → ℕ → Option Lang
getlang [] c = none
getlang (l ∷ ls) c = if l.lang == c then some l else getlang ls c

-- The path of a data file, in an array of 1024 bytes with the zero byte: `snprint` cuts the rest off.
unfoldable pub data_path : List ℕ → List ℕ → String → List ℕ
data_path dir name suffix = take 1023 (dir ++ (b'/' ∷ (name ++ codes suffix)))

-- `files` gives the lines of a file by its path, or `none` where it cannot be opened.
unfoldable pub mapinit : (List ℕ → Option (List (List ℕ))) → List ℕ → List Lang → Run (List Lang)
mapinit files dir [] = ok []
mapinit files dir (l ∷ ls) = elim l.mapname [
  | none ↦ do rest ← mapinit files dir ls; ok (l ∷ rest)
  | some name ↦ do
    t ← trieopen (files (data_path dir name ".map"))
    rest ← mapinit files dir ls
    ok (record l { map = t } ∷ rest)
]
