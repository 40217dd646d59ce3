-- ===== src/System/Startup.antt =====
-- main.c, `threadmain`, with `mapinit` (strans.c) and `dictinit` (dict.c): with good data files the
-- threads start in a good state.
use strans.Base.{
  sym, subst, ℕ, ◌≡◌, refl, List, [], ◌∷◌, ◌++◌, Option, none, some, codes, ◌==◌, Bool-cases, inl,
  inr,
}
use strans.Dict.{dictopen, dictinit}
use strans.Key.Valid.{AllFit}
use strans.Hash.{Hmap}
use strans.Lang.{Lang, data_path, mapinit, getlang, lang_en}
use strans.Run.{Run, ok, ◌>>=◌, Returns, bind_Returns}
use strans.System.Files.{MapFile, DictFile, MapFiles, DictFiles, trieopen-MapFits, dictopen-IsHmap}
use strans.System.Lookups.{DictsFit}
use strans.System.Safe.{IsOk, boot-IsOk}
use strans.System.{System, boot, threadmain}
use strans.Trie.{Trie, trieopen}
use strans.Utf.{Utf, IsUtf}

-- The languages of the one list are languages of the other.
abbrev Knows : List Lang → List Lang → Type 0
Knows ls ls' = (c : ℕ) (l : Lang) → getlang ls c ≡ some l → (l' : Lang) × (getlang ls' c ≡ some l')

Knows-cons :
    (x x' : Lang) (ls ls' : List Lang) → x'.lang ≡ x.lang → Knows ls ls' → Knows (x ∷ ls) (x' ∷ ls')
unfolding getlang
Knows-cons x x' ls ls' same k c l e = elim (Bool-cases (x.lang == c)) [
  | inl here ↦ (x', rw (same, here, getlang) refl)
  | inr later ↦
      let (l', e') = k c l (rw (later, getlang) at e) in (l', rw (same, later, getlang) e')
]

module _ ⦃u : Utf⦄ (files : List ℕ → Option (List (List ℕ))) (dir : List ℕ) where
  -- The map of a language that names one is what the lines of its file make; another stays.
  abbrev pub MapRead : Option (List ℕ) → Trie → Trie → Type 0
  MapRead none old t = t ≡ old
  MapRead (some name) old t =
      (lines : List (List ℕ)) × (files (dir ++ (b'/' ∷ (name ++ codes ".map"))) ≡ some lines)
      × (trieopen (some lines) ≡ ok t)

  abbrev pub DictRead : Option (List ℕ) → Option Hmap → Option Hmap → Type 0
  DictRead none old d = d ≡ old
  DictRead (some name) old d =
      (h : Hmap) × (lines : List (List ℕ)) × (d ≡ some h)
      × (files (dir ++ (b'/' ∷ (name ++ codes ".dict"))) ≡ some lines)
      × (dictopen (some lines) ≡ ok h)

  -- The languages are the same but for their maps, each read from its file; and so for dictionaries.
  abbrev pub MapsRead : List Lang → List Lang → Type 0
  MapsRead [] ms = ms ≡ []
  MapsRead (l ∷ ls) ms =
      (m : Lang) × (rest : List Lang) × (ms ≡ m ∷ rest)
      × (m ≡ record l { map = m.map })
      × MapRead l.mapname l.map m.map
      × MapsRead ls rest

  abbrev pub DictsRead : List Lang → List Lang → Type 0
  DictsRead [] ms = ms ≡ []
  DictsRead (l ∷ ls) ms =
      (m : Lang) × (rest : List Lang) × (ms ≡ m ∷ rest)
      × (m ≡ record l { dict = m.dict })
      × DictRead l.dictname l.dict m.dict
      × DictsRead ls rest

  record Mapped (ls ls' : List Lang) : Type 0 where
    fit : AllFit ls'
    dicts : DictsFit ls'
    files_left : DictFiles files dir ls'
    read : MapsRead ls ls'
    knows : Knows ls ls'

  record Loaded (ls ls' : List Lang) : Type 0 where
    fit : AllFit ls'
    dicts : DictsFit ls'
    read : DictsRead ls ls'
    knows : Knows ls ls'

  with_map :
      (l : Lang) (ls : List Lang) (rest : Run (List Lang))
      → IsUtf u
      → AllFit (l ∷ ls)
      → DictsFit (l ∷ ls)
      → DictFiles files dir (l ∷ ls)
      → Returns rest (Mapped ls)
      → (o : Option (List ℕ)) → l.mapname ≡ o
      → MapFile files dir o
      → Returns
          (elim o [
            | none ↦ do ls' ← rest; ok (l ∷ ls')
            | some name ↦ do
              t ← trieopen (files (data_path dir name ".map"))
              ls' ← rest
              ok (record l { map = t } ∷ ls')
          ])
          (Mapped (l ∷ ls))
  with_map l ls rest laws h d e more none named m =
      bind_Returns (Mapped ls) (Mapped (l ∷ ls)) more λ ls' r. (
        _,
        refl,
        record {
          fit = (h.0, r.fit);
          dicts = (d.0, r.dicts);
          files_left = (e.0, r.files_left);
          read = (l, ls', refl, refl, subst (λ o. MapRead o l.map l.map) (sym named) refl, r.read);
          knows = Knows-cons l l ls ls' refl r.knows;
        },
      )
  with_map l ls rest laws h d e more (some name) named m =
      bind_Returns _ (Mapped (l ∷ ls)) (trieopen-MapFits files dir name laws m) λ t (fits, opened).
        bind_Returns (Mapped ls) (Mapped (l ∷ ls)) more λ ls' r. (
          _,
          refl,
          record {
            fit = (record { map_fits = fits; paired = h.0.paired }, r.fit);
            dicts = (d.0, r.dicts);
            files_left = (e.0, r.files_left);
            read = (
              record l { map = t },
              ls',
              refl,
              refl,
              subst (λ o. MapRead o l.map t) (sym named) (m.lines, m.there, opened),
              r.read,
            );
            knows = Knows-cons l _ ls ls' refl r.knows;
          },
        )

  mapinit-Mapped :
      (ls : List Lang)
      → IsUtf u
      → AllFit ls
      → DictsFit ls
      → MapFiles files dir ls
      → DictFiles files dir ls
      → Returns (mapinit files dir ls) (Mapped ls)
  unfolding mapinit
  mapinit-Mapped [] laws h d m e = (
    [],
    refl,
    record { fit = tt; dicts = tt; files_left = tt; read = refl; knows = λ c l e. (l, e) },
  )
  mapinit-Mapped (l ∷ ls) laws h d m e =
      with_map l ls (mapinit files dir ls) laws h d e (mapinit-Mapped ls laws h.1 d.1 m.1 e.1)
        l.mapname refl m.0

  with_dict :
      (l : Lang) (ls : List Lang) (rest : Run (List Lang))
      → AllFit (l ∷ ls)
      → DictsFit (l ∷ ls)
      → Returns rest (Loaded ls)
      → (o : Option (List ℕ)) → l.dictname ≡ o
      → DictFile files dir o
      → Returns
          (elim o [
            | none ↦ do ls' ← rest; ok (l ∷ ls')
            | some name ↦ do
              h ← dictopen (files (data_path dir name ".dict"))
              ls' ← rest
              ok (record l { dict = some h } ∷ ls')
          ])
          (Loaded (l ∷ ls))
  with_dict l ls rest h d more none named e =
      bind_Returns (Loaded ls) (Loaded (l ∷ ls)) more λ ls' r. (
        _,
        refl,
        record {
          fit = (h.0, r.fit);
          dicts = (d.0, r.dicts);
          read =
              (l, ls', refl, refl, subst (λ o. DictRead o l.dict l.dict) (sym named) refl, r.read);
          knows = Knows-cons l l ls ls' refl r.knows;
        },
      )
  with_dict l ls rest h d more (some name) named e =
      bind_Returns _ (Loaded (l ∷ ls)) (dictopen-IsHmap files dir name e) λ g (w, opened).
        bind_Returns (Loaded ls) (Loaded (l ∷ ls)) more λ ls' r. (
          _,
          refl,
          record {
            fit = (record { map_fits = h.0.map_fits; paired = h.0.paired }, r.fit);
            dicts = (w, r.dicts);
            read = (
              record l { dict = some g },
              ls',
              refl,
              refl,
              subst (λ o. DictRead o l.dict (some g)) (sym named)
                  (g, e.lines, refl, e.there, opened),
              r.read,
            );
            knows = Knows-cons l _ ls ls' refl r.knows;
          },
        )

  dictinit-Loaded :
      (ls : List Lang)
      → AllFit ls
      → DictsFit ls
      → DictFiles files dir ls
      → Returns (dictinit files dir ls) (Loaded ls)
  unfolding dictinit
  dictinit-Loaded [] h d e =
      ([], refl, record { fit = tt; dicts = tt; read = refl; knows = λ c l e. (l, e) })
  dictinit-Loaded (l ∷ ls) h d e =
      with_dict l ls (dictinit files dir ls) h d (dictinit-Loaded ls h.1 d.1 e.1) l.dictname refl
        e.0

  -- The threads start in a state where all is well.
  pub record Started (ls : List Lang) (r : List Lang × System) : Type 0 where
    pub mapped : List Lang
    pub maps_read : MapsRead ls mapped
    pub dicts_read : DictsRead mapped r.0
    pub fit : AllFit r.0
    pub dicts : DictsFit r.0
    pub english : (l : Lang) × (getlang r.0 lang_en ≡ some l)
    pub booted : boot r.0 ≡ ok r.1
    pub ok : IsOk r.0 r.1

  -- With a lawful UTF-8 codec, three arguments, and languages whose handlers match, whose maps
  -- and dictionaries so far are good, and one of which is English: if the path of each file
  -- that a language names has at most 1023 bytes, each map file has only blank lines and
  -- entries with keys and values of at most 63 bytes, and each dictionary file has only keys
  -- that give a C string when they are decoded and encoded, then `threadmain` returns. The
  -- languages are those from before, but the map of each that names a map file is what
  -- `trieopen` makes of the lines of that file, and its dictionary, if it names one, what
  -- `dictopen` makes of the lines of that; the maps fit, the dictionaries have chains that end,
  -- English is among them, and the threads start in a good state.
  pub threadmain-Started :
      (strans fontdir : List ℕ) (ls : List Lang) (english : Lang)
      → IsUtf u
      → AllFit ls
      → DictsFit ls
      → MapFiles files dir ls
      → DictFiles files dir ls
      → getlang ls lang_en ≡ some english
      → Returns (threadmain files (strans ∷ dir ∷ fontdir ∷ []) ls) (Started ls)
  unfolding threadmain
  threadmain-Started strans fontdir ls english laws h d m e known =
      bind_Returns (Mapped ls) (Started ls) (mapinit-Mapped ls laws h d m e) λ ms r.
        bind_Returns (Loaded ms) (Started ls) (dictinit-Loaded ms r.fit r.dicts r.files_left)
          λ ds r'.
            let (en, known') = r.knows lang_en english known in
            let (en', known'') = r'.knows lang_en en known' in
            let (s, run, w) = boot-IsOk ds r'.fit r'.dicts en' known'' in
            (
              (ds, s),
              rw (run, ◌>>=◌) refl,
              record {
                mapped = ms;
                maps_read = r.read;
                dicts_read = r'.read;
                fit = r'.fit;
                dicts = r'.dicts;
                english = (en', known'');
                booted = run;
                ok = w;
              },
            )
