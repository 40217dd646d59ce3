-- ===== src/Dict/Load.antt =====
-- dict.c: `dictopen` and `dictlookup` together: a dictionary file as a list of entries.
use mathlib.Core.Option.{none-ne-some, some-injective}
use strans.Base.{
  ℕ, ◌<◌, ◌≡◌, refl, sym, ap, ◌∙◌, List, [], ◌∷◌, Option, none, some, arith, equal, equal_iff,
  if◌then◌else◌, length, take, Bool-cases, Option-cases, subst, ==_iff, ==_pos, inl, inr,
}
use strans.Dict.Text.{joined, IsKey, IsValue-IsKey, sdup-utf, c_string, bytes_inj, utf-joined}
use strans.Dict.Bytes.{IsPlain, AllWords, spaced}
use strans.Dict.Words.{others, dictlookup-missing, dictlookup-spaced}
use strans.Dict.{Dictreq, max_kouho, dictlookup, dict_line, dict_lines, dictopen}
use strans.Hash.Refines.{IsHmap, Stored, hmapset-Stored, hmapalloc-Empty, value}
use strans.Hash.{Hmap, hmapalloc}
use strans.Lang.{Lang, getlang}
use strans.Run.{Run, ok, ◌>>=◌, Returns}
use strans.Str.{Str}
use strans.Utf.{Utf, IsUtf}
use strans.Dict.Lines.{
  Line, blank, comment, entry, or_else, last_entry, texts, IsEntry, AllEntries, dict_line-entry,
}

-- The candidates that a dictionary has for a key.
abbrev pub candidates : Str → Option (List Str) → List Str
candidates key none = []
candidates key (some ss) = take max_kouho (others key ss)

module _ ⦃u : Utf⦄ where
  -- The bytes that the words of a key are stored as.
  abbrev stored : Option (List Str) → Option (List ℕ)
  stored none = none
  stored (some ss) = some (spaced ss)

  -- What is read where `r` was read before.
  abbrev read_after : Run (Option (List ℕ)) → Option (List Str) → Run (Option (List ℕ))
  read_after r none = r
  read_after r (some ss) = ok (some (spaced ss))

  module _ (laws : IsUtf u) (plain : IsPlain u) where
    -- What a key has after an entry is stored and the lines behind it are read.
    entry_first :
        (h h' : Hmap) (k q : Str) (ss : List Str)
        → IsEntry k ss
        → IsKey q
        → Stored h k (joined ss) h'
        → (o : Option (List Str))
        → read_after (value h' q) o
          ≡ read_after (value h q) (or_else o (if equal q k then some ss else none))
    entry_first h h' k q ss w key st (some later) = refl
    entry_first h h' k q ss w key st none = elim (Bool-cases (equal q k)) [
      | inl same ↦ rw same (
          ap (value h') ((equal_iff q k).0 same)
          ∙ st.this_key
          ∙ ap (λ v. ok (some v))
              (sdup-utf laws plain (joined ss) (IsValue-IsKey ss w.value)
                ∙ utf-joined laws plain ss))
      | inr differ ↦
          rw differ
            (st.others q λ e. cc ((equal_iff q k).1 (bytes_inj laws plain k q w.key key e), differ))
    ]

    dict_lines-Returns :
        (ls : List Line) (h : Hmap)
        → AllEntries ls
        → IsHmap h
        → Returns (dict_lines h (texts ls)) λ h'.
          IsHmap h' × ((q : Str) → IsKey q → value h' q ≡ read_after (value h q) (last_entry ls q))
    unfolding dict_lines dict_line texts last_entry
    dict_lines-Returns [] h all w = (h, refl, (w, λ q k. refl))
    dict_lines-Returns (blank ∷ ls) h all w = dict_lines-Returns ls h all w
    dict_lines-Returns (comment s ∷ ls) h all w = dict_lines-Returns ls h all w
    dict_lines-Returns (entry k ss ∷ ls) h (e, all) w =
        let (h', run, st) =
          hmapset-Stored k (joined ss) (c_string laws plain k e.key) e.value.some_word h w in
        let (h'', run', (w'', reads)) = dict_lines-Returns ls h' all st.hmap in
        (
          h'',
          ap (λ r. r >>= λ g. dict_lines g (texts ls)) (dict_line-entry laws plain h k ss e ∙ run)
              ∙ run',
          (w'', λ q key. reads q key ∙ entry_first h h' k q ss e key st (last_entry ls q)),
        )

    -- A table that has what the entries say.
    pub record Reads (ls : List Line) (h : Hmap) : Type 0 where
      pub hmap : IsHmap h
      pub values : (q : Str) → IsKey q → value h q ≡ ok (stored (last_entry ls q))

    pub dictopen-Reads :
        (ls : List Line) → AllEntries ls → Returns (dictopen (some (texts ls))) (Reads ls)
    unfolding dictopen
    dictopen-Reads ls all =
        let (w, empty) = hmapalloc-Empty 4096 (omega arith) in
        let (h, run, (w', reads)) = dict_lines-Returns ls (hmapalloc 4096) all w in
        (
          h,
          run,
          record {
            hmap = w';
            values = λ q key. reads q key ∙ none_before (last_entry ls q) (empty q);
          },
        )
      where
        none_before :
            {r : Run (Option (List ℕ))} (o : Option (List Str))
            → r ≡ ok none
            → read_after r o ≡ ok (stored o)
        none_before none e = e
        none_before (some ss) e = refl

    last_entry-AllWords :
        (ls : List Line) (q : Str) (ss : List Str)
        → AllEntries ls
        → last_entry ls q ≡ some ss
        → AllWords ss
    unfolding last_entry
    last_entry-AllWords [] q ss all e = absurd (none-ne-some ss e)
    last_entry-AllWords (blank ∷ ls) q ss all e = last_entry-AllWords ls q ss all e
    last_entry-AllWords (comment s ∷ ls) q ss all e = last_entry-AllWords ls q ss all e
    last_entry-AllWords (entry k s ∷ ls) q ss (w, all) e = elim (Option-cases (last_entry ls q)) [
      | inr (later, e') ↦
          last_entry-AllWords ls q ss all (e' ∙ ap some (some-injective later ss (rw e' at e)))
      | inl missing ↦ elim (Bool-cases (equal q k)) [
        | inl same ↦ subst AllWords (some-injective s ss (rw (missing, same) at e)) w.value.words
        | inr differ ↦ absurd (none-ne-some ss (rw (missing, differ) at e))
      ]
    ]

    -- With a lawful UTF-8 codec that writes ASCII as itself, take a dictionary file whose
    -- lines are blank, comments, or entries of a key, a tab and at least one word, with a
    -- space between two of them, where key and words together have fewer than 64 runes each,
    -- no word is empty or has a space, no key has a tab or starts with a semicolon, and both
    -- are of valid code points other than zero. Then `dictopen` and, for such a key that is
    -- not empty (it may have tabs), and the language of that dictionary, `dictlookup` return:
    -- the words of the last entry with that key, in their order, without the key itself, and
    -- at most 32; and none if there is no such entry.
    pub dictlookup-dictopen :
        (ls : List Line) (l : Lang) (langs : List Lang) (req : Dictreq)
        → AllEntries ls
        → IsKey req.key
        → 0 < length req.key
        → l.lang ≡ req.lang
        → (dictopen (some (texts ls)) >>= λ h. dictlookup (record l { dict = some h } ∷ langs) req)
          ≡ ok (candidates req.key (last_entry ls req.key))
    dictlookup-dictopen ls l langs req all key given lang =
        let (h, run, r) = dictopen-Reads ls all in
        rw (run, ◌>>=◌) (asked h (last_entry ls req.key) refl (r.values req.key key))
      where
        chosen :
            (h : Hmap)
            → getlang (record l { dict = some h } ∷ langs) req.lang
              ≡ some (record l { dict = some h })
        chosen h = unfold getlang in rw ((==_iff l.lang req.lang).1 lang) refl

        asked :
            (h : Hmap) (o : Option (List Str))
            → last_entry ls req.key ≡ o
            → value h req.key ≡ ok (stored (last_entry ls req.key))
            → dictlookup (record l { dict = some h } ∷ langs) req
              ≡ ok (candidates req.key (last_entry ls req.key))
        asked h none e v =
            dictlookup-missing laws plain (record l { dict = some h } ∷ langs) req
              (record l { dict = some h }) h (==_pos (length req.key) given) (chosen h) refl
              (v ∙ ap (λ o. ok (stored o)) e)
            ∙ ap (λ o. ok (candidates req.key o)) (sym e)
        asked h (some ss) e v =
            dictlookup-spaced laws plain (record l { dict = some h } ∷ langs) req
              (record l { dict = some h }) h ss (==_pos (length req.key) given) (chosen h) refl
              (v ∙ ap (λ o. ok (stored o)) e) (last_entry-AllWords ls req.key ss all e)
            ∙ ap (λ o. ok (candidates req.key o)) (sym e)
