-- ===== src/Tests/Tables.antt =====
-- hash.c and dict.c: witnesses, with a dictionary of one comment and two entries.
use strans.Base.{◌≡◌, refl, List, [], ◌∷◌, some, equal, inl, arith, codes}
use strans.Dict.Lines.{Line, blank, comment, entry, last_entry, texts, AllEntries}
use strans.Dict.Load.{candidates, dictlookup-dictopen}
use strans.Dict.Text.{IsKey, joined}
use strans.Dict.Words.{others}
use strans.Dict.{Dictreq, dictopen, dictlookup}
use strans.Hash.Refines.{Stored, hmapset-Stored, hmapalloc-Empty}
use strans.Hash.{hmapalloc, hmapset, bytes, until_zero}
use strans.Lang.{lang_en}
use strans.Run.{Returns, ok, ◌>>=◌}
use strans.Tests.Engine.{english}
use strans.Str.{Str, stoutf, stoutf_loop}
use strans.Tests.Utf8.{utf8, utf8-IsUtf, utf8-IsPlain, encode}

key_bytes : until_zero (bytes (codes "k")) ≡ bytes (codes "k")
unfolding until_zero bytes stoutf stoutf_loop encode
key_bytes = refl

hmapset-Stored_example :
    Returns
      (hmapset (hmapalloc 4) (codes "k") (codes "v"))
      (Stored (hmapalloc 4) (codes "k") (codes "v"))
hmapset-Stored_example =
    hmapset-Stored (codes "k") (codes "v") key_bytes (omega arith) (hmapalloc 4)
      (hmapalloc-Empty 4 (omega arith)).0

abbrev words : List Str
words = codes "한" ∷ codes "han" ∷ codes "x" ∷ []

abbrev lines : List Line
lines =
    comment (codes " han")
    ∷ entry (codes "han") (codes "y" ∷ [])
    ∷ blank
    ∷ entry (codes "han") words
    ∷ []

han-IsKey : IsKey (codes "han")
han-IsKey = record {
  runes = (inl (omega arith), (inl (omega arith), (inl (omega arith), tt)));
  few = omega arith;
  no_zero = (refl, (refl, (refl, tt)));
}

lines-AllEntries : AllEntries lines
unfolding joined
lines-AllEntries = (
  record {
    key = han-IsKey;
    value = record {
      words = (
        record {
          runes = (inl (omega arith), tt);
          few = omega arith;
          some_rune = omega arith;
          no_space = (refl, tt);
        },
        tt,
      );
      some_word = omega arith;
      few = omega arith;
      no_zero = (refl, tt);
    };
    no_tab = (refl, (refl, (refl, tt)));
    front = (refl, tt);
  },
  (
    record {
      key = han-IsKey;
      value = record {
        words = (
          record {
            runes = (inl (omega arith), tt);
            few = omega arith;
            some_rune = omega arith;
            no_space = (refl, tt);
          },
          (
            record {
              runes = (inl (omega arith), (inl (omega arith), (inl (omega arith), tt)));
              few = omega arith;
              some_rune = omega arith;
              no_space = (refl, (refl, (refl, tt)));
            },
            (
              record {
                runes = (inl (omega arith), tt);
                few = omega arith;
                some_rune = omega arith;
                no_space = (refl, tt);
              },
              tt,
            ),
          ),
        );
        some_word = omega arith;
        few = omega arith;
        no_zero = (refl, (refl, (refl, (refl, (refl, (refl, (refl, tt)))))));
      };
      no_tab = (refl, (refl, (refl, tt)));
      front = (refl, tt);
    },
    tt,
  ),
)

abbrev ask_han : Dictreq
ask_han = record { key = codes "han"; pre = codes "h"; lang = lang_en }

dictlookup-dictopen_example :
    (dictopen (some (texts lines)) >>= λ h.
    dictlookup (record english { dict = some h } ∷ []) ask_han)
    ≡ ok (candidates (codes "han") (last_entry lines (codes "han")))
dictlookup-dictopen_example =
    dictlookup-dictopen utf8-IsUtf utf8-IsPlain lines english [] ask_han lines-AllEntries han-IsKey
      (omega arith) refl

candidates_of_han :
    candidates (codes "han") (last_entry lines (codes "han")) ≡ codes "한" ∷ codes "x" ∷ []
unfolding last_entry others equal
candidates_of_han = refl
