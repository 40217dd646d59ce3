-- ===== src/System/Lookups.antt =====
-- dict.c: a round of `dictthread` returns, on the dictionaries that `dictopen` makes.
use native.Mathlib.Nat.{mod-lt}
use strans.Base.{
  ℕ, ◌%◌, ◌<◌, ◌≡◌, refl, subst, false, List, [], ◌∷◌, Option, none, some, arith, ◌==◌, length,
  Bool-cases, inl, inr,
}
use mathlib.Core.Option.{some-injective}
use strans.Dict.Candidates.{Fits, lookup_loop-Fits}
use strans.Dict.{Dictreq, Dictres, dictlookup, dictthread_round, newest, lookup_loop}
use strans.Hash.Refines.{IsHmap}
use strans.Hash.Seek.{chain_seeks, get_loop-Seek}
use strans.Hash.{Hnode, Hmap, bucket, hash, hmapget}
use strans.Lang.{Lang, getlang}
use strans.Run.{ok, ◌>>=◌, Returns, bind_Returns, if_Returns, Option_Returns}
use strans.Str.{Str}
use strans.Utf.{Utf}

abbrev pub DictFits : Option Hmap → Type 0
DictFits none = Unit {0}
DictFits (some h) = IsHmap h

-- Every language has no dictionary, or one whose chains end.
abbrev pub DictsFit : List Lang → Type 0
DictsFit [] = Unit {0}
DictsFit (l ∷ ls) = DictFits l.dict × DictsFit ls

getlang-DictFits :
    (langs : List Lang) (c : ℕ) (l : Lang)
    → DictsFit langs
    → getlang langs c ≡ some l
    → DictFits l.dict
unfolding getlang
getlang-DictFits [] c l d e = cc
getlang-DictFits (x ∷ ls) c l d e = elim (Bool-cases (x.lang == c)) [
  | inl here ↦ subst (λ m. DictFits m.dict) (some-injective x l (rw here at e)) d.0
  | inr later ↦ getlang-DictFits ls c l d.1 (rw later at e)
]

module _ ⦃u : Utf⦄ where
  hmapget-Returns : (h : Hmap) (key : Str) → IsHmap h → Returns (hmapget h key) λ _. Unit {0}
  unfolding hmapget bucket
  hmapget-Returns h key w =
      let lt : hash key % h.nbs < length h.nodes =
        omega (arith, mod-lt (hash key) w.buckets, w.room) in
      let (o, s) =
        chain_seeks h.nodes key (length h.nodes) (hash key % h.nbs) w.table lt (omega arith) in
      let (r, run, _) = get_loop-Seek h.nodes key (length h.nodes) w.table (omega arith) s in
      let buckets : (h.nbs == 0) ≡ false = ground (arith, w.buckets) in
      (r, rw (buckets, ◌>>=◌) run, tt)

  -- What an answer holds: the candidates of a request, and the preedit that it was for.
  pub record Found (langs : List Lang) (res : Dictres) : Type 0 where
    pub req : Dictreq
    pub kouho : dictlookup langs req ≡ ok res.kouho
    pub key : res.key ≡ req.pre
    pub fits : Fits req.key res.kouho

  nothing-Fits : (key : Str) → Fits key []
  nothing-Fits key = record { few = omega arith; other = tt }

  dictlookup-Returns :
      (langs : List Lang) (req : Dictreq)
      → DictsFit langs
      → Returns (dictlookup langs req) (Fits req.key)
  unfolding dictlookup
  dictlookup-Returns langs req d =
      if_Returns (length req.key == 0) (Fits req.key) (λ _. (_, refl, nothing-Fits req.key))
        λ _.
          Option_Returns (getlang langs req.lang) (Fits req.key)
            (λ _. (_, refl, nothing-Fits req.key))
            λ l known. of_dict l.dict (getlang-DictFits langs req.lang l d known)
    where
      of_node :
          (n : Option Hnode)
          → Fits req.key
              (elim n [ none ↦ [] | some n ↦ lookup_loop (length n.val) req.key n.val [] ])
      of_node none = nothing-Fits req.key
      of_node (some n) = lookup_loop-Fits (length n.val) req.key n.val [] (nothing-Fits req.key)

      of_dict :
          (o : Option Hmap)
          → DictFits o
          → Returns
              (elim o [
                | none ↦ ok []
                | some dict ↦ do
                  n ← hmapget dict req.key
                  ok (elim n [ none ↦ [] | some n ↦ lookup_loop (length n.val) req.key n.val [] ])
              ])
              (Fits req.key)
      of_dict none h = (_, refl, nothing-Fits req.key)
      of_dict (some h) w =
          bind_Returns (λ _. Unit {0}) (Fits req.key) (hmapget-Returns h req.key w)
            λ n _. (_, refl, of_node n)

  pub look_up-Found :
      (langs : List Lang) (req : Dictreq)
      → DictsFit langs
      → Returns (dictthread_round langs req []) (Found langs)
  unfolding dictthread_round newest
  look_up-Found langs req d =
      let (kouho, run, fits) = dictlookup-Returns langs req d in
      rw (run, ◌>>=◌) (_, refl, record { req = req; kouho = run; key = refl; fits = fits })
