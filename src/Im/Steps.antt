-- ===== src/Im/Steps.antt =====
-- strans.c: the language's functions, called through the pointers of `Lang`, keep the invariant.
use strans.Base.{ℕ, ◌<◌, ◌≤◌, ◌≡◌, refl, Bool, true, false, [], arith, length, ltb, if◌then◌else◌}
use strans.Emit.{Emit}
use strans.Im.Valid.{PreFits, PreFits-short, Keeps, show-Returns}
use strans.Im.{Turn, clearkouho, dictsend, dictqmap, trans, back, dotrans}
use strans.Ko.Backspace.{backko-Erases}
use strans.Ko.Other.{Bounds, transko-Returns}
use strans.Ko.{transko, backko}
use strans.Lang.{Lang, Trans, Back, by_map, by_ko, by_vi, back_map, back_ko}
use strans.Map.Fits.{MapFits, EmitFits, transmap-Returns, transvi-Returns}
use strans.Map.{transmap}
use strans.Run.{Run, ok, ◌>>=◌, Returns, bind_Returns, Option_Returns, weaken_Returns}
use strans.Str.Laws.{length-sappend, length-spopr, sappend_nil}
use strans.Str.{Str, sappend, spopr}
use strans.Trie.{Trie}
use strans.Utf.{Utf}
use strans.Vi.{transvi}

-- `trans` dispatched on the pointer itself, as a function by clauses.
trans_by : ⦃u : Utf⦄ → Trans → Trie → Str → ℕ → Run (Str × Emit)
trans_by by_map m pre c = do e ← transmap m pre c; ok (pre, e)
trans_by by_ko m pre c = transko pre c
trans_by by_vi m pre c = do e ← transvi m pre c; ok (pre, e)

back_by : Back → Str → Run Str
back_by back_map pre = ok (spopr pre)
back_by back_ko pre = backko pre

abbrev Moves : Trans → Back → Str × Emit → Type 0
Moves t b r = (length r.1.s ≤ 64) × PreFits t b (sappend [] r.1.next)

module _ ⦃u : Utf⦄ where
  trans_by_lem : (l : Lang) (pre : Str) (c : ℕ) → trans l pre c ≡ trans_by l.trans l.map pre c
  unfolding trans trans_by
  trans_by_lem l pre c = ground arith

  emit_Moves :
      (t : Trans) (b : Back) {e : Emit} (pre : Str)
      → EmitFits e
      → ((s : Str) → length s < 64 → PreFits t b s)
      → Moves t b (pre, e)
  emit_Moves t b {e} pre f k = (f.text, k _ (omega (arith, (length-sappend [] e.next).0, f.next)))

  trans_by-Returns :
      (t : Trans) (b : Back) {m : Trie} (pre : Str) (c : ℕ)
      → MapFits m
      → PreFits t b pre
      → Returns (trans_by t m pre c) (Moves t b)
  unfolding trans_by
  trans_by-Returns by_ko back_ko pre c m h =
      weaken_Returns Bounds (Moves by_ko back_ko) (transko-Returns pre c h) λ r bounds. (
        omega (arith, bounds.0),
        rw (sappend_nil r.1.next (omega (arith, PreFits-short by_ko back_ko r.1.next bounds.1)))
            bounds.1,
      )
  trans_by-Returns by_map back_map pre c m h =
      bind_Returns _ (Moves by_map back_map) (transmap-Returns m pre c h)
        λ e f. (_, refl, emit_Moves by_map back_map pre f (λ s k. k))
  trans_by-Returns by_vi back_map pre c m h =
      bind_Returns _ (Moves by_vi back_map) (transvi-Returns m pre c h)
        λ e f. (_, refl, emit_Moves by_vi back_map pre f (λ s k. k))
  trans_by-Returns by_ko back_map pre c m h = absurd h
  trans_by-Returns by_map back_ko pre c m h = absurd h
  trans_by-Returns by_vi back_ko pre c m h = absurd h

  dictsend-Keeps :
      (b : Bool) (t : Turn) (key : Str) → Keeps t → Keeps (if b then dictsend t key else t)
  unfolding dictsend
  dictsend-Keeps true t key k = record { valid = k.valid; text = k.text }
  dictsend-Keeps false t key k = k

  append-fits :
      (b : Bool) (text s : Str)
      → length text ≤ 64
      → length (if b then sappend text s else text) ≤ 64
  append-fits true text s h = (length-sappend text s).1 h
  append-fits false text s h = h

  -- A text key keeps the invariant, whatever the language makes of it.
  pub dotrans-Returns : (c : ℕ) (t : Turn) → Keeps t → Returns (dotrans c t) Keeps
  unfolding dotrans
  dotrans-Returns c t k =
      bind_Returns {m = trans t.im.l t.im.pre c} (Moves t.im.l.trans t.im.l.back) Keeps
        (rw trans_by_lem
          (trans_by-Returns t.im.l.trans t.im.l.back t.im.pre c k.valid.lang.map_fits k.valid.pre))
        λ r moves. (
          _,
          refl,
          dictsend-Keeps _ _ r.1.dict (record {
            valid = record {
              lang = k.valid.lang;
              pre = moves.1;
              few = k.valid.few;
              sel = k.valid.sel;
            };
            text = append-fits (ltb 0 (length r.1.s)) t.text r.1.s k.text;
          }),
        )

  back_by-Returns :
      (t : Trans) (b : Back) (pre : Str) → PreFits t b pre → Returns (back_by b pre) (PreFits t b)
  unfolding back_by
  back_by-Returns by_ko back_ko pre h = weaken_Returns _ _ (backko-Erases pre h) λ p e. e.hangul
  back_by-Returns by_map back_map pre h = (_, refl, omega (arith, length-spopr pre))
  back_by-Returns by_vi back_map pre h = (_, refl, omega (arith, length-spopr pre))
  back_by-Returns by_ko back_map pre h = absurd h
  back_by-Returns by_map back_ko pre h = absurd h
  back_by-Returns by_vi back_ko pre h = absurd h

  pub back-Returns :
      (l : Lang) (pre : Str)
      → PreFits l.trans l.back pre
      → Returns (back l pre) (PreFits l.trans l.back)
  unfolding back
  back-Returns l pre h = rw back_by_lem (back_by-Returns l.trans l.back pre h)
    where
      back_by_lem : back l pre ≡ back_by l.back pre
      back_by_lem = unfold back_by in ground arith

  pub dictqmap-Returns : (t : Turn) → Keeps t → Returns (dictqmap t) Keeps
  unfolding dictqmap dictsend
  dictqmap-Returns t k = bind_Returns _ Keeps (k.valid.lang.map_fits.gets t.im.pre) λ o short.
      Option_Returns o Keeps
        (λ e.
          show-Returns (record t { im = clearkouho t.im })
            (record {
              valid = record {
                lang = k.valid.lang;
                pre = k.valid.pre;
                few = omega arith;
                sel = tt;
              };
              text = k.text;
            }))
        λ key e. (_, refl, record { valid = k.valid; text = k.text })
