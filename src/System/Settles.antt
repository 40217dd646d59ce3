-- ===== src/System/Settles.antt =====
-- The threads together: whatever the order of their steps, they finish the work that is there.
use strans.Base.{ℕ, zero, suc, ◌≤◌, ◌<◌, ◌≡◌, refl, ◌∙◌, inl, inr, List, arith, length, some}
use strans.Key.Valid.{AllFit}
use strans.Lang.{Lang, getlang, lang_en}
use strans.Run.{ok, of_run, bind_Returns, weaken_Returns}
use strans.System.Lookups.{DictsFit}
use strans.System.Measure.{
  keys, asking, drawing, fewer_keys, less_asking, less_drawing, Tick-Lowers,
}
use strans.System.Progress.{Quiet, goes_on}
use strans.System.Replies.{Replies, IsReplied, keys_ever, owed, Tick-IsReplied, Tick-keys_ever}
use strans.System.Safe.{IsOk, Tick-IsOk, Reach-IsOk, boot-IsOk}
use strans.System.{System, Tick, Reach, here, next, tick, connect, boot}
use strans.Thread.Safe.{init-Returns}
use strans.Im.Valid.{IsValid}
use strans.Utf.{Utf}

module _ ⦃u : Utf⦄ (langs : List Lang) where
  -- Every sequence of steps comes to a state that is `Done`, and until then a step is possible.
  pub data Inevitable (Done : System → Type 0) : System → Type 0 where
    now : {s : System} → Done s → Inevitable Done s
    later :
        {s t : System}
        → Tick langs s t
        → ((v : System) → Tick langs s v → Inevitable Done v)
        → Inevitable Done s

  -- Nothing is left to do, and the keys ever sent, `n` of them, have their responses.
  pub record Served (n : ℕ) (s : System) : Type 0 where
    pub quiet : Quiet s
    pub all_keys : length s.accepted ≡ n
    pub replies : Replies s.accepted s.written

  pub record Sound (n : ℕ) (s : System) : Type 0 where
    pub ok : IsOk langs s
    pub replied : IsReplied s
    pub keys : keys_ever s ≡ n

  Sound-Served : (n : ℕ) (s : System) → Sound n s → Quiet s → Served n s
  unfolding owed
  Sound-Served n s w q = record {
    quiet = q;
    all_keys = omega (arith, w.keys, q.clients);
    replies = rw q.im at w.replied.replies;
  }

  module _ (h : AllFit langs) (d : DictsFit langs) (n : ℕ) where
    Tick-Sound : (s t : System) → Tick langs s t → Sound n s → Sound n t
    Tick-Sound s t k w = record {
      ok = Tick-IsOk langs h d k w.ok;
      replied = Tick-IsReplied langs h d k w.ok w.replied;
      keys = Tick-keys_ever langs h d k ∙ w.keys;
    }

    -- From the sound states with this property.
    abbrev Settles : (System → Type 0) → Type 0
    Settles P = (s : System) → Sound n s → P s → Inevitable (Served n) s

    -- Less to draw settles, so with less to look up, so with fewer keys.
    settle_drawing :
        (a b c : ℕ)
        → Settles (λ s. keys s < a)
        → Settles (λ s. (keys s ≤ a) × (asking s < b))
        → Settles (λ s. (keys s ≤ a) × (asking s ≤ b) × (drawing s < c))
    settle_drawing a b zero ih_a ih_b s w p = absurd (omega (arith, p))
    settle_drawing a b (suc c) ih_a ih_b s w p = elim (goes_on langs h d s w.ok) [
      | inl quiet ↦ now (Sound-Served n s w quiet)
      | inr (t, k) ↦ later k λ v k'.
          let w' = Tick-Sound s v k' w in
          elim (Tick-Lowers langs k' w.ok) [
            | fewer_keys less ↦ ih_a v w' (omega (arith, p, less))
            | less_asking same less ↦ ih_b v w' (omega (arith, p, same), omega (arith, p, less))
            | less_drawing same same' less ↦
                settle_drawing a b c ih_a ih_b v w'
                  (omega (arith, p, same), omega (arith, p, same'), omega (arith, p, less))
          ]
    ]

    settle_asking :
        (a b : ℕ) → Settles (λ s. keys s < a) → Settles (λ s. (keys s ≤ a) × (asking s < b))
    settle_asking a zero ih_a s w p = absurd (omega (arith, p))
    settle_asking a (suc b) ih_a s w p =
        settle_drawing a b (suc (drawing s)) ih_a (settle_asking a b ih_a) s w
          (p.0, omega (arith, p), omega arith)

    settle_keys : (a : ℕ) → Settles (λ s. keys s < a)
    settle_keys zero s w p = absurd (omega (arith, p))
    settle_keys (suc a) s w p =
        settle_asking a (suc (asking s)) (settle_keys a) s w (omega (arith, p), omega arith)

    Sound-Inevitable : (s : System) → Sound n s → Inevitable (Served n) s
    Sound-Inevitable s w = settle_keys (suc (keys s)) s w (omega arith)

  module _ (h : AllFit langs) (d : DictsFit langs) (english : Lang)
      (l : getlang langs lang_en ≡ some english) where
    Reach-IsReplied : {s t : System} → Reach langs s t → IsOk langs s → IsReplied s → IsReplied t
    Reach-IsReplied here w a = a
    Reach-IsReplied (next r (tick k)) w a =
        Tick-IsReplied langs h d k (Reach-IsOk langs h d r w) (Reach-IsReplied r w a)
    Reach-IsReplied (next r (connect s fd bytes)) w a =
        let b = Reach-IsReplied r w a in record { replies = b.replies }

    booted : {s : System} → boot langs ≡ ok s → IsReplied s
    unfolding boot owed
    booted e = of_run e (
        bind_Returns (λ _. Unit {0}) IsReplied
          (weaken_Returns IsValid (λ _. Unit {0}) (init-Returns langs english h l) λ _ _. tt)
          λ im _. (_, refl, record { replies = tt }))

    -- The threads and their channels, started by `boot`: if every language has a map that
    -- fits its strings, a matching pair of handlers and no dictionary or one whose chains
    -- end, and English is one of the languages, then from every state that the threads reach,
    -- in any order of their steps and with any clients, the steps of the threads on what is
    -- there come to an end, whatever their order, and until then a step is possible. At the
    -- end every key that a client has sent is taken and each has one response to its client,
    -- in the order in which the keys were taken; the channels are empty and each thread waits
    -- for another.
    pub Reach-Inevitable :
        {s t : System} → boot langs ≡ ok s → Reach langs s t → Inevitable (Served (keys_ever t)) t
    Reach-Inevitable e r =
        let w = of_run e (boot-IsOk langs h d english l) in
        Sound-Inevitable h d _ _ (record {
          ok = Reach-IsOk langs h d r w;
          replied = Reach-IsReplied r w (booted e);
          keys = refl;
        })
