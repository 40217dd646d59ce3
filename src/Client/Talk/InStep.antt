-- ===== src/Client/Talk/InStep.antt =====
-- gtk/main.c with srv.c and strans.c: the context and the engine stay in step.
use strans.Base.{
  ap₂, map, ◌≡◌, ◌<◌, ◌⊎◌, inl, inr, ltb, length, arith, subst, Bool-cases, ℕ, refl, sym, ap, ◌∙◌,
  List, [], ◌∷◌, ◌++◌, append-nil, append_assoc,
}
use strans.Im.Valid.{IsValid}
use strans.Key.Valid.{AllFit}
use strans.Lang.{Lang}
use strans.Run.{Returns, weaken_Returns, bind_Returns}
use strans.Utf.{Utf, IsUtf}
use strans.Client.Talk.{
  ContextEvent, next_fd, questions, event, unfocus, Talk, context_step, talk, frame, frames,
  commit_all, Reply, HasLong, here, there, with_commit, to_commit, Talked,
}
use strans.Client.Talk.Steps.{Stepped, quiet, answered, event-Stepped, unfocus-Stepped}

module _ ⦃u : Utf⦄ where
  -- A text that is too long ends what is known of the socket.
  in_step-cons :
      (t mid t' : Talk) (r : Reply) (rs : List Reply)
      → (length r.text < 64 → (mid.left ≡ []) × (mid.commits ≡ with_commit t.commits (to_commit r)))
      → (mid.left ≡ [] → ((t'.left ≡ []) × (t'.commits ≡ commit_all mid.commits rs)) ⊎ HasLong rs)
      → ((t'.left ≡ []) × (t'.commits ≡ commit_all t.commits (r ∷ rs))) ⊎ HasLong (r ∷ rs)
  unfolding commit_all
  in_step-cons t mid t' r rs first later = elim (Bool-cases (ltb (length r.text) 64)) [
    | inr long ↦ inr (here r rs (ground arith))
    | inl short ↦
        let (left, commits) = first (ground arith) in
        elim (later left) [
          | inl (rest, done) ↦ inl (rest, done ∙ ap (λ ts. commit_all ts rs) commits)
          | inr long ↦ inr (there r rs long)
        ]
  ]

  -- The same from any socket; what is left on it matters to what is known of the texts.
  record Follows (to_unicode : ℕ → ℕ) (es : List ContextEvent) (t t' : Talk) : Type 0 where
    valid : IsValid t'.im
    replies : List Reply
    heard : t'.heard ≡ t.heard ++ frames replies
    asked : map (λ r. r.pressed) replies ≡ questions to_unicode es t.fd
    in_step :
        t.left ≡ []
        → ((t'.left ≡ []) × (t'.commits ≡ commit_all t.commits replies)) ⊎ HasLong replies

  no_events : (to_unicode : ℕ → ℕ) (t : Talk) → IsValid t.im → Follows to_unicode [] t t
  unfolding frames commit_all questions
  no_events to_unicode t v = record {
    valid = v;
    replies = [];
    heard = sym (append-nil t.heard);
    asked = refl;
    in_step = λ empty. inl (empty, refl);
  }

  Follows-cons :
      (to_unicode : ℕ → ℕ) (e : ContextEvent) (es : List ContextEvent) (t mid t' : Talk)
      → mid.fd ≡ next_fd e t.fd
      → Stepped to_unicode e t mid
      → Follows to_unicode es mid t'
      → Follows to_unicode (e ∷ es) t t'
  unfolding frames questions
  Follows-cons to_unicode e es t mid t' fd (quiet none_asked left heard commits) k = record {
    valid = k.valid;
    replies = k.replies;
    heard = k.heard ∙ ap (λ b. b ++ frames k.replies) heard;
    asked = k.asked ∙ ap₂ (λ a d. a ++ questions to_unicode es d) (sym none_asked) fd;
    in_step = λ empty.
        subst (λ ts. ((t'.left ≡ []) × (t'.commits ≡ commit_all ts k.replies)) ⊎ HasLong k.replies)
          commits (k.in_step (left ∙ empty));
  }
  Follows-cons to_unicode e es t mid t' fd (answered r asked heard step) k = record {
    valid = k.valid;
    replies = r ∷ k.replies;
    heard =
        k.heard
        ∙ ap (λ b. b ++ frames k.replies) heard
        ∙ append_assoc t.heard (frame r) (frames k.replies);
    asked = ap (◌∷◌ r.pressed) k.asked ∙ ap₂ (λ a d. a ++ questions to_unicode es d) (sym asked) fd;
    in_step = λ empty. in_step-cons t mid t' r k.replies (λ short. step short empty) k.in_step;
  }

module _ ⦃u : Utf⦄ (laws : IsUtf u) (to_unicode : ℕ → ℕ) (langs : List Lang) (fits : AllFit langs)
    (to : ℕ) where
  step-Stepped :
      (e : ContextEvent) (t : Talk)
      → IsValid t.im
      → Returns
          (context_step to_unicode langs to e t)
          λ t'. IsValid t'.im × (t'.fd ≡ next_fd e t.fd) × Stepped to_unicode e t t'
  step-Stepped (event fresh is_press keyval state) t v =
      event-Stepped laws to_unicode langs fits to fresh is_press keyval state t v
  step-Stepped unfocus t v = unfocus-Stepped laws to_unicode langs fits to t v

  talk-Follows :
      (es : List ContextEvent) (t : Talk)
      → IsValid t.im
      → Returns (talk to_unicode langs to es t) (Follows to_unicode es t)
  unfolding talk
  talk-Follows [] t v = (t, refl, no_events to_unicode t v)
  talk-Follows (e ∷ es) t v =
      bind_Returns _ (Follows to_unicode (e ∷ es) t) (step-Stepped e t v) λ mid (v', fd, s).
        let (t', run, k) = talk-Follows es mid v' in
        (t', run, Follows-cons to_unicode e es t mid t' fd s k)

  -- With a lawful UTF-8 codec, languages whose maps fit, a valid state of the engine, and
  -- nothing left on the socket, an input context of the GTK client and the engine get through
  -- every sequence of presses, other key events, resets and losses of focus, with every result
  -- of `srvconnect`. The engine ends in a valid state, and what it wrote is one response after
  -- the other, each a verdict, a length and a text: one for each press that has a connection
  -- and whose key is not 0, and for each reset or loss of focus with a connection, in their
  -- order. Either nothing is left on the socket, and the context committed, for the responses
  -- to presses with the verdict true, exactly the bytes of their texts in front of the first
  -- zero byte, where there are any, in their order; or one of the texts has 64 bytes or more.
  pub talk-Talked :
      (es : List ContextEvent) (t : Talk)
      → IsValid t.im
      → t.left ≡ []
      → Returns (talk to_unicode langs to es t) (Talked to_unicode es t)
  talk-Talked es t v empty =
      weaken_Returns (Follows to_unicode es t) (Talked to_unicode es t) (talk-Follows es t v)
        λ t' k. record {
          valid = k.valid;
          replies = k.replies;
          heard = k.heard;
          asked = k.asked;
          in_step = k.in_step empty;
        }
