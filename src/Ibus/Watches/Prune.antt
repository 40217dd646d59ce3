-- ===== src/Ibus/Watches/Prune.antt =====
-- ibus.c: `pruneconns` moves connections down in their own array.
use strans.Base.{
  ℕ, zero, suc, ◌+◌, ◌≡◌, refl, sym, ap, ◌∙◌, Bool, true, List, [], ◌∷◌, ◌++◌, append-nil,
  append_assoc, some, arith, ltb, not, length, length-append, set, get_elem?, Bool-cases, inl, inr,
}
use strans.Client.Frames.{take-append}
use strans.Ibus.Watches.Laws.{keep}
use strans.Ibus.Watches.{put_conn, prune_loop, pruneconns}
use strans.Run.{Run, ok, ◌>>=◌}

get_elem?-append : (xs ys : List ℕ) (y i : ℕ) → i ≡ length xs → get_elem? (xs ++ y ∷ ys) i ≡ some y
get_elem?-append [] ys y zero e = refl
get_elem?-append [] ys y (suc i) e = absurd (omega (arith, e))
get_elem?-append (x ∷ xs) ys y zero e = absurd (omega (arith, e))
get_elem?-append (x ∷ xs) ys y (suc i) e = get_elem?-append xs ys y i (omega (arith, e))

set-append :
    (xs ys : List ℕ) (y c j : ℕ) → j ≡ length xs → set (xs ++ y ∷ ys) j c ≡ (xs ++ c ∷ []) ++ ys
set-append [] ys y c zero e = refl
set-append [] ys y c (suc j) e = absurd (omega (arith, e))
set-append (x ∷ xs) ys y c zero e = absurd (omega (arith, e))
set-append (x ∷ xs) ys y c (suc j) e = ap (◌∷◌ x) (set-append xs ys y c j (omega (arith, e)))

-- The write of a kept entry: over itself where nothing was let go, and else over a stale one.
put_conn-kept :
    (kept stale cs : List ℕ) (c j : ℕ)
    → j ≡ length kept
    → (stale' : List ℕ) × (length stale' ≡ length stale)
      × (put_conn (kept ++ (stale ++ c ∷ cs)) j c ≡ ok ((kept ++ c ∷ []) ++ (stale' ++ cs)))
unfolding put_conn
put_conn-kept kept [] cs c j e =
    let room : ltb j (length (kept ++ c ∷ cs)) ≡ true =
      ground (arith, e, length-append kept (c ∷ cs)) in
    ([], refl, rw room (ap ok (set-append kept cs c c j e)))
put_conn-kept kept (x ∷ stale) cs c j e =
    let room : ltb j (length (kept ++ x ∷ (stale ++ c ∷ cs))) ≡ true =
      ground (arith, e, length-append kept (x ∷ (stale ++ c ∷ cs))) in
    (
      stale ++ c ∷ [],
      omega (arith, length-append stale (c ∷ [])),
      rw room (
          ap ok (
            set-append kept (stale ++ c ∷ cs) x c j e
            ∙ ap (◌++◌ (kept ++ c ∷ [])) (sym (append_assoc stale (c ∷ []) cs)))),
    )

-- What the loop makes of an array with entries that were kept, stale ones, and those still to come.
Pruned : (ℕ → Bool) → List ℕ → List ℕ → List ℕ → Run (List ℕ × ℕ × List ℕ) → Type 0
Pruned connected kept cs gone r =
    (stale : List ℕ) × (r
      ≡ ok (
        (kept ++ keep connected cs) ++ stale,
        length (kept ++ keep connected cs),
        gone ++ keep (λ c. not (connected c)) cs,
      ))

prune_loop-Pruned :
    (connected : ℕ → Bool) (cs kept stale gone arr : List ℕ) (i j : ℕ)
    → arr ≡ kept ++ (stale ++ cs)
    → i ≡ length kept + length stale
    → j ≡ length kept
    → Pruned connected kept cs gone (prune_loop connected (length cs) i j arr gone)
unfolding prune_loop Pruned
prune_loop-Pruned connected [] kept stale gone arr i j at ei ej =
    (stale, rw (at, ej, append-nil stale, append-nil kept, append-nil gone) refl)
prune_loop-Pruned connected (c ∷ cs) kept stale gone arr i j at ei ej =
    let here : get_elem? arr i ≡ some c =
      ap (λ a. get_elem? a i) (at ∙ sym (append_assoc kept stale (c ∷ cs)))
      ∙ get_elem?-append (kept ++ stale) cs c i (omega (arith, ei, length-append kept stale)) in
    elim (Bool-cases (connected c)) [
      | inl on ↦
          let (stale', same, put) = put_conn-kept kept stale cs c j ej in
          let (rest, run) =
            prune_loop-Pruned connected cs (kept ++ c ∷ []) stale' gone _ (i + 1) (j + 1) refl
              (omega (arith, ei, same, length-append kept (c ∷ [])))
              (omega (arith, ej, length-append kept (c ∷ []))) in
          (
            rest,
            rw (here, on, prune_loop, at, put, ◌>>=◌)
                (run
                  ∙ ap (λ l. ok (l ++ rest, length l, gone ++ keep (λ c. not (connected c)) cs))
                      (append_assoc kept (c ∷ []) (keep connected cs))),
          )
      | inr off ↦
          let (rest, run) =
            prune_loop-Pruned connected cs kept (stale ++ c ∷ []) (gone ++ c ∷ []) arr (i + 1) j
              (at ∙ ap (◌++◌ kept) (sym (append_assoc stale (c ∷ []) cs)))
              (omega (arith, ei, length-append stale (c ∷ []))) ej in
          (
            rest,
            rw (here, off, prune_loop)
                (run
                  ∙ ap
                      (λ l. ok (
                        (kept ++ keep connected cs) ++ rest,
                        length (kept ++ keep connected cs),
                        l,
                      ))
                      (append_assoc gone (c ∷ []) (keep (λ c. not (connected c)) cs))),
          )
    ]

-- `pruneconns`, which moves the connections down within their own array, returns: it reads and
-- writes no place outside of the array, the entries in front are those that are connected, in
-- their order, and it lets go of exactly the others, in their order.
pub pruneconns-keep :
    (connected : ℕ → Bool) (conns : List ℕ)
    → pruneconns connected conns ≡ ok (keep connected conns, keep (λ c. not (connected c)) conns)
unfolding pruneconns Pruned
pruneconns-keep connected conns =
    let (stale, run) = prune_loop-Pruned connected conns [] [] [] conns 0 0 refl refl refl in
    rw (run, ◌>>=◌)
      (ap (λ t. ok (t, keep (λ c. not (connected c)) conns))
        (take-append (keep connected conns) stale))
