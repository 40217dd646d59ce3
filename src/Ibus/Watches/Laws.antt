-- ===== src/Ibus/Watches/Laws.antt =====
-- ibus.c: what the two tables hold, and that they never outgrow their arrays.
use strans.Base.{
  ℕ, suc, ◌+◌, ◌≤◌, ◌≡◌, inl, inr, refl, ap, Bool, true, false, List, [], ◌∷◌, ◌++◌, Option, none,
  some, arith, ltb, leb, ◌==◌, ==_iff, ◌&&◌, if◌then◌else◌, length, length-append, Bool-cases,
  get_elem?,
}
use strans.Ibus.Watches.{
  WatchTable, max_watches, max_conns, fill_slot, addwatch, removewatch, WatchInfo, Pollfd, poll_set,
  newconn,
}

-- How many slots hold the watch.
abbrev pub held : WatchTable → ℕ → ℕ
held [] v = 0
held (none ∷ ws) v = held ws v
held (some x ∷ ws) v = (if x == v then 1 else 0) + held ws v

-- How many slots hold nil.
abbrev pub vacancies : WatchTable → ℕ
vacancies [] = 0
vacancies (none ∷ ws) = suc (vacancies ws)
vacancies (some x ∷ ws) = vacancies ws

-- What a full pass finds: no vacancy, or the table with one vacancy less that holds the watch once more.
abbrev Filled : WatchTable → ℕ → Option WatchTable → Type 0
Filled ws w none = vacancies ws ≡ 0
Filled ws w (some ws') =
    (length ws' ≡ length ws)
    × (vacancies ws ≡ suc (vacancies ws'))
    × ((v : ℕ) → held ws' v ≡ held ws v + (if w == v then 1 else 0))

fill_slot-Filled : (ws : WatchTable) (w : ℕ) → Filled ws w (fill_slot ws w)
unfolding fill_slot
fill_slot-Filled [] w = refl
fill_slot-Filled (none ∷ ws) w = (refl, refl, λ v. omega arith)
fill_slot-Filled (some x ∷ ws) w =
    elim (fill_slot ws w)
        as (λ o.
          Filled ws w o
          → Filled (some x ∷ ws) w (elim o [ none ↦ none | some ws' ↦ some (some x ∷ ws') ])) [
            | none ↦ λ f. f
            | some ws' ↦ λ f. (ap suc f.0, f.1, λ v. omega (arith, f.2 v))
          ]
      (fill_slot-Filled ws w)

held-append :
    (ws : WatchTable) (w v : ℕ) → held (ws ++ some w ∷ []) v ≡ held ws v + (if w == v then 1 else 0)
held-append [] w v = omega arith
held-append (none ∷ ws) w v = held-append ws w v
held-append (some x ∷ ws) w v = omega (arith, held-append ws w v)

-- What `addwatch` does with a table of at most 32 slots.
pub record Adds (ws : WatchTable) (w : ℕ) (r : WatchTable × Bool) : Type 0 where
  pub fits : length r.0 ≤ max_watches
  pub taken : r.1 ≡ true → (v : ℕ) → held r.0 v ≡ held ws v + (if w == v then 1 else 0)
  pub refused : r.1 ≡ false → (r.0 ≡ ws) × (length ws ≡ max_watches) × (vacancies ws ≡ 0)

-- On a table of at most 32 slots `addwatch` leaves at most 32 slots. If it returns true, the
-- table holds the new watch once more, and every other as often as before; if it returns false,
-- the table is unchanged, has 32 slots, and none of them is vacant.
pub addwatch-Adds : (ws : WatchTable) (w : ℕ) → length ws ≤ max_watches → Adds ws w (addwatch ws w)
unfolding addwatch
addwatch-Adds ws w h =
    elim (fill_slot ws w)
        as (λ o.
          Filled ws w o
          → Adds ws w (elim o [
            | some ws' ↦ (ws', true)
            | none ↦ if leb max_watches (length ws) then (ws, false) else (ws ++ some w ∷ [], true)
          ])) [
            | some ws' ↦
                λ f. record { fits = omega (arith, f.0); taken = λ _. f.2; refused = λ e. cc }
            | none ↦ λ f. elim (Bool-cases (leb max_watches (length ws))) [
              | inl full ↦
                  rw full
                    (record { fits = h; taken = λ e. cc; refused = λ _. (refl, ground arith, f) })
              | inr room ↦ rw room (record {
                fits = ground (arith, length-append ws (some w ∷ []));
                taken = λ _ v. held-append ws w v;
                refused = λ e. cc;
              })
            ]
          ]
      (fill_slot-Filled ws w)

pub length-addwatch : (ws : WatchTable) (w : ℕ) → length ws ≤ length (addwatch ws w).0
unfolding addwatch
length-addwatch ws w =
    elim (fill_slot ws w)
        as (λ o.
          Filled ws w o
          → length ws
            ≤ length
                (elim o as (λ _. WatchTable × Bool) [
                  | some ws' ↦ (ws', true)
                  | none ↦
                      if leb max_watches (length ws) then (ws, false) else (ws ++ some w ∷ [], true)
                ]).0) [
                  | some ws' ↦ λ f. omega (arith, f.0)
                  | none ↦ λ _. ground (arith, length-append ws (some w ∷ []))
                ]
      (fill_slot-Filled ws w)

-- `removewatch` keeps the number of slots; the table then holds the watch once less, if it held
-- it, and every other watch as often as before.
pub removewatch-held :
    (ws : WatchTable) (w v : ℕ)
    → (length (removewatch ws w) ≡ length ws)
      × (held ws v ≡ held (removewatch ws w) v + (if w == v && ltb 0 (held ws w) then 1 else 0))
unfolding removewatch
removewatch-held [] w v = ground arith
removewatch-held (none ∷ ws) w v = ground (arith, removewatch-held ws w v)
removewatch-held (some x ∷ ws) w v =
    ground (arith, removewatch-held ws w v, ==_iff x w, ==_iff w v, ==_iff x v)

-- Each entry of the poll set is an enabled watch in the slot that it names.
abbrev pub AllPolled : WatchInfo → WatchTable → ℕ → List Pollfd → Type 0
AllPolled info ws i [] = Unit {0}
AllPolled info ws i (p ∷ ps) =
    ((k : ℕ) × (w : ℕ) × (p.wi ≡ i + k)
      × (get_elem? ws k ≡ some (some w))
      × (info.enabled w ≡ true)
      × (p.fd ≡ info.unix_fd w))
    × AllPolled info ws i ps

AllPolled-step :
    (info : WatchInfo) (slot : Option ℕ) (ws : WatchTable) (i : ℕ) (ps : List Pollfd)
    → AllPolled info ws (i + 1) ps
    → AllPolled info (slot ∷ ws) i ps
AllPolled-step info slot ws i [] h = tt
AllPolled-step info slot ws i (p ∷ ps) ((k, w, e, g, en, f), rest) =
    ((suc k, w, omega arith, g, en, f), AllPolled-step info slot ws i ps rest)

-- The first loop of a round, started with at most 32 entries, never has more than 32; and each
-- entry it makes names the slot of a watch that is in the table and enabled, with the descriptor
-- of that watch.
pub poll_set-AllPolled :
    (info : WatchInfo) (ws : WatchTable) (i n : ℕ)
    → n ≤ max_watches
    → AllPolled info ws i (poll_set info ws i n) × (n + length (poll_set info ws i n) ≤ max_watches)
unfolding poll_set
poll_set-AllPolled info [] i n h = (tt, omega arith)
poll_set-AllPolled info (none ∷ ws) i n h =
    let (a, b) = poll_set-AllPolled info ws (i + 1) n h in
    elim (Bool-cases (ltb n max_watches)) [
      | inl room ↦ rw room (AllPolled-step info none ws i _ a, b)
      | inr full ↦ rw full (tt, omega arith)
    ]
poll_set-AllPolled info (some w ∷ ws) i n h = elim (Bool-cases (ltb n max_watches)) [
  | inr full ↦ rw full (tt, omega arith)
  | inl room ↦ elim (Bool-cases (info.enabled w)) [
    | inl on ↦
        let (a, b) = poll_set-AllPolled info ws (i + 1) (n + 1) (ground arith) in
        rw (room, on)
          (
            ((0, w, omega arith, refl, on, refl), AllPolled-step info (some w) ws i _ a),
            omega arith,
          )
    | inr off ↦
        let (a, b) = poll_set-AllPolled info ws (i + 1) n h in
        rw (room, off) (AllPolled-step info (some w) ws i _ a, b)
  ]
]

-- The connections that pass the test, in their order.
abbrev pub keep : (ℕ → Bool) → List ℕ → List ℕ
keep test [] = []
keep test (c ∷ cs) = if test c then c ∷ keep test cs else keep test cs

pub length-keep : (test : ℕ → Bool) (cs : List ℕ) → length (keep test cs) ≤ length cs
length-keep test [] = omega arith
length-keep test (c ∷ cs) = ground (arith, length-keep test cs)

pub newconn_fits :
    (conns : List ℕ) (c : ℕ) → length conns ≤ max_conns → length (newconn conns c).0 ≤ max_conns
unfolding newconn
newconn_fits conns c h = ground (arith, length-append conns (c ∷ []))
