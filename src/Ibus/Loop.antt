-- ===== src/Ibus/Loop.antt =====
-- ibus.c: the rounds of `ibusthread`.
use strans.Base.{
  refl, ◌<◌, get_elem?-of_lt, lt-of-get_elem?, Bool-cases, Option-cases, inl, inr, Bool, ℕ, ◌≤◌,
  List, [], ◌∷◌, Option, none, some, arith, length,
}
use strans.Ibus.Watches.Laws.{
  addwatch-Adds, removewatch-held, newconn_fits, length-addwatch, AllPolled, poll_set-AllPolled,
}
use strans.Ibus.Watches.{
  WatchTable, Flags, WatchInfo, Pollfd, max_watches, max_conns, addwatch, removewatch, newconn,
  pruneconns, poll_set, ready, is_quiet,
}
use strans.Ibus.{Bus, Message, Outside, Signal, dispatch}
use strans.Lang.{Lang}
use strans.Run.{Run, ok, ◌>>=◌, Returns, bind_Returns, Option_Returns}
use strans.Utf.{Utf}

pub record Tables : Type 0 where
  pub watches : WatchTable
  pub conns : List ℕ

-- What libdbus calls back at any time: a watch comes or goes.
pub data WatchCall : Type 0 where
  add : ℕ → WatchCall
  remove : ℕ → WatchCall

-- What it calls back while a watch is handled, which may be that of the server.
pub data Call : Type 0 where
  watch : WatchCall → Call
  connect : ℕ → Call

unfoldable pub watch_call : WatchCall → WatchTable → WatchTable
watch_call (add w) ws = (addwatch ws w).0
watch_call (remove w) ws = removewatch ws w

unfoldable pub watch_calls : List WatchCall → WatchTable → WatchTable
unfolding watch_call
watch_calls [] ws = ws
watch_calls (c ∷ cs) ws = watch_calls cs (watch_call c ws)

-- The calls for each of these connections.
unfoldable pub for_each : (ℕ → List WatchCall) → List ℕ → WatchTable → WatchTable
unfolding watch_calls
for_each callbacks [] ws = ws
for_each callbacks (c ∷ cs) ws = for_each callbacks cs (watch_calls (callbacks c) ws)

unfoldable pub call : Call → Tables → Tables
unfolding watch_call
call (watch c) t = record t { watches = watch_call c t.watches }
call (connect c) t = record t { conns = (newconn t.conns c).0 }

unfoldable pub calls : List Call → Tables → Tables
unfolding call
calls [] t = t
calls (c ∷ cs) t = calls cs (call c t)

-- What `poll` and libdbus do in a round: `poll` fails, or gives each entry its `revents`; handling a
-- watch calls back; a connection has messages, and calls back while they are dispatched and answered;
-- then it is connected or not, and calls back where it is let go.
pub record Happens : Type 0 where
  pub info : WatchInfo
  pub revents : Option (List Flags)
  pub callbacks : ℕ → Flags → List Call
  pub messages : ℕ → List Message
  pub dispatching : ℕ → List WatchCall
  pub connected : ℕ → Bool
  pub unref : ℕ → List WatchCall

-- The second loop of a round, with the watches that it handled.
unfoldable pub handle_loop :
    (ℕ → Flags → List Call) → List Pollfd → List Flags → Tables → Run (Tables × List (ℕ × Flags))
unfolding calls ready
handle_loop callbacks (p ∷ ps) (rev ∷ revs) t = ready t.watches p rev >>= (λ o. elim o [
  | none ↦ handle_loop callbacks ps revs t
  | some (w, f) ↦
      handle_loop callbacks ps revs (calls (callbacks w f) t) >>= (λ r. ok (r.0, (w, f) ∷ r.1))
])
handle_loop callbacks _ _ t = ok (t, [])

-- The loop over the connections, each dispatched until no message is left.
unfoldable pub dispatch_all :
    ⦃u : Utf⦄
    → Outside
    → List Lang
    → (ℕ → List Message)
    → List ℕ
    → Bus
    → Run (Bus × List (ℕ × List Signal))
dispatch_all out langs messages [] b = ok (b, [])
dispatch_all out langs messages (c ∷ cs) b = do
  (b', sent) ← dispatch out langs (messages c) b
  (b'', rest) ← dispatch_all out langs messages cs b'
  ok (b'', (c, sent) ∷ rest)

-- A round: a failure of `poll` goes on with the next.
unfoldable pub ibus_round :
    ⦃u : Utf⦄
    → Outside
    → List Lang
    → Happens
    → Tables
    → Bus
    → Run (Tables × Bus × List (ℕ × List Signal))
ibus_round out langs h t b = elim h.revents [
  | none ↦ ok (t, b, [])
  | some revs ↦ do
    (t', done) ← handle_loop h.callbacks (poll_set h.info t.watches 0 0) revs t
    (b', sent) ← dispatch_all out langs h.messages t'.conns b
    (left, gone) ← pruneconns h.connected t'.conns
    let watches = for_each h.unref gone (for_each h.dispatching t'.conns t'.watches)
    ok (record { watches = watches; conns = left }, b', sent)
]

unfoldable pub ibusthread :
    ⦃u : Utf⦄ → Outside → List Lang → List Happens → Tables → Bus → Run (Tables × Bus)
ibusthread out langs [] t b = ok (t, b)
ibusthread out langs (h ∷ hs) t b = do
  (t', b', sent) ← ibus_round out langs h t b
  ibusthread out langs hs t' b'

-- Neither table outgrows its array.
pub record IsBounded (t : Tables) : Type 0 where
  pub watches : length t.watches ≤ max_watches
  pub conns : length t.conns ≤ max_conns

-- A table within its array that has kept the slots that were polled.
pub record Grows (n : ℕ) (ws : WatchTable) : Type 0 where
  pub room : length ws ≤ max_watches
  pub kept : n ≤ length ws

watch_call-Grows :
    (n : ℕ) (c : WatchCall) (ws : WatchTable) → Grows n ws → Grows n (watch_call c ws)
unfolding watch_call
watch_call-Grows n (add w) ws g = record {
  room = (addwatch-Adds ws w g.room).fits;
  kept = omega (arith, length-addwatch ws w, g.kept);
}
watch_call-Grows n (remove w) ws g = record {
  room = omega (arith, (removewatch-held ws w 0).0, g.room);
  kept = omega (arith, (removewatch-held ws w 0).0, g.kept);
}

watch_calls-Grows :
    (n : ℕ) (cs : List WatchCall) (ws : WatchTable) → Grows n ws → Grows n (watch_calls cs ws)
unfolding watch_calls
watch_calls-Grows n [] ws g = g
watch_calls-Grows n (c ∷ cs) ws g =
    watch_calls-Grows n cs (watch_call c ws) (watch_call-Grows n c ws g)

pub for_each-Grows :
    (n : ℕ) (callbacks : ℕ → List WatchCall) (cs : List ℕ) (ws : WatchTable)
    → Grows n ws
    → Grows n (for_each callbacks cs ws)
unfolding for_each
for_each-Grows n callbacks [] ws g = g
for_each-Grows n callbacks (c ∷ cs) ws g =
    for_each-Grows n callbacks cs (watch_calls (callbacks c) ws)
      (watch_calls-Grows n (callbacks c) ws g)

-- The tables in a round that polled `n` slots.
pub record Polled (n : ℕ) (t : Tables) : Type 0 where
  pub watches : Grows n t.watches
  pub conns : length t.conns ≤ max_conns

calls-Polled : (n : ℕ) (cs : List Call) (t : Tables) → Polled n t → Polled n (calls cs t)
unfolding calls call
calls-Polled n [] t h = h
calls-Polled n (watch c ∷ cs) t h =
    calls-Polled n cs (record t { watches = watch_call c t.watches })
      (record { watches = watch_call-Grows n c t.watches h.watches; conns = h.conns })
calls-Polled n (connect c ∷ cs) t h =
    calls-Polled n cs (record t { conns = (newconn t.conns c).0 })
      (record { watches = h.watches; conns = newconn_fits t.conns c h.conns })

-- Each entry names one of the first `n` slots.
abbrev pub AllSlots : ℕ → List Pollfd → Type 0
AllSlots n [] = Unit {0}
AllSlots n (p ∷ ps) = (p.wi < n) × AllSlots n ps

AllPolled-AllSlots :
    (info : WatchInfo) (ws : WatchTable) (ps : List Pollfd)
    → AllPolled info ws 0 ps
    → AllSlots (length ws) ps
AllPolled-AllSlots info ws [] h = tt
AllPolled-AllSlots info ws (p ∷ ps) ((k, w, e, at, on, fd), rest) =
    (omega (arith, e, lt-of-get_elem? ws k at), AllPolled-AllSlots info ws ps rest)

pub poll_set-AllSlots :
    (info : WatchInfo) (ws : WatchTable) → AllSlots (length ws) (poll_set info ws 0 0)
poll_set-AllSlots info ws =
    AllPolled-AllSlots info ws _ (poll_set-AllPolled info ws 0 0 (omega arith)).0

ready-Returns :
    (ws : WatchTable) (p : Pollfd) (rev : Flags)
    → p.wi < length ws
    → Returns (ready ws p rev) λ _. Unit {0}
unfolding ready
ready-Returns ws p rev h = elim (Bool-cases (is_quiet rev)) [
  | inl quiet ↦ rw quiet (_, refl, tt)
  | inr speaks ↦
      let (slot, e) = get_elem?-of_lt ws p.wi h in
      elim (Option-cases slot) [
        | inl free ↦ rw (speaks, e, free, ready) (_, refl, tt)
        | inr (w, held) ↦ rw (speaks, e, held, ready) (_, refl, tt)
      ]
]

pub handle_loop-Polled :
    (n : ℕ) (callbacks : ℕ → Flags → List Call) (ps : List Pollfd) (revs : List Flags) (t : Tables)
    → AllSlots n ps
    → Polled n t
    → Returns (handle_loop callbacks ps revs t) λ r. Polled n r.0
unfolding handle_loop
handle_loop-Polled n callbacks [] revs t s h = (_, refl, h)
handle_loop-Polled n callbacks (p ∷ ps) [] t s h = (_, refl, h)
handle_loop-Polled n callbacks (p ∷ ps) (rev ∷ revs) t (slot, slots) h =
    bind_Returns (λ _. Unit {0}) (λ r. Polled n r.0)
      (ready-Returns t.watches p rev (omega (arith, slot, h.watches.kept)))
      λ o _.
        Option_Returns o (λ r. Polled n r.0) (λ _. handle_loop-Polled n callbacks ps revs t slots h)
          λ a _.
            bind_Returns (λ r. Polled n r.0) (λ r. Polled n r.0)
              (handle_loop-Polled n callbacks ps revs (calls (callbacks a.0 a.1) t) slots
                (calls-Polled n (callbacks a.0 a.1) t h))
              λ r k. (_, refl, k)
