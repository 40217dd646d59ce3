-- ===== src/Ibus/Watches.antt =====
-- ibus.c: the table of D-Bus watches and the table of connections. A watch or a connection is a
-- pointer of libdbus, named here by a number; `none` is a slot that holds nil. The lists are the
-- first `nwatches` and `nconns` entries of the arrays.
pub mod Laws
pub mod Prune
use strans.Run.{Run, ok, fault, ◌>>=◌}
use strans.Base.{
  set, take, ℕ, zero, suc, ◌+◌, Bool, true, false, List, [], ◌∷◌, ◌++◌, Option, none, some, ltb,
  leb, ◌==◌, ◌&&◌, ◌||◌, not, if◌then◌else◌, length, get_elem?,
}

abbrev pub max_watches : ℕ
max_watches = 32

abbrev pub max_conns : ℕ
max_conns = 16

-- `Watch watches[]`
abbrev pub WatchTable : Type 0
WatchTable = List (Option ℕ)

-- The loop of `addwatch`, which takes the first slot that holds nil.
unfoldable pub fill_slot : WatchTable → ℕ → Option WatchTable
fill_slot [] w = none
fill_slot (none ∷ ws) w = some (some w ∷ ws)
fill_slot (some x ∷ ws) w = elim (fill_slot ws w) [ none ↦ none | some ws' ↦ some (some x ∷ ws') ]

unfoldable pub addwatch : WatchTable → ℕ → WatchTable × Bool
addwatch ws w = elim (fill_slot ws w) [
  | some ws' ↦ (ws', true)
  | none ↦ if leb max_watches (length ws) then (ws, false) else (ws ++ some w ∷ [], true)
]

unfoldable pub removewatch : WatchTable → ℕ → WatchTable
removewatch [] w = []
removewatch (none ∷ ws) w = none ∷ removewatch ws w
removewatch (some x ∷ ws) w = if x == w then none ∷ ws else some x ∷ removewatch ws w

-- `togglewatch` does nothing.
unfoldable pub togglewatch : WatchTable → ℕ → WatchTable
togglewatch ws w = ws

-- The bits of libdbus (`DBUS_WATCH_...`) and of poll(2) (`POLL...`) that the code reads and writes.
pub record Flags : Type 0 where
  pub readable : Bool
  pub writable : Bool
  pub hangup : Bool
  pub error : Bool

-- What libdbus answers about a watch.
pub record WatchInfo : Type 0 where
  pub enabled : ℕ → Bool
  pub unix_fd : ℕ → ℕ
  pub flags : ℕ → Flags

-- An entry of `pfds`, with `wi` beside it; `pollin` and `pollout` are its events.
pub record Pollfd : Type 0 where
  pub fd : ℕ
  pub pollin : Bool
  pub pollout : Bool
  pub wi : ℕ

-- The first loop of a round of `ibusthread`, from the slot `i` on, with `n` entries filled.
unfoldable pub poll_set : WatchInfo → WatchTable → ℕ → ℕ → List Pollfd
poll_set info [] i n = []
poll_set info (none ∷ ws) i n = if ltb n max_watches then poll_set info ws (i + 1) n else []
poll_set info (some w ∷ ws) i n =
    let entry : Pollfd = record {
      fd = info.unix_fd w;
      pollin = (info.flags w).readable;
      pollout = (info.flags w).writable;
      wi = i;
    } in
    let with_it = entry ∷ poll_set info ws (i + 1) (n + 1) in
    let without = poll_set info ws (i + 1) n in
    if ltb n max_watches then (if info.enabled w then with_it else without) else []

-- `revents == 0`
unfoldable pub is_quiet : Flags → Bool
is_quiet f = not (f.readable || f.writable || f.hangup || f.error)

-- One entry of the second loop: the watch to handle, with its flags. `rev` is what `poll` returned
-- for the entry. A slot behind the table is read outside of its entries.
unfoldable pub ready : WatchTable → Pollfd → Flags → Run (Option (ℕ × Flags))
ready ws p rev = if is_quiet rev then ok none else elim (get_elem? ws p.wi) [
  | none ↦ fault
  | some slot ↦ elim slot [ none ↦ ok none | some w ↦ ok (some (w, rev)) ]
]

-- `newconn`: the connections, and whether the new one was taken.
unfoldable pub newconn : List ℕ → ℕ → List ℕ × Bool
newconn conns c = if leb max_conns (length conns) then (conns, false) else (conns ++ c ∷ [], true)

-- `conns[j] = c`
unfoldable pub put_conn : List ℕ → ℕ → ℕ → Run (List ℕ)
put_conn conns j c = if ltb j (length conns) then ok (set conns j c) else fault

-- The loop of `pruneconns` on the array, with `k` entries left from `i` on, and `j` kept so far; `gone`
-- has the connections that were let go.
unfoldable pub prune_loop : (ℕ → Bool) → ℕ → ℕ → ℕ → List ℕ → List ℕ → Run (List ℕ × ℕ × List ℕ)
unfolding put_conn
prune_loop connected zero i j conns gone = ok (conns, j, gone)
prune_loop connected (suc k) i j conns gone = elim (get_elem? conns i) [
  | none ↦ fault
  | some c ↦
      if connected c
      then put_conn conns j c >>= (λ conns'. prune_loop connected k (i + 1) (j + 1) conns' gone)
      else prune_loop connected k (i + 1) j conns (gone ++ c ∷ [])
]

-- `pruneconns`: the first `j` entries, which are the new table, and the connections let go.
unfoldable pub pruneconns : (ℕ → Bool) → List ℕ → Run (List ℕ × List ℕ)
unfolding prune_loop
pruneconns connected conns =
    prune_loop connected (length conns) 0 0 conns [] >>= (λ (arr, j, gone). ok (take j arr, gone))
