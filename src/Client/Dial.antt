-- ===== src/Client/Dial.antt =====
-- srv.c, gtk/main.c, xim/main.c and bench/main.c: where the server listens, and where its clients connect.
-- `uid` is what `%d` prints of `getuid`; the array of a socket address has 108 bytes for the path.
use strans.Base.{
  ℕ, zero, suc, ◌≤◌, ◌≡◌, refl, sym, ap, subst, true, Bool, List, [], ◌∷◌, ◌++◌, Option, none, some,
  if◌then◌else◌, length, take, drop, codes, arith,
}
use strans.Ibus.Address.{snprintf}
use strans.Run.{Run, ok, died, Returns}

-- `srvinit`: the path that it removes and the address that it announces, if that works.
unfoldable pub srvinit : List ℕ → (List ℕ → Bool) → Run (List ℕ × List ℕ)
srvinit uid announces =
    let addr = snprintf 64 (codes "unix!/tmp/strans." ++ uid) in
    if announces addr then ok (drop 5 addr, addr) else died

-- `addr.sun_path`
unfoldable pub sun_path : List ℕ → List ℕ
sun_path uid = snprintf 108 (codes "/tmp/strans." ++ uid)

-- What `srvconnect` of the GTK client gets, with the result of `socket`, and whether a path can be
-- connected to.
unfoldable pub fresh : List ℕ → Option ℕ → (List ℕ → Bool) → Option ℕ
unfolding sun_path
fresh uid none connects = none
fresh uid (some fd) connects = if connects (sun_path uid) then some fd else none

-- `srvconnect` of the XIM client.
unfoldable pub srvconnect : List ℕ → Option ℕ → (List ℕ → Bool) → Run ℕ
unfolding sun_path
srvconnect uid none connects = died
srvconnect uid (some fd) connects = if connects (sun_path uid) then ok fd else died

-- `dial` of the benchmark.
unfoldable pub dial : List ℕ → Option ℕ → (List ℕ → Bool) → Run ℕ
unfolding sun_path
dial uid none connects = died
dial uid (some fd) connects = if connects (sun_path uid) then ok fd else died

take_short : (n : ℕ) (s : List ℕ) → length s ≤ n → take n s ≡ s
take_short zero [] h = refl
take_short zero (b ∷ s) h = absurd (omega arith)
take_short (suc n) [] h = refl
take_short (suc n) (b ∷ s) h = ap (◌∷◌ b) (take_short n s (omega arith))

-- The server has the address, and each client its connection.
pub record Meets (uid : List ℕ) (fd : ℕ) (connects : List ℕ → Bool) (r : List ℕ × List ℕ)
    : Type 0 where
  addr : r.1 ≡ codes "unix!" ++ r.0
  path : r.0 ≡ sun_path uid
  gtk : fresh uid (some fd) connects ≡ some fd
  xim : srvconnect uid (some fd) connects ≡ ok fd
  bench : dial uid (some fd) connects ≡ ok fd

-- If the printed user number has at most 46 digits, the address of unix!/tmp/strans. and that
-- number can be announced, and any path can be connected to once the address of unix! and that
-- path is announced, then `srvinit` returns: it announces the whole address, and removes the path
-- in it. This is the path that the GTK client, the XIM client and the benchmark connect to, and
-- with a socket each of the three gets its connection.
pub srvinit-Meets :
    (uid : List ℕ) (fd : ℕ) (announces connects : List ℕ → Bool)
    → length uid ≤ 46
    → announces (codes "unix!/tmp/strans." ++ uid) ≡ true
    → ((path : List ℕ) → announces (codes "unix!" ++ path) ≡ true → connects path ≡ true)
    → Returns (srvinit uid announces) (Meets uid fd connects)
unfolding srvinit sun_path fresh srvconnect dial
srvinit-Meets uid fd announces connects few works reaches =
    let addr : snprintf 64 (codes "unix!/tmp/strans." ++ uid) ≡ codes "unix!/tmp/strans." ++ uid =
      take_short 63 (codes "unix!/tmp/strans." ++ uid) (omega arith) in
    let path : snprintf 108 (codes "/tmp/strans." ++ uid) ≡ codes "/tmp/strans." ++ uid =
      take_short 107 (codes "/tmp/strans." ++ uid) (omega arith) in
    let heard : connects (codes "/tmp/strans." ++ uid) ≡ true =
      reaches (codes "/tmp/strans." ++ uid) works in
    let listens : List ℕ → Run (List ℕ × List ℕ) =
      λ a. if announces a then ok (drop 5 a, a) else died in
    (
      (codes "/tmp/strans." ++ uid, codes "unix!/tmp/strans." ++ uid),
      subst (λ a. listens a ≡ ok (codes "/tmp/strans." ++ uid, codes "unix!/tmp/strans." ++ uid))
          (sym addr) (rw works refl),
      record {
        addr = refl;
        path = sym path;
        gtk = rw (path, heard, sun_path, fresh) refl;
        xim = rw (path, heard, sun_path, srvconnect) refl;
        bench = rw (path, heard, sun_path, dial) refl;
      },
    )
