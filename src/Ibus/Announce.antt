-- ===== src/Ibus/Announce.antt =====
-- ibus.c: what the opening of the bus leaves for its clients, and what is left where it fails.
use mathlib.Core.Option.{some-injective, none-ne-some}
use strans.Base.{
  ℕ, ◌≡◌, ◌≢◌, refl, sym, ap, ◌∙◌, true, false, List, [], ◌∷◌, ◌++◌, Option, none, some, ◌==◌,
  ==_iff, equal, equal_iff, equal_refl, length, codes, Bool-cases, Option-cases, inl, inr, arith,
}
use strans.Ibus.Address.{
  Environment, machineid, bus_dir, buildaddrpath, address_file, split_at, snprintf,
}
use strans.Ibus.Init.{
  Files, with_file, unlinkaddr, writeaddr, Machine, Opened, bus_address, not_opened, ibusinit,
  after_exit, read_entry,
}

split_at-end : (c : ℕ) (s t : List ℕ) → split_at c s ≡ none → split_at c (s ++ c ∷ t) ≡ some (s, t)
unfolding split_at
split_at-end c [] t = λ h. rw ((==_iff c c).1 refl) refl
split_at-end c (b ∷ s) t = elim (Bool-cases (b == c)) [
  | inl found ↦ rw found (λ h. absurd (none-ne-some _ (sym h)))
  | inr other ↦ rw other (elim (Option-cases (split_at c s)) [
    | inl beside ↦ λ h. rw (split_at-end c s t beside) refl
    | inr (r, found) ↦ rw found (λ h. absurd (none-ne-some _ (sym h)))
  ])
]

-- A path that is built names something.
buildaddrpath-NotEmpty :
    (env : Environment) (path : List ℕ)
    → buildaddrpath env 256 ≡ some path
    → (length path == 0) ≡ false
unfolding buildaddrpath
buildaddrpath-NotEmpty env path =
    elim (Bool-cases (length (machineid env.etc_id env.var_id 64) == 0)) [
      | inl empty ↦ rw (empty, buildaddrpath) (λ e. absurd (none-ne-some path e))
      | inr named ↦
          rw (named, buildaddrpath)
            (elim (Option-cases (bus_dir env)) [
              | inl missing ↦ rw missing (λ e. absurd (none-ne-some path e))
              | inr (dir, found) ↦ rw found (λ e. rw (sym (some-injective _ path e)) (first dir _))
            ])
    ]
  where
    first : (dir rest : List ℕ) → (length (snprintf 256 (dir ++ b'/' ∷ rest)) == 0) ≡ false
    first [] rest = ground arith
    first (d ∷ dir) rest = ground arith

-- The file of the bus, with its two entries, while the process runs; afterwards it is gone. No other
-- file changes.
pub record Announced (m : Machine) (files : Files) (path full : List ℕ) (o : Opened) : Type 0 where
  result : o.result ≡ true
  srv : o.srv ≡ some full
  entries :
      (file rest : List ℕ) × (o.files path ≡ some file)
      × (read_entry file ≡ some (codes "IBUS_ADDRESS", full, rest))
      × (read_entry rest ≡ some (codes "IBUS_DAEMON_PID", m.pid, []))
  removed : after_exit o path ≡ none
  others : (p : List ℕ) → p ≢ path → (o.files p ≡ files p) × (after_exit o p ≡ files p)

-- No server and nothing to do at the exit; no file has changed but one at the path of the bus.
pub record Failed (m : Machine) (files : Files) (o : Opened) : Type 0 where
  result : o.result ≡ false
  srv : o.srv ≡ none
  kept : (p : List ℕ) → buildaddrpath m.env 256 ≢ some p → o.files p ≡ files p
  exit : after_exit o ≡ o.files

pub data Opening (m : Machine) (files : Files) (o : Opened) : Type 0 where
  opened :
      (path full : List ℕ)
      → buildaddrpath m.env 256 ≡ some path
      → m.listen (bus_address m.pid) ≡ some full
      → m.opens path ≡ true
      → Announced m files path full o
      → Opening m files o
  no_path : buildaddrpath m.env 256 ≡ none → Failed m files o → Opening m files o
  no_server : m.listen (bus_address m.pid) ≡ none → Failed m files o → Opening m files o
  no_file :
      (path : List ℕ)
      → buildaddrpath m.env 256 ≡ some path
      → m.opens path ≡ false
      → Failed m files o
      → Opening m files o

with_file-same :
    (path : List ℕ) (c : Option (List ℕ)) (files : Files) → with_file path c files path ≡ c
unfolding with_file
with_file-same path c files = rw (equal_refl path) refl

with_file-other :
    (path : List ℕ) (c : Option (List ℕ)) (files : Files) (p : List ℕ)
    → p ≢ path
    → with_file path c files p ≡ files p
unfolding with_file
with_file-other path c files p n = elim (Bool-cases (equal p path)) [
  | inl same ↦ absurd (n ((equal_iff p path).0 same))
  | inr other ↦ rw other refl
]

-- An entry that `writeaddr` writes, in front of what follows.
read_entry-line :
    (key value rest file : List ℕ)
    → file ≡ (key ++ b'=' ∷ value) ++ b'\n' ∷ rest
    → split_at b'=' key ≡ none
    → split_at b'\n' (key ++ b'=' ∷ value) ≡ none
    → read_entry file ≡ some (key, value, rest)
unfolding read_entry
read_entry-line key value rest file e k v =
    rw
      (
        e,
        split_at-end b'\n' (key ++ b'=' ∷ value) rest v,
        split_at-end b'=' key value k,
        read_entry,
      )
      refl

address_lines :
    (addr pid : List ℕ)
    → split_at b'\n' addr ≡ none
    → split_at b'\n' pid ≡ none
    → (rest : List ℕ) × (read_entry (address_file addr pid)
        ≡ some (codes "IBUS_ADDRESS", addr, rest))
      × (read_entry rest ≡ some (codes "IBUS_DAEMON_PID", pid, []))
unfolding address_file split_at
address_lines addr pid a p =
    let second = codes "IBUS_DAEMON_PID=" ++ (pid ++ b'\n' ∷ []) in
    (
      second,
      read_entry-line (codes "IBUS_ADDRESS") addr second (address_file addr pid) refl refl
          (rw a refl),
      read_entry-line (codes "IBUS_DAEMON_PID") pid [] second refl refl (rw p refl),
    )

not_opened-Failed :
    (m : Machine) (files files' : Files) (made : List (List ℕ))
    → ((p : List ℕ) → buildaddrpath m.env 256 ≢ some p → files' p ≡ files p)
    → Failed m files (not_opened files' made)
unfolding after_exit
not_opened-Failed m files files' made kept = record {
  result = refl;
  srv = refl;
  kept = kept;
  exit = refl;
}

unlinked-Failed :
    (m : Machine) (files : Files) (path : List ℕ) (made : List (List ℕ))
    → buildaddrpath m.env 256 ≡ some path
    → Failed m files (not_opened (with_file path none files) made)
unlinked-Failed m files path made built =
    not_opened-Failed m files _ made
      λ p other. with_file-other path none files p λ same. other (built ∙ ap some (sym same))

opened-Announced :
    (m : Machine) (files : Files) (path full : List ℕ) (made : List (List ℕ))
    → split_at b'\n' m.pid ≡ none
    → split_at b'\n' full ≡ none
    → (length path == 0) ≡ false
    → Announced m files path full (record {
      result = true;
      addrfile = path;
      srv = some full;
      at_exit = true;
      files = with_file path (some (address_file full m.pid)) (with_file path none files);
      made = made;
    })
unfolding after_exit unlinkaddr
opened-Announced m files path full made pid line named =
    let unlinked = with_file path none files in
    let file = address_file full m.pid in
    let after = with_file path (some file) unlinked in
    let (rest, first, second) = address_lines full m.pid line pid in
    record {
      result = refl;
      srv = refl;
      entries = (file, rest, with_file-same path (some file) unlinked, first, second);
      removed = rw (named, after_exit, unlinkaddr) (with_file-same path none after);
      others = λ p n.
          let written =
            with_file-other path (some file) unlinked p n ∙ with_file-other path none files p n in
          (
            written,
            rw (named, after_exit, unlinkaddr) (with_file-other path none after p n ∙ written),
          );
    }

-- If neither the printed process number nor an address that libdbus gives holds a newline, then
-- `ibusinit` either opens the bus, or fails for one of three reasons. It opens it where the path
-- can be built, libdbus listens, and the file can be opened: its result is 0, `srv` is the
-- server, the file at the path reads as two entries, the whole address (which may hold equals
-- signs) and the process number; no other file changes, and an exit that runs what `atexit` was
-- given removes this file. Where the path cannot be built, libdbus does not listen or the file
-- cannot be opened, its result is -1, there is no server, such an exit changes no file, and no
-- file but one at the path has changed.
pub ibusinit-Opening :
    (m : Machine) (files : Files)
    → split_at b'\n' m.pid ≡ none
    → ((addr full : List ℕ) → m.listen addr ≡ some full → split_at b'\n' full ≡ none)
    → Opening m files (ibusinit m files)
unfolding ibusinit writeaddr
ibusinit-Opening m files pid lines = elim (Option-cases (buildaddrpath m.env 256)) [
  | inl missing ↦
      rw (missing, ibusinit) (no_path missing (not_opened-Failed m files files [] λ _ _. refl))
  | inr (path, built) ↦ elim (Option-cases (m.listen (bus_address m.pid))) [
    | inl deaf ↦ rw (built, deaf, ibusinit) (no_server deaf (unlinked-Failed m files path _ built))
    | inr (full, heard) ↦ elim (Bool-cases (m.opens path)) [
      | inl opens ↦
          rw (built, heard, opens, ibusinit, writeaddr)
            (opened path full built heard opens (
              opened-Announced m files path full _ pid (lines _ full heard)
                (buildaddrpath-NotEmpty m.env path built)))
      | inr stuck ↦
          rw (built, heard, stuck, ibusinit, writeaddr)
            (no_file path built stuck (unlinked-Failed m files path _ built))
    ]
  ]
]
