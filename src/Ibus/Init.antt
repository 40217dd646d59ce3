-- ===== src/Ibus/Init.antt =====
-- ibus.c: how the bus is opened, and the file that tells its clients where. Printed numbers and what
-- libdbus gives are arguments.
use strans.Base.{
  ℕ, true, false, Bool, List, [], ◌++◌, Option, none, some, ◌==◌, equal, if◌then◌else◌, length,
  codes,
}
use strans.Ibus.Address.{
  Environment, bus_dir, mkdirs, buildaddrpath, address_file, split_at, snprintf,
}

-- What a path names: the bytes of a file, or `none` where there is none.
abbrev pub Files : Type 0
Files = List ℕ → Option (List ℕ)

unfoldable pub with_file : List ℕ → Option (List ℕ) → Files → Files
with_file path content files = λ p. if equal p path then content else files p

-- `unlinkaddr`
unfoldable pub unlinkaddr : List ℕ → Files → Files
unfolding with_file
unlinkaddr addrfile files = if length addrfile == 0 then files else with_file addrfile none files

-- `writeaddr`; `none` is -1, where `fopen` fails.
unfoldable pub writeaddr : Bool → List ℕ → List ℕ → List ℕ → Files → Option Files
unfolding with_file
writeaddr opens pid path addr files =
    if opens then some (with_file path (some (address_file addr pid)) files) else none

-- What `ibusinit` meets: the environment, whether the directory is there, the printed process
-- number, the whole address of a server that listens on an address, or `none` where it cannot, and
-- the paths that can be opened to write.
pub record Machine : Type 0 where
  pub env : Environment
  pub has_dir : Bool
  pub pid : List ℕ
  pub listen : List ℕ → Option (List ℕ)
  pub opens : List ℕ → Bool

-- What it leaves: whether it gives 0, the variable `addrfile`, the address of the server, whether
-- `unlinkaddr` is called at the exit, the files, and the directories that it made.
pub record Opened : Type 0 where
  pub result : Bool
  pub addrfile : List ℕ
  pub srv : Option (List ℕ)
  pub at_exit : Bool
  pub files : Files
  pub made : List (List ℕ)

abbrev pub not_opened : Files → List (List ℕ) → Opened
not_opened files made = record {
  result = false;
  addrfile = [];
  srv = none;
  at_exit = false;
  files = files;
  made = made;
}

-- The address that the server listens on.
unfoldable pub bus_address : List ℕ → List ℕ
bus_address pid = snprintf 128 (codes "unix:abstract=strans-" ++ pid)

unfoldable pub made_dirs : Machine → List (List ℕ)
made_dirs m = if m.has_dir then [] else elim (bus_dir m.env) [ none ↦ [] | some dir ↦ mkdirs dir ]

unfoldable pub ibusinit : Machine → Files → Opened
unfolding with_file writeaddr made_dirs
ibusinit m files = elim (buildaddrpath m.env 256) [
  | none ↦ not_opened files []
  | some path ↦
      let unlinked = with_file path none files in
      elim (m.listen (bus_address m.pid)) [
        | none ↦ not_opened unlinked (made_dirs m)
        | some full ↦ elim (writeaddr (m.opens path) m.pid path full unlinked) [
          | none ↦ not_opened unlinked (made_dirs m)
          | some written ↦ record {
            result = true;
            addrfile = path;
            srv = some full;
            at_exit = true;
            files = written;
            made = made_dirs m;
          }
        ]
      ]
]

-- The files after an exit that runs what `atexit` was given.
unfoldable pub after_exit : Opened → Files
unfolding unlinkaddr
after_exit o = if o.at_exit then unlinkaddr o.addrfile o.files else o.files

-- A reader of such a file: the key and the value of its first line, and what follows.
unfoldable pub read_entry : List ℕ → Option (List ℕ × List ℕ × List ℕ)
unfolding split_at
read_entry file = elim (split_at b'\n' file) [
  | none ↦ none
  | some (line, rest) ↦ elim (split_at b'=' line) [
    | none ↦ none
    | some (key, value) ↦ some (key, value, rest)
  ]
]
