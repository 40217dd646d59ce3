-- ===== src/Ibus/Address.antt =====
-- ibus.c: the path of the file that names the bus. Strings of C are lists of bytes without the zero
-- byte; a size is that of the array, the zero byte counted.
use strans.Base.{
  ℕ, ◌-◌, Bool, false, List, [], ◌∷◌, ◌++◌, Option, none, some, leb, ◌==◌, ◌||◌, not, if◌then◌else◌,
  length, take, codes,
}

-- `strchr`: the bytes in front of the first `c`, and those behind it.
unfoldable pub split_at : ℕ → List ℕ → Option (List ℕ × List ℕ)
split_at c [] = none
split_at c (b ∷ s) =
    if b == c
    then some ([], s)
    else elim (split_at c s) [ none ↦ none | some (front, back) ↦ some (b ∷ front, back) ]

-- A copy of `n` bytes that is cut off to fit an array of `sz`.
unfoldable pub fit : ℕ → List ℕ → List ℕ
fit sz s = if leb sz (length s) then take (sz - 1) s else s

abbrev is_eol : ℕ → Bool
is_eol b = b == b'\n' || b == b'\r'

-- The last loop of `machineid`, on the bytes in reverse.
unfoldable pub strip_eol : List ℕ → List ℕ
strip_eol [] = []
strip_eol (b ∷ s) = if is_eol b then strip_eol s else b ∷ s

unfoldable pub backwards : List ℕ → List ℕ → List ℕ
backwards [] done = done
backwards (b ∷ s) done = backwards s (b ∷ done)

-- `machineid`, on the contents of the two files, or `none` for a file that cannot be opened. `read`
-- takes at most `sz - 1` bytes.
unfoldable pub machineid : Option (List ℕ) → Option (List ℕ) → ℕ → List ℕ
unfolding strip_eol backwards
machineid (some etc) _ sz = backwards (strip_eol (backwards (take (sz - 1) etc) [])) []
machineid none (some var) sz = backwards (strip_eol (backwards (take (sz - 1) var) [])) []
machineid none none sz = []

-- The number of the display, up to the first dot.
unfoldable pub display_num : List ℕ → List ℕ
unfolding split_at
display_num p = elim (split_at b'.' p) [ none ↦ p | some (num, screen) ↦ num ]

-- `xdisplay`, on the value of `DISPLAY`: the host and the number.
unfoldable pub xdisplay : Option (List ℕ) → ℕ → ℕ → List ℕ × List ℕ
unfolding split_at fit display_num
xdisplay none hsz nsz = (fit hsz (codes "unix"), fit nsz (codes "0"))
xdisplay (some d) hsz nsz = elim (split_at b':' d) [
  | none ↦ (fit hsz (codes "unix"), fit nsz (codes "0"))
  | some (host, p) ↦
      (if length host == 0 then fit hsz (codes "unix") else fit hsz host, fit nsz (display_num p))
]

-- `snprintf`: what is written into an array of `sz` bytes.
abbrev pub snprintf : ℕ → List ℕ → List ℕ
snprintf sz s = take (sz - 1) s

pub record Environment : Type 0 where
  pub etc_id : Option (List ℕ)
  pub var_id : Option (List ℕ)
  pub display : Option (List ℕ)
  pub config_home : Option (List ℕ)
  pub home : Option (List ℕ)

abbrev is_set : Option (List ℕ) → Bool
is_set none = false
is_set (some s) = not (length s == 0)

-- The directory, or `none` where neither variable names one.
unfoldable pub bus_dir : Environment → Option (List ℕ)
bus_dir env =
    if is_set env.config_home
    then elim env.config_home [
      | none ↦ none
      | some cfg ↦ some (snprintf 256 (cfg ++ codes "/ibus/bus"))
    ]
    else elim env.home [
      | none ↦ none
      | some home ↦ some (snprintf 256 (home ++ codes "/.config/ibus/bus"))
    ]

-- `buildaddrpath`; `none` is -1. That it makes the directory is left out.
unfoldable pub buildaddrpath : Environment → ℕ → Option (List ℕ)
unfolding bus_dir machineid xdisplay
buildaddrpath env sz =
    let mid = machineid env.etc_id env.var_id 64 in
    let (host, num) = xdisplay env.display 64 8 in
    if length mid == 0 then none else elim (bus_dir env) [
      | none ↦ none
      | some dir ↦ some (snprintf sz (dir ++ b'/' ∷ (mid ++ b'-' ∷ (host ++ b'-' ∷ num))))
    ]

-- The directories that the loop of `buildaddrpath` makes, each prefix that a slash ends: `done` is
-- what the pointer has passed.
unfoldable pub parents : List ℕ → List ℕ → List (List ℕ)
parents done [] = []
parents done (b ∷ s) =
    let rest = parents (done ++ b ∷ []) s in if b == b'/' then done ∷ rest else rest

-- All the calls of `mkdir`, where the directory is not there.
unfoldable pub mkdirs : List ℕ → List (List ℕ)
unfolding parents
mkdirs [] = [] ∷ []
mkdirs (b ∷ s) = parents (b ∷ []) s ++ (b ∷ s) ∷ []

-- The two lines that `writeaddr` writes; `pid` is printed.
unfoldable pub address_file : List ℕ → List ℕ → List ℕ
address_file addr pid =
    codes "IBUS_ADDRESS=" ++ (addr ++ b'\n' ∷ (codes "IBUS_DAEMON_PID=" ++ (pid ++ b'\n' ∷ [])))
