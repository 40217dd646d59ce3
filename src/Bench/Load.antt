-- ===== src/Bench/Load.antt =====
-- bench/main.c, `loadkeys`: how a file is written for the keys.
use strans.Base.{
  Bool, ℕ, ◌≤◌, ◌≡◌, refl, sym, ap, ◌∙◌, false, true, List, [], ◌∷◌, ◌++◌, append-nil, append_assoc,
  some, arith, ◌==◌, ◌||◌, ltb, leb, ◌*◌, if◌then◌else◌, length, length-append,
}
use strans.Bench.{
  Key, Keys, no_keys, addkey, add_named, load_loop, loadkeys, kback, kret, kesc, mctrl,
}
use strans.Run.{Returns, bind_Returns, if_Returns, weaken_Returns}

-- A key that a file can name: a byte, a key with a letter of its own, or a byte with Ctrl.
pub data Named : Type 0 where
  plain : ℕ → Named
  back : Named
  return : Named
  escape : Named
  control : ℕ → Named

unfoldable pub key_of : Named → Key
key_of (plain c) = record { k = c; mods = 0 }
key_of back = record { k = kback; mods = 0 }
key_of return = record { k = kret; mods = 0 }
key_of escape = record { k = kesc; mods = 0 }
key_of (control c) = record { k = c; mods = mctrl }

unfoldable pub keys_of : List Named → List Key
unfolding key_of
keys_of [] = []
keys_of (n ∷ ns) = key_of n ∷ keys_of ns

unfoldable pub text_of : Named → List ℕ
text_of (plain c) = c ∷ []
text_of back = b'^' ∷ b'B' ∷ []
text_of return = b'^' ∷ b'R' ∷ []
text_of escape = b'^' ∷ b'E' ∷ []
text_of (control c) = b'^' ∷ c ∷ []

-- Every key on a line of its own.
unfoldable pub print : List Named → List ℕ
unfolding text_of
print [] = []
print (n ∷ ns) = text_of n ++ b'\n' ∷ print ns

-- A plain byte ends no line and is no caret; a byte with Ctrl is none of the three letters.
abbrev pub CanPrint : Named → Type 0
CanPrint (plain c) = (c == b'\n' || c == b'\r' || c == b'^') ≡ false
CanPrint back = Unit {0}
CanPrint return = Unit {0}
CanPrint escape = Unit {0}
CanPrint (control c) = ((c == b'B') ≡ false) × ((c == b'R') ≡ false) × ((c == b'E') ≡ false)

abbrev pub AllPrint : List Named → Type 0
AllPrint [] = Unit {0}
AllPrint (n ∷ ns) = CanPrint n × AllPrint ns

abbrev pub IsRoomy : Keys → Type 0
IsRoomy ks = length ks.keys ≤ ks.cap

-- The key is behind those that were there, and the array holds them.
record Adds (ks : Keys) (key : Key) (ks' : Keys) : Type 0 where
  keys : ks'.keys ≡ ks.keys ++ key ∷ []
  room : IsRoomy ks'

-- The array grows before it is full.
addkey-Adds :
    (ks : Keys) (k mods : ℕ)
    → IsRoomy ks
    → Returns (addkey ks k mods) (Adds ks (record { k = k; mods = mods }))
unfolding addkey
addkey-Adds ks k mods h =
    let cap =
      if leb ks.cap (length ks.keys) then (if ks.cap == 0 then 256 else ks.cap * 2) else ks.cap in
    if_Returns (ltb (length ks.keys) cap) (Adds ks (record { k = k; mods = mods }))
      (λ room. (
        _,
        refl,
        record {
          keys = refl;
          room = ground (arith, length-append ks.keys (record { k = k; mods = mods } ∷ []));
        },
      ))
      λ full. absurd (ground arith)

addkey-IsRoomy : (ks : Keys) (k mods : ℕ) → IsRoomy ks → Returns (addkey ks k mods) IsRoomy
addkey-IsRoomy ks k mods h = weaken_Returns _ IsRoomy (addkey-Adds ks k mods h) λ ks' a. a.room

add_named-IsRoomy : (ks : Keys) (c : ℕ) → IsRoomy ks → Returns (add_named ks c) IsRoomy
unfolding add_named
add_named-IsRoomy ks c h =
    if_Returns (c == b'B') IsRoomy (λ _. addkey-IsRoomy ks kback 0 h)
      λ _.
        if_Returns (c == b'R') IsRoomy (λ _. addkey-IsRoomy ks kret 0 h)
          λ _.
            if_Returns (c == b'E') IsRoomy (λ _. addkey-IsRoomy ks kesc 0 h)
              λ _. addkey-IsRoomy ks c mctrl h

-- The array has room for the keys of every file.
pub load_loop-IsRoomy :
    (caret : Bool) (file : List ℕ) (ks : Keys)
    → IsRoomy ks
    → Returns (load_loop caret file ks) IsRoomy
unfolding load_loop
load_loop-IsRoomy true [] ks h = (ks, refl, h)
load_loop-IsRoomy false [] ks h = (ks, refl, h)
load_loop-IsRoomy true (c ∷ file) ks h =
    bind_Returns IsRoomy IsRoomy (add_named-IsRoomy ks c h)
      λ ks' h'. load_loop-IsRoomy false file ks' h'
load_loop-IsRoomy false (c ∷ file) ks h =
    bind_Returns IsRoomy IsRoomy
      (if_Returns (c == b'\n' || c == b'\r' || c == b'^') IsRoomy (λ _. (ks, refl, h))
        λ _. addkey-IsRoomy ks c 0 h)
      λ ks' h'. load_loop-IsRoomy (c == b'^') file ks' h'

module _ (file : List ℕ) (ks : Keys) (h : IsRoomy ks) where
  load_named :
      (n : Named)
      → CanPrint n
      → (P : Keys → Type 0)
      → ((ks' : Keys) → Adds ks (key_of n) ks' → Returns (load_loop false file ks') P)
      → Returns (load_loop false (text_of n ++ b'\n' ∷ file) ks) P
  unfolding load_loop text_of key_of add_named
  load_named (plain c) p P next =
      let no_caret : (c == b'^') ≡ false = ground (arith, p) in
      rw (p, no_caret, load_loop)
        (bind_Returns (Adds ks (key_of (plain c))) P (addkey-Adds ks c 0 h) next)
  load_named back p P next = bind_Returns (Adds ks (key_of back)) P (addkey-Adds ks kback 0 h) next
  load_named return p P next =
      bind_Returns (Adds ks (key_of return)) P (addkey-Adds ks kret 0 h) next
  load_named escape p P next =
      bind_Returns (Adds ks (key_of escape)) P (addkey-Adds ks kesc 0 h) next
  load_named (control c) (b, r, e) P next =
      rw (b, r, e, add_named)
        (bind_Returns (Adds ks (key_of (control c))) P (addkey-Adds ks c mctrl h) next)

load_loop-print :
    (ns : List Named) (ks : Keys)
    → IsRoomy ks
    → AllPrint ns
    → Returns
        (load_loop false (print ns) ks)
        λ ks'. (ks'.keys ≡ ks.keys ++ keys_of ns) × IsRoomy ks'
unfolding print keys_of load_loop
load_loop-print [] ks h p = (ks, refl, (sym (append-nil ks.keys), h))
load_loop-print (n ∷ ns) ks h (p, ps) = load_named (print ns) ks h n p _ λ ks' a.
    weaken_Returns _ _ (load_loop-print ns ks' a.room ps) λ ks'' r. (
      r.0 ∙ ap (λ x. x ++ keys_of ns) a.keys ∙ append_assoc ks.keys (key_of n ∷ []) (keys_of ns),
      r.1,
    )

-- From a file with every key on a line of its own (a byte that ends no line and is no caret
-- stands for itself; Backspace, Return and Escape are a caret and B, R or E; a caret and any
-- other byte are that byte with Ctrl) `loadkeys` reads exactly these keys in their order, and its
-- array has room for them.
pub loadkeys-print :
    (ns : List Named)
    → AllPrint ns
    → Returns (loadkeys (some (print ns))) λ ks. (ks.keys ≡ keys_of ns) × (length ks.keys ≤ ks.cap)
unfolding loadkeys
loadkeys-print ns p = load_loop-print ns no_keys (omega arith) p
