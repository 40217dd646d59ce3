-- ===== src/Hash/Seek.antt =====
-- hash.c: what the loops along a chain do, as relations without fuel.
use strans.Base.{
  ℕ, zero, suc, ◌+◌, ◌≤◌, ◌<◌, ◌≡◌, inl, inr, refl, sym, Bool, true, false, ◌&&◌, List, Option,
  none, some, arith, ◌==◌, length, get_elem?, get_elem?-of_lt, lt-of-get_elem?, Bool-cases,
}
use strans.Hash.{Hnode, hnode, keycmp, get_loop, set_loop, Place, replace, behind}
use strans.Run.{ok, ◌>>=◌, Returns}
use strans.Str.{Str}
use strans.Utf.{Utf}

-- A chain only goes up, and an empty node has no chain behind it.
pub record IsTable (nodes : List Hnode) : Type 0 where
  pub next :
      (i : ℕ) (n : Hnode)
      → get_elem? nodes i ≡ some n
      → (n.next == 0) ≡ false
      → (i < n.next) × (n.next < length nodes)
  pub vacant : (i : ℕ) (n : Hnode) → get_elem? nodes i ≡ some n → n.filled ≡ false → n.next ≡ 0

-- The node has the key.
abbrev pub hit : ⦃u : Utf⦄ → Hnode → Str → Bool
hit n key = n.filled && keycmp n key == 0

-- The value that the node found has.
abbrev pub val_of : Option Hnode → Option (List ℕ)
val_of none = none
val_of (some n) = some n.val

module _ ⦃u : Utf⦄ (nodes : List Hnode) (key : Str) where
  -- From the node `i` on, the chain has the value of the key, or none.
  pub data Seek : ℕ → Option (List ℕ) → Type 0 where
    here :
        {i : ℕ} {o : Option (List ℕ)} (n : Hnode)
        → get_elem? nodes i ≡ some n
        → hit n key ≡ true
        → o ≡ some n.val
        → Seek i o
    last :
        {i : ℕ} {o : Option (List ℕ)} (n : Hnode)
        → get_elem? nodes i ≡ some n
        → hit n key ≡ false
        → (n.next == 0) ≡ true
        → o ≡ none
        → Seek i o
    later :
        {i : ℕ} {o : Option (List ℕ)} (n : Hnode)
        → get_elem? nodes i ≡ some n
        → hit n key ≡ false
        → (n.next == 0) ≡ false
        → Seek n.next o
        → Seek i o

  -- From the node `i` on, the key's value is written to this place.
  pub data Walk : ℕ → Place → Type 0 where
    free :
        {i : ℕ} {p : Place} (n : Hnode)
        → get_elem? nodes i ≡ some n
        → n.filled ≡ false
        → p ≡ replace i
        → Walk i p
    same :
        {i : ℕ} {p : Place} (n : Hnode)
        → get_elem? nodes i ≡ some n
        → n.filled ≡ true
        → (keycmp n key == 0) ≡ true
        → p ≡ replace i
        → Walk i p
    tail :
        {i : ℕ} {p : Place} (n : Hnode)
        → get_elem? nodes i ≡ some n
        → n.filled ≡ true
        → (keycmp n key == 0) ≡ false
        → (n.next == 0) ≡ true
        → p ≡ behind i
        → Walk i p
    onward :
        {i : ℕ} {p : Place} (n : Hnode)
        → get_elem? nodes i ≡ some n
        → n.filled ≡ true
        → (keycmp n key == 0) ≡ false
        → (n.next == 0) ≡ false
        → Walk n.next p
        → Walk i p

  pub hnode-eq : (i : ℕ) (n : Hnode) → get_elem? nodes i ≡ some n → hnode nodes i ≡ ok n
  unfolding hnode
  hnode-eq i n e = rw (e, hnode) refl

  -- The loop of `hmapget` follows the relation, with fuel for the indices that are left.
  pub get_loop-Seek :
      {i : ℕ} {o : Option (List ℕ)} (fuel : ℕ)
      → IsTable nodes
      → length nodes ≤ fuel + i
      → Seek i o
      → (r : Option Hnode) × (get_loop fuel nodes i key ≡ ok r) × (val_of r ≡ o)
  unfolding get_loop
  get_loop-Seek {i} zero t enough (here n e _ _) = absurd (omega (arith, lt-of-get_elem? nodes i e))
  get_loop-Seek {i} zero t enough (last n e _ _ _) =
      absurd (omega (arith, lt-of-get_elem? nodes i e))
  get_loop-Seek {i} zero t enough (later n e _ _ _) =
      absurd (omega (arith, lt-of-get_elem? nodes i e))
  get_loop-Seek {i} (suc fuel) t enough (here n e h o) =
      (some n, rw (hnode-eq i n e, ◌>>=◌, h) refl, sym o)
  get_loop-Seek {i} (suc fuel) t enough (last n e h z o) =
      (none, rw (hnode-eq i n e, ◌>>=◌, h, z) refl, sym o)
  get_loop-Seek {i} (suc fuel) t enough (later n e h z s) =
      let (r, run, v) = get_loop-Seek fuel t (omega (arith, t.next i n e z)) s in
      (r, rw (hnode-eq i n e, ◌>>=◌, h, z) run, v)

  -- Each chain of a table has an end.
  pub chain_seeks :
      (fuel i : ℕ)
      → IsTable nodes
      → i < length nodes
      → length nodes ≤ fuel + i
      → (o : Option (List ℕ)) × Seek i o
  chain_seeks zero i t lt enough = absurd (omega arith)
  chain_seeks (suc fuel) i t lt enough =
      let (n, e) = get_elem?-of_lt nodes i lt in
      elim (Bool-cases (hit n key)) [
        | inl found ↦ (some n.val, here n e found refl)
        | inr missed ↦ elim (Bool-cases (n.next == 0)) [
          | inl done ↦ (none, last n e missed done refl)
          | inr more ↦
              let (up, lt') = t.next i n e more in
              let (o, s) = chain_seeks fuel n.next t lt' (omega arith) in
              (o, later n e missed more s)
        ]
      ]

  pub set_loop-Walk :
      (fuel i : ℕ)
      → IsTable nodes
      → i < length nodes
      → length nodes ≤ fuel + i
      → Returns (set_loop fuel nodes i key) (Walk i)
  unfolding set_loop
  set_loop-Walk zero i t lt enough = absurd (omega arith)
  set_loop-Walk (suc fuel) i t lt enough =
      let (n, e) = get_elem?-of_lt nodes i lt in
      elim (Bool-cases n.filled) [
        | inr free_node ↦
            (replace i, rw (hnode-eq i n e, ◌>>=◌, free_node) refl, free n e free_node refl)
        | inl full ↦ elim (Bool-cases (keycmp n key == 0)) [
          | inl found ↦
              (replace i, rw (hnode-eq i n e, ◌>>=◌, full, found) refl, same n e full found refl)
          | inr missed ↦ elim (Bool-cases (n.next == 0)) [
            | inl done ↦ (
              behind i,
              rw (hnode-eq i n e, ◌>>=◌, full, missed, done) refl,
              tail n e full missed done refl,
            )
            | inr more ↦
                let (up, lt') = t.next i n e more in
                let (p, run, w) = set_loop-Walk fuel n.next t lt' (omega arith) in
                (
                  p,
                  rw (hnode-eq i n e, ◌>>=◌, full, missed, more) run,
                  onward n e full missed more w,
                )
          ]
        ]
      ]
