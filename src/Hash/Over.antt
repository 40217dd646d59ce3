-- ===== src/Hash/Over.antt =====
-- hash.c, the label `replace`: what a node that is overwritten changes for the keys.
use mathlib.Core.Option.{some-injective}
use strans.Base.{
  ℕ, ◌≤◌, ◌≡◌, ◌≢◌, inl, inr, refl, sym, ap, subst, ◌∙◌, true, false, List, Option, some, arith,
  ◌==◌, ==_iff, equal, equal_iff, equal_refl, length-set, get_elem?, set, lt-of-get_elem?,
  get_elem?-set_self, get_elem?-set_ne, Bool-cases,
}
use strans.Hash.Seek.{IsTable, hit, Seek, here, last, later, Walk, free, same, tail, onward}
use strans.Hash.{Hnode, bytes, keycmp, Place, replace, behind}
use strans.Str.{Str}
use strans.Utf.{Utf}

-- A node `n'` that holds the key with the bytes `b`.
abbrev pub Holds : List ℕ → Hnode → Type 0
Holds b n = (n.filled ≡ true) × (n.key ≡ b)

abbrev pub spot : Place → ℕ
spot (replace p) = p
spot (behind p) = p

module _ ⦃u : Utf⦄ where
  pub Holds-hit : (k : Str) (n : Hnode) → Holds (bytes k) n → hit n k ≡ true
  unfolding keycmp
  Holds-hit k n h = rw (h.0, h.1, equal_refl (bytes k)) refl

  pub Holds-miss : (k q : Str) (n : Hnode) → n.key ≡ bytes k → bytes q ≢ bytes k → hit n q ≡ false
  unfolding keycmp
  Holds-miss k q n e other = elim (Bool-cases (equal n.key (bytes q))) [
    | inl eq ↦ absurd (other (sym ((equal_iff n.key (bytes q)).0 eq) ∙ e))
    | inr ne ↦ ground (arith, ne)
  ]

  keycmp-eq : (k : Str) (n : Hnode) → (keycmp n k == 0) ≡ true → n.key ≡ bytes k
  unfolding keycmp
  keycmp-eq k n h = ground (arith, equal_iff n.key (bytes k))

  pub Walk-le :
      (nodes : List Hnode) (k : Str) {i : ℕ} {pl : Place}
      → IsTable nodes
      → Walk nodes k i pl
      → i ≤ spot pl
  Walk-le nodes k t (free n e f r) = omega (arith, ap spot r)
  Walk-le nodes k t (same n e f m r) = omega (arith, ap spot r)
  Walk-le nodes k t (tail n e f m z r) = omega (arith, ap spot r)
  Walk-le nodes k t (onward n e f m z w) = omega (arith, Walk-le nodes k t w, t.next _ n e z)

  -- The node that a walk ends at, and why.
  pub data Ends (nodes : List Hnode) (k : Str) : Place → Type 0 where
    at_free :
        (p : ℕ) (n : Hnode) {pl : Place}
        → pl ≡ replace p
        → get_elem? nodes p ≡ some n
        → n.filled ≡ false
        → Ends nodes k pl
    at_same :
        (p : ℕ) (n : Hnode) {pl : Place}
        → pl ≡ replace p
        → get_elem? nodes p ≡ some n
        → n.filled ≡ true
        → n.key ≡ bytes k
        → Ends nodes k pl
    at_tail :
        (p : ℕ) (n : Hnode) {pl : Place}
        → pl ≡ behind p
        → get_elem? nodes p ≡ some n
        → n.filled ≡ true
        → hit n k ≡ false
        → n.next ≡ 0
        → Ends nodes k pl

  pub Walk-Ends :
      (nodes : List Hnode) (k : Str) {i : ℕ} {pl : Place} → Walk nodes k i pl → Ends nodes k pl
  unfolding keycmp
  Walk-Ends nodes k {i} (free n e f r) = at_free i n r e f
  Walk-Ends nodes k {i} (same n e f m r) = at_same i n r e f (keycmp-eq k n m)
  Walk-Ends nodes k {i} (tail n e f m z r) = at_tail i n r e f (rw f m) ((==_iff n.next 0).0 z)
  Walk-Ends nodes k (onward n e f m z w) = Walk-Ends nodes k w

  -- The array after a node is overwritten by one with the key and the same link.
  module _ (nodes : List Hnode) (k : Str) (t : IsTable nodes) (p : ℕ) (n n' : Hnode)
      (e : get_elem? nodes p ≡ some n) (holds : Holds (bytes k) n') (link : n'.next ≡ n.next) where
    abbrev pub over : List Hnode
    over = set nodes p n'

    over_there : (i : ℕ) → (i == p) ≡ false → get_elem? over i ≡ get_elem? nodes i
    over_there i other = get_elem?-set_ne nodes p i n' (λ s. cc ((==_iff i p).1 (sym s), other))

    over_here : get_elem? over p ≡ some n'
    over_here = get_elem?-set_self nodes p n' (lt-of-get_elem? nodes p e)

    pub over-IsTable : IsTable over
    over-IsTable = record {
      next = λ i x f z. elim (Bool-cases (i == p)) [
        | inl here_it ↦
            let s = (==_iff i p).0 here_it in
            let q : x ≡ n' = some-injective x n' (sym f ∙ ap (get_elem? over) s ∙ over_here) in
            let nz : (n.next == 0) ≡ false = rw (← link) (rw q at z) in
            omega (arith, t.next p n e nz, ap (λ y. y.next) q, link, length-set nodes p n')
        | inr other ↦
            omega (arith, t.next i x (sym (over_there i other) ∙ f) z, length-set nodes p n')
      ];
      vacant = λ i x f z. elim (Bool-cases (i == p)) [
        | inl here_it ↦
            let s = (==_iff i p).0 here_it in
            let q : x ≡ n' = some-injective x n' (sym f ∙ ap (get_elem? over) s ∙ over_here) in
            absurd (cc (ap (λ y. y.filled) q, z, holds.0))
        | inr other ↦ t.vacant i x (sym (over_there i other) ∙ f) z
      ];
    }

    -- Other keys read what they read.
    pub over-Seek :
        (q : Str) {i : ℕ} {o : Option (List ℕ)}
        → bytes q ≢ bytes k
        → hit n q ≡ false
        → Seek nodes q i o
        → Seek over q i o
    over-Seek q {i} other missed (here x f h r) = elim (Bool-cases (i == p)) [
      | inl at_p ↦
          let y : x ≡ n =
            some-injective x n (sym f ∙ ap (get_elem? nodes) ((==_iff i p).0 at_p) ∙ e) in
          absurd (cc (ap (λ z. hit z q) y, h, missed))
      | inr apart ↦ here x (over_there i apart ∙ f) h r
    ]
    over-Seek q {i} other missed (last x f h z r) = elim (Bool-cases (i == p)) [
      | inl at_p ↦
          let s = (==_iff i p).0 at_p in
          let y : x ≡ n = some-injective x n (sym f ∙ ap (get_elem? nodes) s ∙ e) in
          last n' (ap (get_elem? over) s ∙ over_here) (Holds-miss k q n' holds.1 other)
            (ap (λ v. v == 0) (link ∙ ap (λ v. v.next) (sym y)) ∙ z) r
      | inr apart ↦ last x (over_there i apart ∙ f) h z r
    ]
    over-Seek q {i} {o} other missed (later x f h z s) = elim (Bool-cases (i == p)) [
      | inl at_p ↦
          let s' = (==_iff i p).0 at_p in
          let y : x ≡ n = some-injective x n (sym f ∙ ap (get_elem? nodes) s' ∙ e) in
          let w : x.next ≡ n'.next = ap (λ v. v.next) y ∙ sym link in
          later n' (ap (get_elem? over) s' ∙ over_here) (Holds-miss k q n' holds.1 other)
            (ap (λ v. v == 0) (sym w) ∙ z)
            (subst (λ j. Seek over q j o) w (over-Seek q other missed s))
      | inr apart ↦ later x (over_there i apart ∙ f) h z (over-Seek q other missed s)
    ]

    -- The key reads the new value.
    pub over-Walk :
        {i : ℕ} {pl : Place} → pl ≡ replace p → Walk nodes k i pl → Seek over k i (some n'.val)
    unfolding keycmp
    over-Walk {i} r (free x f v r') =
        let s : i ≡ p = ap spot (sym r' ∙ r) in
        here n' (ap (get_elem? over) s ∙ over_here) (Holds-hit k n' holds) refl
    over-Walk {i} r (same x f v m r') =
        let s : i ≡ p = ap spot (sym r' ∙ r) in
        here n' (ap (get_elem? over) s ∙ over_here) (Holds-hit k n' holds) refl
    over-Walk r (tail x f v m z r') = absurd (cc (r, r'))
    over-Walk {i} {pl} r (onward x f v m z w) =
        let le = Walk-le nodes k t w in
        let apart : (i == p) ≡ false = ground (arith, ap spot r, t.next i x f z) in
        later x (over_there i apart ∙ f) (rw v m) z (over-Walk r w)
