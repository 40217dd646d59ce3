-- ===== src/Hash/Behind.antt =====
-- hash.c, the end of `hmapset`: what a new node behind the tail of a chain changes for the keys.
use mathlib.Core.Option.{some-injective}
use strans.Base.{
  ℕ, ◌+◌, ◌<◌, ◌≡◌, ◌≢◌, ◌⊎◌, inl, inr, refl, sym, ap, ◌∙◌, true, false, List, [], ◌∷◌, ◌++◌,
  Option, none, some, arith, ltb, ltb→lt, ◌==◌, ==_iff, length, length-append, length-set,
  get_elem?, set, lt-of-get_elem?, get_elem?-set_self, get_elem?-set_ne, get_elem?-append_left,
  get_elem?-append_length, Bool-cases,
}
use strans.Hash.Seek.{IsTable, hit, Seek, here, last, later, Walk, free, same, tail, onward}
use strans.Hash.{Hnode, bytes, keycmp, Place, behind}
use strans.Str.{Str}
use strans.Utf.{Utf}
use strans.Hash.Over.{Holds, Holds-hit, Holds-miss, spot, Walk-le}

module _ ⦃u : Utf⦄ (nodes : List Hnode) (k : Str) (t : IsTable nodes) (p : ℕ) (n m : Hnode)
    (e : get_elem? nodes p ≡ some n) (filled : n.filled ≡ true) (ended : n.next ≡ 0)
    (holds : Holds (bytes k) m) (m_last : m.next ≡ 0) where
  -- The tail, linked to the new node.
  abbrev linked : Hnode
  linked = record n { next = length nodes }

  abbrev pub grown : List Hnode
  grown = set nodes p linked ++ m ∷ []

  p_lt : p < length nodes
  p_lt = lt-of-get_elem? nodes p e

  old_there : (i : ℕ) → i < length nodes → (i == p) ≡ false → get_elem? grown i ≡ get_elem? nodes i
  old_there i h other =
      get_elem?-append_left (set nodes p linked) (m ∷ []) i
        (omega (arith, length-set nodes p linked))
      ∙ get_elem?-set_ne nodes p i linked (λ s. cc ((==_iff i p).1 (sym s), other))

  old_here : get_elem? grown p ≡ some linked
  old_here =
      get_elem?-append_left (set nodes p linked) (m ∷ []) p
        (omega (arith, length-set nodes p linked, p_lt))
      ∙ get_elem?-set_self nodes p linked p_lt

  new_node : get_elem? grown (length nodes) ≡ some m
  new_node =
      ap (get_elem? grown) (sym (length-set nodes p linked))
      ∙ get_elem?-append_length (set nodes p linked) m []

  grown_length : length grown ≡ length nodes + 1
  grown_length =
      length-append (set nodes p linked) (m ∷ []) ∙ ap (λ l. l + 1) (length-set nodes p linked)

  linked_on : (length nodes == 0) ≡ false
  linked_on = ground (arith, p_lt)

  m_done : (m.next == 0) ≡ true
  m_done = (==_iff m.next 0).1 m_last

  -- What a node of the grown array is.
  node-cases :
      (i : ℕ) (x : Hnode)
      → get_elem? grown i ≡ some x
      → ((i ≡ p) × (x ≡ linked)) ⊎ ((i ≡ length nodes) × (x ≡ m)) ⊎ (get_elem? nodes i ≡ some x)
  node-cases i x f = elim (Bool-cases (i == p)) [
    | inl at_p ↦
        let s = (==_iff i p).0 at_p in
        inl (s, some-injective x linked (sym f ∙ ap (get_elem? grown) s ∙ old_here))
    | inr apart ↦ elim (Bool-cases (ltb i (length nodes))) [
      | inl old ↦ inr (inr (sym (old_there i (ltb→lt i _ old) apart) ∙ f))
      | inr new ↦
          let s : i ≡ length nodes = ground (arith, lt-of-get_elem? grown i f, grown_length) in
          inr (inl (s, some-injective x m (sym f ∙ ap (get_elem? grown) s ∙ new_node)))
    ]
  ]

  pub grown-IsTable : IsTable grown
  grown-IsTable = record {
    next = λ i x f z. elim (node-cases i x f) [
      | inl (s, q) ↦ omega (arith, ap (λ y. y.next) q, p_lt, grown_length)
      | inr (inl (s, q)) ↦ absurd (cc (ap (λ y. y.next == 0) q, z, m_done))
      | inr (inr old) ↦ omega (arith, t.next i x old z, grown_length)
    ];
    vacant = λ i x f z. elim (node-cases i x f) [
      | inl (s, q) ↦ absurd (cc (ap (λ y. y.filled) q, z, filled))
      | inr (inl (s, q)) ↦ ap (λ y. y.next) q ∙ m_last
      | inr (inr old) ↦ t.vacant i x old z
    ];
  }

  -- The new node has nothing for another key.
  new-Seek :
      (q : Str) {o : Option (List ℕ)} → bytes q ≢ bytes k → o ≡ none → Seek grown q (length nodes) o
  new-Seek q other r = last m new_node (Holds-miss k q m holds.1 other) m_done r

  hit-linked : (q : Str) → hit linked q ≡ hit n q
  unfolding keycmp
  hit-linked q = refl

  pub grown-Seek :
      (q : Str) {i : ℕ} {o : Option (List ℕ)}
      → bytes q ≢ bytes k
      → Seek nodes q i o
      → Seek grown q i o
  grown-Seek q {i} other (here x f h r) = elim (Bool-cases (i == p)) [
    | inl at_p ↦
        let s = (==_iff i p).0 at_p in
        let y : x ≡ n = some-injective x n (sym f ∙ ap (get_elem? nodes) s ∙ e) in
        here linked (ap (get_elem? grown) s ∙ old_here)
          (hit-linked q ∙ ap (λ z. hit z q) (sym y) ∙ h) (r ∙ ap (λ z. some z.val) y)
    | inr apart ↦ here x (old_there i (lt-of-get_elem? nodes i f) apart ∙ f) h r
  ]
  grown-Seek q {i} other (last x f h z r) = elim (Bool-cases (i == p)) [
    | inl at_p ↦
        let s = (==_iff i p).0 at_p in
        let y : x ≡ n = some-injective x n (sym f ∙ ap (get_elem? nodes) s ∙ e) in
        later linked (ap (get_elem? grown) s ∙ old_here)
          (hit-linked q ∙ ap (λ z. hit z q) (sym y) ∙ h) linked_on (new-Seek q other r)
    | inr apart ↦ last x (old_there i (lt-of-get_elem? nodes i f) apart ∙ f) h z r
  ]
  grown-Seek q {i} other (later x f h z s) = elim (Bool-cases (i == p)) [
    | inl at_p ↦
        let y : x ≡ n =
          some-injective x n (sym f ∙ ap (get_elem? nodes) ((==_iff i p).0 at_p) ∙ e) in
        absurd (ground (arith, ap (λ v. v.next) y, ended))
    | inr apart ↦
        later x (old_there i (lt-of-get_elem? nodes i f) apart ∙ f) h z (grown-Seek q other s)
  ]

  pub grown-Walk :
      {i : ℕ} {pl : Place} → pl ≡ behind p → Walk nodes k i pl → Seek grown k i (some m.val)
  unfolding keycmp
  grown-Walk r (free x f v r') = absurd (cc (r, r'))
  grown-Walk r (same x f v c r') = absurd (cc (r, r'))
  grown-Walk {i} r (tail x f v c z r') =
      let s : i ≡ p = ap spot (sym r' ∙ r) in
      let y : x ≡ n = some-injective x n (sym f ∙ ap (get_elem? nodes) s ∙ e) in
      later linked (ap (get_elem? grown) s ∙ old_here)
        (hit-linked k ∙ ap (λ z. hit z k) (sym y) ∙ (rw v c)) linked_on
        (here m new_node (Holds-hit k m holds) refl)
  grown-Walk {i} r (onward x f v c z w) =
      let le = Walk-le nodes k t w in
      let apart : (i == p) ≡ false = ground (arith, ap spot r, t.next i x f z) in
      later x (old_there i (lt-of-get_elem? nodes i f) apart ∙ f) (rw v c) z (grown-Walk r w)
