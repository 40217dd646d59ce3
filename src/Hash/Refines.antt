-- ===== src/Hash/Refines.antt =====
-- hash.c: the table as a finite map from keys to values.
use mathlib.Core.Option.{none-ne-some, some-injective}
use native.Mathlib.Nat.{mod-lt}
use strans.Base.{
  ℕ, zero, suc, ◌*◌, ◌%◌, ◌≤◌, ◌<◌, ◌≡◌, ◌≢◌, inl, inr, refl, sym, ap, subst, ◌∙◌, true, false,
  List, [], ◌∷◌, ◌++◌, Option, none, some, arith, ◌==◌, if◌then◌else◌, length, length-append,
  length-set, length-replicate, get_elem?, set, get_elem?-of_lt, Bool-cases, replicate,
}
use strans.Hash.Seek.{
  IsTable, hit, Seek, last, Walk, val_of, hnode-eq, get_loop-Seek, chain_seeks, set_loop-Walk,
}
use strans.Hash.Over.{
  Holds, Holds-miss, Ends, at_free, at_same, at_tail, Walk-Ends, over-IsTable, over-Seek, over-Walk,
}
use strans.Hash.Behind.{grown, grown-IsTable, grown-Seek, grown-Walk}
use strans.Hash.{
  Hnode, Hmap, vacant, bytes, hash, bucket, sdup, until_zero, write_node, set_at, hmapset, hmapget,
  hmapalloc, Place, replace, behind,
}
use strans.Run.{Run, ok, ◌>>=◌, Returns}
use strans.Str.{Str}
use strans.Utf.{Utf}

-- A table whose buckets are there, and whose chains end.
pub record IsHmap (h : Hmap) : Type 0 where
  pub table : IsTable h.nodes
  pub buckets : 0 < h.nbs
  pub room : h.nbs ≤ length h.nodes

module _ ⦃u : Utf⦄ where
  -- The value that a key has.
  unfoldable pub value : Hmap → Str → Run (Option (List ℕ))
  value h key = do r ← hmapget h key; ok (val_of r)

  -- A table in which the key has the value, and the others have what they had.
  pub record Stored (h : Hmap) (k v : Str) (h' : Hmap) : Type 0 where
    pub hmap : IsHmap h'
    pub this_key : value h' k ≡ ok (some (sdup v))
    pub others : (q : Str) → bytes q ≢ bytes k → value h' q ≡ value h q

  bucket_lt : (h : Hmap) (q : Str) → IsHmap h → hash q % h.nbs < length h.nodes
  bucket_lt h q w = omega (arith, mod-lt (hash q) w.buckets, w.room)

  bucket-eq : (h : Hmap) (q : Str) → IsHmap h → bucket h q ≡ ok (hash q % h.nbs)
  unfolding bucket
  bucket-eq h q w = ground (arith, w.buckets)

  value-Seek :
      (h : Hmap) (q : Str) {o : Option (List ℕ)}
      → IsHmap h
      → Seek h.nodes q (hash q % h.nbs) o
      → value h q ≡ ok o
  unfolding hmapget value
  value-Seek h q w s =
      let (r, run, v) = get_loop-Seek h.nodes q (length h.nodes) w.table (omega arith) s in
      rw (bucket-eq h q w, ◌>>=◌, run, ◌>>=◌, v) refl

  -- In a table with the same buckets, where the chains give what they gave for other keys.
  Stored-of :
      (h h' : Hmap) (k v : Str)
      → IsHmap h
      → IsHmap h'
      → h'.nbs ≡ h.nbs
      → Seek h'.nodes k (hash k % h.nbs) (some (sdup v))
      → ((q : Str) (i : ℕ) (o : Option (List ℕ))
          → bytes q ≢ bytes k
          → Seek h.nodes q i o
          → Seek h'.nodes q i o)
      → Stored h k v h'
  Stored-of h h' k v w w' nbs now kept = record {
    hmap = w';
    this_key =
        value-Seek h' k w'
          (subst (λ b. Seek h'.nodes k (hash k % b) (some (sdup v))) (sym nbs) now);
    others = λ q other.
        let (o, s) =
          chain_seeks h.nodes q (length h.nodes) (hash q % h.nbs) w.table (bucket_lt h q w)
            (omega arith) in
        value-Seek h' q w'
          (subst (λ b. Seek h'.nodes q (hash q % b) o) (sym nbs) (kept q _ o other s))
        ∙ sym (value-Seek h q w s);
  }

  module _ (k v : Str) (c_key : until_zero (bytes k) ≡ bytes k) (given : 0 < length v) where
    write_node-Holds :
        (n : Hnode) (next : ℕ)
        → (n.filled ≡ true → n.key ≡ bytes k)
        → Holds (bytes k) (write_node n next k v)
    unfolding write_node sdup
    write_node-Holds n next keyed = elim (Bool-cases n.filled) [
      | inl full ↦ ground (arith, keyed full)
      | inr empty ↦ ground (arith, c_key)
    ]

    write_node-next : (n : Hnode) (next : ℕ) → (write_node n next k v).next ≡ next
    unfolding write_node
    write_node-next n next = ground arith

    write_node-val : (n : Hnode) (next : ℕ) → (write_node n next k v).val ≡ sdup v
    unfolding write_node
    write_node-val n next = ground arith

    abbrev replaced : Hmap → ℕ → Hnode → Hmap
    replaced h p n = record h { nodes = set h.nodes p (write_node n n.next k v) }

    replaced-Stored :
        (h : Hmap) (w : IsHmap h) (p : ℕ) (n : Hnode)
        → get_elem? h.nodes p ≡ some n
        → (n.filled ≡ true → n.key ≡ bytes k)
        → ((q : Str) → bytes q ≢ bytes k → hit n q ≡ false)
        → Walk h.nodes k (hash k % h.nbs) (replace p)
        → Stored h k v (replaced h p n)
    replaced-Stored h w p n e keyed missed walk =
        let n' = write_node n n.next k v in
        let holds = write_node-Holds n n.next keyed in
        let link = write_node-next n n.next in
        let w' : IsHmap (replaced h p n) = record {
          table = over-IsTable h.nodes k w.table p n n' e holds link;
          buckets = w.buckets;
          room = omega (arith, w.room, length-set h.nodes p n');
        } in
        Stored-of h (replaced h p n) k v w w' refl
          (subst (λ x. Seek (set h.nodes p n') k (hash k % h.nbs) (some x))
            (write_node-val n n.next) (over-Walk h.nodes k w.table p n n' e holds link refl walk))
          (λ q i o other s.
            over-Seek h.nodes k w.table p n n' e holds link q other (missed q other) s)

    abbrev lengthened : Hmap → ℕ → Hnode → Hmap
    lengthened h p n = record h {
      cap = if h.cap == length h.nodes then h.cap * 2 else h.cap;
      nodes = set h.nodes p (record n { next = length h.nodes }) ++ write_node vacant 0 k v ∷ [];
    }

    lengthened-Stored :
        (h : Hmap) (w : IsHmap h) (p : ℕ) (n : Hnode)
        → get_elem? h.nodes p ≡ some n
        → n.filled ≡ true
        → n.next ≡ 0
        → Walk h.nodes k (hash k % h.nbs) (behind p)
        → Stored h k v (lengthened h p n)
    lengthened-Stored h w p n e f z walk =
        let m = write_node vacant 0 k v in
        let holds : Holds (bytes k) m = write_node-Holds vacant 0 (λ b. ground (arith, b)) in
        let done = write_node-next vacant 0 in
        let w' : IsHmap (lengthened h p n) = record {
          table = grown-IsTable h.nodes k w.table p n m e f z holds done;
          buckets = w.buckets;
          room = omega (
            arith,
            w.room,
            length-set h.nodes p (record n { next = length h.nodes }),
            length-append (set h.nodes p (record n { next = length h.nodes })) (m ∷ []),
          );
        } in
        Stored-of h (lengthened h p n) k v w w' refl
          (subst
            (λ x. Seek (grown h.nodes k w.table p n m e f z holds done) k (hash k % h.nbs) (some x))
            (write_node-val vacant 0)
            (grown-Walk h.nodes k w.table p n m e f z holds done refl walk))
          (λ q i o other s. grown-Seek h.nodes k w.table p n m e f z holds done q other s)

    set_at-Stored :
        (h : Hmap) (w : IsHmap h) (pl : Place)
        → Ends h.nodes k pl
        → Walk h.nodes k (hash k % h.nbs) pl
        → Returns (set_at h pl k v) (Stored h k v)
    unfolding set_at
    set_at-Stored h w pl (at_free p n r e f) walk = (
      replaced h p n,
      rw (r, hnode-eq h.nodes k p n e, ◌>>=◌) refl,
      replaced-Stored h w p n e (λ t. absurd (cc (t, f))) (λ q other. rw f refl)
          (subst (Walk h.nodes k (hash k % h.nbs)) r walk),
    )
    set_at-Stored h w pl (at_same p n r e f s) walk = (
      replaced h p n,
      rw (r, hnode-eq h.nodes k p n e, ◌>>=◌) refl,
      replaced-Stored h w p n e (λ t. s) (λ q other. Holds-miss k q n s other)
          (subst (Walk h.nodes k (hash k % h.nbs)) r walk),
    )
    set_at-Stored h w pl (at_tail p n r e f m z) walk = (
      lengthened h p n,
      rw (r, hnode-eq h.nodes k p n e, ◌>>=◌) refl,
      lengthened-Stored h w p n e f z (subst (Walk h.nodes k (hash k % h.nbs)) r walk),
    )

    -- On a table with buckets whose chains only go up and end, a key that is written without
    -- a zero byte, and a value that is not empty, `hmapset` returns such a table again, in
    -- which `hmapget` finds that value for the key, and for every key that is written with
    -- other bytes what it found before (a value, or none).
    pub hmapset-Stored : (h : Hmap) → IsHmap h → Returns (hmapset h k v) (Stored h k v)
    unfolding hmapset
    hmapset-Stored h w =
        let b = bucket_lt h k w in
        let (pl, run, walk) =
          set_loop-Walk h.nodes k (length h.nodes) (hash k % h.nbs) w.table b (omega arith) in
        let (h', set, stored) = set_at-Stored h w pl (Walk-Ends h.nodes k walk) walk in
        (h', rw (bucket-eq h k w, ◌>>=◌, run, ◌>>=◌) set, stored)

  replicate-vacant : (c i : ℕ) (n : Hnode) → get_elem? (replicate c vacant) i ≡ some n → n ≡ vacant
  replicate-vacant zero i n e = absurd (none-ne-some n e)
  replicate-vacant (suc c) zero n e = sym (some-injective vacant n e)
  replicate-vacant (suc c) (suc i) n e = replicate-vacant c i n e

  -- A new table has no key.
  pub hmapalloc-Empty :
      (c : ℕ) → 0 < c → IsHmap (hmapalloc c) × ((k : Str) → value (hmapalloc c) k ≡ ok none)
  unfolding hmapalloc
  hmapalloc-Empty c some_bucket =
      let none_else = replicate-vacant c in
      let w : IsHmap (hmapalloc c) = record {
        table = record {
          next = λ i n e z. absurd (cc (ap (λ x. x.next == 0) (none_else i n e), z));
          vacant = λ i n e z. ap (λ x. x.next) (none_else i n e);
        };
        buckets = some_bucket;
        room = omega (arith, length-replicate c vacant);
      } in
      (
        w,
        λ k.
            let (n, e) =
              get_elem?-of_lt (replicate c vacant) (hash k % c) (bucket_lt (hmapalloc c) k w) in
            let s = none_else (hash k % c) n e in
            value-Seek (hmapalloc c) k w
              (last n e (ap (λ x. hit x k) s) (ap (λ x. x.next == 0) s) refl),
      )
