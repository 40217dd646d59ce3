-- ===== src/Str/Laws.antt =====
-- str.c: what the string operations do, and their bound of 64 runes.
use strans.Base.{
  ℕ, zero, suc, ◌+◌, ◌≤◌, ◌<◌, ◌≡◌, ◌↔◌, refl, sym, ◌∙◌, List, [], ◌∷◌, ◌++◌, arith, length, take,
  drop, length-drop_last, length-append, take-of_le, append-nil, append_assoc, ◌-◌, Bool-cases, ltb,
  inl, inr,
}
use strans.Run.{ok, Returns}
use strans.Str.{Str, max_runes, sputr, spopr, sappend, scmp, scmp_loop, slastr, sinit, sinit_loop}
use strans.Utf.{Utf}

pub length-sinit_loop :
    ⦃u : Utf⦄ (room : ℕ) (src : List ℕ) (n : ℕ) → length (sinit_loop room src n) ≤ room
unfolding sinit_loop
length-sinit_loop zero src n = omega arith
length-sinit_loop ⦃u⦄ (suc room) src n =
    ground
      (arith, length-sinit_loop room (drop (u.chartorune src).1 src) (n - (u.chartorune src).1))

-- `sinit` never writes past the array.
pub length-sinit : ⦃u : Utf⦄ (src : List ℕ) (n : ℕ) → length (sinit src n) ≤ max_runes
unfolding sinit
length-sinit src n = length-sinit_loop max_runes src n

pub sputr_ok : (s : Str) (r : ℕ) → length s < max_runes → sputr s r ≡ ok (s ++ r ∷ [])
unfolding sputr
sputr_ok s r h = ground arith

take_nil : (n : ℕ) → take {A = ℕ} n [] ≡ []
take_nil zero = refl
take_nil (suc n) = refl

-- Where the destination has at most 64 runes, `sappend` puts behind it as many runes of the
-- source as there is room for up to 64, and drops the others.
pub sappend-take :
    (dst src : Str)
    → length dst ≤ max_runes
    → sappend dst src ≡ dst ++ take (max_runes - length dst) src
unfolding sappend
sappend-take dst [] h = rw (take_nil (max_runes - length dst)) (sym (append-nil dst))
sappend-take dst (r ∷ src) h = elim (Bool-cases (ltb (length dst) max_runes)) [
  | inl more ↦
      let l : length (dst ++ r ∷ []) ≡ length dst + 1 = length-append dst (r ∷ []) in
      let room : max_runes - length dst ≡ suc (max_runes - length (dst ++ r ∷ [])) = ground arith in
      rw (more, room)
        (sappend-take (dst ++ r ∷ []) src (ground arith) ∙ append_assoc dst (r ∷ []) _)
  | inr full ↦
      let room : max_runes - length dst ≡ 0 = ground arith in rw (full, room) (sym (append-nil dst))
]

scmp_loop_iff : (a b : Str) → length a ≡ length b → (scmp_loop a b ≡ 0) ↔ (a ≡ b)
unfolding scmp_loop
scmp_loop_iff [] [] h = ground arith
scmp_loop_iff [] (y ∷ b) h = absurd (omega arith)
scmp_loop_iff (x ∷ a) [] h = absurd (omega arith)
scmp_loop_iff (x ∷ a) (y ∷ b) h = ground (arith, scmp_loop_iff a b)

-- `scmp` returns 0 on two strings exactly if they are equal.
pub scmp_iff : (a b : Str) → (scmp a b ≡ 0) ↔ (a ≡ b)
unfolding scmp
scmp_iff a b = ground (arith, scmp_loop_iff a b)

pub slastr-concat : (s : Str) (r : ℕ) → slastr (s ++ r ∷ []) ≡ r
unfolding slastr
slastr-concat [] r = refl
slastr-concat (x ∷ []) r = refl
slastr-concat (x ∷ y ∷ s) r = slastr-concat (y ∷ s) r

pub length-spopr : (s : Str) → length (spopr s) ≡ length s - 1
unfolding spopr
length-spopr s = length-drop_last s

pub length-sappend :
    (dst src : Str)
    → (length (sappend dst src) ≤ length dst + length src)
      × (length dst ≤ max_runes → length (sappend dst src) ≤ max_runes)
unfolding sappend
length-sappend dst [] = (omega arith, λ h. h)
length-sappend dst (r ∷ src) =
    ground (arith, length-sappend (dst ++ r ∷ []) src, length-append dst (r ∷ []))

pub sappend_nil : (s : Str) → length s ≤ max_runes → sappend [] s ≡ s
sappend_nil s h = sappend-take [] s (omega arith) ∙ take-of_le max_runes s h

pub sputr-Returns : (s : Str) (c : ℕ) → length s < 64 → Returns (sputr s c) λ s'. length s' ≤ 64
sputr-Returns s c h = (s ++ c ∷ [], sputr_ok s c h, omega (arith, length-append s (c ∷ [])))
