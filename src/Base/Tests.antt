-- ===== src/Base/Tests.antt =====
-- Boolean tests on the native numbers and on byte strings, and the conditional.
use Prim.Native.Nat.{ℕ, zero, suc, ◌<◌, compare, Ordering}
use mathlib.Core.Path.{◌≡◌, refl}
use mathlib.Core.Logic.{◌↔◌, ◌⊎◌, inl, inr}
use mathlib.Core.Bool.{Bool, true, false, ◌&&◌, ◌||◌}
use mathlib.Core.Option.{Option, none, some}
use mathlib.Core.List.{List, [], ◌∷◌}
use native.Mathlib.Omega.{arith}

abbrev pub ltb : ℕ → ℕ → Bool
ltb a b = elim (compare a b) [ Ordering.lt ↦ true | _ ↦ false ]

abbrev pub leb : ℕ → ℕ → Bool
leb a b = elim (compare a b) [ Ordering.gt ↦ false | _ ↦ true ]

infix 50 ◌==◌
abbrev pub ◌==◌ : ℕ → ℕ → Bool
a == b = elim (compare a b) [ Ordering.eq ↦ true | _ ↦ false ]

infix 1 if◌then◌else◌
abbrev pub if◌then◌else◌ {ℓ} : {A : Type ℓ} → Bool → A → A → A
if true then x else y = x
if false then x else y = y

pub ltb→lt : (a b : ℕ) → ltb a b ≡ true → a < b
ltb→lt a b h = ground arith

pub lt→ltb : (a b : ℕ) → a < b → ltb a b ≡ true
lt→ltb a b h = ground arith

pub ==_iff : (a b : ℕ) → ((a == b) ≡ true) ↔ (a ≡ b)
==_iff a b = ground arith

pub ==_pos : (n : ℕ) → 0 < n → (n == 0) ≡ false
==_pos n h = ground arith

-- To split on a computed value and keep the equation.
pub Bool-cases : (b : Bool) → (b ≡ true) ⊎ (b ≡ false)
Bool-cases true = inl refl
Bool-cases false = inr refl

pub Option-cases {ℓ} : {A : Type ℓ} (o : Option A) → (o ≡ none) ⊎ ((a : A) × (o ≡ some a))
Option-cases none = inl refl
Option-cases (some a) = inr (a, refl)

-- Two sequences of numbers, compared place by place.
unfoldable pub equal : List ℕ → List ℕ → Bool
equal [] [] = true
equal (x ∷ xs) (y ∷ ys) = x == y && equal xs ys
equal _ _ = false

pub equal_iff : (xs ys : List ℕ) → (equal xs ys ≡ true) ↔ (xs ≡ ys)
unfolding equal
equal_iff (x ∷ xs) (y ∷ ys) = ground (arith, equal_iff xs ys)
equal_iff _ _ = ground arith

pub equal_refl : (xs : List ℕ) → equal xs xs ≡ true
equal_refl xs = (equal_iff xs xs).1 refl

-- Check every value below a bound by evaluation.
unfoldable pub all_below : ℕ → (ℕ → Bool) → Bool
all_below zero test = true
all_below (suc m) test = all_below m test && test m

pub all_below_sound :
    (m : ℕ) (test : ℕ → Bool) (i : ℕ) → all_below m test ≡ true → i < m → test i ≡ true
unfolding all_below
all_below_sound zero test i passed below = absurd (omega arith)
all_below_sound (suc m) test i passed below = ground (arith, all_below_sound m test i)

unfoldable pub member : List ℕ → ℕ → Bool
member [] x = false
member (y ∷ ys) x = y == x || member ys x

unfoldable pub every : List ℕ → (ℕ → Bool) → Bool
every [] p = true
every (y ∷ ys) p = p y && every ys p

pub every_sound :
    (ys : List ℕ) (p : ℕ → Bool) (x : ℕ) → every ys p ≡ true → member ys x ≡ true → p x ≡ true
unfolding member every
every_sound [] p x h m = cc
every_sound (y ∷ ys) p x h m = elim (Bool-cases (y == x)) [
  | inl e ↦ rw (← (==_iff y x).0 e) (ground arith)
  | inr e ↦ every_sound ys p x (ground arith) (ground arith)
]

abbrev pub implies : Bool → Bool → Bool
implies true b = b
implies false b = true
