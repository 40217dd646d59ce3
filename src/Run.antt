-- ===== src/Run.antt =====
-- The outcome of a piece of the C code. `died` is a call of `die` (main.c), which ends the
-- process; `fault` is an access outside an array, which C leaves undefined.
use strans.Base.{
  ◌≡◌, refl, sym, ap, ◌∙◌, subst, Bool, true, false, Option, none, some, if◌then◌else◌,
}

pub data Run {ℓ} (A : Type ℓ) : Type ℓ where
  ok : A → Run A
  died : Run A
  fault : Run A

-- What comes behind a run that died or failed does not run.
infixl 5 ◌>>=◌
abbrev pub ◌>>=◌ {ℓ μ} : {X : Type ℓ} {Y : Type μ} → Run X → (X → Run Y) → Run Y
died >>= next = died
fault >>= next = fault
ok x >>= next = next x

-- The run ends normally, in a value that satisfies `Good`.
abbrev pub Returns {ℓ μ} : {X : Type ℓ} → Run X → (X → Type μ) → Type (ℓ ⊔ μ)
Returns {X} m Good = (x : X) × (m ≡ ok x) × Good x

-- The same as a test.
unfoldable pub returns {ℓ} : {A : Type ℓ} → Run A → (A → Bool) → Bool
returns (ok a) p = p a
returns died p = false
returns fault p = false

pub returns_sound {ℓ} :
    {A : Type ℓ} (r : Run A) (p : A → Bool) → returns r p ≡ true → Returns r (λ a. p a ≡ true)
unfolding returns
returns_sound (ok a) p h = (a, refl, h)
returns_sound died p h = cc
returns_sound fault p h = cc

-- Rules that follow the code: each result is handed to what comes behind it.
pub bind_Returns {ℓ κ μ ν} :
    {A : Type ℓ} {B : Type κ} {m : Run A} {f : A → Run B} (P : A → Type μ) (Q : B → Type ν)
    → Returns m P
    → ((a : A) → P a → Returns (f a) Q)
    → Returns (m >>= f) Q
bind_Returns {f = f} P Q (a, e, p) k = let (b, e', q) = k a p in (b, rw e e', q)

pub if_Returns {ℓ μ} :
    {A : Type ℓ} {x y : Run A} (b : Bool) (Q : A → Type μ)
    → (b ≡ true → Returns x Q)
    → (b ≡ false → Returns y Q)
    → Returns (if b then x else y) Q
if_Returns true Q h k = h refl
if_Returns false Q h k = k refl

pub Option_Returns {ℓ κ μ} :
    {A : Type ℓ} {B : Type κ} {n : Run B} {s : A → Run B} (o : Option A) (Q : B → Type μ)
    → (o ≡ none → Returns n Q)
    → ((a : A) → o ≡ some a → Returns (s a) Q)
    → Returns (elim o [ none ↦ n | some a ↦ s a ]) Q
Option_Returns none Q h k = h refl
Option_Returns (some a) Q h k = k a refl

pub weaken_Returns {ℓ μ ν} :
    {A : Type ℓ} {m : Run A} (P : A → Type μ) (Q : A → Type ν)
    → Returns m P
    → ((a : A) → P a → Q a)
    → Returns m Q
weaken_Returns P Q (a, e, p) k = (a, e, k a p)

-- The value of a run, or `a` where it has none.
abbrev value_or {ℓ} : {A : Type ℓ} → A → Run A → A
value_or a (ok b) = b
value_or a died = a
value_or a fault = a

-- What is shown of a run holds of the value that it is known to have.
pub of_run {ℓ μ} : {A : Type ℓ} {m : Run A} {a : A} {P : A → Type μ} → m ≡ ok a → Returns m P → P a
of_run {a = a} {P = P} e (b, e', p) = subst P (ap (value_or a) (sym e' ∙ e)) p

-- If the run ends normally, its value satisfies `Good`.
abbrev pub Ensures {ℓ μ} : {A : Type ℓ} → Run A → (A → Type μ) → Type (ℓ ⊔ μ)
Ensures {A} m Good = (a : A) → m ≡ ok a → Good a

pub ok_Ensures {ℓ μ} : {A : Type ℓ} (a : A) (P : A → Type μ) → P a → Ensures (ok a) P
ok_Ensures a P h b e = subst P (ap (value_or a) e) h

pub bind_Ensures {ℓ κ μ} :
    {A : Type ℓ} {B : Type κ} (m : Run A) (f : A → Run B) (P : B → Type μ)
    → ((a : A) → m ≡ ok a → Ensures (f a) P)
    → Ensures (m >>= f) P
bind_Ensures (ok a) f P h = h a refl
bind_Ensures died f P h = λ b e. cc
bind_Ensures fault f P h = λ b e. cc

pub if_Ensures {ℓ μ} :
    {A : Type ℓ} {x y : Run A} (b : Bool) (P : A → Type μ)
    → Ensures x P
    → Ensures y P
    → Ensures (if b then x else y) P
if_Ensures true P h k = h
if_Ensures false P h k = k

pub Option_Ensures {ℓ κ μ} :
    {A : Type ℓ} {B : Type κ} {n : Run B} {s : A → Run B} (o : Option A) (P : B → Type μ)
    → Ensures n P
    → ((a : A) → o ≡ some a → Ensures (s a) P)
    → Ensures (elim o [ none ↦ n | some a ↦ s a ]) P
Option_Ensures none P h k = h
Option_Ensures (some a) P h k = k a refl
