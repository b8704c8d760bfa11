-- ===== src/Common/Outcome.antt =====
-- How a piece of kernel code can end: with a value, at a `BUG_ON`, or, for a loop that the model runs
-- on fuel, with the fuel spent.
use mathlib.Core.Path.{◌≡◌, refl}

pub data Run {ℓ} (A : Type ℓ) : Type ℓ where
  done : A → Run A
  bug : Run A
  spent : Run A

infixl 5 ◌>>=◌
abbrev pub ◌>>=◌ {ℓ κ} : {A : Type ℓ} {B : Type κ} → Run A → (A → Run B) → Run B
done a >>= f = f a
bug >>= f = bug
spent >>= f = spent

-- The run ends normally, with a value that satisfies `P`.
abbrev pub Returns {ℓ} : {A : Type ℓ} → (A → Type 0) → Run A → Type 0
Returns P (done a) = P a
Returns P bug = ⊥
Returns P spent = ⊥

pub Returns-map {ℓ} :
    {A : Type ℓ} (P Q : A → Type 0) (m : Run A) → ((a : A) → P a → Q a) → Returns P m → Returns Q m
Returns-map P Q (done a) f h = f a h
Returns-map P Q bug f h = h
Returns-map P Q spent f h = h

-- A run that returns goes on with what it returned.
pub Returns->>= {ℓ κ} :
    {A : Type ℓ} {B : Type κ} (Q : A → Type 0) (P : B → Type 0) (m : Run A) (f : A → Run B)
    → Returns Q m
    → ((a : A) → Q a → Returns P (f a))
    → Returns P (m >>= f)
Returns->>= Q P (done a) f h k = k a h
Returns->>= Q P bug f h k = h
Returns->>= Q P spent f h k = h

pub Returns->>=->>= {ℓ κ μ} :
    {A : Type ℓ} {B : Type κ} {C : Type μ} (Q : A → Type 0) (P : C → Type 0) (m : Run A)
    (f : A → Run B) (g : B → Run C)
    → Returns Q m
    → ((a : A) → Q a → Returns P (f a >>= g))
    → Returns P (m >>= f >>= g)
Returns->>=->>= Q P (done a) f g h k = k a h
Returns->>=->>= Q P bug f g h k = h
Returns->>=->>= Q P spent f g h k = h

pub Returns-assoc {ℓ κ μ} :
    {A : Type ℓ} {B : Type κ} {C : Type μ} (P : C → Type 0) (m : Run A) (f : A → Run B)
    (g : B → Run C)
    → Returns P (m >>= λ a. f a >>= g)
    → Returns P (m >>= f >>= g)
Returns-assoc P (done a) f g h = h
Returns-assoc P bug f g h = h
Returns-assoc P spent f g h = h

-- What a run that returns has returned.
pub Returns-value {ℓ} :
    {A : Type ℓ} (P : A → Type 0) (m : Run A) → Returns P m → (a : A) × (m ≡ done a) × P a
Returns-value P (done a) h = (a, refl, h)
Returns-value P bug h = absurd h
Returns-value P spent h = absurd h
