-- ===== src/Memblock/Chain.antt =====
-- What a region array means: the addresses that it covers, its order, and its total.
use study_notes.Common.{
  ℕ, ◌+◌, ◌%◌, ◌≤◌, ◌<◌, ◌≡◌, refl, ap, List, [], ◌∷◌, ◌++◌, Bool, false, ◌&&◌, ◌||◌, length, ltb,
  leb, ullong_max, word, arith, ◌⊎◌, inl, inr,
}
use study_notes.Memblock.Region.{Region, MemblockType}

-- `a` lies in [lo, hi).
abbrev pub within : ℕ → ℕ → ℕ → Bool
within lo hi a = leb lo a && ltb a hi

-- Some region of the list holds the address `a`.
abbrev pub covers : ℕ → List Region → Bool
covers a [] = false
covers a (r ∷ rs) = within r.base (r.base + r.size) a || covers a rs

-- The regions are not empty, ascend from `lo`, do not overlap, and end within 64 bits.
abbrev pub Chain : ℕ → List Region → Type 0
Chain lo [] = Unit {0}
Chain lo (r ∷ rs) =
    (lo ≤ r.base) × (0 < r.size) × (r.base + r.size ≤ ullong_max) × Chain (r.base + r.size) rs

abbrev pub sum_sizes : List Region → ℕ
sum_sizes [] = 0
sum_sizes (r ∷ rs) = r.size + sum_sizes rs

-- A lone entry of size 0 at 0 stands for the empty array; otherwise the entries are a chain.
abbrev pub Shape : List Region → Type 0
Shape [] = ⊥
Shape (r ∷ rs) = ((r.base ≡ 0) × (r.size ≡ 0) × (rs ≡ [])) ⊎ Chain 0 (r ∷ rs)

-- A region array that is in order: it holds no more entries than it has room for, and `total_size` is
-- the sum of their sizes.
pub record IsValid (t : MemblockType) : Type 0 where
  pub fits : length t.regions ≤ t.max
  pub total : t.total_size ≡ sum_sizes t.regions % word
  pub shape : Shape t.regions

pub sum_sizes-append : (xs ys : List Region) → sum_sizes (xs ++ ys) ≡ sum_sizes xs + sum_sizes ys
sum_sizes-append [] ys = omega arith
sum_sizes-append (x ∷ xs) ys = omega (arith, sum_sizes-append xs ys)

pub covers-append :
    (a : ℕ) (xs ys : List Region) → covers a (xs ++ ys) ≡ (covers a xs || covers a ys)
covers-append a [] ys = refl
covers-append a (x ∷ xs) ys = ground (arith, covers-append a xs ys)

-- A chain may be read from a lower address.
pub Chain-weaken : (lo lo' : ℕ) (rs : List Region) → lo' ≤ lo → Chain lo rs → Chain lo' rs
Chain-weaken lo lo' [] h c = tt
Chain-weaken lo lo' (r ∷ rs) h c = (omega arith, c.1, c.2, c.3)

-- It covers nothing below its start.
pub Chain-below : (a lo : ℕ) (rs : List Region) → Chain lo rs → a < lo → covers a rs ≡ false
Chain-below a lo [] c h = refl
Chain-below a lo (r ∷ rs) c h = ground (arith, Chain-below a (r.base + r.size) rs c.3)

-- The sizes of a chain add up to less than 2 ^ 64.
pub Chain-sum :
    (lo : ℕ) (rs : List Region) → Chain lo rs → lo ≤ ullong_max → lo + sum_sizes rs ≤ ullong_max
Chain-sum lo [] c h = omega arith
Chain-sum lo (r ∷ rs) c h = omega (arith, Chain-sum (r.base + r.size) rs c.3)

pub Chain-Shape : (rs : List Region) → 0 < length rs → Chain 0 rs → Shape rs
Chain-Shape [] p c = absurd (omega arith)
Chain-Shape (r ∷ rs) p c = inr c

pub Shape-nil : (r : Region) (rs : List Region) → Shape (r ∷ rs) → r.size ≡ 0 → rs ≡ []
Shape-nil r rs (inl e) z = e.2
Shape-nil r rs (inr c) z = absurd (omega arith)

pub Shape-Chain : (r : Region) (rs : List Region) → Shape (r ∷ rs) → 0 < r.size → Chain 0 (r ∷ rs)
Shape-Chain r rs (inl e) z = absurd (omega arith)
Shape-Chain r rs (inr c) z = c

-- The two shapes, told apart.
pub Shape-cases :
    (rs : List Region)
    → Shape rs
    → ((r : Region) × (rs ≡ r ∷ []) × (r.base ≡ 0) × (r.size ≡ 0)) ⊎ (Chain 0 rs × (0 < length rs))
Shape-cases [] h = absurd h
Shape-cases (r ∷ rs) (inl e) = inl (r, ap (λ l. r ∷ l) e.2, e.0, e.1)
Shape-cases (r ∷ rs) (inr c) = inr (c, omega arith)
