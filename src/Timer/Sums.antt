-- ===== src/Timer/Sums.antt =====
-- Sums over the lists of the wheel: of their lengths, or of how often a timer stands in them.
use study_notes.Common.{
  ℕ, zero, suc, ◌+◌, ◌<◌, ◌≡◌, ◌≢◌, ◌∙◌, refl, ap, List, inl, inr, ◌==◌, Bool-cases, arith,
}
use study_notes.Timer.Wheel.{Timer, Tv, tv1, tv2, tv3, tv4, tv5, write}
use study_notes.Timer.Inv.{write-cases}
use study_notes.Timer.Pending.{write-there}

module _ (μ : List Timer → ℕ) where
  -- The sum over the first `n` lists of a level.
  unfoldable pub sum_by : ℕ → (ℕ → List Timer) → ℕ
  sum_by zero f = 0
  sum_by (suc n) f = μ (f n) + sum_by n f

  -- The sum over the wheel.
  abbrev pub total_by : (Tv → ℕ → List Timer) → ℕ
  total_by tv =
      sum_by 256 (tv tv1)
      + sum_by 256 (tv tv2)
      + sum_by 256 (tv tv3)
      + sum_by 256 (tv tv4)
      + sum_by 256 (tv tv5)

  sum_by-same :
      (n : ℕ) (f g : ℕ → List Timer) → ((i : ℕ) → i < n → f i ≡ g i) → sum_by n f ≡ sum_by n g
  unfolding sum_by
  sum_by-same zero f g h = refl
  sum_by-same (suc n) f g h =
      omega (arith, ap μ (h n (omega arith)), sum_by-same n f g (λ i o. h i (omega arith)))

  -- One list of a level is replaced.
  sum_by-change :
      (n : ℕ) (f g : ℕ → List Timer) (i : ℕ)
      → i < n
      → ((j : ℕ) → i ≢ j → f j ≡ g j)
      → sum_by n f + μ (g i) ≡ sum_by n g + μ (f i)
  unfolding sum_by
  sum_by-change zero f g i o h = absurd (omega arith)
  sum_by-change (suc n) f g i o h = elim (Bool-cases (i == n)) [
    | inl e ↦
        let x : i ≡ n = ground arith in
        rw x (omega (arith, sum_by-same n f g (λ j q. h j (λ z. omega arith))))
    | inr e ↦
        let x : i ≢ n = (λ z. ground arith) in
        omega (arith, sum_by-change n f g i (omega arith) h, ap μ (h n x))
  ]

  write-same :
      (tv : Tv → ℕ → List Timer) (k : Tv) (i : ℕ) (l : List Timer)
      → i < 256
      → sum_by 256 (write tv k i l k) + μ (tv k i) ≡ sum_by 256 (tv k) + μ l
  write-same tv k i l o =
      sum_by-change 256 (write tv k i l k) (tv k) i o
        (λ j n. elim (write-cases tv k i l k j) [ inl (_, z, _) ↦ absurd (n z) | inr (_, w) ↦ w ])
      ∙ ap (λ x. sum_by 256 (tv k) + μ x) (write-there tv k i l)

  pub total_by-write :
      (tv : Tv → ℕ → List Timer) (k : Tv) (i : ℕ) (l : List Timer)
      → i < 256
      → total_by (write tv k i l) + μ (tv k i) ≡ total_by tv + μ l
  total_by-write tv k i l o =
      elim k as (λ k. total_by (write tv k i l) + μ (tv k i) ≡ total_by tv + μ l) [
        | tv1 ↦ omega (arith, write-same tv tv1 i l o)
        | tv2 ↦ omega (arith, write-same tv tv2 i l o)
        | tv3 ↦ omega (arith, write-same tv tv3 i l o)
        | tv4 ↦ omega (arith, write-same tv tv4 i l o)
        | tv5 ↦ omega (arith, write-same tv tv5 i l o)
      ]

  -- A sum of 0 is one of zeros.
  sum_by-zero : (n : ℕ) (f : ℕ → List Timer) (i : ℕ) → sum_by n f ≡ 0 → i < n → μ (f i) ≡ 0
  unfolding sum_by
  sum_by-zero zero f i h o = absurd (omega arith)
  sum_by-zero (suc n) f i h o = elim (Bool-cases (i == n)) [
    | inl e ↦ let x : i ≡ n = ground arith in rw x (omega arith)
    | inr e ↦ sum_by-zero n f i (omega arith) (let x : i ≢ n = (λ z. ground arith) in omega arith)
  ]

  pub total_by-zero :
      (tv : Tv → ℕ → List Timer) (k : Tv) (i : ℕ) → total_by tv ≡ 0 → i < 256 → μ (tv k i) ≡ 0
  total_by-zero tv tv1 i h o = sum_by-zero 256 (tv tv1) i (omega arith) o
  total_by-zero tv tv2 i h o = sum_by-zero 256 (tv tv2) i (omega arith) o
  total_by-zero tv tv3 i h o = sum_by-zero 256 (tv tv3) i (omega arith) o
  total_by-zero tv tv4 i h o = sum_by-zero 256 (tv tv4) i (omega arith) o
  total_by-zero tv tv5 i h o = sum_by-zero 256 (tv tv5) i (omega arith) o

-- What is left of each list and what is taken from it add up.
module _ (μ ν ρ : List Timer → ℕ) where
  sum_by-split :
      (n : ℕ) (f g : ℕ → List Timer)
      → ((i : ℕ) → μ (g i) + ν (f i) ≡ ρ (f i))
      → sum_by μ n g + sum_by ν n f ≡ sum_by ρ n f
  unfolding sum_by
  sum_by-split zero f g h = refl
  sum_by-split (suc n) f g h = omega (arith, h n, sum_by-split n f g h)

  pub total_by-split :
      (tv tv' : Tv → ℕ → List Timer)
      → ((k : Tv) (i : ℕ) → μ (tv' k i) + ν (tv k i) ≡ ρ (tv k i))
      → total_by μ tv' + total_by ν tv ≡ total_by ρ tv
  total_by-split tv tv' h = omega (
    arith,
    sum_by-split 256 (tv tv1) (tv' tv1) (h tv1),
    sum_by-split 256 (tv tv2) (tv' tv2) (h tv2),
    sum_by-split 256 (tv tv3) (tv' tv3) (h tv3),
    sum_by-split 256 (tv tv4) (tv' tv4) (h tv4),
    sum_by-split 256 (tv tv5) (tv' tv5) (h tv5),
  )
