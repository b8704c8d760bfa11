-- ===== src/Timer/Count.antt =====
-- How many timers stand in the wheel, against the counter `all_timers`.
use study_notes.Common.{
  ℕ, ◌+◌, ◌<◌, ◌≡◌, ◌∙◌, refl, List, [], ◌∷◌, ◌++◌, length, length-snoc, nil_of_length, arith,
}
use study_notes.Timer.Wheel.{Timer, Tv, Base, write, slot, put, put_all, cascade, cascades}
use study_notes.Timer.Pending.{kept_by_cascades}
use study_notes.Timer.Sums.{total_by, total_by-write, total_by-zero}

-- The timers in the wheel.
abbrev pub total : (Tv → ℕ → List Timer) → ℕ
total = total_by length

pub total-write :
    (tv : Tv → ℕ → List Timer) (k : Tv) (i : ℕ) (l : List Timer)
    → i < 256
    → total (write tv k i l) + length (tv k i) ≡ total tv + length l
total-write = total_by-write length

pub slot-bound : (now e : ℕ) → (slot now e).1 < 256
unfolding slot
slot-bound now e = ground arith

pub total-put : (b : Base) (t : Timer) → total (put b t).tv ≡ total b.tv + 1
unfolding put
total-put b t = omega (
  arith,
  total-write b.tv at.0 at.1 (b.tv at.0 at.1 ++ t ∷ []) (slot-bound b.timer_jiffies t.expires),
  length-snoc (b.tv at.0 at.1) t,
)
  where
    at : Tv × ℕ
    at = slot b.timer_jiffies t.expires

total-put_all : (b : Base) (ts : List Timer) → total (put_all b ts).tv ≡ total b.tv + length ts
unfolding put_all
total-put_all b [] = omega arith
total-put_all b (t ∷ ts) = omega (arith, total-put_all (put b t) ts, total-put b t)

total-cascade : (b : Base) (k : Tv) (i : ℕ) → i < 64 → total (cascade b k i).tv ≡ total b.tv
unfolding cascade
total-cascade b k i o = omega (
  arith,
  total-put_all (record b { tv = write b.tv k i [] }) (b.tv k i),
  total-write b.tv k i [] (omega arith),
)

pub total-cascades : (b : Base) → total (cascades b).tv ≡ total b.tv
total-cascades b =
    kept_by_cascades (λ b'. total b'.tv ≡ total b.tv) (λ b' k i o q. total-cascade b' k i o ∙ q) b
      refl

-- An empty count means empty lists.
pub total-zero : (tv : Tv → ℕ → List Timer) (k : Tv) (i : ℕ) → total tv ≡ 0 → i < 256 → tv k i ≡ []
total-zero tv k i h o = nil_of_length (tv k i) (total_by-zero length tv k i h o)
