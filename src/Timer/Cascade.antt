-- ===== src/Timer/Cascade.antt =====
-- `cascade` and the cascades of a round.
use study_notes.Common.{
  ℕ, ◌+◌, ◌/◌, ◌%◌, ◌<◌, ◌≡◌, ◌≢◌, refl, sym, [], ◌⊎◌, inl, inr, if◌then◌else◌, Bool-cases, arith,
}
use study_notes.Timer.Wheel.{Tv, tv1, tv2, tv3, tv4, tv5, same_tv, Base, write, cascade}
use study_notes.Timer.Slots.{horizon, In}
use study_notes.Timer.Inv.{
  All, All-map, Fits, Wheel, write-All, write-cases, same_tv-eq, put_all-Wheel,
}

-- The jiffies that a list of the level stands for.
abbrev pub unit : Tv → ℕ
unit tv1 = 1
unit tv2 = 256
unit tv3 = 16384
unit tv4 = 1048576
unit tv5 = 67108864

-- The time goes on by a jiffy for a list that is not due.
step-In :
    (now i e : ℕ) (k : Tv)
    → (now % unit k ≢ 0) ⊎ (i ≢ now / unit k % 64)
    → In now now k i e
    → In now (now + 1) k i e
step-In now i e tv1 h w = w
step-In now i e tv2 h w = omega arith
step-In now i e tv3 h w = omega arith
step-In now i e tv4 h w = omega arith
step-In now i e tv5 h (p, q, w) = (p, q, omega arith)

-- Level `k` is at `v`.
abbrev pub raise : (Tv → ℕ) → Tv → ℕ → Tv → ℕ
raise c k v k' = if same_tv k k' then v else c k'

pub raise-Wheel :
    (c : Tv → ℕ) (b : Base) (k : Tv)
    → Wheel c b
    → ((i : ℕ) → All (Fits b.timer_jiffies (b.timer_jiffies + 1) k i) (b.tv k i))
    → Wheel (raise c k (b.timer_jiffies + 1)) b
raise-Wheel c b k w h = record {
  time = w.time;
  low = λ k'. elim (Bool-cases (same_tv k k')) [
    | inl e ↦ rw e (omega arith)
    | inr e ↦ rw e (w.low k')
  ];
  high = λ k'. elim (Bool-cases (same_tv k k')) [
    | inl e ↦ rw e (omega arith)
    | inr e ↦ rw e (w.high k')
  ];
  lists = λ k' i. elim (Bool-cases (same_tv k k')) [
    | inl e ↦ rw (e, ← same_tv-eq k k' e) (h i)
    | inr e ↦ rw e (w.lists k' i)
  ];
}

-- A level that is not due is cascaded for this jiffy as it is.
pub idle-Wheel :
    (c : Tv → ℕ) (b : Base) (k : Tv)
    → c k ≡ b.timer_jiffies
    → b.timer_jiffies % unit k ≢ 0
    → Wheel c b
    → Wheel (raise c k (b.timer_jiffies + 1)) b
idle-Wheel c b k e n w = raise-Wheel c b k w (λ i.
    All-map (Fits b.timer_jiffies (c k) k i) (Fits b.timer_jiffies (b.timer_jiffies + 1) k i)
      (b.tv k i) (λ t h. (h.0, step-In b.timer_jiffies i t.expires k (inl n) (rw e at h.1)))
      (w.lists k i))

empty-Wheel :
    (c : Tv → ℕ) (b : Base) (k : Tv) (i : ℕ)
    → Wheel c b
    → Wheel c (record b { tv = write b.tv k i [] })
empty-Wheel c b k i w = record {
  time = w.time;
  low = w.low;
  high = w.high;
  lists =
      write-All (λ k' i'. Fits b.timer_jiffies (c k') k' i') b.tv k i [] tt
        (λ k' i' _. w.lists k' i');
}

pub cascade-Wheel :
    (c : Tv → ℕ) (b : Base) (k : Tv)
    → c k ≡ b.timer_jiffies
    → Wheel c b
    → Wheel (raise c k (b.timer_jiffies + 1)) (cascade b k (b.timer_jiffies / unit k % 64))
unfolding cascade
cascade-Wheel c b k e w =
    put_all-Wheel _ emptied (b.tv k i)
      (All-map (Fits b.timer_jiffies (c k) k i) (λ t. t.expires < horizon) (b.tv k i) (λ t h. h.0)
        (w.lists k i))
      (raise-Wheel c emptied k (empty-Wheel c b k i w) (λ i'. elim (write-cases b.tv k i [] k i') [
        | inl (_, x, h) ↦ rw h tt
        | inr (n, h) ↦ rw h (
            All-map (Fits b.timer_jiffies (c k) k i')
              (Fits b.timer_jiffies (b.timer_jiffies + 1) k i') (b.tv k i')
              (λ t q. (
                q.0,
                step-In b.timer_jiffies i' t.expires k (inr (λ z. n refl (sym z))) (rw e at q.1),
              ))
              (w.lists k i'))
      ]))
  where
    i : ℕ
    i = b.timer_jiffies / unit k % 64

    emptied : Base
    emptied = record b { tv = write b.tv k i [] }
