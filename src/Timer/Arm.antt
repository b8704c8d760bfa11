-- ===== src/Timer/Arm.antt =====
-- `internal_add_timer`: the wheel with one more timer.
use study_notes.Common.{
  ℕ, ◌+◌, ◌^◌, ◌≤◌, ◌<◌, ◌≡◌, refl, ◌⊎◌, inl, inr, ◌==◌, Bool-cases, ltb-cases, arith,
}
use study_notes.Timer.Wheel.{
  Timer, Tv, tv1, tv2, tv3, tv4, tv5, Base, put, catchup, count_added, internal_add_timer,
}
use study_notes.Timer.Slots.{horizon, In}
use study_notes.Timer.Inv.{All-map, Fits, Wheel, put-Wheel}
use study_notes.Timer.Pending.{
  Pending, Every, Member-All, All-Member, put-adds, put-keeps, put-Every,
}
use study_notes.Timer.Count.{total, total-put, total-zero}

-- The wheel is in order at its time, and `all_timers` counts its timers and `n` that have been taken off
-- their list and are not detached yet.
pub record Sound (n : ℕ) (b : Base) : Type 0 where
  pub wheel : Wheel (λ k. b.timer_jiffies) b
  pub counted : b.all_timers ≡ total b.tv + n
  pub few : b.all_timers < 2 ^ 63

out_of_range : (now c i e : ℕ) (k : Tv) → 256 ≤ i → In now c k i e → ⊥
out_of_range now c i e tv1 h w = omega arith
out_of_range now c i e tv2 h w = omega arith
out_of_range now c i e tv3 h w = omega arith
out_of_range now c i e tv4 h w = omega arith
out_of_range now c i e tv5 h (p, q, w) = omega arith

-- An empty wheel is in order at any time.
empty-Wheel :
    (b : Base) (j : ℕ)
    → j < horizon
    → total b.tv ≡ 0
    → Wheel (λ k. b.timer_jiffies) b
    → Wheel (λ k. j) (record b { timer_jiffies = j })
empty-Wheel b j h z w = record {
  time = h;
  low = λ k. omega arith;
  high = λ k. omega arith;
  lists = λ k i. elim (ltb-cases i 256) [
    | inl (_, o) ↦ rw (total-zero b.tv k i z o) tt
    | inr (_, o) ↦
        All-map (Fits b.timer_jiffies b.timer_jiffies k i) (Fits j j k i) (b.tv k i)
          (λ t f. absurd (out_of_range b.timer_jiffies b.timer_jiffies i t.expires k o f.1))
          (w.lists k i)
  ];
}

-- Nothing stands in an empty wheel.
pub empty-Every :
    (P : Timer → Type 0) (b : Base) → total b.tv ≡ 0 → Wheel (λ k. b.timer_jiffies) b → Every P b
empty-Every P b z w k i = elim (ltb-cases i 256) [
  | inl (_, o) ↦ rw (total-zero b.tv k i z o) tt
  | inr (_, o) ↦
      All-map (Fits b.timer_jiffies b.timer_jiffies k i) P (b.tv k i)
        (λ t f. absurd (out_of_range b.timer_jiffies b.timer_jiffies i t.expires k o f.1))
        (w.lists k i)
]

pub catchup-Sound : (n j : ℕ) (b : Base) → j < horizon → Sound n b → Sound n (catchup j b)
unfolding catchup
catchup-Sound n j b h s = elim (Bool-cases (b.all_timers == 0)) [
  | inl e ↦
      let z : b.all_timers ≡ 0 = ground arith in
      rw e (record {
        wheel = empty-Wheel b j h (omega (arith, s.counted)) s.wheel;
        counted = s.counted;
        few = s.few;
      })
  | inr e ↦ rw e s
]

pub catchup-tv : (j : ℕ) (b : Base) → (catchup j b).tv ≡ b.tv
unfolding catchup
catchup-tv j b = elim (Bool-cases (b.all_timers == 0)) [ inl e ↦ rw e refl | inr e ↦ rw e refl ]

-- The wheel does not depend on the counters.
pub counters-Wheel :
    (c : Tv → ℕ) (b b' : Base)
    → b'.timer_jiffies ≡ b.timer_jiffies
    → b'.tv ≡ b.tv
    → Wheel c b
    → Wheel c b'
counters-Wheel c b b' h k w = record {
  time = rw h w.time;
  low = λ x. rw h (w.low x);
  high = λ x. rw h (w.high x);
  lists = λ x i. rw (h, k) (w.lists x i);
}

count_added-Sound :
    (n : ℕ) (b : Base) (t : Timer)
    → Wheel (λ k. b.timer_jiffies) b
    → b.all_timers + 1 ≡ total b.tv + n
    → b.all_timers + 1 < 2 ^ 63
    → Sound n (count_added b t)
count_added-Sound n b t w c f = elim (Bool-cases t.deferrable) [
  | inl e ↦ rw e (record {
    wheel = counters-Wheel _ b _ refl refl w;
    counted = omega arith;
    few = omega arith;
  })
  | inr e ↦ rw e (record {
    wheel = counters-Wheel _ b _ refl refl w;
    counted = omega arith;
    few = omega arith;
  })
]

pub count_added-tv : (b : Base) (t : Timer) → (count_added b t).tv ≡ b.tv
count_added-tv b t = elim (Bool-cases t.deferrable) [ inl e ↦ rw e refl | inr e ↦ rw e refl ]

put-Sound :
    (n : ℕ) (b : Base) (t : Timer)
    → t.expires < horizon
    → b.all_timers + 1 < 2 ^ 63
    → Sound n b
    → Sound n (count_added (put b t) t)
unfolding put
put-Sound n b t he few s =
    count_added-Sound n (put b t) t (put-Wheel _ b t he s.wheel)
      (omega (arith, s.counted, total-put b t)) few

pub catchup-all_timers : (j : ℕ) (b : Base) → (catchup j b).all_timers ≡ b.all_timers
unfolding catchup
catchup-all_timers j b = elim (Bool-cases (b.all_timers == 0)) [
  | inl e ↦ rw e refl
  | inr e ↦ rw e refl
]

-- What arming the timer `t` is to do: the wheel is in order, and holds `t` besides the timers it held.
pub record Armed (n : ℕ) (b : Base) (t : Timer) (out : Base) : Type 0 where
  pub sound : Sound n out
  pub pending : Pending t out
  pub others : (x : Timer) → Pending x b → Pending x out
  pub only : (x : Timer) → Pending x out → (x ≡ t) ⊎ Pending x b

-- `internal_add_timer`, on a wheel that is in order, with times far from the end of the counter and
-- room in `all_timers` for one more: the wheel stays in order, also where it was empty and catches up
-- with `jiffies`, the counter `all_timers` is right, and exactly the new timer has become pending.
pub internal_add_timer-Armed :
    (n jiffies : ℕ) (b : Base) (t : Timer)
    → Sound n b
    → jiffies < horizon
    → t.expires < horizon
    → b.all_timers + 1 < 2 ^ 63
    → Armed n b t (internal_add_timer jiffies b t)
unfolding internal_add_timer
internal_add_timer-Armed n jiffies b t s hj he few = record {
  sound =
      put-Sound n b' t he (omega (arith, catchup-all_timers jiffies b))
        (catchup-Sound n jiffies b hj s);
  pending = rw (count_added-tv (put b' t) t) (put-adds b' t);
  others = λ x p. rw (count_added-tv (put b' t) t) (put-keeps b' t x (rw (catchup-tv jiffies b) p));
  only = λ x (k, i, m).
      All-Member (λ x. (x ≡ t) ⊎ Pending x b) ((put b' t).tv k i) x
        (put-Every (λ x. (x ≡ t) ⊎ Pending x b) b' t (inl refl) before k i)
        (rw (count_added-tv (put b' t) t) at m);
}
  where
    b' : Base
    b' = catchup jiffies b

    before : Every (λ x. (x ≡ t) ⊎ Pending x b) b'
    before = λ k i.
        rw (catchup-tv jiffies b)
          (Member-All (λ x. (x ≡ t) ⊎ Pending x b) (b.tv k i) (λ x m. inr (k, i, m)))
