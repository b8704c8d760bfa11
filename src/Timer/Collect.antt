-- ===== src/Timer/Collect.antt =====
-- A round of `__run_timers`: the timers that it takes from the wheel are those that are due.
use study_notes.Common.{
  ℕ, ◌+◌, ◌%◌, ◌^◌, ◌≤◌, ◌<◌, ◌≡◌, ◌≢◌, refl, List, [], ◌⊎◌, inl, inr, add64, arith,
}
use study_notes.Timer.Wheel.{Timer, Tv, tv1, tv2, tv3, tv4, tv5, Base, write, cascades, collect}
use study_notes.Timer.Slots.{horizon, In}
use study_notes.Timer.Inv.{All, All-map, All-both, Fits, Wheel, write-All, write-cases}
use study_notes.Timer.Cascade.{raise, raise-Wheel}
use study_notes.Timer.Round.{At, raised, cascades-At, Wheel-ext}
use study_notes.Timer.Pending.{
  Member, Pending, Every, All-Member, Member-All, cascades-keeps, cascades-Every,
}

-- The timers of the list of the jiffy are due, and were due before only if they were late.
due_now : (now i e : ℕ) → i ≡ now % 256 → In now (now + 1) tv1 i e → e ≤ now
due_now now i e h w = omega arith

-- A timer of another list is not due, and stands well for the next jiffy.
not_due :
    (now i e : ℕ) (k : Tv)
    → (tv1 ≡ k → now % 256 ≢ i)
    → In now (now + 1) k i e
    → (now < e) × In (now + 1) (now + 1) k i e
not_due now i e tv1 n w = let m : now % 256 ≢ i = n refl in (omega arith, omega arith)
not_due now i e tv2 n w = (omega arith, w)
not_due now i e tv3 n w = (omega arith, w)
not_due now i e tv4 n w = (omega arith, w)
not_due now i e tv5 n w = (omega arith, w)

all_raised :
    (now now' v : ℕ) → now' + 1 ≡ v → (k : Tv) → raise (raised (λ k. now) v) tv1 (now' + 1) k ≡ v
all_raised now now' v h tv1 = h
all_raised now now' v h tv2 = refl
all_raised now now' v h tv3 = refl
all_raised now now' v h tv4 = refl
all_raised now now' v h tv5 = refl

-- What a round takes out of the wheel, and what it leaves.
pub record Collected (b : Base) (out : Base × List Timer) : Type 0 where
  pub wheel : Wheel (λ k. b.timer_jiffies + 1) out.0
  pub time : out.0.timer_jiffies ≡ b.timer_jiffies + 1
  pub due : All (λ t. t.expires ≤ b.timer_jiffies) out.1
  pub later : Every (λ t. b.timer_jiffies < t.expires) out.0
  pub complete : (t : Timer) → Pending t b → Member t out.1 ⊎ Pending t out.0
  pub only : (t : Timer) → Member t out.1 ⊎ Pending t out.0 → Pending t b
  pub on_time :
      Every (λ t. b.timer_jiffies ≤ t.expires) b → All (λ t. t.expires ≡ b.timer_jiffies) out.1

-- A round of `__run_timers` up to the work list, on a wheel that is in order at its time, which is far
-- from the end of the counter: the wheel is in
-- order for the next jiffy, every timer taken is due by the jiffy, every timer left is due later, each
-- pending timer has been taken or is still pending and no other has, and if no timer was late, each one
-- that is taken is taken at exactly its own jiffy.
pub collect-Collected :
    (b : Base)
    → Wheel (λ k. b.timer_jiffies) b
    → b.timer_jiffies + 1 < horizon
    → Collected b (collect b)
unfolding collect
collect-Collected b w h = record {
  wheel = record {
    time = omega (arith, round.0);
    low = λ k. omega (arith, round.0);
    high = λ k. omega (arith, round.0);
    lists =
        write-All (λ k i. Fits next (b.timer_jiffies + 1) k i) b'.tv tv1 index [] tt
          (λ k i n.
            All-map (Fits b'.timer_jiffies (b.timer_jiffies + 1) k i)
              (Fits next (b.timer_jiffies + 1) k i) (b'.tv k i)
              (λ t f.
                (f.0, rw next_eq ((not_due b.timer_jiffies i t.expires k n (rw round.0 at f.1)).1)))
              (ready.lists k i));
  };
  time = next_eq;
  due = due;
  later =
      write-All (λ k i t. b.timer_jiffies < t.expires) b'.tv tv1 index [] tt
        (λ k i n.
          All-map (Fits b'.timer_jiffies (b.timer_jiffies + 1) k i)
            (λ t. b.timer_jiffies < t.expires) (b'.tv k i)
            (λ t f. (not_due b.timer_jiffies i t.expires k n (rw round.0 at f.1)).0)
            (ready.lists k i));
  complete = λ t p. taken t (cascades-keeps b t p);
  only = λ t o. elim o [
    | inl m ↦ All-Member (λ x. Pending x b) (b'.tv tv1 index) t (from tv1 index) m
    | inr (k, i, m) ↦ elim (write-cases b'.tv tv1 index [] k i) [
      | inl (_, _, x) ↦ absurd (rw x at m)
      | inr (_, x) ↦ All-Member (λ x. Pending x b) (b'.tv k i) t (from k i) (rw x at m)
    ]
  ];
  on_time = λ e.
      All-both (λ t. t.expires ≤ b.timer_jiffies) (λ t. b.timer_jiffies ≤ t.expires)
        (λ t. t.expires ≡ b.timer_jiffies) (b'.tv tv1 index) (λ t x y. omega arith) due
        (cascades-Every (λ t. b.timer_jiffies ≤ t.expires) b e tv1 index);
}
  where
    index : ℕ
    index = b.timer_jiffies % 2 ^ 8

    b' : Base
    b' = cascades b

    next : ℕ
    next = add64 b'.timer_jiffies 1

    round : At b.timer_jiffies (raised (λ k. b.timer_jiffies) (b.timer_jiffies + 1)) b'
    round = cascades-At b.timer_jiffies (λ k. b.timer_jiffies) b (λ k. refl) (refl, w)

    next' : b'.timer_jiffies + 1 ≡ b.timer_jiffies + 1
    next' = omega (arith, round.0)

    next_eq : next ≡ b.timer_jiffies + 1
    next_eq = omega (arith, round.0)

    ready : Wheel (λ k. b.timer_jiffies + 1) b'
    ready =
        Wheel-ext _ _ b' (all_raised b.timer_jiffies b'.timer_jiffies (b.timer_jiffies + 1) next') (
          raise-Wheel (raised (λ k. b.timer_jiffies) (b.timer_jiffies + 1)) b' tv1 round.1
            (λ i. round.1.lists tv1 i))

    due : All (λ t. t.expires ≤ b.timer_jiffies) (b'.tv tv1 index)
    due =
        All-map (Fits b'.timer_jiffies (b.timer_jiffies + 1) tv1 index)
          (λ t. t.expires ≤ b.timer_jiffies) (b'.tv tv1 index)
          (λ t f. due_now b.timer_jiffies index t.expires refl (rw round.0 at f.1))
          (ready.lists tv1 index)

    from : Every (λ x. Pending x b) b'
    from =
        cascades-Every (λ x. Pending x b) b
          (λ k i. Member-All (λ x. Pending x b) (b.tv k i) (λ x m. (k, i, m)))

    taken :
        (t : Timer)
        → Pending t b'
        → Member t (b'.tv tv1 index)
          ⊎ Pending t (record b' { timer_jiffies = next; tv = write b'.tv tv1 index [] })
    taken t (k, i, m) = elim (write-cases b'.tv tv1 index [] k i) [
      | inl (e, z, _) ↦ inl (rw (e, z) m)
      | inr (n, x) ↦ inr (k, i, rw x m)
    ]
