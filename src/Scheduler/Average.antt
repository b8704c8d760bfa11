-- ===== src/Scheduler/Average.antt =====
-- The runnable average of an entity (scheduler/pelt.c).
use study_notes.Common.{
  ℕ, ◌+◌, ◌-◌, ◌/◌, ◌%◌, ◌^◌, ◌≤◌, ◌<◌, ◌≡◌, refl, Bool, true, false, ◌==◌, if◌then◌else◌, sub64,
  word32, add32, Bool-cases, leb-cases, inl, inr, arith,
}
use study_notes.Scheduler.Load.{SchedAvg, advance, update_runnable_avg}

-- What is documented of the functions that are not in the repository, for a bound `top` like
-- LOAD_AVG_MAX, here in whole periods: decaying keeps the order of two loads; and `n` full periods on top
-- of a load that was no larger than the bound, with one more period to come, do not reach beyond it.
pub record IsDecay (decay_load : ℕ → ℕ → ℕ) (runnable_contrib : ℕ → ℕ) (top : ℕ) : Type 0 where
  pub monotone : (x y n : ℕ) → x ≤ y → decay_load x n ≤ decay_load y n
  pub bounded : (x n : ℕ) → x ≤ top → decay_load x (n + 1) + runnable_contrib n + 1024 ≤ top
  pub whole : top % 1024 ≡ 0
  pub narrow : top < word32

-- The sum is at most the period, which is below `top`.
pub record Below (top : ℕ) (sa : SchedAvg) : Type 0 where
  pub sum : sa.runnable_avg_sum ≤ sa.runnable_avg_period
  pub period : sa.runnable_avg_period < top

module _ (decay_load : ℕ → ℕ → ℕ) (runnable_contrib : ℕ → ℕ) where
  -- The average after `delta` units of 1024 ns, in numbers that do not wrap around. `total` counts from
  -- the start of the period that has begun, which `w` units complete. Of a load, the units up to then
  -- are decayed by all the periods that have ended; the full periods in between, and the units of the
  -- period that has begun since, are added.
  abbrev pub averaged : ℕ → ℕ → SchedAvg → Bool → SchedAvg × Bool
  averaged now delta sa runnable =
      let total = delta + sa.runnable_avg_period % 1024 in
      let w = 1024 - sa.runnable_avg_period % 1024 in
      let n = total / 1024 in
      let rest = runnable_contrib (n - 1) + total % 1024 in
      if n == 0
      then (
        record {
          last_runnable_update = now;
          runnable_avg_sum = if runnable then sa.runnable_avg_sum + delta else sa.runnable_avg_sum;
          runnable_avg_period = sa.runnable_avg_period + delta;
        },
        false,
      )
      else (
        record {
          last_runnable_update = now;
          runnable_avg_sum =
              if runnable
              then decay_load (sa.runnable_avg_sum + w) n + rest
              else decay_load sa.runnable_avg_sum n;
          runnable_avg_period = decay_load (sa.runnable_avg_period + w) n + rest;
        },
        true,
      )

  -- What an update is to do: nothing but take the time if the clock went back, nothing at all within
  -- 1024 ns, and else what `averaged` says. The sum stays at most the period, and this below `top`.
  pub record Updated (top now : ℕ) (sa : SchedAvg) (runnable : Bool) (out : SchedAvg × Bool)
      : Type 0 where
    pub back :
        2 ^ 63 ≤ sub64 now sa.last_runnable_update
        → out ≡ (record sa { last_runnable_update = now }, false)
    pub at_once : sub64 now sa.last_runnable_update < 2 ^ 10 → out ≡ (sa, false)
    pub later :
        2 ^ 10 ≤ sub64 now sa.last_runnable_update
        → sub64 now sa.last_runnable_update < 2 ^ 63
        → out ≡ averaged now (sub64 now sa.last_runnable_update / 2 ^ 10) sa runnable
    pub below : Below top out.0

  module _ (top : ℕ) (law : IsDecay decay_load runnable_contrib top) where
    open law use {monotone, bounded, whole, narrow}

    -- A load that does not exceed the bound, over at least one full period.
    rolled :
        (x w d r : ℕ)
        → 0 < w
        → w ≤ d
        → w ≤ 1024
        → r ≡ 1024 - w
        → x + w ≤ top
        → add32
            (add32
              (decay_load (add32 x w) ((d - w) / 1024 + 1) % word32)
              (runnable_contrib ((d - w) / 1024)))
            ((d - w) % 1024)
          ≡ decay_load (x + w) ((d + r) / 1024)
            + (runnable_contrib ((d + r) / 1024 - 1) + (d + r) % 1024)
    rolled x w d r p h k e f =
        let sum : add32 x w ≡ x + w = omega (arith, narrow) in
        let n : (d + r) / 1024 ≡ (d - w) / 1024 + 1 = omega arith in
        let n' : (d - w) / 1024 + 1 - 1 ≡ (d - w) / 1024 = omega arith in
        let rest : (d + r) % 1024 ≡ (d - w) % 1024 = omega arith in
        rw (sum, n, n', rest) (omega (arith, bounded (x + w) ((d - w) / 1024) f, narrow))

    -- A load that is only decayed.
    faded :
        (x w d r : ℕ)
        → 0 < w
        → w ≤ d
        → w ≤ 1024
        → r ≡ 1024 - w
        → x ≤ top
        → decay_load x ((d - w) / 1024 + 1) % word32 ≡ decay_load x ((d + r) / 1024)
    faded x w d r p h k e f =
        let n : (d + r) / 1024 ≡ (d - w) / 1024 + 1 = omega arith in
        rw n (omega (arith, bounded x ((d - w) / 1024) f, narrow))

    abbrev result : ℕ → ℕ → ℕ → Bool → SchedAvg × Bool
    result now sum period ended = (
      record { last_runnable_update = now; runnable_avg_sum = sum; runnable_avg_period = period },
      ended,
    )

    same_result :
        (now s s' p p' : ℕ) (ended : Bool)
        → s ≡ s'
        → p ≡ p'
        → result now s p ended ≡ result now s' p' ended
    same_result now s s' p p' ended e f = rw (e, f) refl

    advance-averaged :
        (now delta : ℕ) (sa : SchedAvg) (runnable : Bool)
        → Below top sa
        → advance decay_load runnable_contrib runnable delta
            (record sa { last_runnable_update = now })
          ≡ averaged now delta sa runnable
    advance-averaged now delta sa runnable b =
        let p : ℕ = sa.runnable_avg_period in
        let w : ℕ = 1024 - p % 1024 in
        let back : p % 1024 ≡ 1024 - w = omega arith in
        let room : p + w ≤ top = omega (arith, whole, b.period) in
        elim (leb-cases 1024 (delta + p % 1024)) [
          | inl (e, o) ↦
              let some_ended : ((delta + p % 1024) / 1024 == 0) ≡ false = ground arith in
              let period =
                rolled p w delta (p % 1024) (omega arith) (omega arith) (omega arith) back room in
              elim (Bool-cases runnable) [
                | inl r ↦
                    rw (e, some_ended, r)
                      (same_result now _ _ _ _ true
                        (rolled sa.runnable_avg_sum w delta (p % 1024) (omega arith) (omega arith)
                          (omega arith) back (omega (arith, b.sum)))
                        period)
                | inr r ↦
                    rw (e, some_ended, r)
                      (same_result now _ _ _ _ true
                        (faded sa.runnable_avg_sum w delta (p % 1024) (omega arith) (omega arith)
                          (omega arith) back (omega (arith, b.sum)))
                        period)
              ]
          | inr (e, o) ↦
              let none_ended : ((delta + p % 1024) / 1024 == 0) ≡ true = ground arith in
              let period : add32 p delta ≡ p + delta = omega (arith, whole, narrow, b.period) in
              elim (Bool-cases runnable) [
                | inl r ↦
                    rw (e, none_ended, r)
                      (same_result now _ _ _ _ false (omega (arith, whole, narrow, b.period, b.sum))
                        period)
                | inr r ↦ rw (e, none_ended, r) (same_result now _ _ _ _ false refl period)
              ]
        ]

    averaged-Below :
        (now delta : ℕ) (sa : SchedAvg) (runnable : Bool)
        → Below top sa
        → Below top (averaged now delta sa runnable).0
    averaged-Below now delta sa runnable b =
        let p : ℕ = sa.runnable_avg_period in
        let s : ℕ = sa.runnable_avg_sum in
        let w : ℕ = 1024 - p % 1024 in
        let n : ℕ = (delta + p % 1024) / 1024 in
        let room : p + w ≤ top = omega (arith, whole, b.period) in
        elim (Bool-cases (n == 0)) [
          | inl e ↦
              let none_ended : n ≡ 0 = ground arith in
              rw e (record { sum = ground (arith, b.sum); period = omega (arith, whole, b.period) })
          | inr e ↦
              let again : n - 1 + 1 ≡ n = ground arith in
              let limit = rw again at (bounded (p + w) (n - 1) room) in
              rw e (record {
                sum = elim (Bool-cases runnable) [
                  | inl r ↦ rw r (omega (arith, monotone (s + w) (p + w) n (omega (arith, b.sum))))
                  | inr r ↦ rw r (omega (arith, monotone s (p + w) n (omega (arith, b.sum))))
                ];
                period = omega arith;
              })
        ]

    -- `__update_entity_runnable_avg`, with a decay of loads and a contribution of full periods that keep
    -- to the bound `top`, a number of whole periods below 2 ^ 32, for an average whose runnable sum is
    -- at most the period and this below `top`: for any clock and whether the entity was runnable or not,
    -- no sum wraps around; nothing but the clock is taken if it went back, and nothing at all within
    -- 1024 ns; else both sums are decayed once for each period that has ended, by then completed, and
    -- the full periods in between and the rest are added, to the runnable sum only if the entity was
    -- runnable; it is told whether a period has ended; and the sum is still at most the period, and this
    -- below `top`, so that the next update starts where this one did.
    pub update_runnable_avg-Updated :
        (now : ℕ) (sa : SchedAvg) (runnable : Bool)
        → Below top sa
        → Updated top now sa runnable
            (update_runnable_avg decay_load runnable_contrib now sa runnable)
    unfolding update_runnable_avg
    update_runnable_avg-Updated now sa runnable b =
        elim (leb-cases (2 ^ 63) (sub64 now sa.last_runnable_update)) [
          | inl (e, o) ↦ rw e (record {
            back = λ _. refl;
            at_once = λ h. absurd (omega arith);
            later = λ _ h. absurd (omega arith);
            below = record { sum = b.sum; period = b.period };
          })
          | inr (e, o) ↦ elim (Bool-cases (sub64 now sa.last_runnable_update / 2 ^ 10 == 0)) [
            | inl z ↦
                rw (e, z)
                  (record {
                    back = λ h. absurd (omega arith);
                    at_once = λ _. refl;
                    later = λ h _. absurd (ground arith);
                    below = b;
                  })
            | inr z ↦
                let delta : ℕ = sub64 now sa.last_runnable_update / 2 ^ 10 in
                rw (e, z, advance-averaged now delta sa runnable b)
                  (record {
                    back = λ h. absurd (omega arith);
                    at_once = λ h. absurd (ground arith);
                    later = λ _ _. refl;
                    below = averaged-Below now delta sa runnable b;
                  })
          ]
        ]
