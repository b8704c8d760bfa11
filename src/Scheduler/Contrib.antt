-- ===== src/Scheduler/Contrib.antt =====
-- The contribution of a task to the load (scheduler/pelt.c).
use native.Mathlib.Nat.{
  mul-le-mul_right, mul-lt-mul_of_pos_right, div-mul-le_self, div-lt_iff_lt-mul,
}
use study_notes.Common.{ℕ, ◌+◌, ◌*◌, ◌%◌, ◌≤◌, ◌<◌, ◌≡◌, add32, word32, arith}
use study_notes.Scheduler.Load.{SchedAvg, task_contrib}
use study_notes.Scheduler.Average.{Below}

-- The largest number whose product with the period and one more is at most the sum times the weight.
pub record Share (sa : SchedAvg) (weight contrib : ℕ) : Type 0 where
  pub below : contrib * (sa.runnable_avg_period + 1) ≤ sa.runnable_avg_sum * weight
  pub above : sa.runnable_avg_sum * weight < (contrib + 1) * (sa.runnable_avg_period + 1)
  pub less : 0 < weight → contrib < weight

-- `__update_task_entity_contrib` of an entity whose runnable sum is at most the period, and this below
-- `top`, with a weight whose product with `top` fits in 32 bits: neither the product nor the divisor
-- wraps around, so that the contribution is the weight times the sum over the period and one, rounded
-- down, and it is less than a weight that is not 0.
pub task_contrib-Share :
    (top : ℕ) (sa : SchedAvg) (weight : ℕ)
    → Below top sa
    → top < word32
    → top * weight < word32
    → Share sa weight (task_contrib sa weight)
unfolding task_contrib
task_contrib-Share top sa weight b t h =
    let whole : add32 sa.runnable_avg_period 1 ≡ sa.runnable_avg_period + 1 =
      omega (arith, b.period) in
    let most : sa.runnable_avg_sum * weight ≤ top * weight =
      mul-le-mul_right weight (omega (arith, b.sum, b.period)) in
    let product : sa.runnable_avg_sum * weight % word32 ≡ sa.runnable_avg_sum * weight =
      omega arith in
    let divisor : 0 < sa.runnable_avg_period + 1 = omega arith in
    rw (whole, product)
      (record {
        below = div-mul-le_self (sa.runnable_avg_sum * weight) (sa.runnable_avg_period + 1);
        above = (div-lt_iff_lt-mul divisor).0 (omega arith);
        less = λ p. (div-lt_iff_lt-mul divisor).1 (
            let x : sa.runnable_avg_sum * weight < (sa.runnable_avg_period + 1) * weight =
              mul-lt-mul_of_pos_right (omega (arith, b.sum)) p in
            omega arith);
      })
