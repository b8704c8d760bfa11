-- ===== src/Scheduler/Load.antt =====
-- The load averages of scheduler/pelt.c. `decay_load` and `__compute_runnable_contrib`, which are not
-- part of the repository, are parameters, and so are the two scalings of a load.
use study_notes.Common.{
  ℕ, ◌+◌, ◌-◌, ◌*◌, ◌/◌, ◌%◌, ◌^◌, Bool, true, false, ltb, leb, ◌==◌, if◌then◌else◌, sub64, word,
  word32, add32,
}

pub record SchedAvg : Type 0 where
  pub last_runnable_update : ℕ
  pub runnable_avg_sum : ℕ
  pub runnable_avg_period : ℕ

-- `__sched_period`, with the three tunables of the scheduler.
unfoldable pub sched_period : ℕ → ℕ → ℕ → ℕ → ℕ
sched_period latency nr_latency min_granularity nr_running =
    if ltb nr_latency nr_running then min_granularity * nr_running % word else latency

-- `if (runnable) sa->runnable_avg_sum += d; sa->runnable_avg_period += d;`
abbrev pub accrue : Bool → ℕ → SchedAvg → SchedAvg
accrue runnable d sa = record sa {
  runnable_avg_sum = if runnable then add32 sa.runnable_avg_sum d else sa.runnable_avg_sum;
  runnable_avg_period = add32 sa.runnable_avg_period d;
}

module _ (decay_load : ℕ → ℕ → ℕ) (runnable_contrib : ℕ → ℕ) where
  -- Both sums, decayed by the number of periods.
  abbrev pub decay : ℕ → SchedAvg → SchedAvg
  decay n sa = record sa {
    runnable_avg_sum = decay_load sa.runnable_avg_sum n % word32;
    runnable_avg_period = decay_load sa.runnable_avg_period n % word32;
  }

  -- "period roll-over": the current period is completed, both sums are decayed, the full periods are
  -- added. It leaves the rest of `delta` to be accrued.
  abbrev pub roll_over : Bool → ℕ → SchedAvg → SchedAvg
  roll_over runnable delta sa =
      let delta_w = 1024 - sa.runnable_avg_period % 1024 in
      let periods = (delta - delta_w) / 1024 in
      accrue runnable (runnable_contrib periods) (decay (periods + 1) (accrue runnable delta_w sa))

  -- The update by `delta` units of 1024 ns, and whether a period has ended.
  abbrev pub advance : Bool → ℕ → SchedAvg → SchedAvg × Bool
  advance runnable delta sa =
      let delta_w = sa.runnable_avg_period % 1024 in
      if leb 1024 (delta + delta_w)
      then (accrue runnable ((delta - (1024 - delta_w)) % 1024) (roll_over runnable delta sa), true)
      else (accrue runnable delta sa, false)

  -- `__update_entity_runnable_avg`
  unfoldable pub update_runnable_avg : ℕ → SchedAvg → Bool → SchedAvg × Bool
  update_runnable_avg now sa runnable =
      let delta = sub64 now sa.last_runnable_update in
      if leb (2 ^ 63) delta
      then (record sa { last_runnable_update = now }, false)
      else if delta / 2 ^ 10 == 0
      then (sa, false)
      else advance runnable (delta / 2 ^ 10) (record sa { last_runnable_update = now })

-- `__update_task_entity_contrib`: the contribution before it is scaled back.
unfoldable pub task_contrib : SchedAvg → ℕ → ℕ
task_contrib sa weight = sa.runnable_avg_sum * weight % word32 / (add32 sa.runnable_avg_period 1)
