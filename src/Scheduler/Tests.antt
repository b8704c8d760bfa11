-- ===== src/Scheduler/Tests.antt =====
-- Values of the scheduler's conversions and averages.
use study_notes.Common.{ℕ, ◌/◌, ◌≤◌, ◌<◌, ◌≡◌, ◌↔◌, refl, true, ◌==◌, if◌then◌else◌, sub32, arith}
use study_notes.Scheduler.Prio.{
  nice_to_prio, prio_to_nice, user_prio, IsNice, max_rt_prio, max_prio, nice_width,
  nice_to_prio-prio_to_nice,
}
use study_notes.Scheduler.Load.{SchedAvg, update_runnable_avg, task_contrib}
use study_notes.Scheduler.Average.{IsDecay, Below, Updated, update_runnable_avg-Updated}
use study_notes.Scheduler.Contrib.{Share, task_contrib-Share}

-- The nice value -5 and its priority.
abbrev minus_five : ℕ
minus_five = sub32 0 5

prio_of_minus_five : nice_to_prio minus_five ≡ 115
unfolding nice_to_prio
prio_of_minus_five = refl

nice_to_prio-prio_to_nice_example :
    (prio_to_nice (nice_to_prio minus_five) ≡ minus_five)
    × (nice_to_prio (prio_to_nice minus_five) ≡ minus_five)
    × (IsNice minus_five
        ↔ ((max_rt_prio ≤ nice_to_prio minus_five) × (nice_to_prio minus_five < max_prio)))
    × (IsNice minus_five → user_prio (nice_to_prio minus_five) < nice_width)
nice_to_prio-prio_to_nice_example = nice_to_prio-prio_to_nice minus_five (omega arith)

-- A decay that halves a load, once.
abbrev halve : ℕ → ℕ → ℕ
halve x n = if n == 0 then x else x / 2

abbrev full : ℕ → ℕ
full n = if n == 0 then 0 else 1024

-- 47 periods, the least number of them that LOAD_AVG_MAX does not exceed.
abbrev most : ℕ
most = 48128

halve-IsDecay : IsDecay halve full most
halve-IsDecay = record {
  monotone = λ x y n h. ground arith;
  bounded = λ x n h. ground arith;
  whole = refl;
  narrow = omega arith;
}

abbrev sample : SchedAvg
sample = record { last_runnable_update = 0; runnable_avg_sum = 500; runnable_avg_period = 1000 }

sample-Below : Below most sample
sample-Below = record { sum = omega arith; period = omega arith }

-- Five milliseconds later.
update_runnable_avg-Updated_example :
    Updated halve full most 5000000 sample true (update_runnable_avg halve full 5000000 sample true)
update_runnable_avg-Updated_example =
    update_runnable_avg-Updated halve full most halve-IsDecay 5000000 sample true sample-Below

-- The weight of the nice value -20.
task_contrib-Share_example : Share sample 88761 (task_contrib sample 88761)
task_contrib-Share_example =
    task_contrib-Share most sample 88761 sample-Below (omega arith) (omega arith)
