-- ===== src/Timer/Tests.antt =====
-- Runs of the timer wheel.
use study_notes.Common.{◌≡◌, refl, true, false, some, done, spent, [], ◌∷◌, Returns, arith}
use study_notes.Timer.Wheel.{
  Timer, Base, slot, put, catchup, internal_add_timer, collect, detach_expired, run_work, run_loop,
  run_timers,
}
use study_notes.Timer.Slots.{In, slot-In}
use study_notes.Timer.Arm.{Sound, Armed, internal_add_timer-Armed}
use study_notes.Timer.Collect.{Collected, collect-Collected}
use study_notes.Timer.Ran.{Ran, run_timers-Ran}
use study_notes.Timer.Spin.{Alone, rearm, run_loop-spins}
use study_notes.Timer.Handlers.{periodic, periodic-IsHandler, idle, idle-Sound}

-- A timer that is due in three jiffies.
abbrev soon : Timer
soon = record { name = 1; expires = 103; deferrable = false }

abbrev one_armed : Base
one_armed = internal_add_timer 100 idle soon

slot-In_example : In 100 100 (slot 100 1000).0 (slot 100 1000).1 1000
slot-In_example = slot-In 100 100 1000 (omega arith) (omega arith) (omega arith) (omega arith)

internal_add_timer-Armed_example : Armed 0 idle soon (internal_add_timer 100 idle soon)
internal_add_timer-Armed_example =
    internal_add_timer-Armed 0 100 idle soon idle-Sound (omega arith) (omega arith) (omega arith)

abbrev one_armed-Sound : Sound 0 one_armed
one_armed-Sound =
    (internal_add_timer-Armed 0 100 idle soon idle-Sound (omega arith) (omega arith)
      (omega arith)).sound

one_armed_time : one_armed.timer_jiffies ≡ 100
unfolding internal_add_timer put catchup
one_armed_time = refl

collect-Collected_example : Collected one_armed (collect one_armed)
collect-Collected_example =
    collect-Collected one_armed one_armed-Sound.wheel (omega (arith, one_armed_time))

-- A second one for the same jiffy.
abbrev sibling : Timer
sibling = record { name = 3; expires = 103; deferrable = true }

abbrev two_armed : Base
two_armed = internal_add_timer 100 one_armed sibling

few_armed : one_armed.all_timers ≡ 1
unfolding internal_add_timer put catchup
few_armed = refl

abbrev two_armed-Sound : Sound 0 two_armed
two_armed-Sound =
    (internal_add_timer-Armed 0 100 one_armed sibling one_armed-Sound (omega arith) (omega arith)
      (omega (arith, few_armed))).sound

two_armed_time : two_armed.timer_jiffies ≡ 100
unfolding internal_add_timer put catchup
two_armed_time = refl

-- Five jiffies later the first one runs at its own jiffy, is armed again and deletes the second one.
run_timers-Ran_example : Returns (Ran 105) (run_timers (periodic 105) 105 8 two_armed)
run_timers-Ran_example =
    run_timers-Ran (periodic 105) 105 (periodic-IsHandler 105 (omega arith)) (omega arith) 8
      two_armed two_armed-Sound (omega (arith, two_armed_time)) (omega (arith, two_armed_time))

called_alone :
    run_work (periodic 103) 103 3 two_armed (soon ∷ sibling ∷ [])
    ≡ done (
      (periodic 103 soon
          (detach_expired 103 (record two_armed { running_timer = some 1 }) soon)
          (sibling ∷ [])).0,
      soon ∷ [],
    )
unfolding run_work
called_alone = refl

-- A timer that is due now.
abbrev at_once : Timer
at_once = record { name = 2; expires = 100; deferrable = false }

abbrev due_now : Base
due_now = internal_add_timer 100 idle at_once

due_now-Alone : Alone 100 at_once refl (omega arith) (λ e. omega (arith, e)) due_now
unfolding internal_add_timer put catchup slot
due_now-Alone = record { time = refl; count = refl; list = refl }

run_loop-spins_example :
    run_loop (rearm 100 at_once refl (omega arith) (λ e. omega (arith, e))) 100 1000 due_now ≡ spent
run_loop-spins_example =
    run_loop-spins 100 at_once refl (omega arith) (λ e. omega (arith, e)) 1000 due_now due_now-Alone
