-- ===== src/Tick/Tests.antt =====
-- A device, its tick and its switch to high resolution on small numbers.
use study_notes.Common.{
  ◌+◌, ◌≡◌, refl, some, none, true, false, ltb, leb, if◌then◌else◌, done, Returns, arith,
}
use study_notes.Tick.Device.{
  Device, unused, oneshot, hrtimer_interrupt, tick_handler, Tick, Events, tick_periodic,
  reprogram_loop, tick_handle_periodic, setup_loop, tick_setup_periodic,
}
use study_notes.Tick.Periodic.{IsClock, Handled, tick_handle_periodic-Handled}
use study_notes.Tick.Switch.{
  Cpu, Switching, inactive, highres, tick_oneshot_notify, tick_check_oneshot_change,
  tick_switch_to_oneshot, start_loop, tick_setup_sched_timer, hrtimer_switch_to_hres,
  hrtimer_run_pending,
}
use study_notes.Tick.Hres.{IsSwitching, IsSound}
use study_notes.Tick.Reached.{Reach, Step, Ran, hrtimer_run_pending-Reached}

-- The time is 35.
abbrev events : Events
events = record {
  clockevents_set_mode = λ m d. record d { mode = m };
  clockevents_program_event = λ next d. (record d { next_event = next }, leb next 35);
  timekeeping_valid_for_hres = true;
  tick_broadcast_oneshot_active = false;
}

events-IsClock : IsClock events 35
events-IsClock = record { fails = λ next d. refl; set = λ next d. refl }

abbrev device : Device
device = record {
  feat_periodic = false;
  feat_oneshot = true;
  feat_dummy = false;
  mode = oneshot;
  event_handler = tick_handler;
  next_event = 10;
}

abbrev tick : Tick
tick = record {
  tick_do_timer_cpu = 0;
  tick_next_period = 10;
  tick_period = 10;
  jiffies_64 = 100;
  timer_softirq = false;
}

-- The event of 10 is handled at 35: those of 20 and 30 have passed, and the device waits for 40.
three_ticks :
    tick_handle_periodic events 100 0 device tick
    ≡ done (
      record device { next_event = 40 },
      record tick { tick_next_period = 40; jiffies_64 = 103; timer_softirq = true },
    )
unfolding tick_handle_periodic reprogram_loop tick_periodic
three_ticks = refl

-- A device without a periodic mode is programmed for the first period to come.
first_event :
    tick_setup_periodic events 100 (record device { mode = unused }) false tick
    ≡ done (record device { next_event = 40 })
unfolding tick_setup_periodic setup_loop
first_event = refl

tick_handle_periodic-Handled_example :
    Returns
      (Handled events 35 events-IsClock 0 device tick)
      (tick_handle_periodic events 100 0 device tick)
tick_handle_periodic-Handled_example =
    tick_handle_periodic-Handled events 35 events-IsClock 100 0 device tick (omega arith)
      (omega arith) (omega arith) (omega arith)

abbrev switching : Switching
switching = record {
  events = events;
  hrtimer_hres_enabled = true;
  tick_is_oneshot_available = λ c. true;
  tick_nohz_switch_to_nohz = λ c. c;
  hrtimer_max_clock_bases = 4;
  tick_init_jiffy_update = 30;
  tick_period = 10;
  sched_skew_tick = false;
  num_possible_cpus = 4;
  ktime_get = λ round. 35 + round;
  hrtimer_forward = λ expires now period. expires + period;
  hrtimer_active = λ round expires. ltb 0 round;
  tick_nohz_enabled = true;
}

switching-IsSwitching : IsSwitching switching 1
switching-IsSwitching = record {
  mode = λ m d. refl;
  handler = λ m d. refl;
  feat_oneshot = λ m d. refl;
  feat_dummy = λ m d. refl;
  nohz = λ c. refl;
  active = λ expires. refl;
}

abbrev cpu : Cpu
cpu = record {
  check_clocks = false;
  nohz_mode = inactive;
  sched_timer = none;
  evtdev = some device;
  oneshot_tick = false;
  hres_active = false;
  high_res = λ i. false;
}

-- A notification, then an interrupt.
abbrev high : Cpu
high = record {
  check_clocks = false;
  nohz_mode = highres;
  sched_timer = some 50;
  evtdev = some (record device { event_handler = hrtimer_interrupt });
  oneshot_tick = true;
  hres_active = true;
  high_res = λ i. if ltb i 4 then true else false;
}

goes_high : hrtimer_run_pending switching 5 0 (tick_oneshot_notify cpu) ≡ done high
unfolding hrtimer_run_pending tick_oneshot_notify tick_check_oneshot_change hrtimer_switch_to_hres
    tick_switch_to_oneshot tick_setup_sched_timer start_loop
goes_high = refl

hrtimer_run_pending-Reached_example :
    IsSound switching high
    × Returns (Ran switching 1 switching-IsSwitching high) (hrtimer_run_pending switching 5 0 high)
hrtimer_run_pending-Reached_example =
    hrtimer_run_pending-Reached switching 1 switching-IsSwitching cpu high 5 0 refl
      (Reach.next (Reach.next Reach.here (Step.notify cpu))
        (Step.interrupt 5 0 (omega arith) goes_high))
      (omega arith)
