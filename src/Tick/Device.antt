-- ===== src/Tick/Device.antt =====
-- Clock event devices and the tick (timer/timer.c): `tick_periodic`, `tick_handle_periodic`,
-- `tick_setup_periodic`. A time is in nanoseconds and wraps around at 2 ^ 64. The locks are left out, and so
-- are the callees of `update_process_times` other than `run_local_timers`.
use study_notes.Common.{
  ℕ, zero, suc, Bool, true, false, not, ◌&&◌, ◌==◌, if◌then◌else◌, add64, Run, done, spent,
}

-- CLOCK_EVT_MODE_*
pub data ClockMode : Type 0 where
  unused shutdown periodic oneshot : ClockMode

-- `event_handler`: null, or one of the functions that the code puts there.
pub data Handler : Type 0 where
  no_handler noop tick_handler broadcast_handler hrtimer_interrupt : Handler

-- `struct clock_event_device`, with the bits of `features`.
pub record Device : Type 0 where
  pub feat_periodic : Bool
  pub feat_oneshot : Bool
  pub feat_dummy : Bool
  pub mode : ClockMode
  pub event_handler : Handler
  pub next_event : ℕ

abbrev pub is_oneshot : ClockMode → Bool
is_oneshot oneshot = true
is_oneshot other = false

-- The globals of the tick, and whether TIMER_SOFTIRQ was raised.
pub record Tick : Type 0 where
  pub tick_do_timer_cpu : ℕ
  pub tick_next_period : ℕ
  pub tick_period : ℕ
  pub jiffies_64 : ℕ
  pub timer_softirq : Bool

-- What the code calls and does not define. `clockevents_program_event` also says whether it failed.
pub record Events : Type 0 where
  pub clockevents_set_mode : ClockMode → Device → Device
  pub clockevents_program_event : ℕ → Device → Device × Bool
  pub timekeeping_valid_for_hres : Bool
  pub tick_broadcast_oneshot_active : Bool

-- `do_timer(1)`, without `calc_global_load`.
abbrev pub do_timer : ℕ → Tick → Tick
do_timer ticks t = record t { jiffies_64 = add64 t.jiffies_64 ticks }

-- `run_local_timers`, as `update_process_times` calls it.
abbrev pub run_local_timers : Tick → Tick
run_local_timers t = record t { timer_softirq = true }

unfoldable pub tick_periodic : ℕ → Tick → Tick
tick_periodic cpu t = run_local_timers (
    if t.tick_do_timer_cpu == cpu
    then do_timer 1 (record t { tick_next_period = add64 t.tick_next_period t.tick_period })
    else t)

-- `tick_device_is_functional`
abbrev pub tick_device_is_functional : Device → Bool
tick_device_is_functional dev = not dev.feat_dummy

abbrev pub tick_set_periodic_handler : Device → Bool → Device
tick_set_periodic_handler dev broadcast = record dev {
  event_handler = if broadcast then broadcast_handler else tick_handler;
}

module _ (e : Events) where
  -- "Setup the next period for devices, which do not have periodic mode".
  unfoldable pub reprogram_loop : ℕ → ℕ → ℕ → Device → Tick → Run (Device × Tick)
  reprogram_loop zero cpu next dev t = spent
  reprogram_loop (suc fuel) cpu next dev t =
      let next' = add64 next t.tick_period in
      let (dev', failed) = e.clockevents_program_event next' dev in
      elim failed [
        | false ↦ done (dev', t)
        | true ↦
            reprogram_loop fuel cpu next' dev'
              (if e.timekeeping_valid_for_hres then tick_periodic cpu t else t)
      ]

  unfoldable pub tick_handle_periodic : ℕ → ℕ → Device → Tick → Run (Device × Tick)
  tick_handle_periodic fuel cpu dev t =
      let t' = tick_periodic cpu t in
      if is_oneshot dev.mode then reprogram_loop fuel cpu dev.next_event dev t' else done (dev, t')

  -- The loop of `tick_setup_periodic`.
  unfoldable pub setup_loop : ℕ → ℕ → ℕ → Device → Run Device
  setup_loop zero next period dev = spent
  setup_loop (suc fuel) next period dev =
      let (dev', failed) = e.clockevents_program_event next dev in
      elim failed [ false ↦ done dev' | true ↦ setup_loop fuel (add64 next period) period dev' ]

  unfoldable pub tick_setup_periodic : ℕ → Device → Bool → Tick → Run Device
  tick_setup_periodic fuel dev broadcast t =
      let dev' = tick_set_periodic_handler dev broadcast in
      if not (tick_device_is_functional dev')
      then done dev'
      else if dev'.feat_periodic && not e.tick_broadcast_oneshot_active
      then done (e.clockevents_set_mode periodic dev')
      else setup_loop fuel t.tick_next_period t.tick_period (e.clockevents_set_mode oneshot dev')
