-- ===== src/Tick/Switch.antt =====
-- The switch of a CPU to high resolution (timer/hrtimer.c, and the same functions in timer/timer.c). The
-- interrupt flag, the broadcast state, `retrigger_next_event` and the messages are left out.
use study_notes.Common.{
  ℕ, zero, suc, ◌*◌, ◌/◌, Option, some, none, Bool, true, false, not, ◌||◌, ltb, if◌then◌else◌,
  add64, Run, done, spent, ◌>>=◌,
}
use study_notes.Tick.Device.{
  Device, oneshot, Handler, hrtimer_interrupt, Events, tick_device_is_functional,
}

-- NOHZ_MODE_*
pub data NohzMode : Type 0 where
  inactive lowres highres : NohzMode

abbrev pub is_inactive : NohzMode → Bool
is_inactive inactive = true
is_inactive other = false

-- What the file keeps for a CPU: bit 0 of `check_clocks`, `nohz_mode` and the expiry of `sched_timer` of
-- `tick_cpu_sched`, the device of `tick_cpu_device` and whether its mode is TICKDEV_MODE_ONESHOT, and of
-- `hrtimer_bases` `hres_active` and which clock bases have KTIME_HIGH_RES.
pub record Cpu : Type 0 where
  pub check_clocks : Bool
  pub nohz_mode : NohzMode
  pub sched_timer : Option ℕ
  pub evtdev : Option Device
  pub oneshot_tick : Bool
  pub hres_active : Bool
  pub high_res : ℕ → Bool

-- What the file calls and does not define. `ktime_get` and `hrtimer_active` are taken at the rounds of the
-- loop that starts the timer.
pub record Switching : Type 0 where
  pub events : Events
  pub hrtimer_hres_enabled : Bool
  pub tick_is_oneshot_available : Cpu → Bool
  pub tick_nohz_switch_to_nohz : Cpu → Cpu
  pub hrtimer_max_clock_bases : ℕ
  pub tick_init_jiffy_update : ℕ
  pub tick_period : ℕ
  pub sched_skew_tick : Bool
  pub num_possible_cpus : ℕ
  pub ktime_get : ℕ → ℕ
  pub hrtimer_forward : ℕ → ℕ → ℕ → ℕ
  pub hrtimer_active : ℕ → ℕ → Bool
  pub tick_nohz_enabled : Bool

-- 0 and -EINVAL
pub data SwitchCode : Type 0 where
  switched einval : SwitchCode

unfoldable pub tick_oneshot_notify : Cpu → Cpu
tick_oneshot_notify c = record c { check_clocks = true }

module _ (w : Switching) where
  -- The bit is tested and cleared.
  unfoldable pub tick_check_oneshot_change : Bool → Cpu → Cpu × Bool
  tick_check_oneshot_change allow_nohz c =
      let c' = record c { check_clocks = false } in
      if not c.check_clocks
      then (c', false)
      else if not (is_inactive c.nohz_mode)
      then (c', false)
      else if not w.events.timekeeping_valid_for_hres || not (w.tick_is_oneshot_available c')
      then (c', false)
      else if not allow_nohz
      then (c', true)
      else (w.tick_nohz_switch_to_nohz c', false)

  unfoldable pub tick_switch_to_oneshot : Handler → Cpu → Cpu × SwitchCode
  tick_switch_to_oneshot handler c = elim c.evtdev [
    | none ↦ (c, einval)
    | some dev ↦
        if not dev.feat_oneshot || not (tick_device_is_functional dev) then (c, einval) else (
          record c {
            oneshot_tick = true;
            evtdev =
                some
                  (w.events.clockevents_set_mode oneshot (record dev { event_handler = handler }));
          },
          switched,
        )
  ]

  abbrev pub tick_init_highres : Cpu → Cpu × SwitchCode
  tick_init_highres c = tick_switch_to_oneshot hrtimer_interrupt c

  -- "for (;;)": the timer is moved on from the time of the round, and started.
  unfoldable pub start_loop : ℕ → ℕ → ℕ → Run ℕ
  start_loop zero round expires = spent
  start_loop (suc fuel) round expires =
      let expires' = w.hrtimer_forward expires (w.ktime_get round) w.tick_period in
      elim (w.hrtimer_active round expires') [
        | true ↦ done expires'
        | false ↦ start_loop fuel (suc round) expires'
      ]

  unfoldable pub tick_setup_sched_timer : ℕ → ℕ → Cpu → Run Cpu
  tick_setup_sched_timer fuel cpu c =
      let expires = w.tick_init_jiffy_update in
      let offset = w.tick_period / 2 / w.num_possible_cpus * cpu in
      start_loop fuel 0 (if w.sched_skew_tick then add64 expires offset else expires)
      >>= λ expires'. done (record c {
        sched_timer = some expires';
        nohz_mode = if w.tick_nohz_enabled then highres else c.nohz_mode;
      })

  unfoldable pub hrtimer_switch_to_hres : ℕ → ℕ → Cpu → Run (Cpu × Bool)
  hrtimer_switch_to_hres fuel cpu c =
      if c.hres_active
      then done (c, true)
      else (let (c', code) = tick_init_highres c in
          elim code [
            | einval ↦ done (c', false)
            | switched ↦
                tick_setup_sched_timer fuel cpu (record c' {
                  hres_active = true;
                  high_res = λ i. if ltb i w.hrtimer_max_clock_bases then true else c'.high_res i;
                })
                >>= λ c''. done (c'', true)
          ])

  unfoldable pub hrtimer_run_pending : ℕ → ℕ → Cpu → Run Cpu
  hrtimer_run_pending fuel cpu c =
      if c.hres_active
      then done c
      else (let (c', change) = tick_check_oneshot_change (not w.hrtimer_hres_enabled) c in
          if change then (hrtimer_switch_to_hres fuel cpu c' >>= λ (c'', _). done c'') else done c')
