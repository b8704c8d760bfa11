-- ===== src/Tick/Hres.antt =====
-- The switch of a CPU to high resolution, `hrtimer_switch_to_hres` (timer/hrtimer.c), and what holds of a
-- CPU in high resolution.
use study_notes.Common.{
  ℕ, zero, suc, ◌+◌, ◌≤◌, ◌<◌, ◌≡◌, refl, ap, ◌∙◌, Option, some, none, Bool, true, false,
  if◌then◌else◌, Bool-cases, inl, inr, Returns, Returns->>=->>=, add64, ◌/◌, ◌*◌, arith,
}
use study_notes.Tick.Device.{Device, ClockMode, oneshot, hrtimer_interrupt}
use study_notes.Tick.Switch.{
  Cpu, Switching, SwitchCode, switched, einval, tick_switch_to_oneshot, start_loop,
  tick_setup_sched_timer, hrtimer_switch_to_hres,
}

-- What is documented of the callees: a device takes the mode that is set and keeps its features and its
-- handler; the switch to low-resolution NOHZ does not touch high resolution; and the timer that is started
-- is active at the latest in round `rounds`.
pub record IsSwitching (w : Switching) (rounds : ℕ) : Type 0 where
  pub mode : (m : ClockMode) (d : Device) → (w.events.clockevents_set_mode m d).mode ≡ m
  pub handler :
      (m : ClockMode) (d : Device)
      → (w.events.clockevents_set_mode m d).event_handler ≡ d.event_handler
  pub feat_oneshot :
      (m : ClockMode) (d : Device)
      → (w.events.clockevents_set_mode m d).feat_oneshot ≡ d.feat_oneshot
  pub feat_dummy :
      (m : ClockMode) (d : Device) → (w.events.clockevents_set_mode m d).feat_dummy ≡ d.feat_dummy
  pub nohz : (c : Cpu) → (w.tick_nohz_switch_to_nohz c).hres_active ≡ c.hres_active
  pub active : (expires : ℕ) → w.hrtimer_active rounds expires ≡ true

-- A CPU in high resolution: its device is functional, can do oneshot and is in this mode, with
-- `hrtimer_interrupt` for a handler; all clock bases have the high resolution, and the tick is emulated.
pub record InHres (w : Switching) (c : Cpu) : Type 0 where
  pub dev : Device
  pub device : c.evtdev ≡ some dev
  pub handler : dev.event_handler ≡ hrtimer_interrupt
  pub mode : dev.mode ≡ oneshot
  pub can : dev.feat_oneshot ≡ true
  pub functional : dev.feat_dummy ≡ false
  pub ticking : c.oneshot_tick ≡ true
  pub bases : (i : ℕ) → i < w.hrtimer_max_clock_bases → c.high_res i ≡ true
  pub emulated : (expires : ℕ) × (c.sched_timer ≡ some expires)

abbrev pub IsSound : Switching → Cpu → Type 0
IsSound w c = c.hres_active ≡ true → InHres w c

module _ (w : Switching) (rounds : ℕ) (law : IsSwitching w rounds) where
  start_loop-ends :
      (fuel round expires : ℕ)
      → round ≤ rounds
      → rounds < fuel + round
      → Returns (λ _. Unit {0}) (start_loop w fuel round expires)
  unfolding start_loop
  start_loop-ends zero round expires h f = absurd (omega arith)
  start_loop-ends (suc fuel) round expires h f = elim (Bool-cases (w.hrtimer_active round next)) [
    | inl yes_now ↦ rw (yes_now, start_loop) tt
    | inr later ↦
        let before : round < rounds = ground (arith, law.active next) in
        rw (later, start_loop) (start_loop-ends fuel (suc round) next (omega arith) (omega arith))
  ]
    where
      next : ℕ
      next = w.hrtimer_forward expires (w.ktime_get round) w.tick_period

  -- The device, if there is one that can be switched.
  abbrev pub Switchable : Cpu → Type 0
  Switchable c =
      (dev : Device) × (c.evtdev ≡ some dev) × (dev.feat_oneshot ≡ true) × (dev.feat_dummy ≡ false)

  record IsSwitched (c : Cpu) (out : Cpu × SwitchCode) : Type 0 where
    refused : out.1 ≡ einval → out.0 ≡ c
    granted :
        out.1 ≡ switched
        → (dev : Device) × (out.0 ≡ record c { oneshot_tick = true; evtdev = some dev })
          × (dev.event_handler ≡ hrtimer_interrupt)
          × (dev.mode ≡ oneshot)
          × (dev.feat_oneshot ≡ true)
          × (dev.feat_dummy ≡ false)
    able : Switchable c → out.1 ≡ switched

  switch_to_oneshot-IsSwitched :
      (c : Cpu) → IsSwitched c (tick_switch_to_oneshot w hrtimer_interrupt c)
  unfolding tick_switch_to_oneshot
  switch_to_oneshot-IsSwitched c = by_device c.evtdev refl
    where
      by_device :
          (o : Option Device)
          → c.evtdev ≡ o
          → IsSwitched c (tick_switch_to_oneshot w hrtimer_interrupt c)
      by_device none e = record {
        refused = λ x. ground arith;
        granted = λ x. absurd (ground arith);
        able = λ (dev, f, g, h). absurd (ground arith);
      }
      by_device (some dev) e = record {
        refused = λ x. ground arith;
        granted = λ x.
            let d = record dev { event_handler = hrtimer_interrupt } in
            (
              w.events.clockevents_set_mode oneshot d,
              ground arith,
              law.handler oneshot d,
              law.mode oneshot d,
              law.feat_oneshot oneshot d ∙ ground arith,
              law.feat_dummy oneshot d ∙ ground arith,
            );
        able = λ (dev', f, g, h). ground arith;
      }

  -- The switch of a CPU that is not in high resolution.
  pub record Tried (c : Cpu) (out : Cpu × Bool) : Type 0 where
    pub sound : IsSound w out.0
    pub success : Switchable c → out.0.hres_active ≡ true

  pub switch_to_hres-Tried :
      (fuel cpu : ℕ) (c : Cpu)
      → c.hres_active ≡ false
      → rounds < fuel
      → Returns (Tried c) (hrtimer_switch_to_hres w fuel cpu c)
  unfolding hrtimer_switch_to_hres tick_setup_sched_timer
  switch_to_hres-Tried fuel cpu c low f =
      by_code (tick_switch_to_oneshot w hrtimer_interrupt c).1 refl
    where
      expires : ℕ
      expires =
          if w.sched_skew_tick
          then add64 w.tick_init_jiffy_update (w.tick_period / 2 / w.num_possible_cpus * cpu)
          else w.tick_init_jiffy_update

      out : IsSwitched c (tick_switch_to_oneshot w hrtimer_interrupt c)
      out = switch_to_oneshot-IsSwitched c

      by_code :
          (code : SwitchCode)
          → (tick_switch_to_oneshot w hrtimer_interrupt c).1 ≡ code
          → Returns (Tried c) (hrtimer_switch_to_hres w fuel cpu c)
      by_code einval e = simp low (
          rw e (record {
            sound = λ h.
                let back = ap (λ (x : Cpu). x.hres_active) (out.refused e) in
                absurd (ground (arith, back));
            success = λ s. let able = out.able s in absurd (ground arith);
          }))
      by_code switched e =
          let (dev, same, handler, mode, can, functional) = out.granted e in
          simp low (
            rw (e, same)
              (Returns->>=->>= (λ _. Unit {0}) (Tried c) (start_loop w fuel 0 expires) _ _
                (start_loop-ends fuel 0 expires (omega arith) (omega arith))
                λ expires' _. record {
                  sound = λ _. record {
                    dev = dev;
                    device = refl;
                    handler = handler;
                    mode = mode;
                    can = can;
                    functional = functional;
                    ticking = refl;
                    bases = λ i h. ground arith;
                    emulated = (expires', refl);
                  };
                  success = λ _. refl;
                }))
