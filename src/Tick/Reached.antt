-- ===== src/Tick/Reached.antt =====
-- What holds of a CPU at any time after notifications and timer interrupts (timer/hrtimer.c).
use study_notes.Common.{
  ℕ, ◌<◌, ◌≡◌, refl, sym, Bool, true, false, not, subst, Bool-cases, inl, inr, done, Returns,
  Returns->>=, arith,
}
use study_notes.Tick.Switch.{
  is_inactive, Cpu, Switching, tick_oneshot_notify, tick_check_oneshot_change,
  hrtimer_switch_to_hres, hrtimer_run_pending,
}
use study_notes.Tick.Hres.{IsSwitching, IsSound, Switchable, Tried, switch_to_hres-Tried}

module _ (w : Switching) (rounds : ℕ) (law : IsSwitching w rounds) where
  -- The change that `tick_check_oneshot_change` reports, and what it does to `hres_active`.
  check-change :
      (allow : Bool) (c : Cpu)
      → c.hres_active ≡ false
      → ((tick_check_oneshot_change w allow c).0.hres_active ≡ false)
        × ((tick_check_oneshot_change w allow c).1 ≡ true
            → (tick_check_oneshot_change w allow c).0 ≡ record c { check_clocks = false })
  unfolding tick_check_oneshot_change
  check-change allow c low =
      (ground (arith, law.nohz (record c { check_clocks = false })), λ x. ground arith)

  -- All that has to hold for the switch to be made.
  pub record MaySwitch (c : Cpu) : Type 0 where
    pub notified : c.check_clocks ≡ true
    pub idle : is_inactive c.nohz_mode ≡ true
    pub timekeeping : w.events.timekeeping_valid_for_hres ≡ true
    pub available : w.tick_is_oneshot_available (record c { check_clocks = false }) ≡ true
    pub enabled : w.hrtimer_hres_enabled ≡ true
    pub device : Switchable w rounds law c

  MaySwitch-change :
      (c : Cpu)
      → MaySwitch c
      → (tick_check_oneshot_change w (not w.hrtimer_hres_enabled) c).1 ≡ true
  unfolding tick_check_oneshot_change
  MaySwitch-change c m = ground (arith, m.notified, m.idle, m.timekeeping, m.available, m.enabled)

  -- An interrupt of the timer: a CPU in high resolution stays as it is; else it is in order afterwards.
  pub record Ran (c c' : Cpu) : Type 0 where
    pub sound : IsSound w c'
    pub stays : c.hres_active ≡ true → c' ≡ c
    pub switches : c.hres_active ≡ false → MaySwitch c → c'.hres_active ≡ true

  hrtimer_run_pending-Ran :
      (fuel cpu : ℕ) (c : Cpu)
      → IsSound w c
      → rounds < fuel
      → Returns (Ran c) (hrtimer_run_pending w fuel cpu c)
  unfolding hrtimer_run_pending
  hrtimer_run_pending-Ran fuel cpu c s f = elim (Bool-cases c.hres_active) [
    | inl high ↦ simp high (record { sound = s; stays = λ _. refl; switches = λ x m. high })
    | inr low ↦
        let (kept, cleared) = check-change (not w.hrtimer_hres_enabled) c low in
        elim (Bool-cases (tick_check_oneshot_change w (not w.hrtimer_hres_enabled) c).1) [
          | inr no_change ↦
              simp (low, no_change)
                (record {
                  sound = λ h. absurd (ground arith);
                  stays = λ h. absurd (ground arith);
                  switches = λ _ m. let yes_change = MaySwitch-change c m in absurd (ground arith);
                })
          | inl change ↦
              simp (low, change)
                (Returns->>=
                  (Tried w rounds law
                    (tick_check_oneshot_change w (not w.hrtimer_hres_enabled) c).0)
                  (Ran c)
                  (hrtimer_switch_to_hres w fuel cpu
                    (tick_check_oneshot_change w (not w.hrtimer_hres_enabled) c).0)
                  _ (switch_to_hres-Tried w rounds law fuel cpu _ kept f)
                  λ (c', done_so) t. record {
                    sound = t.sound;
                    stays = λ h. absurd (ground arith);
                    switches = λ _ m.
                        t.success
                          (subst (λ x. Switchable w rounds law x) (sym (cleared change)) m.device);
                  })
        ]
  ]

  -- What happens to a CPU: a notification, or an interrupt of the timer.
  pub data Step : Cpu → Cpu → Type 0 where
    notify : (c : Cpu) → Step c (tick_oneshot_notify c)
    interrupt :
        {c c' : Cpu} (fuel cpu : ℕ)
        → rounds < fuel
        → hrtimer_run_pending w fuel cpu c ≡ done c'
        → Step c c'

  pub data Reach (c : Cpu) : Cpu → Type 0 where
    here : Reach c c
    next : {c' c'' : Cpu} → Reach c c' → Step c' c'' → Reach c c''

  Step-IsSound : {c c' : Cpu} → Step c c' → IsSound w c → IsSound w c'
  unfolding tick_oneshot_notify
  Step-IsSound (notify c) s = λ h.
      let x = s h in
      record {
        dev = x.dev;
        device = x.device;
        handler = x.handler;
        mode = x.mode;
        can = x.can;
        functional = x.functional;
        ticking = x.ticking;
        bases = x.bases;
        emulated = x.emulated;
      }
  Step-IsSound {c} (interrupt fuel cpu f e) s =
      (subst (λ r. Returns (Ran c) r) e (hrtimer_run_pending-Ran fuel cpu c s f)).sound

  Reach-IsSound : {c c' : Cpu} → IsSound w c → Reach c c' → IsSound w c'
  Reach-IsSound s here = s
  Reach-IsSound s (next r st) = Step-IsSound st (Reach-IsSound s r)

  -- After any notifications and timer interrupts of a CPU that started in low resolution, with callees
  -- that do what is documented of them and a timer that is active at the latest in round `rounds`: if
  -- the CPU is in high resolution, then its device is functional, can do oneshot and is in this mode,
  -- with `hrtimer_interrupt` for a handler, all its clock bases have the high resolution and the tick
  -- is emulated. A further interrupt returns, on fuel for these rounds and one more, and keeps this. A
  -- CPU in high resolution is not touched by it; any other is in high resolution afterwards, if it was
  -- notified, NOHZ is inactive, the time is valid for it, oneshot is available, high resolution is not
  -- disabled, and it has a functional device that can do oneshot.
  pub hrtimer_run_pending-Reached :
      (c c' : Cpu) (fuel cpu : ℕ)
      → c.hres_active ≡ false
      → Reach c c'
      → rounds < fuel
      → IsSound w c' × Returns (Ran c') (hrtimer_run_pending w fuel cpu c')
  hrtimer_run_pending-Reached c c' fuel cpu low r f =
      let s = Reach-IsSound (λ h. absurd (ground arith)) r in
      (s, hrtimer_run_pending-Ran fuel cpu c' s f)
