-- ===== src/Tick/Periodic.antt =====
-- The periodic tick of timer/timer.c on a device that is programmed for each event.
use study_notes.Common.{
  ℕ, zero, suc, ◌+◌, ◌*◌, ◌%◌, ◌≤◌, ◌<◌, ◌≡◌, refl, ap, ◌∙◌, true, false, ◌==◌, leb, if◌then◌else◌,
  word, add64, Bool-cases, leb-cases, inl, inr, done, Returns, Returns-map, arith,
}
use study_notes.Tick.Device.{
  Device, is_oneshot, Tick, Events, tick_periodic, reprogram_loop, tick_handle_periodic,
}

-- What is documented of `clockevents_program_event` while the time is `now`: it fails for a time that has
-- passed, and notes the time in the device.
pub record IsClock (e : Events) (now : ℕ) : Type 0 where
  pub fails : (next : ℕ) (d : Device) → (e.clockevents_program_event next d).1 ≡ leb next now
  pub set :
      (next : ℕ) (d : Device)
      → (e.clockevents_program_event next d).0 ≡ record d { next_event = next }

-- `n` ticks on the CPU: it counts them if it is the one that keeps the time.
pub record Ticked (cpu n : ℕ) (t t' : Tick) : Type 0 where
  pub keeper : t'.tick_do_timer_cpu ≡ t.tick_do_timer_cpu
  pub period : t'.tick_period ≡ t.tick_period
  pub jiffies :
      t'.jiffies_64
      ≡ (if t.tick_do_timer_cpu == cpu then (t.jiffies_64 + n) % word else t.jiffies_64)
  pub next : t'.tick_next_period ≡ (
      if t.tick_do_timer_cpu == cpu
      then (t.tick_next_period + n * t.tick_period) % word
      else t.tick_next_period)

tick_periodic-Ticked : (cpu : ℕ) (t : Tick) → Ticked cpu 1 t (tick_periodic cpu t)
unfolding tick_periodic
tick_periodic-Ticked cpu t = record {
  keeper = ground arith;
  period = ground arith;
  jiffies = ground arith;
  next = ground arith;
}

later :
    (x n p y z : ℕ) → y ≡ (x + 1 * p) % word → z ≡ (y + n * p) % word → z ≡ (x + suc n * p) % word
later x n p y z h k = grind arith

-- After one tick, `n` more.
Ticked-suc :
    (cpu n : ℕ) (t t' t'' : Tick)
    → Ticked cpu 1 t t'
    → Ticked cpu n t' t''
    → Ticked cpu (suc n) t t''
Ticked-suc cpu n t t' t'' a b = record {
  keeper = b.keeper ∙ a.keeper;
  period = b.period ∙ a.period;
  jiffies = ground (arith, a.jiffies, b.jiffies, a.keeper);
  next = elim (Bool-cases (t.tick_do_timer_cpu == cpu)) [
    | inl own ↦ rw own (
        later t.tick_next_period n t.tick_period t'.tick_next_period t''.tick_next_period
          (rw own at a.next) (rw (a.period, a.keeper, own) at b.next))
    | inr other ↦ rw other ((rw (a.period, a.keeper, other) at b.next) ∙ (rw other at a.next))
  ];
}

abbrev pub ticks : ℕ → ℕ → Tick → Tick
ticks cpu zero t = t
ticks cpu (suc n) t = ticks cpu n (tick_periodic cpu t)

ticks-Ticked : (cpu n : ℕ) (t : Tick) → Ticked cpu (suc n) t (ticks cpu n (tick_periodic cpu t))
ticks-Ticked cpu zero t = tick_periodic-Ticked cpu t
ticks-Ticked cpu (suc n) t =
    Ticked-suc cpu (suc n) t (tick_periodic cpu t) _ (tick_periodic-Ticked cpu t)
      (ticks-Ticked cpu n (tick_periodic cpu t))

module _ (e : Events) (now : ℕ) (clock : IsClock e now) where
  -- How many ticks `n` periods count for, besides the first.
  abbrev pub counted : ℕ → ℕ
  counted n = if e.timekeeping_valid_for_hres then n else 0

  -- `n` failed attempts, and one that succeeds.
  record Reprogrammed (cpu next : ℕ) (dev : Device) (t : Tick) (out : Device × Tick) : Type 0 where
    passed : ℕ
    device : out.0 ≡ record dev { next_event = next + suc passed * t.tick_period }
    future : now < next + suc passed * t.tick_period
    soonest : next + passed * t.tick_period ≤ now
    same : out.1 ≡ ticks cpu (counted passed) t

  reprogram-past :
      (fuel cpu next : ℕ) (dev : Device) (t : Tick)
      → next + t.tick_period < word
      → next + t.tick_period ≤ now
      → reprogram_loop e (suc fuel) cpu next dev t
        ≡ reprogram_loop e fuel cpu
            (next + t.tick_period)
            (record dev { next_event = next + t.tick_period })
            (if e.timekeeping_valid_for_hres then tick_periodic cpu t else t)
  unfolding reprogram_loop
  reprogram-past fuel cpu next dev t w h =
      let sum : add64 next t.tick_period ≡ next + t.tick_period = omega arith in
      let late : leb (next + t.tick_period) now ≡ true = ground arith in
      let failed = clock.fails (next + t.tick_period) dev ∙ late in
      ground (arith, sum, failed, clock.set (next + t.tick_period) dev)

  reprogram-future :
      (fuel cpu next : ℕ) (dev : Device) (t : Tick)
      → next + t.tick_period < word
      → now < next + t.tick_period
      → reprogram_loop e (suc fuel) cpu next dev t
        ≡ done (record dev { next_event = next + t.tick_period }, t)
  unfolding reprogram_loop
  reprogram-future fuel cpu next dev t w h =
      let sum : add64 next t.tick_period ≡ next + t.tick_period = omega arith in
      let early : leb (next + t.tick_period) now ≡ false = ground arith in
      let failed = clock.fails (next + t.tick_period) dev ∙ early in
      ground (arith, sum, failed, clock.set (next + t.tick_period) dev)

  reprogram_loop-Reprogrammed :
      (fuel cpu next : ℕ) (dev : Device) (t : Tick)
      → next ≤ now
      → now + t.tick_period < word
      → 0 < t.tick_period
      → now < fuel + next
      → Returns (Reprogrammed cpu next dev t) (reprogram_loop e fuel cpu next dev t)
  reprogram_loop-Reprogrammed zero cpu next dev t h w p f = absurd (omega arith)
  reprogram_loop-Reprogrammed (suc fuel) cpu next dev t h w p f =
      elim (leb-cases (next + t.tick_period) now) [
        | inr (x, due) ↦ rw (reprogram-future fuel cpu next dev t (omega arith) due) (record {
          passed = 0;
          device = let one : 1 * t.tick_period ≡ t.tick_period = omega arith in rw one refl;
          future = omega arith;
          soonest = omega arith;
          same = ground arith;
        })
        | inl (x, past) ↦ rw (reprogram-past fuel cpu next dev t (omega arith) past) (
            Returns-map
              (Reprogrammed cpu (next + t.tick_period)
                (record dev { next_event = next + t.tick_period }) t')
              (Reprogrammed cpu next dev t) _
              (λ out r. record {
                passed = suc r.passed;
                device = r.device ∙ ap (λ x. record dev { next_event = x }) (whole r.passed);
                future = rw (whole r.passed) at r.future;
                soonest = rw (shorter r.passed) at r.soonest;
                same = r.same ∙ one_more r.passed;
              })
              (reprogram_loop-Reprogrammed fuel cpu (next + t.tick_period)
                (record dev { next_event = next + t.tick_period }) t' (omega arith)
                (omega (arith, period)) (omega (arith, period)) (omega arith)))
      ]
    where
      t' : Tick
      t' = if e.timekeeping_valid_for_hres then tick_periodic cpu t else t

      period : t'.tick_period ≡ t.tick_period
      period = ground (arith, (tick_periodic-Ticked cpu t).period)

      whole :
          (k : ℕ)
          → next + t.tick_period + suc k * t'.tick_period ≡ next + suc (suc k) * t.tick_period
      whole k = rw period (grind arith)

      shorter : (k : ℕ) → next + t.tick_period + k * t'.tick_period ≡ next + suc k * t.tick_period
      shorter k = rw period (grind arith)

      one_more : (k : ℕ) → ticks cpu (counted k) t' ≡ ticks cpu (counted (suc k)) t
      one_more k = elim (Bool-cases e.timekeeping_valid_for_hres) [
        | inl v ↦ rw v refl
        | inr v ↦ rw v refl
      ]

  -- What the handler did: `passed` further periods went by, and the device waits for the first to come.
  pub record Handled (cpu : ℕ) (dev : Device) (t : Tick) (out : Device × Tick) : Type 0 where
    pub passed : ℕ
    pub periodic_mode : is_oneshot dev.mode ≡ false → (passed ≡ 0) × (out.0 ≡ dev)
    pub device :
        is_oneshot dev.mode ≡ true
        → out.0 ≡ record dev { next_event = dev.next_event + suc passed * t.tick_period }
    pub future : is_oneshot dev.mode ≡ true → now < dev.next_event + suc passed * t.tick_period
    pub soonest : is_oneshot dev.mode ≡ true → dev.next_event + passed * t.tick_period ≤ now
    pub ticked : Ticked cpu (suc (counted passed)) t out.1

  -- `tick_handle_periodic`, for an event that has come, with a period above 0, at a time that stands still
  -- and lies a period below 2 ^ 64, on enough fuel for a round for each nanosecond that the event is late: it
  -- returns. A device in another mode than oneshot is left alone, and one tick is counted. A device in
  -- oneshot mode is programmed for the first time after `now` that is a number of periods behind its
  -- event, and nothing else of it has changed; one tick is counted, and, where the time is valid for
  -- high resolution, one more for each period that had already passed. To count a tick is to add 1 to
  -- `jiffies_64` and a period to `tick_next_period`, modulo 2 ^ 64, on the CPU that keeps the time, and
  -- nothing on any other.
  pub tick_handle_periodic-Handled :
      (fuel cpu : ℕ) (dev : Device) (t : Tick)
      → dev.next_event ≤ now
      → now + t.tick_period < word
      → 0 < t.tick_period
      → now < fuel + dev.next_event
      → Returns (Handled cpu dev t) (tick_handle_periodic e fuel cpu dev t)
  unfolding tick_handle_periodic
  tick_handle_periodic-Handled fuel cpu dev t h w p f = elim (Bool-cases (is_oneshot dev.mode)) [
    | inr other ↦
        rw (other, tick_handle_periodic)
          (record {
            passed = 0;
            periodic_mode = λ _. (refl, refl);
            device = λ x. absurd (ground arith);
            future = λ x. absurd (ground arith);
            soonest = λ x. absurd (ground arith);
            ticked = zero_counted;
          })
    | inl single ↦
        rw (single, tick_handle_periodic)
          (Returns-map (Reprogrammed cpu dev.next_event dev (tick_periodic cpu t))
            (Handled cpu dev t) _
            (λ out r. record {
              passed = r.passed;
              periodic_mode = λ x. absurd (ground arith);
              device = λ _. rw period at r.device;
              future = λ _. rw period at r.future;
              soonest = λ _. rw period at r.soonest;
              ticked = rw r.same (ticks-Ticked cpu (counted r.passed) t);
            })
            (reprogram_loop-Reprogrammed fuel cpu dev.next_event dev (tick_periodic cpu t) h
              (omega (arith, period)) (omega (arith, period)) f))
  ]
    where
      period : (tick_periodic cpu t).tick_period ≡ t.tick_period
      period = (tick_periodic-Ticked cpu t).period

      zero_counted : Ticked cpu (suc (counted 0)) t (tick_periodic cpu t)
      zero_counted =
          let nothing : counted 0 ≡ 0 = ground arith in rw nothing (tick_periodic-Ticked cpu t)
