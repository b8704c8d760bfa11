-- ===== src/Timer/Spin.antt =====
-- A timer whose function arms it again for the jiffy that is being handled.
use study_notes.Common.{
  ℕ, zero, suc, ◌%◌, ◌^◌, ◌<◌, ◌≡◌, ◌≢◌, refl, [], ◌∷◌, true, false, ◌==◌, inl, inr, Bool-cases,
  sub64, add64, spent, List, length, Returns, Returns-value, arith,
}
use study_notes.Timer.Wheel.{
  Timer, tv1, Base, write, slot, put, catchup, internal_add_timer, cascades, collect,
  detach_expired, run_work, run_loop, time_after_eq,
}
use study_notes.Timer.Slots.{horizon}
use study_notes.Timer.Inv.{==_refl}
use study_notes.Timer.Pending.{write-there}
use study_notes.Timer.Ran.{still_due}

module _ (j : ℕ) (t : Timer) (now : t.expires ≡ j) (bound : j < horizon)
    (inside : j % 256 ≢ 0) where
  -- The timer is the only one, and its list is the one of the jiffy.
  pub record Alone (b : Base) : Type 0 where
    pub time : b.timer_jiffies ≡ j
    pub count : b.all_timers ≡ 1
    pub list : b.tv tv1 (j % 256) ≡ t ∷ []

  not_due : (j % 2 ^ 8 == 0) ≡ false
  not_due = ground arith

  collect-Alone :
      (b : Base)
      → Alone b
      → collect b
        ≡ (record b { timer_jiffies = add64 j 1; tv = write b.tv tv1 (j % 256) [] }, t ∷ [])
  unfolding collect cascades
  collect-Alone b a = rw (a.time, not_due, a.list) refl

  here : slot j t.expires ≡ (tv1, j % 256)
  unfolding slot
  here = let z : sub64 j j ≡ 0 = omega arith in rw (now, z) refl

  armed-Alone :
      (b : Base) → b.all_timers ≡ 0 → b.tv tv1 (j % 256) ≡ [] → Alone (internal_add_timer j b t)
  unfolding internal_add_timer put catchup
  armed-Alone b z l = elim (Bool-cases t.deferrable) [
    | inl d ↦
        rw (d, z, here)
          (record { time = refl; count = refl; list = rw (==_refl (j % 256), l) refl })
    | inr d ↦
        rw (d, z, here)
          (record { time = refl; count = refl; list = rw (==_refl (j % 256), l) refl })
  ]

  -- The timer's function.
  abbrev pub rearm : Timer → Base → List Timer → Base × List Timer
  rearm x b ws = (internal_add_timer j b x, ws)

  round-Alone :
      (b : Base)
      → Alone b
      → Returns
          (λ out. Alone out.0)
          (run_work rearm j (suc (length (collect b).1)) (collect b).0 (collect b).1)
  unfolding run_work detach_expired catchup
  round-Alone b a =
      let one_less : sub64 b.all_timers 1 ≡ 0 = omega (arith, a.count) in
      rw (collect-Alone b a, one_less) (armed-Alone _ refl (write-there b.tv tv1 (j % 256) []))

  -- If a timer that stands alone in the wheel is due at the jiffy that is being handled, and its
  -- function arms it again for that jiffy, then no number of rounds ends the loop of `__run_timers`:
  -- with the last timer detached, the wheel's time is set back to `jiffies`, and the timer is due once
  -- more. (A jiffy at which the levels above are not cascaded.)
  pub run_loop-spins : (fuel : ℕ) (b : Base) → Alone b → run_loop rearm j fuel b ≡ spent
  unfolding run_loop
  run_loop-spins zero b a = refl
  run_loop-spins (suc fuel) b a =
      let due : time_after_eq j b.timer_jiffies ≡ true =
        still_due j b.timer_jiffies bound (omega (arith, a.time)) in
      let (out, e, alone) = Returns-value (λ out. Alone out.0) _ (round-Alone b a) in
      rw (due, run_loop, e, run_loop-spins fuel out.0 alone) refl
