-- ===== src/Timer/Loop.antt =====
-- A round of `__run_timers` (timer/timer_list.c), with its work list.
use study_notes.Common.{
  ℕ, suc, ◌+◌, ◌%◌, ◌^◌, ◌≤◌, ◌<◌, ◌≡◌, ◌∙◌, refl, sym, ap, subst, List, [], ◌∷◌, ◌⊎◌, inl, inr,
  ◌==◌, Bool-cases, sub64, length, some, zero, done, Returns, Returns->>=, arith,
}
use study_notes.Timer.Wheel.{
  Timer, tv1, Base, write, put, put_all, catchup, cascade, cascades, collect, detach_expired,
  run_work,
}
use study_notes.Timer.Slots.{horizon}
use study_notes.Timer.Inv.{All, Wheel}
use study_notes.Timer.Pending.{Pending, Every, Member, Member-All, All-Member, kept_by_cascades}
use study_notes.Timer.Count.{total-write, total-cascades}
use study_notes.Timer.Collect.{Collected, collect-Collected}
use study_notes.Timer.Arm.{Sound, counters-Wheel, catchup-Sound, empty-Every}

put_all-all_timers : (b : Base) (ts : List Timer) → (put_all b ts).all_timers ≡ b.all_timers
unfolding put_all put
put_all-all_timers b [] = refl
put_all-all_timers b (t ∷ ts) = put_all-all_timers (put b t) ts

cascades-all_timers : (b : Base) → (cascades b).all_timers ≡ b.all_timers
unfolding cascade
cascades-all_timers b =
    kept_by_cascades (λ b'. b'.all_timers ≡ b.all_timers)
      (λ b' k i o q. put_all-all_timers (record b' { tv = write b'.tv k i [] }) (b'.tv k i) ∙ q) b
      refl

-- The timers that a round has taken are still counted.
pub collect-Sound :
    (b : Base)
    → Sound 0 b
    → b.timer_jiffies + 1 < horizon
    → Sound (length (collect b).1) (collect b).0
unfolding collect
collect-Sound b s h =
    let c = collect-Collected b s.wheel h in
    record {
      wheel = subst (λ x. Wheel (λ k. x) (collect b).0) (sym c.time) c.wheel;
      counted = omega (
        arith,
        s.counted,
        cascades-all_timers b,
        total-cascades b,
        total-write (cascades b).tv tv1 (b.timer_jiffies % 2 ^ 8) [] (omega arith),
      );
      few = omega (arith, s.few, cascades-all_timers b);
    }

module _ (call : Timer → Base → List Timer → Base × List Timer) (j : ℕ) where
  -- What is asked of the timers' functions: they leave the wheel in order and its timers counted, also
  -- those left on the work list, from which they may take timers but to which nothing is added; they
  -- arm timers for later jiffies than this one only, and leave the wheel's time alone unless it catches
  -- up.
  pub record IsHandler : Type 0 where
    pub sound :
        (t : Timer) (b : Base) (ws : List Timer)
        → Sound (length ws) b
        → Sound (length (call t b ws).1) (call t b ws).0
    pub fewer : (t : Timer) (b : Base) (ws : List Timer) → length (call t b ws).1 ≤ length ws
    pub left :
        (t : Timer) (b : Base) (ws : List Timer) (x : Timer)
        → Member x (call t b ws).1
        → Member x ws
    pub later :
        (t : Timer) (b : Base) (ws : List Timer) (x : Timer)
        → Sound (length ws) b
        → Pending x (call t b ws).0
        → Pending x b ⊎ (j < x.expires)
    pub time :
        (t : Timer) (b : Base) (ws : List Timer)
        → Sound (length ws) b
        → ((call t b ws).0.timer_jiffies ≡ b.timer_jiffies)
          ⊎ (((call t b ws).0.timer_jiffies ≡ j) × Every (λ x. j < x.expires) (call t b ws).0)

  -- The wheel in the round of the jiffy `now`: it has gone on to the next one and nothing of `now` is
  -- left, or it has been empty, caught up, and holds nothing that is due.
  abbrev pub Moved : ℕ → Base → Type 0
  Moved now b =
      ((b.timer_jiffies ≡ now + 1) × Every (λ x. now < x.expires) b)
      ⊎ ((b.timer_jiffies ≡ j) × Every (λ x. j < x.expires) b)

  detached : Base → Timer → Base
  detached b t = detach_expired j (record b { running_timer = some t.name }) t

  detached-Sound :
      (n : ℕ) (b : Base) (t : Timer) → j < horizon → Sound (suc n) b → Sound n (detached b t)
  unfolding detached detach_expired
  detached-Sound n b t h s = catchup-Sound n j _ h (record {
    wheel = counters-Wheel _ b _ refl refl s.wheel;
    counted = omega (arith, s.counted, s.few);
    few = omega (arith, s.counted, s.few);
  })

  detached-Moved :
      (n now : ℕ) (b : Base) (t : Timer) → Sound (suc n) b → Moved now b → Moved now (detached b t)
  unfolding detached detach_expired catchup
  detached-Moved n now b t s m = elim (Bool-cases (sub64 b.all_timers 1 == 0)) [
    | inl e ↦
        let z : sub64 b.all_timers 1 ≡ 0 = ground arith in
        rw e
          (inr (refl, empty-Every (λ x. j < x.expires) b (omega (arith, s.counted, s.few)) s.wheel))
    | inr e ↦ rw e m
  ]

  -- What the inner loop leaves, and whose functions it has called.
  pub record Worked (now : ℕ) (out : Base × List Timer) : Type 0 where
    pub sound : Sound 0 out.0
    pub moved : Moved now out.0
    pub due : All (λ x. x.expires ≤ now) out.1

  module _ (law : IsHandler) (bound : j + 2 < horizon) where
    open law use {sound, fewer, left, later, time}

    call-Every :
        (m : ℕ) (t : Timer) (b : Base) (ws : List Timer)
        → m ≤ j
        → Sound (length ws) b
        → Every (λ x. m < x.expires) b
        → Every (λ x. m < x.expires) (call t b ws).0
    call-Every m t b ws h s e k i =
        Member-All (λ x. m < x.expires) ((call t b ws).0.tv k i)
          (λ x q. elim (later t b ws x s (k, i, q)) [
            | inl (k', i', q') ↦ All-Member (λ x. m < x.expires) (b.tv k' i') x (e k' i') q'
            | inr o ↦ omega arith
          ])

    call-Moved :
        (now : ℕ) (b : Base) (t : Timer) (ws : List Timer)
        → now ≤ j
        → Sound (length ws) b
        → Moved now b
        → Moved now (call t b ws).0
    call-Moved now b t ws h s m = elim (time t b ws s) [
      | inr c ↦ inr c
      | inl e ↦ elim m [
        | inl (x, q) ↦ inl (e ∙ x, call-Every now t b ws h s q)
        | inr (x, q) ↦ inr (e ∙ x, call-Every j t b ws (omega arith) s q)
      ]
    ]

    run_work-Worked :
        (fuel now : ℕ) (ts : List Timer) (b : Base)
        → length ts < fuel
        → now ≤ j
        → All (λ x. x.expires ≤ now) ts
        → Sound (length ts) b
        → Moved now b
        → Returns (Worked now) (run_work call j fuel b ts)
    unfolding run_work detached detach_expired
    run_work-Worked zero now ts b f h d s m = absurd (omega arith)
    run_work-Worked (suc fuel) now [] b f h d s m = record { sound = s; moved = m; due = tt }
    run_work-Worked (suc fuel) now (t ∷ ts) b f h d s m =
        let s' = detached-Sound (length ts) b t (omega arith) s in
        Returns->>= (Worked now) (Worked now)
          (run_work call j fuel (call t (detached b t) ts).0 (call t (detached b t) ts).1) _
          (run_work-Worked fuel now (call t (detached b t) ts).1 (call t (detached b t) ts).0
            (omega (arith, fewer t (detached b t) ts)) h
            (Member-All (λ x. x.expires ≤ now) _
              (λ x q. All-Member (λ x. x.expires ≤ now) ts x d.1 (left t (detached b t) ts x q)))
            (sound t (detached b t) ts s')
            (call-Moved now (detached b t) t ts h s' (detached-Moved (length ts) now b t s m)))
          λ (b', called) w. record { sound = w.sound; moved = w.moved; due = (d.0, w.due) }

    -- One round.
    pub round-Worked :
        (b : Base)
        → Sound 0 b
        → b.timer_jiffies ≤ j
        → Returns
            (Worked b.timer_jiffies)
            (run_work call j (suc (length (collect b).1)) (collect b).0 (collect b).1)
    round-Worked b s h =
        let c = collect-Collected b s.wheel (omega arith) in
        run_work-Worked (suc (length (collect b).1)) b.timer_jiffies (collect b).1 (collect b).0
          (omega arith) h c.due (collect-Sound b s (omega arith)) (inl (c.time, c.later))

    -- A round on a wheel that holds nothing that is due.
    pub none_due :
        (b : Base)
        → Sound 0 b
        → b.timer_jiffies ≤ j
        → Every (λ x. j < x.expires) b
        → (run_work call j (suc (length (collect b).1)) (collect b).0 (collect b).1
            ≡ done ((collect b).0, []))
          × Every (λ x. j < x.expires) (collect b).0
    unfolding run_work
    none_due b s h q = (
      ap (λ ts. run_work call j (suc (length ts)) (collect b).0 ts)
          (no_member (collect b).1 c.due
            (Member-All (λ x. j < x.expires) (collect b).1 (λ x m. still x (inl m)))),
      λ k i.
          Member-All (λ x. j < x.expires) ((collect b).0.tv k i) (λ x m. still x (inr (k, i, m))),
    )
      where
        c : Collected b (collect b)
        c = collect-Collected b s.wheel (omega arith)

        still : (x : Timer) → Member x (collect b).1 ⊎ Pending x (collect b).0 → j < x.expires
        still x o =
            let (k, i, m) = c.only x o in All-Member (λ x. j < x.expires) (b.tv k i) x (q k i) m

        no_member :
            (ts : List Timer)
            → All (λ x. x.expires ≤ b.timer_jiffies) ts
            → All (λ x. j < x.expires) ts
            → ts ≡ []
        no_member [] d e = refl
        no_member (t ∷ ts) d e = absurd (omega arith)
