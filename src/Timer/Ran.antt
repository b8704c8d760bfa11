-- ===== src/Timer/Ran.antt =====
-- `__run_timers` (timer/timer_list.c) as a whole.
use study_notes.Common.{
  ℕ, zero, suc, ◌+◌, ◌≤◌, ◌<◌, ◌≡◌, refl, List, [], ◌∷◌, true, false, ◌⊎◌, inl, inr, ◌==◌,
  Bool-cases, leb-cases, length, Returns, Returns-map, Returns->>=, arith,
}
use study_notes.Timer.Wheel.{Timer, Base, collect, run_work, run_loop, run_timers, time_after_eq}
use study_notes.Timer.Slots.{horizon}
use study_notes.Timer.Inv.{All, All-map}
use study_notes.Timer.Pending.{Every}
use study_notes.Timer.Collect.{collect-Collected}
use study_notes.Timer.Arm.{Sound, counters-Wheel, catchup-Sound, catchup-tv, empty-Every}
use study_notes.Timer.Loop.{IsHandler, Moved, Worked, round-Worked, none_due}

-- No function of the log was called at a jiffy before its timer's own, and none of the jiffies is to come.
abbrev pub Rounds : ℕ → List (ℕ × List Timer) → Type 0
Rounds j [] = Unit {0}
Rounds j ((now, ts) ∷ log) = (now ≤ j) × All (λ t. t.expires ≤ now) ts × Rounds j log

-- What the loop leaves, and what it has run.
pub record Ran (j : ℕ) (out : Base × List (ℕ × List Timer)) : Type 0 where
  pub sound : Sound 0 out.0
  pub clear : Every (λ t. j < t.expires) out.0
  pub rounds : Rounds j out.1

Every-map : (P Q : Timer → Type 0) (b : Base) → ((t : Timer) → P t → Q t) → Every P b → Every Q b
Every-map P Q b f e k i = All-map P Q (b.tv k i) f (e k i)

pub still_due : (j now : ℕ) → j < horizon → now ≤ j → time_after_eq j now ≡ true
still_due j now h k = ground arith

all_done : (j now : ℕ) → j < horizon → j < now → now ≤ j + 1 → time_after_eq j now ≡ false
all_done j now h k l = ground arith

module _ (call : Timer → Base → List Timer → Base × List Timer) (j : ℕ) where
  -- A round, whose work list leaves what the rest of the loop can go on from.
  loop-round :
      (fuel : ℕ) (b : Base) (P : Base → Type 0)
      → time_after_eq j b.timer_jiffies ≡ true
      → b.timer_jiffies ≤ j
      → Returns
          (λ (b', called). All (λ t. t.expires ≤ b.timer_jiffies) called × P b')
          (run_work call j (suc (length (collect b).1)) (collect b).0 (collect b).1)
      → ((b' : Base) → P b' → Returns (Ran j) (run_loop call j fuel b'))
      → Returns (Ran j) (run_loop call j (suc fuel) b)
  unfolding run_loop
  loop-round fuel b P e h w k =
      rw (e, run_loop)
        (Returns->>= (λ (b', called). All (λ t. t.expires ≤ b.timer_jiffies) called × P b') (Ran j)
          (run_work call j (suc (length (collect b).1)) (collect b).0 (collect b).1) _ w
          λ (b', called) (d, p).
            Returns->>= (Ran j) (Ran j) (run_loop call j fuel b') _ (k b' p) λ (b'', log) r.
              record { sound = r.sound; clear = r.clear; rounds = (h, d, r.rounds) })

  loop-exit :
      (fuel : ℕ) (b : Base)
      → time_after_eq j b.timer_jiffies ≡ false
      → Sound 0 b
      → Every (λ t. j < t.expires) b
      → Returns (Ran j) (run_loop call j (suc fuel) b)
  unfolding run_loop
  loop-exit fuel b e s q =
      rw (e, run_loop)
        (record {
          sound = record {
            wheel = counters-Wheel _ b _ refl refl s.wheel;
            counted = s.counted;
            few = s.few;
          };
          clear = q;
          rounds = tt;
        })

  module _ (law : IsHandler call j) (bound : j + 2 < horizon) where
    -- The fuel that is enough: a round for each jiffy to go, and two more where timers may be due.
    abbrev Enough : ℕ → Base → Type 0
    Enough fuel b =
        (j + 3 ≤ fuel + b.timer_jiffies)
        ⊎ ((j + 2 ≤ fuel + b.timer_jiffies) × Every (λ t. j < t.expires) b)

    pub run_loop-Ran :
        (fuel : ℕ) (b : Base)
        → Sound 0 b
        → b.timer_jiffies ≤ j + 1
        → (b.timer_jiffies ≤ j) ⊎ Every (λ t. j < t.expires) b
        → Enough fuel b
        → Returns (Ran j) (run_loop call j fuel b)
    run_loop-Ran zero b s h r f = absurd (omega arith)
    run_loop-Ran (suc fuel) b s h r f = elim (leb-cases b.timer_jiffies j) [
      | inr (_, o) ↦ elim r [
        | inl o' ↦ absurd (omega arith)
        | inr q ↦ loop-exit fuel b (all_done j b.timer_jiffies (omega arith) (omega arith) h) s q
      ]
      | inl (_, o) ↦
          let due = still_due j b.timer_jiffies (omega arith) o in
          elim f [
            | inl g ↦
                loop-round fuel b (λ b'. Sound 0 b' × Moved call j b.timer_jiffies b') due o
                  (Returns-map (Worked call j b.timer_jiffies) _ _
                    (λ out w. (w.due, (w.sound, w.moved))) (round-Worked call j law bound b s o))
                  λ b' (s', m). elim m [
                    | inl (t, q) ↦
                        run_loop-Ran fuel b' s' (omega arith)
                          (elim (leb-cases (b.timer_jiffies + 1) j) [
                            | inl (_, u) ↦ inl (omega arith)
                            | inr (_, u) ↦ inr (
                                Every-map (λ x. b.timer_jiffies < x.expires) (λ x. j < x.expires) b'
                                  (λ x e. omega arith) q)
                          ])
                          (inl (omega arith))
                    | inr (t, q) ↦
                        run_loop-Ran fuel b' s' (omega arith) (inr q) (inr (omega arith, q))
                  ]
            | inr (g, q) ↦
                let c = collect-Collected b s.wheel (omega arith) in
                let (same, q') = none_due call j law bound b s o q in
                let w = rw same at (round-Worked call j law bound b s o) in
                loop-round fuel b (λ b'. b' ≡ (collect b).0) due o (rw same (tt, refl))
                  λ b' e. rw e (
                    run_loop-Ran fuel (collect b).0 w.sound (omega (arith, c.time)) (inr q')
                      (inr (omega (arith, c.time), q')))
          ]
    ]

    -- `__run_timers` on a wheel that is in order, with its timers counted right, and not ahead of
    -- `jiffies`, which is far from the end of the counter, where the timers' functions leave it in
    -- order and arm timers for jiffies to come only, and may take timers off the work list, but add
    -- none to it: it ends, after at most a round for each jiffy to go and three more. Then the wheel
    -- is in order, no pending timer is due by `jiffies`, and no timer's function was called at a jiffy
    -- before the timer's own or after `jiffies`.
    pub run_timers-Ran :
        (fuel : ℕ) (b : Base)
        → Sound 0 b
        → b.timer_jiffies ≤ j
        → j + 3 ≤ fuel + b.timer_jiffies
        → Returns (Ran j) (run_timers call j fuel b)
    unfolding run_timers
    run_timers-Ran fuel b s h f = elim (Bool-cases (b.all_timers == 0)) [
      | inr e ↦ rw e (run_loop-Ran fuel b s (omega arith) (inl h) (inl f))
      | inl e ↦
          let z : b.all_timers ≡ 0 = ground arith in
          rw e (record {
            sound = catchup-Sound 0 j b (omega arith) s;
            clear =
                rw (catchup-tv j b)
                  (empty-Every (λ t. j < t.expires) b (omega (arith, s.counted)) s.wheel);
            rounds = tt;
          })
    ]
