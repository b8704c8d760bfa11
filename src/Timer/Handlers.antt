-- ===== src/Timer/Handlers.antt =====
-- A periodic timer's function that deletes another timer, and a wheel to run it on, for the tests.
use study_notes.Common.{
  ℕ, ◌+◌, ◌<◌, ◌≤◌, ◌≡◌, refl, [], true, false, none, inl, inr, ltb, ◌==◌, if◌then◌else◌,
  Bool-cases, ltb-cases, List, ◌∷◌, ◌⊎◌, ◌∙◌, length, sub64, arith,
}
use study_notes.Timer.Wheel.{Timer, Base, put, catchup, internal_add_timer}
use study_notes.Timer.Slots.{horizon}
use study_notes.Timer.Pending.{Member, Pending, Every, Member-All, All-Member}
use study_notes.Timer.Api.{count_detached}
use study_notes.Timer.Sums.{sum_by}
use study_notes.Timer.Arm.{
  Sound, Armed, internal_add_timer-Armed, empty-Every, catchup-Sound, catchup-tv, counters-Wheel,
}
use study_notes.Timer.Loop.{IsHandler}

-- It arms its timer again, ten jiffies from now, as long as there are not too many timers.
abbrev pub again : ℕ → Timer → Timer
again j t = record t { expires = j + 10 }

abbrev rearmed : ℕ → Timer → Base → Base
rearmed j t b = if ltb b.all_timers 1000 then internal_add_timer j b (again j t) else b

-- It deletes the next timer of the work list, as `del_timer` does.
abbrev cancelled : ℕ → Base → List Timer → Base × List Timer
cancelled j b [] = (b, [])
cancelled j b (x ∷ xs) = (catchup j (count_detached b x), xs)

abbrev pub periodic : ℕ → Timer → Base → List Timer → Base × List Timer
periodic j t b ws = cancelled j (rearmed j t b) ws

armed :
    (n j : ℕ) (t : Timer) (b : Base)
    → j + 10 < horizon
    → b.all_timers < 1000
    → Sound n b
    → Armed n b (again j t) (internal_add_timer j b (again j t))
armed n j t b h o s = internal_add_timer-Armed n j b (again j t) s (omega arith) h (omega arith)

armed_time :
    (j : ℕ) (t : Timer) (b : Base)
    → (b.all_timers == 0) ≡ false
    → (internal_add_timer j b t).timer_jiffies ≡ b.timer_jiffies
unfolding internal_add_timer put catchup
armed_time j t b e = elim (Bool-cases t.deferrable) [
  | inl d ↦ rw (d, e) refl
  | inr d ↦ rw (d, e) refl
]

caught_up :
    (j : ℕ) (t : Timer) (b : Base)
    → (b.all_timers == 0) ≡ true
    → (internal_add_timer j b t).timer_jiffies ≡ j
unfolding internal_add_timer put catchup
caught_up j t b e = elim (Bool-cases t.deferrable) [
  | inl d ↦ rw (d, e) refl
  | inr d ↦ rw (d, e) refl
]

module _ (j : ℕ) (h : j + 10 < horizon) where
  rearmed-Sound : (n : ℕ) (t : Timer) (b : Base) → Sound n b → Sound n (rearmed j t b)
  rearmed-Sound n t b s = elim (ltb-cases b.all_timers 1000) [
    | inl (e, o) ↦ rw e (armed n j t b h o s).sound
    | inr (e, o) ↦ rw e s
  ]

  rearmed-later :
      (n : ℕ) (t : Timer) (b : Base) (x : Timer)
      → Sound n b
      → Pending x (rearmed j t b)
      → Pending x b ⊎ (j < x.expires)
  rearmed-later n t b x s p = elim (ltb-cases b.all_timers 1000) [
    | inl (e, o) ↦ elim ((armed n j t b h o s).only x (rw e at p)) [
      | inl q ↦ inr (rw q (omega arith))
      | inr q ↦ inl q
    ]
    | inr (e, o) ↦ inl (rw e at p)
  ]

  -- The wheel's time stays, or it has caught up and holds nothing that is due.
  abbrev Timed : Base → Base → Type 0
  Timed b b' =
      (b'.timer_jiffies ≡ b.timer_jiffies)
      ⊎ ((b'.timer_jiffies ≡ j) × Every (λ x. j < x.expires) b')

  rearmed-Timed : (n : ℕ) (t : Timer) (b : Base) → Sound n b → Timed b (rearmed j t b)
  rearmed-Timed n t b s = elim (ltb-cases b.all_timers 1000) [
    | inr (e, o) ↦ rw e (inl refl)
    | inl (e, o) ↦ elim (Bool-cases (b.all_timers == 0)) [
      | inr z ↦ rw e (inl (armed_time j (again j t) b z))
      | inl z ↦
          let zero : b.all_timers ≡ 0 = ground arith in
          let none_left = empty-Every (λ x. j < x.expires) b (omega (arith, s.counted)) s.wheel in
          rw e (
            inr (
              caught_up j (again j t) b z,
              λ k i.
                  Member-All (λ x. j < x.expires) ((internal_add_timer j b (again j t)).tv k i)
                    (λ x m. elim ((armed n j t b h o s).only x (k, i, m)) [
                      | inl q ↦ rw q (omega arith)
                      | inr (k', i', m') ↦
                          All-Member (λ x. j < x.expires) (b.tv k' i') x (none_left k' i') m'
                    ]),
            ))
    ]
  ]

  cancelled-tv : (b : Base) (ws : List Timer) → (cancelled j b ws).0.tv ≡ b.tv
  cancelled-tv b [] = refl
  cancelled-tv b (x ∷ xs) = catchup-tv j (count_detached b x)

  cancelled-Sound :
      (b : Base) (ws : List Timer)
      → Sound (length ws) b
      → Sound (length (cancelled j b ws).1) (cancelled j b ws).0
  cancelled-Sound b [] s = s
  cancelled-Sound b (x ∷ xs) s =
      catchup-Sound (length xs) j (count_detached b x) (omega arith) (record {
        wheel = counters-Wheel _ b _ refl refl s.wheel;
        counted = omega (arith, s.counted, s.few);
        few = omega (arith, s.counted, s.few);
      })

  cancelled-Timed :
      (b : Base) (ws : List Timer) → Sound (length ws) b → Timed b (cancelled j b ws).0
  unfolding catchup
  cancelled-Timed b [] s = inl refl
  cancelled-Timed b (x ∷ xs) s = elim (Bool-cases (sub64 b.all_timers 1 == 0)) [
    | inl e ↦
        let z : sub64 b.all_timers 1 ≡ 0 = ground arith in
        rw e
          (inr (refl, empty-Every (λ x. j < x.expires) b (omega (arith, s.counted, s.few)) s.wheel))
    | inr e ↦ rw e (inl refl)
  ]

  cancelled-fewer : (b : Base) (ws : List Timer) → length (cancelled j b ws).1 ≤ length ws
  cancelled-fewer b [] = omega arith
  cancelled-fewer b (x ∷ xs) = omega arith

  cancelled-left :
      (b : Base) (ws : List Timer) (x : Timer) → Member x (cancelled j b ws).1 → Member x ws
  cancelled-left b [] x m = m
  cancelled-left b (y ∷ ys) x m = inr m

  pub periodic-IsHandler : IsHandler (periodic j) j
  periodic-IsHandler = record {
    sound = λ t b ws s. cancelled-Sound (rearmed j t b) ws (rearmed-Sound (length ws) t b s);
    fewer = λ t b ws. cancelled-fewer (rearmed j t b) ws;
    left = λ t b ws x m. cancelled-left (rearmed j t b) ws x m;
    later = λ t b ws x s p.
        rearmed-later (length ws) t b x s
          (let (k, i, m) = p in (k, i, rw (cancelled-tv (rearmed j t b) ws) at m));
    time = λ t b ws s. elim (cancelled-Timed (rearmed j t b) ws (rearmed-Sound (length ws) t b s)) [
      | inr c ↦ inr c
      | inl e ↦ elim (rearmed-Timed (length ws) t b s) [
        | inl e' ↦ inl (e ∙ e')
        | inr (e', q) ↦ inr (e ∙ e', λ k i. rw (cancelled-tv (rearmed j t b) ws) (q k i))
      ]
    ];
  }

-- A wheel without timers.
abbrev pub idle : Base
idle = record {
  running_timer = none;
  timer_jiffies = 100;
  next_timer = 100;
  active_timers = 0;
  all_timers = 0;
  tv = λ k i. [];
}

pub idle-Sound : Sound 0 idle
unfolding sum_by
idle-Sound = record {
  wheel = record {
    time = omega arith;
    low = λ k. omega arith;
    high = λ k. omega arith;
    lists = λ k i. tt;
  };
  counted = refl;
  few = omega arith;
}
