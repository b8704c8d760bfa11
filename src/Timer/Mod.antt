-- ===== src/Timer/Mod.antt =====
-- `mod_timer` and `add_timer`: one timer on the bases of all CPUs.
use study_notes.Common.{
  ℕ, ◌+◌, ◌^◌, ◌<◌, ◌≡◌, ◌≢◌, refl, sym, ap, ◌∙◌, List, [], ◌∷◌, ◌++◌, Bool, true, false, not, ◌&&◌,
  inl, inr, ◌==◌, Bool-cases, if◌then◌else◌, arith,
}
use study_notes.Timer.Wheel.{Timer, Tv, Base, slot, put, catchup, internal_add_timer}
use study_notes.Timer.Slots.{horizon}
use study_notes.Timer.Pending.{Pending}
use study_notes.Timer.Sums.{total_by, total_by-write}
use study_notes.Timer.Count.{slot-bound}
use study_notes.Timer.Arm.{Sound, Armed, internal_add_timer-Armed, catchup-tv, count_added-tv}
use study_notes.Timer.Api.{TimerList, Bases, write_base, detach_if_pending, mod_timer_on, mod_timer}
use study_notes.Timer.Detach.{named, occurs, Detached, detach_if_pending-Detached}

named-snoc : (t : Timer) (xs : List Timer) → named t.name (xs ++ t ∷ []) ≡ named t.name xs + 1
named-snoc t [] = ground arith
named-snoc t (x ∷ xs) = omega (arith, named-snoc t xs)

occurs-internal_add_timer :
    (jiffies : ℕ) (b : Base) (t : Timer)
    → occurs t.name (internal_add_timer jiffies b t) ≡ occurs t.name b + 1
unfolding internal_add_timer put
occurs-internal_add_timer jiffies b t =
    let at : Tv × ℕ = slot (catchup jiffies b).timer_jiffies t.expires in
    let w =
      total_by-write (named t.name) (catchup jiffies b).tv at.0 at.1
        ((catchup jiffies b).tv at.0 at.1 ++ t ∷ [])
        (slot-bound (catchup jiffies b).timer_jiffies t.expires) in
    let s = named-snoc t ((catchup jiffies b).tv at.0 at.1) in
    let same : occurs t.name (catchup jiffies b) ≡ occurs t.name b =
      ap (λ tv. total_by (named t.name) tv) (catchup-tv jiffies b) in
    rw (count_added-tv (put (catchup jiffies b) t) t) (omega arith)

-- Every base is in order, and the timer stands in its own one, once, if it is pending, and nowhere else.
pub record InBases (w : Bases) (t : TimerList) : Type 0 where
  pub sound : (i : ℕ) → Sound 0 (w.base i)
  pub once :
      (i : ℕ) → occurs t.timer.name (w.base i) ≡ (if t.pending && (t.base == i) then 1 else 0)
  pub itself : t.pending ≡ true → Pending t.timer (w.base t.base)

-- What arming the timer for `expires` is to do.
pub record Modified (w : Bases) (t : TimerList) (expires : ℕ) (out : Bases × TimerList × Bool)
    : Type 0 where
  pub bases : InBases out.0 out.1
  pub pending : out.1.pending ≡ true
  pub timer : out.1.timer ≡ record t.timer { expires = expires }
  pub returned : out.2 ≡ t.pending
  pub keeps :
      (x : Timer) (i : ℕ) → x.name ≢ t.timer.name → Pending x (w.base i) → Pending x (out.0.base i)
  pub only :
      (x : Timer) (i : ℕ) → x.name ≢ t.timer.name → Pending x (out.0.base i) → Pending x (w.base i)

write_base-same : (f : ℕ → Base) (n : ℕ) (b : Base) → write_base f n b n ≡ b
write_base-same f n b = let self : (n == n) ≡ true = ground arith in rw self refl

-- Every base after the timer has been taken off its own.
all-Detached :
    (w : Bases) (t : TimerList) (b : Base)
    → InBases w t
    → Detached t.timer.name (w.base t.base) b
    → (i : ℕ) → Detached t.timer.name (w.base i) (write_base w.base t.base b i)
all-Detached w t b s d i = elim (Bool-cases (t.base == i)) [
  | inl e ↦ let here : t.base ≡ i = ground arith in rw (e, ← here) d
  | inr e ↦ rw e (record {
    sound = s.sound i;
    gone = s.once i ∙ ground arith;
    fewer = omega arith;
    keeps = λ x n p. p;
    only = λ x p. p;
  })
]

and-false : (b : Bool) → (b && false) ≡ false
and-false true = refl
and-false false = refl

once_here :
    (w : Bases) (t : TimerList)
    → InBases w t
    → occurs t.timer.name (w.base t.base) ≡ (if t.pending then 1 else 0)
once_here w t s =
    let self : (t.base == t.base) ≡ true = ground arith in
    elim (Bool-cases t.pending) [
      | inl e ↦ rw e (rw (e, self) at (s.once t.base))
      | inr e ↦ rw e (rw e at (s.once t.base))
    ]

-- The early return of `mod_timer`.
unchanged-Modified :
    (w : Bases) (t : TimerList) (expires : ℕ)
    → InBases w t
    → t.pending ≡ true
    → t.timer.expires ≡ expires
    → Modified w t expires (w, t, true)
unchanged-Modified w t expires s p e = record {
  bases = s;
  pending = p;
  timer = ap (λ v. record t.timer { expires = v }) e;
  returned = sym p;
  keeps = λ x i d q. q;
  only = λ x i d q. q;
}

module _ (jiffies : ℕ) (h : jiffies < horizon) where
  -- The timer is added to base `n`.
  added-Modified :
      (w : Bases) (t : TimerList) (f : ℕ → Base) (n expires : ℕ)
      → ((i : ℕ) → Detached t.timer.name (w.base i) (f i))
      → ((i : ℕ) → (w.base i).all_timers + 1 < 2 ^ 63)
      → expires < horizon
      → let timer = record t.timer { expires = expires } in
        Modified w t expires (
          record w { base = write_base f n (internal_add_timer jiffies (f n) timer) },
          record { timer = timer; pending = true; base = n },
          t.pending,
        )
  added-Modified w t f n expires d few he = record {
    bases = record {
      sound = λ i. (at i).0;
      once = λ i. (at i).1;
      itself = λ _. rw (write_base-same f n new) armed.pending;
    };
    pending = refl;
    timer = refl;
    returned = refl;
    keeps = λ x i q p. (at i).2 x q p;
    only = λ x i q p. (at i).3 x q p;
  }
    where
      timer : Timer
      timer = record t.timer { expires = expires }

      new : Base
      new = internal_add_timer jiffies (f n) timer

      armed : Armed 0 (f n) timer new
      armed =
          internal_add_timer-Armed 0 jiffies (f n) timer (d n).sound h he
            (omega (arith, few n, (d n).fewer))

      At : ℕ → Base → Type 0
      At i b =
          Sound 0 b
          × (occurs t.timer.name b ≡ (if n == i then 1 else 0))
          × ((x : Timer) → x.name ≢ t.timer.name → Pending x (w.base i) → Pending x b)
          × ((x : Timer) → x.name ≢ t.timer.name → Pending x b → Pending x (w.base i))

      here : At n new
      here = (
        armed.sound,
        (let self : (n == n) ≡ true = ground arith in
            rw self (omega (arith, occurs-internal_add_timer jiffies (f n) timer, (d n).gone))),
        λ x q p. armed.others x ((d n).keeps x q p),
        λ x q p. elim (armed.only x p) [
          | inl e ↦ absurd (q (ap (λ y. y.name) e))
          | inr m ↦ (d n).only x m
        ],
      )

      at : (i : ℕ) → At i (write_base f n new i)
      at i = elim (Bool-cases (n == i)) [
        | inl e ↦ let same : n ≡ i = ground arith in rw (← same) (rw (write_base-same f n new) here)
        | inr e ↦
            rw e ((d i).sound, (d i).gone, λ x q p. (d i).keeps x q p, λ x q p. (d i).only x p)
      ]

  mod_timer_on-Modified :
      (cpu : ℕ) (w : Bases) (t : TimerList) (expires : ℕ)
      → InBases w t
      → ((i : ℕ) → (w.base i).all_timers + 1 < 2 ^ 63)
      → expires < horizon
      → Modified w t expires (mod_timer_on jiffies cpu w t expires false)
  unfolding mod_timer_on
  mod_timer_on-Modified cpu w t expires s few he =
      let (d, r) =
        detach_if_pending-Detached jiffies t (w.base t.base) false (s.sound t.base) h
          (once_here w t s) in
      rw (and-false (not (detach_if_pending jiffies t (w.base t.base) false).2), r)
        (added-Modified w t
          (write_base w.base t.base (detach_if_pending jiffies t (w.base t.base) false).0) _ expires
          (all-Detached w t _ s d) few he)

  module _ (apply_slack : Timer → ℕ → ℕ) where
    -- `mod_timer`, where every base is in order with room in `all_timers` for one more, the timer
    -- stands once in its own base if it is pending and nowhere else, and times are far from the end
    -- of the counter: whichever CPU `get_nohz_timer_target` names, and also where the timer's
    -- function is running, every base is in order afterwards, the timer is pending for what
    -- `apply_slack` makes of `expires`, in one base, once, the result says whether it was pending
    -- before, and the timers of other names are pending in each base as they were.
    pub mod_timer-Modified :
        (cpu : ℕ) (w : Bases) (t : TimerList) (expires : ℕ)
        → InBases w t
        → ((i : ℕ) → (w.base i).all_timers + 1 < 2 ^ 63)
        → apply_slack t.timer expires < horizon
        → Modified w t (apply_slack t.timer expires) (mod_timer apply_slack jiffies cpu w t expires)
    unfolding mod_timer
    mod_timer-Modified cpu w t expires s few he =
        elim (Bool-cases (t.pending && (t.timer.expires == apply_slack t.timer expires))) [
          | inl e ↦
              rw e (
                unchanged-Modified w t (apply_slack t.timer expires) s (ground arith)
                  (ground arith))
          | inr e ↦ rw e (mod_timer_on-Modified cpu w t (apply_slack t.timer expires) s few he)
        ]
