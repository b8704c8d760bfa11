-- ===== src/Timer/Detach.antt =====
-- `detach_if_pending`: the wheel without one timer.
use study_notes.Common.{
  ℕ, ◌+◌, ◌≤◌, ◌<◌, ◌≡◌, ◌≢◌, refl, List, [], ◌∷◌, Bool, true, false, inl, inr, ◌==◌, Bool-cases,
  length, sub64, if◌then◌else◌, arith,
}
use study_notes.Timer.Wheel.{Timer, Base, catchup}
use study_notes.Timer.Slots.{horizon}
use study_notes.Timer.Inv.{All}
use study_notes.Timer.Pending.{Member, Pending}
use study_notes.Timer.Sums.{total_by, total_by-split}
use study_notes.Timer.Count.{total}
use study_notes.Timer.Arm.{Sound, catchup-Sound, catchup-tv, catchup-all_timers}
use study_notes.Timer.Api.{TimerList, unlinked, detach_timer, count_detached, detach_if_pending}

-- How often a timer of that name stands in a list.
abbrev pub named : ℕ → List Timer → ℕ
named name [] = 0
named name (x ∷ xs) = (if x.name == name then 1 else 0) + named name xs

-- How often it stands in the wheel.
abbrev pub occurs : ℕ → Base → ℕ
occurs name b = total_by (named name) b.tv

unlinked-length :
    (name : ℕ) (xs : List Timer) → length (unlinked name xs) + named name xs ≡ length xs
unlinked-length name [] = refl
unlinked-length name (x ∷ xs) = ground (arith, unlinked-length name xs)

unlinked-named : (name : ℕ) (xs : List Timer) → named name (unlinked name xs) ≡ 0
unlinked-named name [] = refl
unlinked-named name (x ∷ xs) = ground (arith, unlinked-named name xs)

unlinked-All :
    (P : Timer → Type 0) (name : ℕ) (xs : List Timer) → All P xs → All P (unlinked name xs)
unlinked-All P name [] h = tt
unlinked-All P name (x ∷ xs) h = elim (Bool-cases (x.name == name)) [
  | inl e ↦ rw e (unlinked-All P name xs h.1)
  | inr e ↦ rw e (h.0, unlinked-All P name xs h.1)
]

unlinked-Member :
    (t : Timer) (name : ℕ) (xs : List Timer) → Member t (unlinked name xs) → Member t xs
unlinked-Member t name [] m = m
unlinked-Member t name (x ∷ xs) m = elim (Bool-cases (x.name == name)) [
  | inl e ↦ inr (unlinked-Member t name xs (rw e at m))
  | inr e ↦ elim (rw e at m) [ inl h ↦ inl h | inr h ↦ inr (unlinked-Member t name xs h) ]
]

Member-unlinked :
    (t : Timer) (name : ℕ) (xs : List Timer)
    → t.name ≢ name
    → Member t xs
    → Member t (unlinked name xs)
Member-unlinked t name [] d m = m
Member-unlinked t name (x ∷ xs) d (inl h) =
    let other : (x.name == name) ≡ false = (let y : x.name ≢ name = rw (← h) d in ground arith) in
    rw other (inl h)
Member-unlinked t name (x ∷ xs) d (inr m) = elim (Bool-cases (x.name == name)) [
  | inl e ↦ rw e (Member-unlinked t name xs d m)
  | inr e ↦ rw e (inr (Member-unlinked t name xs d m))
]

-- The wheel after `detach_if_pending`: in order, without the timer, and with the others.
pub record Detached (name : ℕ) (b b' : Base) : Type 0 where
  pub sound : Sound 0 b'
  pub gone : occurs name b' ≡ 0
  pub fewer : b'.all_timers ≤ b.all_timers
  pub keeps : (x : Timer) → x.name ≢ name → Pending x b → Pending x b'
  pub only : (x : Timer) → Pending x b' → Pending x b

counted_off :
    (b : Base) (t : Timer)
    → Sound 0 b
    → occurs t.name b ≡ 1
    → Sound 0 (count_detached (record b { tv = detach_timer t.name b.tv }) t)
      × (sub64 b.all_timers 1 ≤ b.all_timers)
counted_off b t s o =
    let split : total (detach_timer t.name b.tv) + occurs t.name b ≡ total b.tv =
      total_by-split length (named t.name) length b.tv (detach_timer t.name b.tv)
        (λ k i. unlinked-length t.name (b.tv k i)) in
    (
      record {
        wheel = record {
          time = s.wheel.time;
          low = s.wheel.low;
          high = s.wheel.high;
          lists = λ k i. unlinked-All _ t.name (b.tv k i) (s.wheel.lists k i);
        };
        counted = omega (arith, s.counted, s.few);
        few = omega (arith, s.counted, s.few);
      },
      omega (arith, s.counted, s.few),
    )

off-named : (b : Base) (name : ℕ) → total_by (named name) (detach_timer name b.tv) ≡ 0
off-named b name =
    let split =
      total_by-split (named name) (named name) (named name) b.tv (detach_timer name b.tv)
        (λ k i. omega (arith, unlinked-named name (b.tv k i))) in
    omega arith

taken_off :
    (jiffies : ℕ) (b : Base) (t : Timer)
    → Sound 0 b
    → jiffies < horizon
    → occurs t.name b ≡ 1
    → Detached t.name b
        (catchup jiffies (count_detached (record b { tv = detach_timer t.name b.tv }) t))
taken_off jiffies b t s h o = record {
  sound = catchup-Sound 0 jiffies b' h off.0;
  gone = rw (catchup-tv jiffies b') (off-named b t.name);
  fewer = rw (catchup-all_timers jiffies b') off.1;
  keeps =
      λ x d (k, i, m). (k, i, rw (catchup-tv jiffies b') (Member-unlinked x t.name (b.tv k i) d m));
  only =
      λ x (k, i, m). (k, i, unlinked-Member x t.name (b.tv k i) (rw (catchup-tv jiffies b') at m));
}
  where
    b' : Base
    b' = count_detached (record b { tv = detach_timer t.name b.tv }) t

    off : Sound 0 b' × (sub64 b.all_timers 1 ≤ b.all_timers)
    off = counted_off b t s o

pub detach_if_pending-Detached :
    (jiffies : ℕ) (t : TimerList) (b : Base) (clear : Bool)
    → Sound 0 b
    → jiffies < horizon
    → occurs t.timer.name b ≡ (if t.pending then 1 else 0)
    → Detached t.timer.name b (detach_if_pending jiffies t b clear).0
      × ((detach_if_pending jiffies t b clear).2 ≡ t.pending)
unfolding detach_if_pending
detach_if_pending-Detached jiffies t b clear s h o = by_pending t.pending refl
  where
    by_pending :
        (p : Bool)
        → t.pending ≡ p
        → Detached t.timer.name b (detach_if_pending jiffies t b clear).0
          × ((detach_if_pending jiffies t b clear).2 ≡ t.pending)
    by_pending false e = rw e (
      record {
        sound = s;
        gone = rw e at o;
        fewer = omega arith;
        keeps = λ x d p. p;
        only = λ x p. p;
      },
      refl,
    )
    by_pending true e = rw e (taken_off jiffies b t.timer s h (rw e at o), refl)
