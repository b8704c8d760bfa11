-- ===== src/Timer/Init.antt =====
-- `init_timers_cpu`: the base of a CPU that comes up.
use study_notes.Common.{
  ℕ, ◌<◌, ◌≡◌, ◌≢◌, refl, Option, none, some, Bool, true, false, ◌⊎◌, inl, inr, ◌==◌, Bool-cases,
  if◌then◌else◌, arith,
}
use study_notes.Timer.Wheel.{Base}
use study_notes.Timer.Slots.{horizon}
use study_notes.Timer.Sums.{sum_by}
use study_notes.Timer.Arm.{Sound}
use study_notes.Timer.Api.{Boot, write_base, boot_tvec_bases, reset, reset_in, init_timers_cpu}

pub reset-Sound : (jiffies : ℕ) (b : Base) → jiffies < horizon → Sound 0 (reset jiffies b)
unfolding sum_by
reset-Sound jiffies b h = record {
  wheel = record { time = h; low = λ k. omega arith; high = λ k. omega arith; lists = λ k i. tt };
  counted = refl;
  few = omega arith;
}

-- The CPU has a base that is in order and empty at `jiffies`; the other bases are as they were.
pub record Ready (jiffies cpu : ℕ) (s s' : Boot) : Type 0 where
  pub sound : Sound 0 (s'.bases.base (s'.bases.tvec_bases cpu))
  pub empty : (s'.bases.base (s'.bases.tvec_bases cpu)).all_timers ≡ 0
  pub time : (s'.bases.base (s'.bases.tvec_bases cpu)).timer_jiffies ≡ jiffies
  pub marked : s'.tvec_base_done cpu ≡ true
  pub others : (i : ℕ) → s'.bases.tvec_bases cpu ≢ i → s'.bases.base i ≡ s.bases.base i

-- Some memory, with its flag bits free.
abbrev pub usable : Option (ℕ × Bool) → Bool
usable none = false
usable (some (n, free)) = free

reset-Ready :
    (jiffies cpu n : ℕ) (s s' : Boot)
    → jiffies < horizon
    → s'.bases.base ≡ write_base s.bases.base n (reset jiffies (s.bases.base n))
    → s'.bases.tvec_bases cpu ≡ n
    → s'.tvec_base_done cpu ≡ true
    → Ready jiffies cpu s s'
reset-Ready jiffies cpu n s s' h e at m =
    let self : (n == n) ≡ true = ground arith in
    record {
      sound = rw (at, e, self) (reset-Sound jiffies (s.bases.base n) h);
      empty = rw (at, e, self) refl;
      time = rw (at, e, self) refl;
      marked = m;
      others = λ i d.
          let other : (n == i) ≡ false = (let q : n ≢ i = rw at at d in ground arith) in
          rw (e, other) refl;
    }

-- `init_timers_cpu`, where `jiffies` is far from the end of the counter and, before the first call,
-- the CPU has the static base: either it succeeds, and the CPU has an empty base in order at
-- `jiffies` and is marked done, and no other base is touched; or it returns -ENOMEM, which it does
-- only for a CPU that comes up first after boot and where `kzalloc_node` gives no usable memory.
pub init_timers_cpu-Ready :
    (jiffies : ℕ) (kzalloc : Option (ℕ × Bool)) (cpu : ℕ) (s : Boot)
    → jiffies < horizon
    → (s.boot_done ≡ false → s.bases.tvec_bases cpu ≡ boot_tvec_bases)
    → ((s' : Boot) × (init_timers_cpu jiffies kzalloc cpu s ≡ some s') × Ready jiffies cpu s s')
      ⊎ ((init_timers_cpu jiffies kzalloc cpu s ≡ none)
          × (s.tvec_base_done cpu ≡ false)
          × (s.boot_done ≡ true)
          × (usable kzalloc ≡ false))
unfolding init_timers_cpu
init_timers_cpu-Ready jiffies kzalloc cpu s h b = elim (Bool-cases (s.tvec_base_done cpu)) [
  | inl d ↦
      let s' : Boot = record s { bases = reset_in jiffies s.bases (s.bases.tvec_bases cpu) } in
      inl (s', rw d refl, reset-Ready jiffies cpu (s.bases.tvec_bases cpu) s s' h refl refl d)
  | inr d ↦ elim (Bool-cases s.boot_done) [
    | inr e ↦
        let s' : Boot = record {
          bases = reset_in jiffies s.bases boot_tvec_bases;
          tvec_base_done = λ c. if cpu == c then true else s.tvec_base_done c;
          boot_done = true;
        } in
        inl
          (s', rw (d, e) refl, reset-Ready jiffies cpu boot_tvec_bases s s' h refl (b e) (itself _))
    | inl e ↦ by_memory kzalloc d e
  ]
]
  where
    itself : (f : Bool) → (if cpu == cpu then true else f) ≡ true
    itself f = let self : (cpu == cpu) ≡ true = ground arith in rw self refl

    by_memory :
        (kzalloc : Option (ℕ × Bool))
        → s.tvec_base_done cpu ≡ false
        → s.boot_done ≡ true
        → ((s' : Boot) × (init_timers_cpu jiffies kzalloc cpu s ≡ some s') × Ready jiffies cpu s s')
          ⊎ ((init_timers_cpu jiffies kzalloc cpu s ≡ none)
              × (s.tvec_base_done cpu ≡ false)
              × (s.boot_done ≡ true)
              × (usable kzalloc ≡ false))
    by_memory none d e = inr (rw (d, e) refl, d, e, refl)
    by_memory (some (n, false)) d e = inr (rw (d, e) refl, d, e, refl)
    by_memory (some (n, true)) d e =
        let self : (cpu == cpu) ≡ true = ground arith in
        let at : (if cpu == cpu then n else s.bases.tvec_bases cpu) ≡ n = rw self refl in
        let s' : Boot = record {
          bases =
              reset_in jiffies
                (record s.bases { tvec_bases = λ c. if cpu == c then n else s.bases.tvec_bases c })
                n;
          tvec_base_done = λ c. if cpu == c then true else s.tvec_base_done c;
          boot_done = s.boot_done;
        } in
        inl (s', rw (d, e) refl, reset-Ready jiffies cpu n s s' h refl at (itself _))
