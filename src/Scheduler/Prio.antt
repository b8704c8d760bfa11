-- ===== src/Scheduler/Prio.antt =====
-- The macros of scheduler/pri-nice.c. An `int` is its 32-bit word in two's complement.
use study_notes.Common.{ℕ, ◌/◌, ◌≤◌, ◌<◌, ◌≡◌, ◌↔◌, ◌⊎◌, word32, add32, sub32, arith}

-- MAX_NICE, MIN_NICE, NICE_WIDTH
abbrev pub max_nice : ℕ
max_nice = 19

abbrev pub min_nice : ℕ
min_nice = sub32 0 20

abbrev pub nice_width : ℕ
nice_width = add32 (sub32 max_nice min_nice) 1

-- MAX_RT_PRIO, MAX_PRIO, DEFAULT_PRIO
abbrev pub max_rt_prio : ℕ
max_rt_prio = 100

abbrev pub max_prio : ℕ
max_prio = add32 max_rt_prio nice_width

abbrev pub default_prio : ℕ
default_prio = add32 max_rt_prio (nice_width / 2)

unfoldable pub nice_to_prio : ℕ → ℕ
nice_to_prio nice = add32 nice default_prio

unfoldable pub prio_to_nice : ℕ → ℕ
prio_to_nice prio = sub32 prio default_prio

unfoldable pub user_prio : ℕ → ℕ
user_prio p = sub32 p max_rt_prio

-- A nice value of [-20, 19].
abbrev pub IsNice : ℕ → Type 0
IsNice n = (n ≤ max_nice) ⊎ ((min_nice ≤ n) × (n < word32))

-- The two conversions between an `int` nice value and a priority undo one another, and exactly the nice
-- values of [-20, 19] become priorities of [MAX_RT_PRIO, MAX_PRIO), whose user priority is below 40.
pub nice_to_prio-prio_to_nice :
    (n : ℕ)
    → n < word32
    → (prio_to_nice (nice_to_prio n) ≡ n)
      × (nice_to_prio (prio_to_nice n) ≡ n)
      × (IsNice n ↔ ((max_rt_prio ≤ nice_to_prio n) × (nice_to_prio n < max_prio)))
      × (IsNice n → user_prio (nice_to_prio n) < nice_width)
unfolding nice_to_prio prio_to_nice user_prio
nice_to_prio-prio_to_nice n h =
    (omega arith, omega arith, ((λ i. omega arith), (λ p. omega arith)), λ i. omega arith)
