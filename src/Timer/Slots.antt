-- ===== src/Timer/Slots.antt =====
-- Where `__internal_add_timer` puts a timer, and when the wheel comes round to it.
use study_notes.Common.{
  ℕ, ◌+◌, ◌-◌, ◌/◌, ◌%◌, ◌^◌, ◌≤◌, ◌<◌, ◌≡◌, ◌⊎◌, inl, inr, sub64, add64, ltb-cases, leb-cases,
  arith,
}
use study_notes.Timer.Wheel.{Tv, tv1, tv2, tv3, tv4, tv5, slot, max_tval}

-- Times are far from the end of the 64-bit counter.
abbrev pub horizon : ℕ
horizon = 2 ^ 62

-- The blocks of `unit` jiffies that a list of a higher level waits for, when the level has been cascaded
-- for the times below `c`: list `i` holds the next block from there on with that index.
abbrev pub Waits : ℕ → ℕ → ℕ → ℕ → Type 0
Waits unit c i p =
    (i ≡ p / unit % 64)
    × ((c + (unit - 1)) / unit ≤ p / unit)
    × (p / unit < (c + (unit - 1)) / unit + 64)

-- A timer with that `expires` may stand in list `i` of a level: `now` is the wheel's time. On the
-- lowest level a timer stands at its own jiffy, or, if it was late, at the wheel's. On the highest one
-- it may wait for an earlier block than its own.
abbrev pub In : ℕ → ℕ → Tv → ℕ → ℕ → Type 0
In now c tv1 i e = ((now ≤ e) × (e < now + 256) × (i ≡ e % 256)) ⊎ ((e < now) × (i ≡ now % 256))
In now c tv2 i e = Waits 256 c i e
In now c tv3 i e = Waits 16384 c i e
In now c tv4 i e = Waits 1048576 c i e
In now c tv5 i e = (p : ℕ) × (p ≤ e) × Waits 67108864 c i p

-- `__internal_add_timer` puts a timer where it may stand, whether or not the levels have been cascaded
-- for the wheel's jiffy, with times far from the end of the counter: on the lowest level at its own
-- jiffy, or at the wheel's if it is late; on the others in a block of jiffies that is not behind the
-- next cascade and less than one turn of the level away, which is its own block or, on the highest, an
-- earlier one.
pub slot-In :
    (now c e : ℕ)
    → now < horizon
    → e < horizon
    → now ≤ c
    → c ≤ now + 1
    → In now c (slot now e).0 (slot now e).1 e
unfolding slot
slot-In now c e hn he h k = elim (ltb-cases (sub64 e now) 256) [
  | inl (a, o) ↦ rw a (inl (omega arith))
  | inr (a, o) ↦ elim (ltb-cases (sub64 e now) 16384) [
    | inl (b, p) ↦ rw (a, b) (omega arith)
    | inr (b, p) ↦ elim (ltb-cases (sub64 e now) 1048576) [
      | inl (d, q) ↦ rw (a, b, d) (omega arith)
      | inr (d, q) ↦ elim (ltb-cases (sub64 e now) 67108864) [
        | inl (f, r) ↦ rw (a, b, d, f) (omega arith)
        | inr (f, r) ↦ elim (leb-cases (2 ^ 63) (sub64 e now)) [
          | inl (g, s) ↦ rw (a, b, d, f, g) (inr (omega arith))
          | inr (g, s) ↦ elim (ltb-cases max_tval (sub64 e now)) [
            | inl (x, t) ↦ rw (a, b, d, f, g, x) (add64 max_tval now, omega arith, omega arith)
            | inr (x, t) ↦ rw (a, b, d, f, g, x) (e, omega arith, omega arith)
          ]
        ]
      ]
    ]
  ]
]
