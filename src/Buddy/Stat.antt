-- ===== src/Buddy/Stat.antt =====
-- The counters of a zone (`__mod_zone_page_state` of mm/buddy.c). `zone_page_state_add`, which is not part
-- of the repository, is a parameter.
use study_notes.Common.{
  ℕ, ◌+◌, ◌-◌, ◌%◌, ◌^◌, ◌≤◌, ◌<◌, ◌≡◌, ◌∙◌, ◌⊎◌, inl, inr, Bool, false, ◌||◌, ltb, if◌then◌else◌,
  add64, sub64, add32, word, word32, arith, Bool-cases,
}

-- An `s8` and an `int` in a `long`.
abbrev pub sign8 : ℕ → ℕ
sign8 x = if ltb x 0x80 then x else x + (word - 0x100)

abbrev pub sign32 : ℕ → ℕ
sign32 x = if ltb x 0x8000_0000 then x else x + (word - word32)

-- `a > b` on `long`.
abbrev pub greater : ℕ → ℕ → Bool
greater a b = ltb (add64 b (2 ^ 63)) (add64 a (2 ^ 63))

-- The `vm_stat_diff` of the item and the `stat_threshold` of a `struct per_cpu_pageset`.
pub record Pageset : Type 0 where
  pub diff : ℕ
  pub threshold : ℕ

-- The value that the counter stands for.
abbrev pub reading : ℕ → Pageset → ℕ
reading vm_stat pcp = add64 vm_stat (sign8 pcp.diff)

-- What is pending at this CPU is at most the threshold.
abbrev pub Small : Pageset → Type 0
Small pcp = (pcp.diff ≤ pcp.threshold) ⊎ ((0x100 ≤ pcp.diff + pcp.threshold) × (pcp.diff < 0x100))

module _ (zone_page_state_add : ℕ → ℕ → ℕ) where
  -- What is left with this CPU is folded into the counter where it is above the threshold.
  unfoldable pub settle : ℕ → Pageset → ℕ → ℕ × Pageset
  settle x pcp vm_stat =
      let t = sign8 pcp.threshold in
      if greater x t || greater (sub64 0 t) x
      then (zone_page_state_add x vm_stat, record pcp { diff = 0 })
      else (vm_stat, record pcp { diff = x % 0x100 })

  -- `vm_stat[item]` of the zone, and the pageset of this CPU.
  unfoldable pub mod_zone_page_state : ℕ → Pageset → ℕ → ℕ × Pageset
  mod_zone_page_state delta pcp vm_stat =
      settle (sign32 (add32 delta (sign8 pcp.diff % word32))) pcp vm_stat

  bounded :
      (x t : ℕ)
      → t < 0x80
      → x < word
      → (greater x (sign8 t) || greater (sub64 0 (sign8 t)) x) ≡ false
      → (x ≤ t) ⊎ (word ≤ x + t)
  bounded x t ht hx e = ground arith

  -- A value that fits the threshold survives the cut to 8 bits.
  kept :
      (x t vm_stat : ℕ)
      → x < word
      → (x ≤ t) ⊎ (word ≤ x + t)
      → t < 0x80
      → (add64 vm_stat (sign8 (x % 0x100)) ≡ add64 vm_stat x)
        × Small (record { diff = x % 0x100; threshold = t })
  kept x t vm_stat hx (inl h) ht =
      let low : x % 0x100 ≡ x = omega arith in rw low (ground arith, inl h)
  kept x t vm_stat hx (inr h) ht =
      let high : x % 0x100 + (word - 0x100) ≡ x = omega arith in
      (ground arith, inr (omega arith, omega arith))

  module _ (add : (x v : ℕ) → zone_page_state_add x v ≡ add64 v x) where
    settle-reading :
        (x : ℕ) (pcp : Pageset) (vm_stat : ℕ)
        → pcp.threshold < 0x80
        → x < word
        → (reading (settle x pcp vm_stat).0 (settle x pcp vm_stat).1 ≡ add64 vm_stat x)
          × Small (settle x pcp vm_stat).1
    unfolding settle
    settle-reading x pcp vm_stat ht hx =
        elim (Bool-cases
          (greater x (sign8 pcp.threshold) || greater (sub64 0 (sign8 pcp.threshold)) x)) [
            | inl e ↦ rw e (omega (arith, add x vm_stat), inl (omega arith))
            | inr e ↦ rw e (kept x pcp.threshold vm_stat hx (bounded x pcp.threshold ht hx e) ht)
          ]

    add_int :
        (delta diff : ℕ)
        → diff < 0x100
        → (delta < 0x7fff_ff80) ⊎ ((0x8000_0080 ≤ delta) × (delta < word32))
        → sign32 (add32 delta (sign8 diff % word32)) ≡ add64 (sign32 delta) (sign8 diff)
    add_int delta diff hd h = ground arith

    -- `__mod_zone_page_state`, where `zone_page_state_add` adds to the counter modulo 2 ^ 64, the
    -- threshold of the CPU is below 128, its pending difference is a byte, and `delta` is an `int`
    -- at least 128 away from the ends of its range: the value that the counter and the pending
    -- difference stand for together changes by exactly `delta`, and what is pending afterwards, as a
    -- signed byte, is within the threshold.
    pub mod_zone_page_state-reading :
        (delta : ℕ) (pcp : Pageset) (vm_stat : ℕ)
        → pcp.threshold < 0x80
        → pcp.diff < 0x100
        → vm_stat < word
        → (delta < 0x7fff_ff80) ⊎ ((0x8000_0080 ≤ delta) × (delta < word32))
        → (reading
              (mod_zone_page_state delta pcp vm_stat).0
              (mod_zone_page_state delta pcp vm_stat).1
            ≡ add64 (reading vm_stat pcp) (sign32 delta))
          × Small (mod_zone_page_state delta pcp vm_stat).1
    unfolding mod_zone_page_state
    mod_zone_page_state-reading delta pcp vm_stat ht hd hv h =
        let sum = add_int delta pcp.diff hd h in
        let (r, k) =
          settle-reading (sign32 (add32 delta (sign8 pcp.diff % word32))) pcp vm_stat ht
            (rw sum (omega arith)) in
        (r ∙ rw sum (omega arith), k)
