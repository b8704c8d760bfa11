-- ===== src/Sparse/Ranked.antt =====
-- The present sections (mm/sparse_init.c) counted.
use study_notes.Common.{
  ℕ, zero, suc, ◌+◌, ◌-◌, ◌≤◌, ◌<◌, ◌≡◌, refl, ◌∙◌, true, if◌then◌else◌, arith,
}
use study_notes.Buddy.Holes.{count}
use study_notes.Sparse.Section.{Sparse, present_section_nr}

module _ (s : Sparse) where
  -- The number of present sections in [lo, hi).
  abbrev pub ranked : ℕ → ℕ → ℕ
  ranked lo hi = count (present_section_nr s) lo (hi - lo)

  pub count_step :
      (lo n : ℕ)
      → count (present_section_nr s) lo (suc n)
        ≡ (if present_section_nr s lo then 1 else 0) + count (present_section_nr s) (lo + 1) n
  count_step lo n = let next : suc lo ≡ lo + 1 = omega arith in rw next refl

  pub ranked_step :
      (lo hi : ℕ)
      → lo < hi
      → ranked lo hi ≡ (if present_section_nr s lo then 1 else 0) + ranked (lo + 1) hi
  ranked_step lo hi h =
      let more : hi - lo ≡ suc (hi - (lo + 1)) = omega arith in
      rw more (count_step lo (hi - (lo + 1)))

  count-split :
      (lo n m : ℕ)
      → count (present_section_nr s) lo (n + m)
        ≡ count (present_section_nr s) lo n + count (present_section_nr s) (lo + n) m
  count-split lo zero m =
      let e : 0 + m ≡ m = omega arith in
      let e' : lo + 0 ≡ lo = omega arith in rw (e, e') (omega arith)
  count-split lo (suc n) m =
      let e : suc n + m ≡ suc (n + m) = omega arith in
      let e' : lo + suc n ≡ lo + 1 + n = omega arith in
      rw (e, e') (omega (arith, count_step lo (n + m), count_step lo n, count-split (lo + 1) n m))

  pub ranked-split :
      (lo mid hi : ℕ) → lo ≤ mid → mid ≤ hi → ranked lo hi ≡ ranked lo mid + ranked mid hi
  ranked-split lo mid hi h k =
      let e : hi - lo ≡ mid - lo + (hi - mid) = omega arith in
      let e' : lo + (mid - lo) ≡ mid = omega arith in
      rw e (count-split lo (mid - lo) (hi - mid) ∙ rw e' refl)

  -- A present section is counted.
  pub ranked-lt :
      (lo j hi : ℕ) → lo ≤ j → j < hi → present_section_nr s j ≡ true → ranked lo j < ranked lo hi
  ranked-lt lo j hi h k there = ground (arith, ranked-split lo j hi, ranked_step j hi)
