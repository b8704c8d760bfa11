-- ===== src/Memblock/PassRounds.antt =====
-- One round of the loop of `memblock_add_range`, by what it finds.
use study_notes.Common.{ℕ, suc, ◌+◌, ◌≤◌, ◌<◌, ◌≡◌, Bool, arith, some, none, done, ◌>>=◌, get_elem?}
use study_notes.Memblock.Region.{Region, region_end}
use study_notes.Memblock.Add.{Pass, overlap, pass_loop}

-- One round of the loop, by what it finds.
module _ (ins : Bool) (end nid flags : ℕ) (fuel : ℕ) (s : Pass) where
  pub loop-end :
      get_elem? s.type.regions s.i ≡ none → pass_loop ins end nid flags (suc fuel) s ≡ done s
  unfolding pass_loop
  loop-end e = ground arith

  pub loop-stop :
      (r : Region)
      → get_elem? s.type.regions s.i ≡ some r
      → end ≤ r.base
      → pass_loop ins end nid flags (suc fuel) s ≡ done s
  unfolding pass_loop
  loop-stop r e h = ground arith

  pub loop-skip :
      (r : Region)
      → get_elem? s.type.regions s.i ≡ some r
      → r.base < end
      → region_end r ≤ s.base
      → pass_loop ins end nid flags (suc fuel) s
        ≡ pass_loop ins end nid flags fuel (record s { i = s.i + 1 })
  unfolding pass_loop
  loop-skip r e h k = ground arith

  pub loop-meet :
      (r : Region)
      → get_elem? s.type.regions s.i ≡ some r
      → r.base < end
      → s.base < region_end r
      → pass_loop ins end nid flags (suc fuel) s
        ≡ (overlap ins end nid flags s r >>= pass_loop ins end nid flags fuel)
  unfolding pass_loop
  loop-meet r e h k = ground arith
