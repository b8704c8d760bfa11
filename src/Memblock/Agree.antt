-- ===== src/Memblock/Agree.antt =====
-- The two passes of `memblock_add_range` against each other.
use study_notes.Common.{
  ℕ, suc, ◌+◌, ◌≤◌, ◌≡◌, refl, ap, List, [], true, false, length, ullong_max, Returns, Returns-map,
  arith,
}
use study_notes.Memblock.Region.{Region, MemblockType, cnt}
use study_notes.Memblock.Add.{Pass, add_pass}
use study_notes.Memblock.Chain.{IsValid, Chain}
use study_notes.Memblock.Entries.{Holds}
use study_notes.Memblock.Fill.{fill}
use study_notes.Memblock.Passes.{pass_true}
use study_notes.Memblock.Counting.{Counts, pass_false}

module _ (t : MemblockType) (base end nid flags : ℕ) where
  -- The counting pass left the array alone, and the inserting pass, in any array that holds the same
  -- entries and has room for as many more as were counted, inserts that many.
  pub record Agrees (s : Pass) : Type 0 where
    pub same : s.type ≡ t
    pub inserts :
        (max : ℕ)
        → cnt t + s.nr_new ≤ max
        → Returns
            (λ s'. cnt s'.type ≡ cnt t + s.nr_new)
            (add_pass true end nid flags (record t { max = max }) base)

  -- The two passes of `memblock_add_range` agree, for an array in order that is not the empty one and
  -- an `end` that fits in 64 bits: the first returns the array unchanged, and the second, run in an
  -- array with room for as many more entries as the first counted, returns and has inserted exactly
  -- that many.
  pub add_pass-Agrees :
      IsValid t
      → Chain 0 t.regions
      → end ≤ ullong_max
      → Returns Agrees (add_pass false end nid flags t base)
  unfolding add_pass
  add_pass-Agrees v c e =
      Returns-map (Counts t 0 (cnt t) (length filled)) Agrees _
        (λ s counts. record {
          same = counts.0;
          inserts = λ max h.
              Returns-map (λ s'. Holds filled max s'.type) _ _
                (λ s' holds. omega (arith, ap length holds.regions, counts.1))
                (pass_true nid flags (suc (cnt t)) _ max end 0 [] t.regions filled
                  (record { regions = refl; room = refl; total = v.total }) refl c e (omega arith)
                  (omega (arith, counts.1)) refl);
        })
        (pass_false nid flags (suc (cnt t)) _ end 0 [] t.regions refl refl c (omega arith))
    where
      filled : List Region
      filled = fill end nid flags base t.regions
