-- ===== src/Reserved/Spot.antt =====
-- Where an allocation for the device tree lies: in free memory, aligned, and below its limit.
use native.Mathlib.Nat.{one-le-pow}
use study_notes.Common.{
  ℕ, ◌+◌, ◌-◌, ◌%◌, ◌^◌, ◌≤◌, ◌<◌, ◌≡◌, ◌≢◌, refl, sym, min, List, [], ◌∷◌, true, false, ◌==◌, inl,
  inr, Option, ullong_max, ltb-cases, leb-cases, Bool-cases, Returns, Returns-map, Returns->>=->>=,
  if◌then◌else◌, arith,
}
use study_notes.Memblock.Region.{MemblockType, Code, success, enomem}
use study_notes.Memblock.Api.{
  Memblock, Platform, clamp, candidate, find_range_top_down, find_in_range_node, memblock_reserve,
  alloc_aligned, alloc_range_nid, alloc_base,
}
use study_notes.Memblock.Chain.{covers}
use study_notes.Memblock.Grow.{Grows}
use study_notes.Memblock.AddRange.{Added, add_range-Added}
use study_notes.Memblock.Alloc.{Inside, IsPlatform}
use study_notes.Reserved.Keeps.{Boot}

-- What an address that is not 0 stands for, if the block has a size.
pub record Spot (m : Memblock) (size align end a : ℕ) : Type 0 where
  pub memory : (x : ℕ) → a ≤ x → x < a + size → covers x m.memory.regions ≡ true
  pub bound : a + size ≤ ullong_max
  pub window : end ≢ 0 → a + size ≤ end
  pub aligned : (k : ℕ) → align ≡ 2 ^ k → a % 2 ^ k ≡ 0

module _ (p : Platform) (law : IsPlatform p) where
  pub record Block (ranges : List (ℕ × ℕ)) (start end size align a : ℕ) : Type 0 where
    pub inside : Inside a (a + size) ranges
    above : start ≤ a
    below : a + size ≤ end
    aligned : (k : ℕ) → align ≡ 2 ^ k → a % 2 ^ k ≡ 0

  further :
      (ranges : List (ℕ × ℕ)) (start end size align a s e : ℕ)
      → Block ranges start end size align a
      → Block ((s, e) ∷ ranges) start end size align a
  further ranges start end size align a s e b = record {
    inside = inr b.inside;
    above = b.above;
    below = b.below;
    aligned = b.aligned;
  }

  pub find_range_top_down-Block :
      (ranges : List (ℕ × ℕ)) (start end size align a : ℕ)
      → start ≤ end
      → 0 < size
      → find_range_top_down p ranges start end size align ≡ a
      → a ≢ 0
      → Block ranges start end size align a
  unfolding find_range_top_down
  find_range_top_down-Block [] start end size align a o q e h = absurd (h (sym e))
  find_range_top_down-Block ((s, e) ∷ ranges) start end size align a o q r h =
      elim (ltb-cases (clamp e start end) size) [
        | inl (x, short) ↦
            further ranges start end size align a s e
              (find_range_top_down-Block ranges start end size align a o q (rw x at r) h)
        | inr (x, long) ↦
            elim (leb-cases (clamp s start end) (candidate p (clamp e start end) size align)) [
              | inl (y, fits) ↦
                  let below = law.rounds_below (clamp e start end - size) align in
                  let here : candidate p (clamp e start end) size align ≡ a = rw (x, y) at r in
                  record {
                    inside = inl (omega arith, omega arith);
                    above = omega arith;
                    below = omega arith;
                    aligned = λ k f. rw (← here, f) (law.rounds (clamp e start end - size) k);
                  }
              | inr (y, over) ↦
                  further ranges start end size align a s e
                    (find_range_top_down-Block ranges start end size align a o q (rw (x, y) at r) h)
            ]
      ]

  find_in_range_node-Spot :
      (m : Memblock) (size align end nid : ℕ)
      → 0 < size
      → find_in_range_node p m size align 0 end nid ≢ 0
      → Spot m size align end (find_in_range_node p m size align 0 end nid)
  unfolding find_in_range_node
  find_in_range_node-Spot m size align end nid q h =
      let b =
        find_range_top_down-Block (p.free_ranges m.memory m.reserved nid) _ _ size align _
          (omega arith) q refl h in
      let (bound, free) = law.free m.memory m.reserved nid _ _ b.inside in
      record {
        memory = λ x l u. (free x l u).0;
        bound = bound;
        window = λ n.
            let other : (end == 0) ≡ false = ground arith in
            let limit : (if end == 0 then m.current_limit else end) ≡ end = rw other refl in
            omega (arith, b.above, b.below, limit, q);
        aligned = b.aligned;
      }

  module _ (double_array : MemblockType → ℕ → ℕ → Option MemblockType)
      (grows : Grows double_array) where
    alloc_aligned-Spot :
        (m : Memblock) (size align end nid : ℕ)
        → Boot m
        → 0 < size
        → Returns
            (λ out. out.1 ≢ 0 → Spot m size align end out.1)
            (alloc_aligned p double_array m size align 0 end nid)
    unfolding alloc_aligned memblock_reserve
    alloc_aligned-Spot m size align end nid b q = elim (Bool-cases (found == 0)) [
      | inl e ↦ rw e (λ n. absurd (n refl))
      | inr e ↦
          let s = find_in_range_node-Spot m size align end nid q (ground arith) in
          rw e (
            Returns->>=->>= (Added m.reserved found (found + min size (ullong_max - found))) _ _ _ _
              (add_range-Added double_array grows m.reserved found size _ _ b.reserved
                (omega (arith, s.bound)))
              λ (t, code) k. by_code code s)
    ]
      where
        found : ℕ
        found = find_in_range_node p m size align 0 end nid

        by_code :
            (code : Code)
            → Spot m size align end found
            → (elim code [ success ↦ found | enomem ↦ 0 ]) ≢ 0
            → Spot m size align end (elim code [ success ↦ found | enomem ↦ 0 ])
        by_code success s n = s
        by_code enomem s n = absurd (n refl)

    -- `__memblock_alloc_base`, without an alignment on cache lines.
    pub alloc_base-Spot :
        (m : Memblock) (size align end : ℕ)
        → Boot m
        → 0 < size
        → Returns
            (λ out. out.1 ≢ 0 → Spot m size align end out.1)
            (alloc_base p double_array m size align end)
    unfolding alloc_base alloc_range_nid
    alloc_base-Spot m size align end b q =
        Returns-map
          (λ (out : Memblock × ℕ).
            out.1 ≢ 0 → Spot m size (if align == 0 then p.smp_cache_bytes else align) end out.1)
          (λ (out : Memblock × ℕ). out.1 ≢ 0 → Spot m size align end out.1) _
          (λ out s n.
            let t = s n in
            record {
              memory = t.memory;
              bound = t.bound;
              window = t.window;
              aligned = λ k f.
                  let some_align : (align == 0) ≡ false = ground (arith, one-le-pow k 2) in
                  t.aligned k (rw some_align f);
            })
          (alloc_aligned-Spot m size (if align == 0 then p.smp_cache_bytes else align) end
            p.numa_no_node b q)
