-- ===== src/Memblock/Alloc.antt =====
-- The allocator: what an address it returns stands for.
use study_notes.Common.{
  ℕ, ◌+◌, ◌-◌, ◌^◌, ◌%◌, ◌≤◌, ◌<◌, ◌≡◌, ◌≢◌, refl, min, max, List, [], ◌∷◌, true, false, ◌||◌, inl,
  inr, ◌⊎◌, ◌==◌, if◌then◌else◌, ullong_max, Bool-cases, ltb-cases, leb-cases, Option, Returns,
  Returns->>=->>=, arith,
}
use study_notes.Memblock.Region.{MemblockType, Code, success, enomem}
use study_notes.Memblock.Api.{
  Memblock, Platform, clamp, candidate, find_range_top_down, find_in_range_node, memblock_reserve,
  alloc_aligned, alloc_range_nid,
}
use study_notes.Memblock.Chain.{IsValid, covers, within}
use study_notes.Memblock.Grow.{Grows}
use study_notes.Memblock.AddRange.{Added, add_range-Added}

-- Some range of the list holds [a, b).
abbrev pub Inside : ℕ → ℕ → List (ℕ × ℕ) → Type 0
Inside a b [] = ⊥
Inside a b ((s, e) ∷ ranges) = ((s ≤ a) × (b ≤ e)) ⊎ Inside a b ranges

-- What is documented of the iteration over free ranges: they are memory and not reserved, and end within
-- 64 bits; and of `round_down`: the next multiple of a power of two below.
pub record IsPlatform (p : Platform) : Type 0 where
  pub free :
      (memory reserved : MemblockType) (nid a b : ℕ)
      → Inside a b (p.free_ranges memory reserved nid)
      → (b ≤ ullong_max)
        × ((x : ℕ)
            → a ≤ x
            → x < b
            → (covers x memory.regions ≡ true) × (covers x reserved.regions ≡ false))
  pub rounds_below : (x a : ℕ) → p.round_down x a ≤ x
  pub rounds : (x k : ℕ) → p.round_down x (2 ^ k) % 2 ^ k ≡ 0
  pub page : 0 < p.page_size

module _ (p : Platform) (law : IsPlatform p) where
  open law use {rounds_below, rounds}

  -- What an address found in the ranges is worth.
  pub record Found (ranges : List (ℕ × ℕ)) (start end size k a : ℕ) : Type 0 where
    pub inside : Inside a (a + size) ranges
    pub above : start ≤ a
    pub below : a + size ≤ end
    pub aligned : a % 2 ^ k ≡ 0

  later :
      {ranges : List (ℕ × ℕ)} {start end size k a : ℕ} (s e : ℕ)
      → Found ranges start end size k a
      → Found ((s, e) ∷ ranges) start end size k a
  later s e f = record {
    inside = inr f.inside;
    above = f.above;
    below = f.below;
    aligned = f.aligned;
  }

  -- `__memblock_find_range_top_down` for `size` > 0 bytes between `start` and `end` (not below
  -- `start`), with an alignment that is a power of two and a `round_down` that rounds down to its
  -- multiples: an address that is not 0 is aligned, and its block lies in one of the ranges and
  -- between `start` and `end`.
  pub find_range_top_down-Found :
      (ranges : List (ℕ × ℕ)) (start end size k : ℕ)
      → start ≤ end
      → 0 < size
      → find_range_top_down p ranges start end size (2 ^ k) ≢ 0
      → Found ranges start end size k (find_range_top_down p ranges start end size (2 ^ k))
  unfolding find_range_top_down
  find_range_top_down-Found [] start end size k o q h = absurd (h refl)
  find_range_top_down-Found ((s, e) ∷ ranges) start end size k o q h =
      elim (ltb-cases (clamp e start end) size) [
        | inl (x, short) ↦
            rw x (later s e (find_range_top_down-Found ranges start end size k o q (rw x at h)))
        | inr (x, long) ↦ elim (leb-cases (clamp s start end) cand) [
          | inl (y, fits) ↦
              let below = rounds_below (clamp e start end - size) (2 ^ k) in
              rw (x, y)
                (record {
                  inside = inl (omega arith, omega arith);
                  above = omega arith;
                  below = omega arith;
                  aligned = rounds (clamp e start end - size) k;
                })
          | inr (y, over) ↦
              rw (x, y)
                (later s e (find_range_top_down-Found ranges start end size k o q (rw (x, y) at h)))
        ]
      ]
    where
      cand : ℕ
      cand = candidate p (clamp e start end) size (2 ^ k)

  -- The search of the caller, from the first page on and below `end0` or the current limit.
  pub find_in_range_node-Found :
      (m : Memblock) (size k start0 end0 nid : ℕ)
      → 0 < size
      → find_in_range_node p m size (2 ^ k) start0 end0 nid ≢ 0
      → Found
          (p.free_ranges m.memory m.reserved nid)
          (max start0 p.page_size)
          (max (max start0 p.page_size) (if end0 == 0 then m.current_limit else end0))
          size
          k
          (find_in_range_node p m size (2 ^ k) start0 end0 nid)
  unfolding find_in_range_node
  find_in_range_node-Found m size k start0 end0 nid q h =
      find_range_top_down-Found (p.free_ranges m.memory m.reserved nid) _ _ size k (omega arith) q h

  -- What an allocation is worth: 0 for a failure that leaves the memory map alone, else an aligned block
  -- of memory that was free and is now reserved.
  pub record Allocated (m : Memblock) (start end size k : ℕ) (out : Memblock × ℕ) : Type 0 where
    pub memory : out.0.memory ≡ m.memory
    pub valid : IsValid out.0.reserved
    pub aligned : out.1 ≢ 0 → out.1 % 2 ^ k ≡ 0
    pub above : out.1 ≢ 0 → start ≤ out.1
    pub below : out.1 ≢ 0 → out.1 + size ≤ end
    pub was_free :
        out.1 ≢ 0
        → (a : ℕ) → out.1 ≤ a
        → a < out.1 + size
        → (covers a m.memory.regions ≡ true) × (covers a m.reserved.regions ≡ false)
    pub reserved :
        out.1 ≢ 0
        → (a : ℕ)
        → covers a out.0.reserved.regions
          ≡ (within out.1 (out.1 + size) a || covers a m.reserved.regions)

  module _ (double_array : MemblockType → ℕ → ℕ → Option MemblockType)
      (grows : Grows double_array) where
    -- The block was found: the outcome by the code of `memblock_reserve`.
    Found-Allocated :
        (m : Memblock) (start end size k nid found : ℕ) (t : MemblockType) (code : Code)
        → Found (p.free_ranges m.memory m.reserved nid) start end size k found
        → Added m.reserved found (found + min size (ullong_max - found)) (t, code)
        → Allocated m start end size k
            (record m { reserved = t }, elim code [ success ↦ found | enomem ↦ 0 ])
    Found-Allocated m start end size k nid found t enomem f a = record {
      memory = refl;
      valid = a.valid;
      aligned = λ h. absurd (h refl);
      above = λ h. absurd (h refl);
      below = λ h. absurd (h refl);
      was_free = λ h. absurd (h refl);
      reserved = λ h. absurd (h refl);
    }
    Found-Allocated m start end size k nid found t success f a =
        let free = law.free m.memory m.reserved nid found (found + size) f.inside in
        record {
          memory = refl;
          valid = a.valid;
          aligned = λ _. f.aligned;
          above = λ _. f.above;
          below = λ _. f.below;
          was_free = λ _. free.1;
          reserved = λ _ x.
              let whole : min size (ullong_max - found) ≡ size = omega (arith, free.0) in
              rw whole at (a.covered refl x);
        }

    alloc_aligned-Allocated :
        (m : Memblock) (size k start0 end0 nid : ℕ)
        → IsValid m.reserved
        → 0 < size
        → Returns
            (Allocated m
              (max start0 p.page_size)
              (max (max start0 p.page_size) (if end0 == 0 then m.current_limit else end0))
              size
              k)
            (alloc_aligned p double_array m size (2 ^ k) start0 end0 nid)
    unfolding alloc_aligned memblock_reserve
    alloc_aligned-Allocated m size k start0 end0 nid v q = elim (Bool-cases (found == 0)) [
      | inl e ↦ rw e (record {
        memory = refl;
        valid = v;
        aligned = λ h. absurd (h refl);
        above = λ h. absurd (h refl);
        below = λ h. absurd (h refl);
        was_free = λ h. absurd (h refl);
        reserved = λ h. absurd (h refl);
      })
      | inr e ↦
          let f = find_in_range_node-Found m size k start0 end0 nid q (ground arith) in
          let free = law.free m.memory m.reserved nid found (found + size) f.inside in
          rw e (
            Returns->>=->>= (Added m.reserved found (found + min size (ullong_max - found))) _ _ _ _
              (add_range-Added double_array grows m.reserved found size _ _ v
                (omega (arith, free.0)))
              λ (t, code) a. Found-Allocated m _ _ size k nid found t code f a)
    ]
      where
        found : ℕ
        found = find_in_range_node p m size (2 ^ k) start0 end0 nid

    -- `memblock_alloc_range_nid` of `size` > 0 bytes, with an alignment (SMP_CACHE_BYTES for 0) that
    -- is a power of two, on a `reserved` in order, on a platform whose free ranges are memory that is
    -- not reserved, with a `memblock_double_array` that keeps the entries and adds room: it returns,
    -- and leaves the memory map alone and `reserved` in order. An address other than 0 is aligned, is
    -- not below `start` or the first page, and its block ends within `end` (the current limit for 0)
    -- or at that lowest address; all of the block was free memory, and exactly the block has been
    -- added to what is reserved.
    pub alloc_range_nid-Allocated :
        (m : Memblock) (size align k start0 end0 nid : ℕ)
        → IsValid m.reserved
        → 0 < size
        → (if align == 0 then p.smp_cache_bytes else align) ≡ 2 ^ k
        → Returns
            (Allocated m
              (max start0 p.page_size)
              (max (max start0 p.page_size) (if end0 == 0 then m.current_limit else end0))
              size
              k)
            (alloc_range_nid p double_array m size align start0 end0 nid)
    unfolding alloc_range_nid
    alloc_range_nid-Allocated m size align k start0 end0 nid v q al =
        rw al (alloc_aligned-Allocated m size k start0 end0 nid v q)
