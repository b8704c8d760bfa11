-- ===== src/Sparse/Bitmaps.antt =====
-- The bitmaps that `sparse_early_usemaps_alloc_node` (mm/sparse_init.c) hands to a chunk.
use study_notes.Common.{
  ℕ, zero, suc, ◌+◌, ◌-◌, ◌*◌, ◌%◌, ◌^◌, ◌≤◌, ◌<◌, ◌≡◌, ◌≢◌, refl, sym, ◌∙◌, min, true, false, ◌==◌,
  ◌&&◌, if◌then◌else◌, word, Bool-cases, inl, inr, Returns, Returns->>=, arith,
}
use study_notes.Memblock.Region.{max_numnodes}
use study_notes.Memblock.Api.{Memblock}
use study_notes.Memblock.Chain.{IsValid, covers, within}
use study_notes.Memblock.Grow.{Grows}
use study_notes.Memblock.Alloc.{IsPlatform}
use study_notes.Buddy.Holes.{count}
use study_notes.Sparse.Section.{Sparse, present_section_nr}
use study_notes.Sparse.Ranked.{ranked, count_step, ranked_step, ranked-lt}
use study_notes.Sparse.Virt.{
  Backing, memblock_virt_alloc_internal, memblock_virt_alloc_node_nopanic,
}
use study_notes.Sparse.Backed.{VirtAllocated, memblock_virt_alloc_internal-VirtAllocated}
use study_notes.Sparse.Usemap.{Usemaps, hand_out, sparse_early_usemaps_alloc_node}

module _ (s : Sparse) where
  -- A section that is passed over, and one that gets a bitmap.
  pass_absent :
      (pnum rounds usemap old j : ℕ)
      → present_section_nr s pnum ≡ false
      → (if within (pnum + 1) (pnum + 1 + rounds) j && present_section_nr s j
          then usemap + 256 * ranked s (pnum + 1) j
          else old)
        ≡ (if within pnum (pnum + suc rounds) j && present_section_nr s j
            then usemap + 256 * ranked s pnum j
            else old)
  pass_absent pnum rounds usemap old j h = ground (arith, ranked_step s pnum j)

  give_there :
      (pnum rounds usemap old j : ℕ)
      → present_section_nr s pnum ≡ true
      → (if within (pnum + 1) (pnum + 1 + rounds) j && present_section_nr s j
          then usemap + 256 + 256 * ranked s (pnum + 1) j
          else if pnum == j
          then usemap
          else old)
        ≡ (if within pnum (pnum + suc rounds) j && present_section_nr s j
            then usemap + 256 * ranked s pnum j
            else old)
  give_there pnum rounds usemap old j h = elim (Bool-cases (pnum == j)) [
    | inl e ↦
        let same : pnum ≡ j = ground arith in
        let none_before : ranked s j j ≡ 0 = (let z : j - j ≡ 0 = omega arith in rw z refl) in
        ground (arith, none_before)
    | inr e ↦ ground (arith, ranked_step s pnum j)
  ]

  pub hand_out_lem :
      (rounds pnum usemap : ℕ) (maps : ℕ → ℕ) (j : ℕ)
      → usemap + 256 * count (present_section_nr s) pnum rounds < word
      → hand_out s rounds pnum usemap maps j ≡ (
          if within pnum (pnum + rounds) j && present_section_nr s j
          then usemap + 256 * ranked s pnum j
          else maps j)
  unfolding hand_out
  hand_out_lem zero pnum usemap maps j h = ground arith
  hand_out_lem (suc rounds) pnum usemap maps j h = elim (Bool-cases (present_section_nr s pnum)) [
    | inr absent ↦
        let less : usemap + 256 * count (present_section_nr s) (pnum + 1) rounds < word =
          ground (arith, count_step s pnum rounds) in
        rw (absent, hand_out)
          (hand_out_lem rounds (pnum + 1) usemap maps j less
            ∙ pass_absent pnum rounds usemap (maps j) j absent)
    | inl there ↦
        let less : usemap + 256 + 256 * count (present_section_nr s) (pnum + 1) rounds < word =
          ground (arith, count_step s pnum rounds) in
        let small : (usemap + 256) % word ≡ usemap + 256 = omega arith in
        rw (there, small, hand_out)
          (hand_out_lem rounds (pnum + 1) (usemap + 256) (λ i. if pnum == i then usemap else maps i)
              j less
            ∙ give_there pnum rounds usemap (maps j) j there)
  ]

  -- What the callback does for a chunk [begin, end): `base` is the block it got, and the present sections
  -- of the chunk get the bitmaps of 256 bytes in it, one behind the other; no other entry changes.
  pub record Bitmaps (b : Backing) (begin end : ℕ) (u u' : Usemaps) : Type 0 where
    pub base : ℕ
    pub entries :
        (j : ℕ)
        → u'.usemap_map j ≡ (
            if within begin end j && present_section_nr s j
            then base + 256 * ranked s begin j
            else u.usemap_map j)
    pub apart :
        (j j' : ℕ)
        → begin ≤ j
        → j < j'
        → j' < end
        → present_section_nr s j ≡ true
        → present_section_nr s j' ≡ true
        → u'.usemap_map j + 256 ≤ u'.usemap_map j'
    pub free :
        base ≢ 0
        → (j x : ℕ) → begin ≤ j
        → j < end
        → present_section_nr s j ≡ true
        → u'.usemap_map j ≤ x
        → x < u'.usemap_map j + 256
        → (covers x u.memblock.memory.regions ≡ true)
          × (covers x u.memblock.reserved.regions ≡ false)
    pub memory : u'.memblock.memory ≡ u.memblock.memory
    pub valid : IsValid u'.memblock.reserved
    pub failed : base ≡ 0 → u'.memblock ≡ u.memblock

module _ (b : Backing) (law : IsPlatform b.platform) (grows : Grows b.double_array)
    (s : Sparse) where
  Allocated-Bitmaps :
      (begin end count' : ℕ) (u : Usemaps) (k min_addr max_addr nid : ℕ) (m : Memblock) (base : ℕ)
      → begin ≤ end
      → ranked s begin end ≡ count'
      → count' ≤ 2 ^ 18
      → VirtAllocated b law u.memblock (256 * count') k min_addr max_addr nid (m, base)
      → Bitmaps s b begin end u
          (record { usemap_map = hand_out s (end - begin) begin base u.usemap_map; memblock = m })
  Allocated-Bitmaps begin end count' u k min_addr max_addr nid m base o r few a = record {
    base = base;
    entries = entry;
    apart = λ j j' h i l t t'. ground (arith, entry j, entry j', ranked-lt s begin j j');
    free = λ got j x h i t lo hi.
        (a.block got).free x (ground (arith, entry j))
          (ground (arith, entry j, ranked-lt s begin j end));
    memory = a.memory;
    valid = a.valid;
    failed = λ z. (a.failed z).0;
  }
    where
      fits : base + 256 * count' < word
      fits = elim (Bool-cases (base == 0)) [
        | inl z ↦ ground arith
        | inr got ↦ let block = a.block (ground arith) in omega (arith, block.fits)
      ]

      entry :
          (j : ℕ)
          → hand_out s (end - begin) begin base u.usemap_map j ≡ (
              if within begin end j && present_section_nr s j
              then base + 256 * ranked s begin j
              else u.usemap_map j)
      entry j =
          let e : begin + (end - begin) ≡ end = omega arith in
          rw e at (hand_out_lem s (end - begin) begin base u.usemap_map j (rw (sym r) at fits))

  module _ (early : b.slab_is_available ≡ false) (k : ℕ)
      (cache : b.platform.smp_cache_bytes ≡ 2 ^ k) where
    pub alloc_node-Bitmaps :
        (begin end count' nid : ℕ) (u : Usemaps)
        → begin ≤ end
        → ranked s begin end ≡ count'
        → 0 < count'
        → count' ≤ 2 ^ 18
        → IsValid u.memblock.reserved
        → Returns
            (Bitmaps s b begin end u)
            (sparse_early_usemaps_alloc_node b s begin end count' nid u)
    unfolding sparse_early_usemaps_alloc_node memblock_virt_alloc_node_nopanic
    alloc_node-Bitmaps begin end count' nid u o r some_there few v =
        let size : 256 * count' % word ≡ 256 * count' = omega arith in
        rw size (
          Returns->>=
            (VirtAllocated b law u.memblock (256 * count') k b.bootmem_low_limit
              (min b.bootmem_alloc_accessible u.memblock.current_limit)
              (if 0 == max_numnodes then b.platform.numa_no_node else 0))
            (Bitmaps s b begin end u)
            (memblock_virt_alloc_internal b u.memblock (256 * count') 0 b.bootmem_low_limit
              b.bootmem_alloc_accessible 0)
            _
            (memblock_virt_alloc_internal-VirtAllocated b law grows u.memblock (256 * count') 0 k
              b.bootmem_low_limit b.bootmem_alloc_accessible 0 v early (omega arith) cache)
            λ (m, base) a. Allocated-Bitmaps begin end count' u k _ _ _ m base o r few a)
