-- ===== src/Sparse/OneNode.antt =====
-- `alloc_usemap_and_memmap` with `sparse_early_usemaps_alloc_node` (mm/sparse_init.c) where all memory is
-- on one node, as `arm64_memory_present` leaves it.
use study_notes.Common.{
  ℕ, zero, suc, ◌+◌, ◌-◌, ◌^◌, ◌≤◌, ◌<◌, ◌≡◌, refl, ap, ◌∙◌, true, false, ◌==◌, Bool-cases, inl,
  inr, Run, Returns, Returns-map, arith,
}
use study_notes.Memblock.Chain.{IsValid}
use study_notes.Memblock.Grow.{Grows}
use study_notes.Memblock.Alloc.{IsPlatform}
use study_notes.Buddy.Holes.{count, count-le}
use study_notes.Sparse.Section.{Sparse, present_section_nr}
use study_notes.Sparse.Virt.{Backing}
use study_notes.Sparse.Usemap.{
  nid_of, first_present, chunk_loop, alloc_usemap_and_memmap, Usemaps,
  sparse_early_usemaps_alloc_node,
}
use study_notes.Sparse.Ranked.{ranked, ranked_step, ranked-split, ranked-lt}
use study_notes.Sparse.Bitmaps.{Bitmaps, alloc_node-Bitmaps}

module _ {D : Type 0} (s : Sparse) (alloc_func : ℕ → ℕ → ℕ → ℕ → D → Run D) (n nid : ℕ)
    (one : (j : ℕ) → present_section_nr s j ≡ true → nid_of s j ≡ nid) where
  -- One chunk.
  chunk_loop-one :
      (rounds pnum begin c : ℕ) (d : D)
      → chunk_loop s alloc_func n rounds pnum begin nid c d
        ≡ alloc_func begin n (c + count (present_section_nr s) pnum rounds) nid d
  unfolding chunk_loop
  chunk_loop-one zero pnum begin c d = let e : c + 0 ≡ c = omega arith in rw e refl
  chunk_loop-one (suc rounds) pnum begin c d =
      let next : suc pnum ≡ pnum + 1 = omega arith in
      elim (Bool-cases (present_section_nr s pnum)) [
        | inr absent ↦
            rw (absent, chunk_loop)
              (chunk_loop-one rounds (pnum + 1) begin c d
                ∙ ap (λ x. alloc_func begin n x nid d) (rw next (omega arith)))
        | inl there ↦
            let same : (nid_of s pnum == nid) ≡ true = ground (arith, one pnum) in
            rw (there, same, chunk_loop)
              (chunk_loop-one rounds (pnum + 1) begin (c + 1) d
                ∙ ap (λ x. alloc_func begin n x nid d) (rw next (omega arith)))
      ]

  -- The first present section is found.
  record First (pnum j : ℕ) (out : ℕ × ℕ) : Type 0 where
    at_it : ℕ
    found : out ≡ (at_it, nid)
    there : present_section_nr s at_it ≡ true
    from : pnum ≤ at_it
    upto : at_it ≤ j
    none_before : ranked s pnum at_it ≡ 0

  first_present-First :
      (rounds pnum j : ℕ)
      → pnum ≤ j
      → j < pnum + rounds
      → present_section_nr s j ≡ true
      → First pnum j (first_present s alloc_func n rounds pnum)
  unfolding first_present
  first_present-First zero pnum j h k t = absurd (omega arith)
  first_present-First (suc rounds) pnum j h k t = elim (Bool-cases (present_section_nr s pnum)) [
    | inl there ↦
        rw (there, first_present)
          (record {
            at_it = pnum;
            found = ap (λ m. (pnum, m)) (one pnum there);
            there = there;
            from = omega arith;
            upto = h;
            none_before = let z : pnum - pnum ≡ 0 = omega arith in rw z refl;
          })
    | inr absent ↦
        let rest = first_present-First rounds (pnum + 1) j (ground arith) (omega arith) t in
        rw (absent, first_present)
          (record {
            at_it = rest.at_it;
            found = rest.found;
            there = rest.there;
            from = omega (arith, rest.from);
            upto = rest.upto;
            none_before =
                ground (arith, ranked_step s pnum rest.at_it, rest.none_before, rest.from);
          })
  ]

  alloc-one :
      (j : ℕ) (d : D)
      → j < n
      → present_section_nr s j ≡ true
      → (first : ℕ) × (alloc_usemap_and_memmap s alloc_func n d
          ≡ alloc_func first n (ranked s 0 n) nid d)
        × (ranked s 0 first ≡ 0)
        × (first < n)
  unfolding alloc_usemap_and_memmap
  alloc-one j d h t =
      let f = first_present-First n 0 j (omega arith) (omega arith) t in
      let here : f.at_it < n = omega (arith, f.upto) in
      let whole : 1 + count (present_section_nr s) (f.at_it + 1) (n - (f.at_it + 1))
          ≡ ranked s 0 n =
        ground
          (arith, ranked-split s 0 f.at_it n, ranked_step s f.at_it n, f.there, f.none_before) in
      (
        f.at_it,
        rw f.found (
            chunk_loop-one (n - (f.at_it + 1)) (f.at_it + 1) f.at_it 1 d
            ∙ ap (λ x. alloc_func f.at_it n x nid d) whole),
        f.none_before,
        here,
      )

module _ (b : Backing) (s : Sparse) where
  Bitmaps-from_zero :
      (first n : ℕ) (u u' : Usemaps)
      → ranked s 0 first ≡ 0
      → first < n
      → Bitmaps s b first n u u'
      → Bitmaps s b 0 n u u'
  Bitmaps-from_zero first n u u' z f m = record {
    base = m.base;
    entries = λ j. ground (arith, m.entries j, behind j, ranked-split s 0 first j);
    apart = λ j j' h i l t t'. m.apart j j' (behind j t) i l t t';
    free = λ got j x h i t. m.free got j x (behind j t) i t;
    memory = m.memory;
    valid = m.valid;
    failed = m.failed;
  }
    where
      behind : (j : ℕ) → present_section_nr s j ≡ true → first ≤ j
      behind j t = ground (arith, ranked-lt s 0 j first)

  -- `alloc_usemap_and_memmap` with `sparse_early_usemaps_alloc_node`, where some of at most 2 ^ 18
  -- sections is present and all present ones are of one node, before the slab allocator is up, with
  -- SMP_CACHE_BYTES a power of two, on a `reserved` in order, on a platform whose free ranges are memory
  -- that is not reserved, with a `memblock_double_array` that keeps the entries and adds room: it
  -- returns. Each present section has a bitmap of 256 bytes behind those of the present sections
  -- before it, from the block on that was allocated; the bitmaps are apart, and no other entry has
  -- changed. If the block is not null, the bytes of the bitmaps were free memory; if it is null,
  -- nothing was reserved. The memory map is as before, and `reserved` in order.
  pub usemaps-Bitmaps :
      (law : IsPlatform b.platform) (grows : Grows b.double_array) (n nid k : ℕ) (u : Usemaps)
      (j : ℕ)
      → b.slab_is_available ≡ false
      → b.platform.smp_cache_bytes ≡ 2 ^ k
      → ((i : ℕ) → present_section_nr s i ≡ true → nid_of s i ≡ nid)
      → n ≤ 2 ^ 18
      → j < n
      → present_section_nr s j ≡ true
      → IsValid u.memblock.reserved
      → Returns
          (Bitmaps s b 0 n u)
          (alloc_usemap_and_memmap s (sparse_early_usemaps_alloc_node b s) n u)
  usemaps-Bitmaps law grows n nid k u j early cache one few h t v =
      let (first, called, empty, below) =
        alloc-one s (sparse_early_usemaps_alloc_node b s) n nid one j u h t in
      rw called (
        Returns-map (Bitmaps s b first n u) (Bitmaps s b 0 n u) _
          (λ u' m. Bitmaps-from_zero first n u u' empty below m)
          (alloc_node-Bitmaps b law grows s early k cache first n (ranked s 0 n) nid u (omega arith)
            (omega (arith, ranked-split s 0 first n (omega arith) (omega arith), empty))
            (omega (arith, ranked-lt s 0 j n (omega arith) h t))
            (omega (arith, count-le (present_section_nr s) 0 (n - 0))) v))
