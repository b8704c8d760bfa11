-- ===== src/Buddy/Boot.antt =====
-- `bootmem_init` of mm/buddy.c as a whole: from the memory map to the page counts and page structures.
use study_notes.Common.{
  ℕ, ◌+◌, ◌-◌, ◌^◌, ◌≤◌, ◌<◌, ◌≡◌, ◌≢◌, refl, subst, List, [], ◌∷◌, some, word, Run, ◌>>=◌, Returns,
  Returns-map, Returns->>=, Returns->>=->>=, arith,
}
use study_notes.Memblock.Region.{Region}
use study_notes.Memblock.Chain.{Chain}
use study_notes.Buddy.Frames.{
  pfn_down, base_pfn, end_of_dram, ZoneType, zone_dma, zone_normal, zone_movable, zone_size,
  zhole_size,
}
use study_notes.Buddy.Holes.{
  count, present, Framed, FrameChain, Chain-FrameChain, zhole_size-Holes, zhole_size-movable,
}
use study_notes.Buddy.Zone.{Kernel, Config}
use study_notes.Buddy.Core.{zone_sizes_init, bootmem_init}
use study_notes.Buddy.Round.{HasHeap, Placed}
use study_notes.Buddy.Laid.{Laid, Paged, Sections, free_area_init_node-Laid}

end_of_dram-lt :
    (r : Region) (rs : List Region) (end : ℕ) → end_of_dram (r ∷ rs) ≡ some end → end < word
end_of_dram-lt r [] end e = ground arith
end_of_dram-lt r (r' ∷ rs) end e = end_of_dram-lt r' rs end e

-- The frames of a sorted map, read from the first region on.
frames_from :
    (r : Region) (rs : List Region)
    → Chain 0 (r ∷ rs)
    → Framed (r ∷ rs)
    → FrameChain (base_pfn r) (r ∷ rs)
frames_from r rs c f = let x = Chain-FrameChain 0 (r ∷ rs) c f in (omega arith, x.1, x.2, x.3)

module _ (c : Config) (heap : HasHeap c) where
  -- The zone holds the frames of [lo, hi): it spans them all, and those that a region holds are present.
  pub record Populated (memory : List Region) (j : ZoneType) (lo hi : ℕ) (k' : Kernel)
      : Type 0 where
    pub spanned : (k'.node.node_zones j).spanned_pages + lo ≡ hi
    pub there : (k'.node.node_zones j).present_pages ≡ count (present memory) lo (hi - lo)
    pub managed : (k'.node.node_zones j).managed_pages ≤ (k'.node.node_zones j).present_pages
    pub placed : lo ≢ hi → Placed (hi - lo) lo (k'.node.node_zones j)
    pub paged : Paged c j 0 lo hi k'.memmap.page

  -- The two zones, split at `split`, and the counts of the node.
  pub record Booted (memory : List Region) (start split end : ℕ) (k' : Kernel) : Type 0 where
    pub dma : Populated memory zone_dma start split k'
    pub normal : Populated memory zone_normal split end k'
    pub movable : (k'.node.node_zones zone_movable).spanned_pages ≡ 0
    pub all_spanned : k'.node.node_spanned_pages + start ≡ end
    pub all_present :
        k'.node.node_present_pages
        ≡ count (present memory) start (split - start) + count (present memory) split (end - split)

  Laid-Booted :
      (memory : List Region) (start split end dma normal dma_hole normal_hole : ℕ) (k' : Kernel)
      → Laid c 0 start dma normal dma_hole normal_hole k'
      → dma + start ≡ split
      → normal + split ≡ end
      → dma_hole + count (present memory) start (split - start) ≡ dma
      → normal_hole + count (present memory) split (end - split) ≡ normal
      → Booted memory start split end k'
  Laid-Booted memory start split end dma normal dma_hole normal_hole k' l e f x y =
      let low : dma ≡ split - start = omega arith in
      let high : normal ≡ end - split = omega arith in
      let from : start + dma ≡ split = omega arith in
      record {
        dma = record {
          spanned = omega (arith, l.dma_counted.spanned);
          there = omega (arith, l.dma_counted.present);
          managed = l.dma_counted.managed;
          placed = λ h.
              subst (λ n. Placed n start (k'.node.node_zones zone_dma)) low
                (l.dma_placed (λ z. h (omega arith)));
          paged = λ q u v. l.dma_paged q u (omega arith);
        };
        normal = record {
          spanned = omega (arith, l.normal_counted.spanned);
          there = omega (arith, l.normal_counted.present);
          managed = l.normal_counted.managed;
          placed = λ h.
              subst (λ n. Placed n split (k'.node.node_zones zone_normal)) high
                (rw from at (l.normal_placed (λ z. h (omega arith))));
          paged = λ q u v. l.normal_paged q (omega arith) (omega arith);
        };
        movable = l.movable_counted.spanned;
        all_spanned = omega (arith, l.totals.0);
        all_present = omega (arith, l.totals.0, l.totals.1);
      }

  -- `zone_sizes_init` and what it calls, on a map read as frames.
  pub zone_sizes_init-Booted :
      (memory : List Region) (limit start end : ℕ) (k : Kernel)
      → FrameChain start memory
      → start ≤ pfn_down limit
      → pfn_down limit ≤ end
      → end < 2 ^ 52
      → Sections c heap start end k.memmap
      → Returns
          (Booted memory start (pfn_down limit) end)
          (zone_sizes_init c memory limit start end k)
  unfolding zone_sizes_init
  zone_sizes_init-Booted memory limit start end k f a b w h =
      let split : ℕ = pfn_down limit in
      let (x, y) = zhole_size-Holes start end split a b memory f w in
      let low : zone_size start end split zone_dma + start ≡ split = omega arith in
      let high : zone_size start end split zone_normal + split ≡ end = omega arith in
      Returns-map _ (Booted memory start split end) _
        (λ k' l. Laid-Booted memory start split end _ _ _ _ k' l low high x y)
        (free_area_init_node-Laid c heap 0 start (zone_size start end split)
          (zhole_size start end split memory) k refl (zhole_size-movable start end split memory)
          (omega arith) (omega arith) (omega arith) λ q u v. h q u (omega arith))

  -- `bootmem_init`, where the memory regions are a chain (not empty, ascending, without overlap,
  -- ending within 64 bits), each starts at least a page below 2 ^ 64 and is not strictly inside one
  -- frame, `arm64_dma_phys_limit` lies within the memory, an allocation of a wait table does not
  -- fail, and `arm64_memory_present` and `sparse_init` return with a bitmap for the section of each
  -- valid frame: it returns, and meets no `BUG_ON`; the DMA zone spans the frames up to the limit
  -- and the normal zone those from there on; in each, the present pages are exactly the frames that
  -- a memory region holds, the managed pages are no more than these, a zone that is not empty starts
  -- at its first frame and has a wait table of the right size with empty queues, and the page of
  -- every valid frame is set up for its zone; the movable zone is empty; the totals of the node are
  -- those of the zones; and `max_pfn` is the last frame.
  pub bootmem_init-Booted :
      (arm64_memory_present sparse_init : Kernel → Run Kernel) (r : Region) (rs : List Region)
      (limit end : ℕ) (k : Kernel)
      → Chain 0 (r ∷ rs)
      → Framed (r ∷ rs)
      → end_of_dram (r ∷ rs) ≡ some end
      → base_pfn r ≤ pfn_down limit
      → pfn_down limit ≤ pfn_down end
      → Returns
          (λ k1. Sections c heap (base_pfn r) (pfn_down end) k1.memmap)
          (arm64_memory_present k >>= sparse_init)
      → Returns
          (λ (k', max_pfn).
            Booted (r ∷ rs) (base_pfn r) (pfn_down limit) (pfn_down end) k'
            × (max_pfn ≡ pfn_down end))
          (bootmem_init c arm64_memory_present sparse_init (r ∷ rs) limit k)
  unfolding bootmem_init
  bootmem_init-Booted arm64_memory_present sparse_init r rs limit end k ch fr e a b sections =
      rw (e, bootmem_init)
        (Returns->>=->>= (λ k1. Sections c heap (base_pfn r) (pfn_down end) k1.memmap) _ _ _ _
          sections
          λ k1 h.
            Returns->>= (Booted (r ∷ rs) (base_pfn r) (pfn_down limit) (pfn_down end)) _ _ _
              (zone_sizes_init-Booted (r ∷ rs) limit (base_pfn r) (pfn_down end) k1
                (frames_from r rs ch fr) a b (omega (arith, end_of_dram-lt r rs end e)) h)
              λ k' x. (x, refl))
