-- ===== src/Sparse/Backed.antt =====
-- What an allocation of `memblock_virt_alloc_internal` (mm/sparse_init.c) is worth.
use study_notes.Common.{
  ℕ, ◌+◌, ◌-◌, ◌^◌, ◌%◌, ◌≤◌, ◌<◌, ◌≡◌, ◌≢◌, refl, min, max, true, false, ◌||◌, inl, inr, ◌⊎◌, ◌==◌,
  if◌then◌else◌, ltb, ullong_max, Bool-cases, Returns, Returns->>=->>=, arith,
}
use study_notes.Memblock.Region.{MemblockType, Code, success, enomem, max_numnodes}
use study_notes.Memblock.Api.{Memblock, find_in_range_node, memblock_reserve}
use study_notes.Memblock.Chain.{IsValid, covers, within}
use study_notes.Memblock.Add.{add_range}
use study_notes.Memblock.Grow.{Grows}
use study_notes.Memblock.AddRange.{Added, add_range-Added}
use study_notes.Memblock.Alloc.{IsPlatform, find_in_range_node-Found}
use study_notes.Sparse.Virt.{
  Backing, find_on_nodes, find_anywhere, reserve_found, memblock_virt_alloc_internal,
}

-- An aligned block of free memory, behind the first page.
pub record IsBlock (b : Backing) (m : Memblock) (size k min_addr limit a : ℕ) : Type 0 where
  pub aligned : a % 2 ^ k ≡ 0
  pub above : b.platform.page_size ≤ a
  pub below : a + size ≤ max (max min_addr b.platform.page_size) limit
  pub fits : a + size ≤ ullong_max
  pub free :
      (x : ℕ)
      → a ≤ x
      → x < a + size
      → (covers x m.memory.regions ≡ true) × (covers x m.reserved.regions ≡ false)

abbrev pub limit_of : Memblock → ℕ → ℕ
limit_of m max_addr = if max_addr == 0 then m.current_limit else max_addr

module _ (b : Backing) (law : IsPlatform b.platform) where
  find-IsBlock :
      (m : Memblock) (size k min_addr max_addr nid : ℕ)
      → 0 < size
      → find_in_range_node b.platform m size (2 ^ k) min_addr max_addr nid ≢ 0
      → IsBlock b m size k min_addr
          (limit_of m max_addr)
          (find_in_range_node b.platform m size (2 ^ k) min_addr max_addr nid)
  find-IsBlock m size k min_addr max_addr nid q h =
      let f = find_in_range_node-Found b.platform law m size k min_addr max_addr nid q h in
      let free = law.free m.memory m.reserved nid _ _ f.inside in
      record {
        aligned = f.aligned;
        above = omega (arith, f.above);
        below = f.below;
        fits = free.0;
        free = free.1;
      }

  on_nodes-IsBlock :
      (m : Memblock) (size k min_addr max_addr nid : ℕ)
      → 0 < size
      → find_on_nodes b m size (2 ^ k) min_addr max_addr nid ≢ 0
      → IsBlock b m size k min_addr
          (limit_of m max_addr)
          (find_on_nodes b m size (2 ^ k) min_addr max_addr nid)
  unfolding find_on_nodes
  on_nodes-IsBlock m size k min_addr max_addr nid q h = elim (Bool-cases (own == 0)) [
    | inl e ↦ elim (Bool-cases (nid == b.platform.numa_no_node)) [
      | inl any ↦ absurd (h (rw (e, any) refl))
      | inr one ↦
          rw (e, one)
            (find-IsBlock m size k min_addr max_addr b.platform.numa_no_node q (rw (e, one) at h))
    ]
    | inr e ↦ rw e (find-IsBlock m size k min_addr max_addr nid q (rw e at h))
  ]
    where
      own : ℕ
      own = find_in_range_node b.platform m size (2 ^ k) min_addr max_addr nid

  anywhere-IsBlock :
      (m : Memblock) (size k min_addr max_addr nid : ℕ)
      → 0 < size
      → find_anywhere b m size (2 ^ k) min_addr max_addr nid ≢ 0
      → IsBlock b m size k min_addr
          (limit_of m max_addr)
          (find_anywhere b m size (2 ^ k) min_addr max_addr nid)
  unfolding find_anywhere
  anywhere-IsBlock m size k min_addr max_addr nid q h = elim (Bool-cases (near == 0)) [
    | inl e ↦ elim (Bool-cases (min_addr == 0)) [
      | inl none_left ↦ absurd (h (rw (e, none_left) refl))
      | inr lower ↦
          let low = on_nodes-IsBlock m size k 0 max_addr nid q (rw (e, lower) at h) in
          rw (e, lower)
            (record {
              aligned = low.aligned;
              above = low.above;
              below = omega (arith, low.below);
              fits = low.fits;
              free = low.free;
            })
    ]
    | inr e ↦ rw e (on_nodes-IsBlock m size k min_addr max_addr nid q (rw e at h))
  ]
    where
      near : ℕ
      near = find_on_nodes b m size (2 ^ k) min_addr max_addr nid

  -- Nothing of the size can be had from `start` on, on the node or on any.
  abbrev pub Full : Memblock → ℕ → ℕ → ℕ → ℕ → ℕ → Type 0
  Full m size k start max_addr nid =
      (find_in_range_node b.platform m size (2 ^ k) start max_addr nid ≡ 0)
      × (find_in_range_node b.platform m size (2 ^ k) start max_addr b.platform.numa_no_node ≡ 0)

  on_nodes-Full :
      (m : Memblock) (size k min_addr max_addr nid : ℕ)
      → find_on_nodes b m size (2 ^ k) min_addr max_addr nid ≡ 0
      → Full m size k min_addr max_addr nid
  unfolding find_on_nodes
  on_nodes-Full m size k min_addr max_addr nid h = ground arith

  anywhere-Full :
      (m : Memblock) (size k min_addr max_addr nid : ℕ)
      → find_anywhere b m size (2 ^ k) min_addr max_addr nid ≡ 0
      → Full m size k min_addr max_addr nid × Full m size k 0 max_addr nid
  unfolding find_anywhere
  anywhere-Full m size k min_addr max_addr nid h =
      ground
        (arith, on_nodes-Full m size k min_addr max_addr nid, on_nodes-Full m size k 0 max_addr nid)

  -- Null, with no block left for the request and nothing changed; or a block that was free, and is now
  -- reserved unless `reserved` could not grow. The memory map is as before.
  pub record VirtAllocated (m : Memblock) (size k min_addr max_addr nid : ℕ) (out : Memblock × ℕ)
      : Type 0 where
    pub memory : out.0.memory ≡ m.memory
    pub valid : IsValid out.0.reserved
    pub block : out.1 ≢ 0 → IsBlock b m size k min_addr (limit_of m max_addr) out.1
    pub reserved :
        out.1 ≢ 0
        → ((x : ℕ)
            → covers x out.0.reserved.regions
              ≡ (within out.1 (out.1 + size) x || covers x m.reserved.regions))
          ⊎ (out.0.reserved.regions ≡ m.reserved.regions)
    pub failed :
        out.1 ≡ 0 → (out.0 ≡ m) × Full m size k min_addr max_addr nid × Full m size k 0 max_addr nid

  module _ (grows : Grows b.double_array) where
    Added-VirtAllocated :
        (m : Memblock) (size k min_addr max_addr nid alloc : ℕ) (t : MemblockType) (code : Code)
        → alloc ≢ 0
        → IsBlock b m size k min_addr (limit_of m max_addr) alloc
        → Added m.reserved alloc (alloc + min size (ullong_max - alloc)) (t, code)
        → VirtAllocated m size k min_addr max_addr nid (record m { reserved = t }, alloc)
    Added-VirtAllocated m size k min_addr max_addr nid alloc t code h block a = record {
      memory = refl;
      valid = a.valid;
      block = λ _. block;
      reserved = λ _. by_code code refl;
      failed = λ z. absurd (h z);
    }
      where
        whole : min size (ullong_max - alloc) ≡ size
        whole = omega (arith, block.fits)

        by_code :
            (c : Code)
            → code ≡ c
            → ((x : ℕ)
                → covers x t.regions
                  ≡ (within alloc (alloc + size) x || covers x m.reserved.regions))
              ⊎ (t.regions ≡ m.reserved.regions)
        by_code success e = inl (rw whole at (a.covered e))
        by_code enomem e = inr (a.kept e)

    reserve_found-VirtAllocated :
        (m : Memblock) (size k min_addr max_addr nid : ℕ)
        → IsValid m.reserved
        → 0 < size
        → Returns
            (VirtAllocated m size k min_addr max_addr nid)
            (reserve_found b m size (find_anywhere b m size (2 ^ k) min_addr max_addr nid))
    unfolding reserve_found memblock_reserve
    reserve_found-VirtAllocated m size k min_addr max_addr nid v q =
        elim (Bool-cases (alloc == 0)) [
          | inl e ↦
              rw (e, reserve_found)
                (record {
                  memory = refl;
                  valid = v;
                  block = λ h. absurd (h refl);
                  reserved = λ h. absurd (h refl);
                  failed = λ _.
                      let full = anywhere-Full m size k min_addr max_addr nid (ground arith) in
                      (refl, full.0, full.1);
                })
          | inr e ↦
              let block = anywhere-IsBlock m size k min_addr max_addr nid q (ground arith) in
              rw (e, reserve_found)
                (Returns->>=->>= (Added m.reserved alloc (alloc + min size (ullong_max - alloc)))
                  (VirtAllocated m size k min_addr max_addr nid)
                  (add_range b.double_array m.reserved alloc size max_numnodes 0) _ _
                  (add_range-Added b.double_array grows m.reserved alloc size _ _ v
                    (omega (arith, block.fits)))
                  λ (t, code) a.
                    Added-VirtAllocated m size k min_addr max_addr nid alloc t code (ground arith)
                      block a)
        ]
      where
        alloc : ℕ
        alloc = find_anywhere b m size (2 ^ k) min_addr max_addr nid

    clamped :
        (max_addr limit : ℕ) → (if ltb limit max_addr then limit else max_addr) ≡ min max_addr limit
    clamped max_addr limit = ground arith

    -- `memblock_virt_alloc_internal` for `size` > 0 bytes while the slab allocator is not up, with an
    -- alignment (SMP_CACHE_BYTES for 0) that is a power of two, on a `reserved` in order, on a platform
    -- whose free ranges are memory that is not reserved, with a `memblock_double_array` that keeps the
    -- entries and adds room: it returns, and leaves the memory map alone and `reserved` in order. An
    -- address other than null is an aligned block of free memory behind the first page that ends within
    -- `max_addr` (the current limit for 0, and never more), or within the first page or `min_addr`
    -- where these lie above it. Either the block has been added to what is reserved, and nothing
    -- else, or the entries of `reserved` are as before. Null means that nothing has changed and that
    -- neither the node nor any other has room, from `min_addr` on or from 0 on.
    pub memblock_virt_alloc_internal-VirtAllocated :
        (m : Memblock) (size align k min_addr max_addr nid : ℕ)
        → IsValid m.reserved
        → b.slab_is_available ≡ false
        → 0 < size
        → (if align == 0 then b.platform.smp_cache_bytes else align) ≡ 2 ^ k
        → Returns
            (VirtAllocated m size k min_addr
              (min max_addr m.current_limit)
              (if nid == max_numnodes then b.platform.numa_no_node else nid))
            (memblock_virt_alloc_internal b m size align min_addr max_addr nid)
    unfolding memblock_virt_alloc_internal
    memblock_virt_alloc_internal-VirtAllocated m size align k min_addr max_addr nid v early q al =
        simp early (
          rw (al, clamped)
            (reserve_found-VirtAllocated m size k min_addr (min max_addr m.current_limit)
              (if nid == max_numnodes then b.platform.numa_no_node else nid) v q))
