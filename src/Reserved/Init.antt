-- ===== src/Reserved/Init.antt =====
-- `arm64_memblock_init`: the whole of what boot does to the memory map before paging.
use study_notes.Common.{
  ℕ, ◌+◌, ◌-◌, ◌≤◌, ◌<◌, ◌≡◌, refl, min, ◌==◌, inl, inr, Option, none, some, ullong_max, length,
  Bool-cases, Run, done, ◌>>=◌, Returns, Returns->>=, Returns-value,
}
use study_notes.Memblock.Region.{MemblockType}
use study_notes.Memblock.Api.{
  Memblock, Platform, memblock_reserve, enforce_memory_limit, max_address,
}
use study_notes.Memblock.Grow.{Grows}
use study_notes.Memblock.Alloc.{IsPlatform}
use study_notes.Memblock.RemoveRange.{Removed, remove_range-Removed}
use study_notes.Memblock.Limit.{max_address-le}
use study_notes.Reserved.Keeps.{Boot, Extends, Extends-trans, reserve-Extends}
use study_notes.Reserved.Tree.{State, Fdt}
use study_notes.Reserved.Scan.{arm64_memblock_init}
use study_notes.Reserved.Since.{IsFdt, Since}
use study_notes.Reserved.Boot.{scan_and_init-Since}

module _ (double_array : MemblockType → ℕ → ℕ → Option MemblockType)
    (grows : Grows double_array) where
  -- Whatever the limit is and whatever room there is.
  enforce_memory_limit-Boot :
      (m : Memblock) (limit : ℕ) → Boot m → Returns Boot (enforce_memory_limit double_array m limit)
  unfolding enforce_memory_limit
  enforce_memory_limit-Boot m limit b = elim (Bool-cases (limit == 0)) [
    | inl e ↦ rw e b
    | inr e ↦ rw e (
        Returns->>= (Removed m.memory top end) Boot _ _
          (remove_range-Removed double_array grows m.memory top ullong_max b.memory
            (max_address-le limit m.memory.regions))
          λ (t, code) r.
            Returns->>= (Removed m.reserved top end) Boot _ _
              (remove_range-Removed double_array grows m.reserved top ullong_max b.reserved
                (max_address-le limit m.memory.regions))
              λ (t', code') r'. record { memory = r.valid; reserved = r'.valid; limit = b.limit })
  ]
    where
      top : ℕ
      top = max_address limit m.memory.regions

      end : ℕ
      end = top + min ullong_max (ullong_max - top)

  module _ (fdt : Fdt) (law : IsFdt fdt) (p : Platform) (platform : IsPlatform p) where
    -- The map was truncated to `m1`; since then nothing that was reserved has been given up.
    pub record Booted (m : Memblock) (limit : ℕ) (s' : State) : Type 0 where
      pub truncated : Memblock
      pub limited : enforce_memory_limit double_array m limit ≡ done truncated
      pub since : Since double_array grows fdt law truncated s'

    -- `arm64_memblock_init`, on a map whose arrays are in order and a table of reserved nodes within
    -- MAX_RESERVED_REGIONS, where the device tree is as `IsFdt` says, the platform as `IsPlatform`,
    -- `memblock_double_array` as `Grows`, the list of `/memreserve/` entries ends with a size of 0
    -- at an index below the fuel, the kernel image, the initrd and the blob are at 64-bit addresses,
    -- and `dma_contiguous_reserve` returns, gives up nothing that is reserved and adds no memory: it
    -- returns; the map was truncated by `enforce_memory_limit`, and since then nothing that was
    -- reserved has been given up, no memory has appeared, the arrays are in order and the table of
    -- reserved nodes has not overflowed.
    pub arm64_memblock_init-Booted :
        (fuel end limit text text_size : ℕ) (initrd dtb : Option (ℕ × ℕ)) (dma_limit : ℕ)
        (dma_reserve : ℕ → Memblock → Run Memblock) (s : State)
        → Boot s.memblock
        → length s.reserved_mem ≤ fdt.max_regions
        → text ≤ ullong_max
        → ((base size : ℕ) → initrd ≡ some (base, size) → base ≤ ullong_max)
        → ((base size : ℕ) → dtb ≡ some (base, size) → base ≤ ullong_max)
        → end < fuel
        → (fdt.get_mem_rsv end).1 ≡ 0
        → ((m : Memblock) → Boot m → Returns (Extends m) (dma_reserve dma_limit m))
        → Returns (Booted s.memblock limit) (
            arm64_memblock_init double_array fdt p fuel limit
              (text, text_size)
              initrd
              dtb
              dma_limit
              dma_reserve
              s)
    unfolding arm64_memblock_init
    arm64_memblock_init-Booted fuel end limit text text_size initrd dtb dma_limit dma_reserve s b
          room ht hi hd f z dma =
        let (m1, e, b1) =
          Returns-value Boot (enforce_memory_limit double_array s.memblock limit)
            (enforce_memory_limit-Boot s.memblock limit b) in
        rw e (
          Returns->>= (λ o. Extends m1 o.0) _ _ _
            (reserve-Extends double_array grows m1 text text_size b1 ht)
            λ (m2, _) x2.
              Returns->>= (Extends m1) _ _ _ (initrd-Extends m1 m2 initrd hi x2) λ m3 x3.
                Returns->>= (Since double_array grows fdt law m1) _ _ _
                  (scan_and_init-Since double_array grows fdt law m1 p platform fuel end dtb
                    (record s { memblock = m3 }) f z hd (record { extends = x3; room = room }))
                  λ s4 i.
                    Returns->>= (Extends s4.memblock) _ _ _ (dma s4.memblock i.extends.boot)
                      λ m5 x5. record {
                        truncated = m1;
                        limited = e;
                        since = record {
                          extends = Extends-trans m1 s4.memblock m5 i.extends x5;
                          room = i.room;
                        };
                      })
      where
        initrd-Extends :
            (m1 m2 : Memblock) (initrd : Option (ℕ × ℕ))
            → ((base size : ℕ) → initrd ≡ some (base, size) → base ≤ ullong_max)
            → Extends m1 m2
            → Returns (Extends m1) (elim initrd [
              | none ↦ done m2
              | some (start, size) ↦
                  memblock_reserve double_array m2 start size >>= λ (m, _). done m
            ])
        initrd-Extends m1 m2 none h x = x
        initrd-Extends m1 m2 (some (start, size)) h x =
            Returns->>= (λ o. Extends m2 o.0) _ _ _
              (reserve-Extends double_array grows m2 start size x.boot (h start size refl))
              λ o y. Extends-trans m1 m2 o.0 x y
