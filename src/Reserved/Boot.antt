-- ===== src/Reserved/Boot.antt =====
-- The boot-time reservations as a whole: they end, and give up nothing.
use study_notes.Common.{
  ℕ, zero, suc, ◌+◌, ◌≤◌, ◌<◌, ◌≡◌, ◌≢◌, refl, List, [], ◌∷◌, false, ◌==◌, inl, inr, Option, none,
  some, ullong_max, length, Bool-cases, Returns, Returns->>=, arith,
}
use study_notes.Memblock.Region.{MemblockType}
use study_notes.Memblock.Api.{Memblock, Platform}
use study_notes.Memblock.Grow.{Grows}
use study_notes.Memblock.Alloc.{IsPlatform}
use study_notes.Reserved.Keeps.{
  Boot, Extends, Extends-refl, Extends-trans, reserve_memory_arch-Extends,
}
use study_notes.Reserved.Sized.{Sized, alloc_size-Sized}
use study_notes.Reserved.Tree.{ReservedMem, State, Fdt}
use study_notes.Reserved.Scan.{
  scan_reserved_mem, mem_rsv_loop, read_phandle, init_reserved_one, init_reserved_mem,
  scan_and_init,
}
use study_notes.Reserved.Since.{IsFdt, Since, scan_reserved_mem-Since}

module _ (double_array : MemblockType → ℕ → ℕ → Option MemblockType) (grows : Grows double_array)
    (fdt : Fdt) (law : IsFdt fdt) (m0 : Memblock) where
  mem_rsv_loop-Extends :
      (fuel n end : ℕ) (m : Memblock)
      → n ≤ end
      → end < n + fuel
      → (fdt.get_mem_rsv end).1 ≡ 0
      → Extends m0 m
      → Returns (Extends m0) (mem_rsv_loop double_array fdt fuel n m)
  unfolding mem_rsv_loop
  mem_rsv_loop-Extends zero n end m h f z x = absurd (omega arith)
  mem_rsv_loop-Extends (suc fuel) n end m h f z x = elim (Bool-cases ((fdt.get_mem_rsv n).1 == 0)) [
    | inl e ↦ rw (e, mem_rsv_loop) x
    | inr e ↦
        let more : n ≢ end = (λ y. let q : (fdt.get_mem_rsv n).1 ≡ 0 = rw y z in ground arith) in
        rw (e, mem_rsv_loop)
          (Returns->>= (λ o. Extends m o.0) (Extends m0) _ _
            (reserve_memory_arch-Extends double_array grows m _ _ false x.boot (law.rsv n))
            λ (m', code) y.
              mem_rsv_loop-Extends fuel (suc n) end m' (omega arith) (omega arith) z
                (Extends-trans m0 m m' x y))
  ]

  module _ (p : Platform) (platform : IsPlatform p) where
    init_reserved_one-Extends :
        (rmem : ReservedMem) (m : Memblock)
        → Boot m
        → Returns (λ o. Extends m o.0) (init_reserved_one double_array fdt p rmem m)
    unfolding init_reserved_one
    init_reserved_one-Extends rmem m b = elim (Bool-cases ((read_phandle fdt rmem).size == 0)) [
      | inr e ↦ rw e (Extends-refl m b)
      | inl e ↦ rw e (
          Returns->>= (Sized fdt (read_phandle fdt rmem).fdt_node m) _ _ _
            (alloc_size-Sized p platform double_array grows fdt law.wide
              (read_phandle fdt rmem).fdt_node m b)
            λ o k. k.extends)
    ]

    init_reserved_mem-Extends :
        (rmems : List ReservedMem) (m : Memblock)
        → Boot m
        → Returns
            (λ o. Extends m o.0 × (length o.1 ≡ length rmems))
            (init_reserved_mem double_array fdt p rmems m)
    unfolding init_reserved_mem
    init_reserved_mem-Extends [] m b = (Extends-refl m b, refl)
    init_reserved_mem-Extends (rmem ∷ rmems) m b =
        Returns->>= (λ o. Extends m o.0) _ _ _ (init_reserved_one-Extends rmem m b)
          λ (m', rmem') x.
            Returns->>= (λ o. Extends m' o.0 × (length o.1 ≡ length rmems)) _ _ _
              (init_reserved_mem-Extends rmems m' x.boot)
              λ (m'', rmems') (y, l). (Extends-trans m m' m'' x y, omega arith)

    -- `early_init_fdt_scan_reserved_mem`, where the device tree is as `IsFdt` says, the platform as
    -- `IsPlatform`, `memblock_double_array` as `Grows`, the blob starts at a 64-bit address and the
    -- list of `/memreserve/` entries ends with a size of 0 at an index below the fuel: it returns,
    -- and meets no `BUG_ON`; if since the map `m0` nothing reserved was given up, no memory
    -- appeared, and the arrays are in order and the table of reserved nodes holds no more than
    -- MAX_RESERVED_REGIONS, then the same holds afterwards.
    pub scan_and_init-Since :
        (fuel end : ℕ) (dtb : Option (ℕ × ℕ)) (s : State)
        → end < fuel
        → (fdt.get_mem_rsv end).1 ≡ 0
        → ((base size : ℕ) → dtb ≡ some (base, size) → base ≤ ullong_max)
        → Since double_array grows fdt law m0 s
        → Returns
            (Since double_array grows fdt law m0)
            (scan_and_init double_array fdt p fuel dtb s)
    unfolding scan_and_init
    scan_and_init-Since fuel end none s f z h i = i
    scan_and_init-Since fuel end (some (base, size)) s f z h i =
        Returns->>= (λ o. Extends s.memblock o.0) (Since double_array grows fdt law m0) _ _
          (reserve_memory_arch-Extends double_array grows s.memblock base size false i.extends.boot
            (h base size refl))
          λ (m, _) x.
            Returns->>= (Extends m0) (Since double_array grows fdt law m0) _ _
              (mem_rsv_loop-Extends fuel 0 end m (omega arith) (omega arith) z
                (Extends-trans m0 s.memblock m i.extends x))
              λ m' y.
                Returns->>= (Since double_array grows fdt law m0)
                  (Since double_array grows fdt law m0) _ _
                  (law.scans (scan_reserved_mem double_array fdt)
                    (Since double_array grows fdt law m0)
                    (scan_reserved_mem-Since double_array grows fdt law m0)
                    (record s { memblock = m' }) (record { extends = y; room = i.room }))
                  λ s' i'.
                    Returns->>=
                      (λ o. Extends s'.memblock o.0 × (length o.1 ≡ length s'.reserved_mem))
                      (Since double_array grows fdt law m0) _ _
                      (init_reserved_mem-Extends s'.reserved_mem s'.memblock i'.extends.boot)
                      λ (m'', rmems) (x', l). record {
                        extends = Extends-trans m0 s'.memblock m'' i'.extends x';
                        room = omega (arith, i'.room);
                      }
