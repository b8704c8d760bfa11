-- ===== src/Reserved/Scan.antt =====
-- The scan of the device tree and the two passes over what it found: `__fdt_scan_reserved_mem`,
-- `fdt_init_reserved_mem`, `early_init_fdt_scan_reserved_mem`, and `arm64_memblock_init` that calls them.
use study_notes.Common.{
  ℕ, zero, suc, ◌/◌, List, [], ◌∷◌, Option, none, some, Bool, true, false, not, ◌&&◌, ltb, ◌==◌,
  if◌then◌else◌, add64, Run, done, spent, ◌>>=◌,
}
use study_notes.Memblock.Region.{MemblockType}
use study_notes.Memblock.Api.{Memblock, Platform, memblock_reserve, enforce_memory_limit}
use study_notes.Reserved.Tree.{
  Name, phandle_prop, linux_phandle, size_prop, status, reserved_memory, ReservedMem, State, Errno,
  ok, enoent, Declared, Fdt,
}
use study_notes.Reserved.Reserve.{has_prop, save_node, reserve_memory_arch, reserve_reg}
use study_notes.Reserved.Allocate.{is_ok, alloc_size}

-- `strcmp(uname, "reserved-memory") == 0`
abbrev pub is_reserved_memory : Name → Bool
is_reserved_memory reserved_memory = true
is_reserved_memory _ = false

abbrev pub is_enoent : Errno → Bool
is_enoent enoent = true
is_enoent _ = false

-- A node is left out if it has a status that is neither "okay" nor "ok".
abbrev pub is_disabled : Fdt → ℕ → Bool
is_disabled fdt node = elim (fdt.get_prop node status) [
  | none ↦ false
  | some p ↦ not (fdt.is_okay p)
]

-- `__reserved_mem_init_node`: the first declaration that fits and succeeds.
unfoldable pub init_node : Fdt → List Declared → ReservedMem → ReservedMem × Errno
init_node fdt [] rmem = (rmem, enoent)
init_node fdt (d ∷ ds) rmem =
    let (rmem', succeeded) = d.initfn rmem in
    let next = init_node fdt ds rmem in
    let failed = init_node fdt ds rmem' in
    if not (fdt.is_compatible rmem.fdt_node d.compatible)
    then next
    else if succeeded
    then (rmem', ok)
    else failed

-- The phandle of the node, if it has one under either name.
unfoldable pub read_phandle : Fdt → ReservedMem → ReservedMem
read_phandle fdt rmem = elim (fdt.get_prop rmem.fdt_node phandle_prop) [
  | some p ↦ record rmem { phandle = fdt.read_number p.cells (p.len / 4) }
  | none ↦ elim (fdt.get_prop rmem.fdt_node linux_phandle) [
    | some p ↦ record rmem { phandle = fdt.read_number p.cells (p.len / 4) }
    | none ↦ rmem
  ]
]

-- Where `__reserved_mem_alloc_size` wrote the base and the size.
abbrev pub place : Option (ℕ × ℕ) → ReservedMem → ReservedMem
place none rmem = rmem
place (some (base, size)) rmem = record rmem { base = base; size = size }

module _ (double_array : MemblockType → ℕ → ℕ → Option MemblockType) (fdt : Fdt) where
  -- `__fdt_scan_reserved_mem`, behind the tests on where the node stands.
  unfoldable pub scan_node : ℕ → Name → State → Run (State × Bool)
  scan_node node uname s =
      if is_disabled fdt node
      then done (s, false)
      else (reserve_reg double_array fdt node uname s >>= λ (s', err). done (
        if is_enoent err && has_prop fdt node size_prop
            then save_node fdt s' node uname 0 0
            else s',
        false,
      ))

  -- The result says whether the scan is to stop.
  unfoldable pub scan_reserved_mem : ℕ → Name → ℕ → State → Run (State × Bool)
  scan_reserved_mem node uname depth s =
      let below = scan_node node uname s in
      if not s.found && (depth == 1) && is_reserved_memory uname
      then (if fdt.check_root node then done (record s { found = true }, false) else done (s, true))
      else if not s.found
      then done (s, false)
      else if ltb depth 2
      then done (s, true)
      else below

  -- The loop over /memreserve/, to the first entry of size 0.
  unfoldable pub mem_rsv_loop : ℕ → ℕ → Memblock → Run Memblock
  mem_rsv_loop zero n m = spent
  mem_rsv_loop (suc fuel) n m =
      let (base, size) = fdt.get_mem_rsv n in
      elim (size == 0) [
        | true ↦ done m
        | false ↦ reserve_memory_arch double_array m base size false >>= λ (m', _).
            mem_rsv_loop fuel (suc n) m'
      ]

  module _ (p : Platform) where
    -- A round of `fdt_init_reserved_mem`.
    unfoldable pub init_reserved_one : ReservedMem → Memblock → Run (Memblock × ReservedMem)
    init_reserved_one rmem0 m =
        let rmem = read_phandle fdt rmem0 in
        if rmem.size == 0
        then (alloc_size p double_array fdt rmem.fdt_node m >>= λ (m', out, err). done (
          m',
          if is_ok err then (init_node fdt fdt.declared (place out rmem)).0 else place out rmem,
        ))
        else done (m, (init_node fdt fdt.declared rmem).0)

    -- `fdt_init_reserved_mem`
    unfoldable pub init_reserved_mem :
        List ReservedMem → Memblock → Run (Memblock × List ReservedMem)
    init_reserved_mem [] m = done (m, [])
    init_reserved_mem (rmem ∷ rmems) m = init_reserved_one rmem m >>= λ (m', rmem').
        (init_reserved_mem rmems m' >>= λ (m'', rmems'). done (m'', rmem' ∷ rmems'))

    -- `early_init_fdt_scan_reserved_mem`: `dtb` is where the blob lies and its size, if there is one.
    unfoldable pub scan_and_init : ℕ → Option (ℕ × ℕ) → State → Run State
    scan_and_init fuel dtb s = elim dtb [
      | none ↦ done s
      | some (base, size) ↦
          reserve_memory_arch double_array s.memblock base size false >>= λ (m, _).
          (mem_rsv_loop fuel 0 m >>= λ m'.
          (fdt.scan scan_reserved_mem (record s { memblock = m' }) >>= λ s'.
          (init_reserved_mem s'.reserved_mem s'.memblock >>= λ (m'', rmems).
          done (record s' { memblock = m''; reserved_mem = rmems }))))
    ]

    -- `arm64_dma_phys_limit`, with ZONE_DMA or without.
    abbrev pub dma_phys_limit : Bool → ℕ → ℕ → ℕ
    dma_phys_limit zone_dma max_zone_dma phys_mask =
        if zone_dma then max_zone_dma else add64 phys_mask 1

    -- `arm64_memblock_init`: the kernel image and the initrd are given by where they lie and their
    -- sizes, and `dma_contiguous_reserve` is an argument.
    unfoldable pub arm64_memblock_init :
        ℕ
        → ℕ
        → ℕ × ℕ
        → Option (ℕ × ℕ)
        → Option (ℕ × ℕ)
        → ℕ
        → (ℕ → Memblock → Run Memblock)
        → State
        → Run State
    arm64_memblock_init fuel memory_limit (text, text_size) initrd dtb dma_limit dma_reserve s =
        enforce_memory_limit double_array s.memblock memory_limit >>= λ m1.
        (memblock_reserve double_array m1 text text_size >>= λ (m2, _).
        (elim initrd [
          | none ↦ done m2
          | some (start, size) ↦ memblock_reserve double_array m2 start size >>= λ (m, _). done m
        ]
          >>= λ m3.
              (scan_and_init fuel dtb (record s { memblock = m3 }) >>= λ s4.
              (dma_reserve dma_limit s4.memblock >>= λ m5. done (record s4 { memblock = m5 })))))
