-- ===== src/Reserved/Allocate.antt =====
-- Nodes with a `size` property: `__reserved_mem_alloc_size` and what it calls.
use study_notes.Common.{
  ℕ, zero, suc, ◌-◌, ◌*◌, ◌%◌, List, Option, none, some, Bool, true, false, ltb, ◌==◌,
  if◌then◌else◌, add64, Run, done, spent, ◌>>=◌,
}
use study_notes.Memblock.Region.{MemblockType, Code, success}
use study_notes.Memblock.Region as Region
use study_notes.Memblock.Api.{Memblock, Platform, alloc_base, memblock_free, memblock_remove}
use study_notes.Reserved.Tree.{
  size_prop, no_map, alignment, alloc_ranges, Errno, ok, einval, enomem, Fdt,
}
use study_notes.Reserved.Reserve.{has_prop, t_len}

-- 0 or -ENOMEM among the codes of this file.
abbrev pub errno : Code → Errno
errno success = ok
errno Region.enomem = enomem

abbrev pub is_ok : Errno → Bool
is_ok ok = true
is_ok _ = false

-- The alignment, 0 without the property; `none` is -EINVAL.
unfoldable pub read_alignment : Fdt → ℕ → Option ℕ
read_alignment fdt node = elim (fdt.get_prop node alignment) [
  | none ↦ some 0
  | some a ↦
      if a.len == fdt.root_addr_cells * 4
      then some (fdt.next_cell fdt.root_addr_cells a.cells).0
      else none
]

module _ (p : Platform) (double_array : MemblockType → ℕ → ℕ → Option MemblockType) where
  -- The block that was allocated, against the window and `nomap`. It is `*res_base` from then on, also
  -- where its removal fails.
  unfoldable pub take_block : Memblock → ℕ → ℕ → Bool → ℕ → ℕ → Run (Memblock × ℕ × Errno)
  take_block m size start nomap res_base base =
      if ltb base start
      then (memblock_free double_array m base size >>= λ (m', _). done (m', res_base, enomem))
      else if nomap
      then (memblock_remove double_array m base size >>= λ (m', code). done (m', base, errno code))
      else done (m, base, ok)

  -- `early_init_dt_alloc_reserved_memory_arch`, which also returns what stands in `*res_base`.
  unfoldable pub alloc_reserved_arch :
      Memblock → ℕ → ℕ → ℕ → ℕ → Bool → ℕ → Run (Memblock × ℕ × Errno)
  alloc_reserved_arch m size align start end nomap res_base =
      alloc_base p double_array m size align end >>= λ (m', base).
      if base == 0
      then done (m', res_base, enomem)
      else take_block m' size start nomap res_base base

  module _ (fdt : Fdt) where
    -- `while (len > 0)`, over the windows of `alloc-ranges`, up to the first that has room.
    unfoldable pub alloc_loop : ℕ → ℕ → ℕ → Bool → ℕ → List ℕ → Memblock → ℕ → Run (Memblock × ℕ)
    alloc_loop zero size align nomap len prop m base = spent
    alloc_loop (suc fuel) size align nomap len prop m base = elim (len == 0) [
      | true ↦ done (m, base)
      | false ↦
          let (start, prop') = fdt.next_cell fdt.root_addr_cells prop in
          let (room, prop'') = fdt.next_cell fdt.root_size_cells prop' in
          alloc_reserved_arch m size align start (add64 start room) nomap base
          >>= λ (m', base', ret). elim (is_ok ret) [
            | true ↦ done (m', base')
            | false ↦ alloc_loop fuel size align nomap (len - t_len fdt) prop'' m' base'
          ]
    ]

    -- The allocation by `alloc-ranges`, or anywhere. `none` is -EINVAL.
    unfoldable pub alloc_anywhere : ℕ → ℕ → ℕ → Bool → Memblock → Run (Option (Memblock × ℕ))
    alloc_anywhere node size align nomap m = elim (fdt.get_prop node alloc_ranges) [
      | none ↦
          alloc_reserved_arch m size align 0 0 nomap 0 >>= λ (m', base, _). done (some (m', base))
      | some r ↦
          let loop = alloc_loop (suc r.len) size align nomap r.len r.cells m 0 in
          if r.len % t_len fdt == 0 then (loop >>= λ out. done (some out)) else done none
    ]

    -- `__reserved_mem_alloc_size`: the base and the size, where the code is 0.
    unfoldable pub alloc_size : ℕ → Memblock → Run (Memblock × Option (ℕ × ℕ) × Errno)
    alloc_size node m = elim (fdt.get_prop node size_prop) [
      | none ↦ done (m, none, einval)
      | some s ↦
          let size = (fdt.next_cell fdt.root_size_cells s.cells).0 in
          elim (s.len == fdt.root_size_cells * 4) [
            | false ↦ done (m, none, einval)
            | true ↦ elim (read_alignment fdt node) [
              | none ↦ done (m, none, einval)
              | some align ↦ alloc_anywhere node size align (has_prop fdt node no_map) m >>= λ out.
                  elim out [
                    | none ↦ done (m, none, einval)
                    | some (m', base) ↦
                        if base == 0
                        then done (m', none, enomem)
                        else done (m', some (base, size), ok)
                  ]
            ]
          ]
    ]
