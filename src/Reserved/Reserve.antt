-- ===== src/Reserved/Reserve.antt =====
-- Nodes with a `reg` property: `__reserved_mem_reserve_reg` and what it calls.
use study_notes.Common.{
  ℕ, zero, suc, ◌+◌, ◌-◌, ◌*◌, ◌%◌, List, [], ◌∷◌, ◌++◌, Option, none, some, Bool, true, false, not,
  ◌&&◌, length, leb, ◌==◌, if◌then◌else◌, Run, done, spent, ◌>>=◌,
}
use study_notes.Memblock.Region.{MemblockType, Code}
use study_notes.Memblock.Api.{Memblock, memblock_reserve, memblock_remove}
use study_notes.Reserved.Tree.{Name, reg_prop, no_map, State, Errno, ok, einval, enoent, Fdt}

-- `of_get_flat_dt_prop(node, name, NULL) != NULL`
abbrev pub has_prop : Fdt → ℕ → Name → Bool
has_prop fdt node name = elim (fdt.get_prop node name) [ none ↦ false | some _ ↦ true ]

-- `t_len`: the bytes of an address and a size, a cell having four.
abbrev pub t_len : Fdt → ℕ
t_len fdt = (fdt.root_addr_cells + fdt.root_size_cells) * 4

-- `fdt_reserved_mem_save_node`
unfoldable pub save_node : Fdt → State → ℕ → Name → ℕ → ℕ → State
save_node fdt s node uname base size =
    if length s.reserved_mem == fdt.max_regions then s else record s {
      reserved_mem =
          s.reserved_mem
          ++ record { fdt_node = node; name = uname; base = base; size = size; phandle = 0 } ∷ [];
    }

module _ (double_array : MemblockType → ℕ → ℕ → Option MemblockType) where
  -- `early_init_dt_reserve_memory_arch`
  unfoldable pub reserve_memory_arch : Memblock → ℕ → ℕ → Bool → Run (Memblock × Code)
  reserve_memory_arch m base size nomap =
      if nomap
      then memblock_remove double_array m base size
      else memblock_reserve double_array m base size

  module _ (fdt : Fdt) where
    -- The area is reserved if it is not empty; what comes of it is only printed. The first one is saved.
    unfoldable pub reserve_one : ℕ → Name → Bool → ℕ → ℕ → Bool → State → Run State
    reserve_one node uname nomap base size first s =
        (if size == 0
          then done s
          else reserve_memory_arch s.memblock base size nomap >>= λ (m, _).
              done (record s { memblock = m }))
        >>= λ s'. done (if first then save_node fdt s' node uname base size else s')

    -- `while (len >= t_len)`
    unfoldable pub reserve_loop : ℕ → ℕ → Name → Bool → Bool → ℕ → List ℕ → State → Run State
    reserve_loop zero node uname nomap first len prop s = spent
    reserve_loop (suc fuel) node uname nomap first len prop s = elim (leb (t_len fdt) len) [
      | false ↦ done s
      | true ↦
          let (base, prop') = fdt.next_cell fdt.root_addr_cells prop in
          let (size, prop'') = fdt.next_cell fdt.root_size_cells prop' in
          reserve_one node uname nomap base size first s
          >>= reserve_loop fuel node uname nomap false (len - t_len fdt) prop''
    ]

    -- `__reserved_mem_reserve_reg`
    unfoldable pub reserve_reg : ℕ → Name → State → Run (State × Errno)
    reserve_reg node uname s = elim (fdt.get_prop node reg_prop) [
      | none ↦ done (s, enoent)
      | some p ↦
          let loop =
            reserve_loop (suc p.len) node uname (has_prop fdt node no_map) true p.len p.cells s in
          if not (p.len == 0) && not (p.len % t_len fdt == 0)
          then done (s, einval)
          else loop >>= λ s'. done (s', ok)
    ]
