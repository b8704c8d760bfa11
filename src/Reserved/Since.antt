-- ===== src/Reserved/Since.antt =====
-- The scan of the device tree for reserved nodes: it ends, and gives up nothing.
use study_notes.Common.{
  ℕ, zero, suc, ◌%◌, ◌≤◌, ◌<◌, ◌≡◌, ◌≢◌, refl, List, [], ◌∷◌, Bool, true, false, not, ◌&&◌, ◌==◌,
  inl, inr, Option, none, some, ullong_max, length, length-append, Bool-cases, ltb-cases, leb-cases,
  Run, Returns, Returns->>=, Returns->>=->>=, if◌then◌else◌, arith,
}
use study_notes.Memblock.Region.{MemblockType}
use study_notes.Memblock.Api.{Memblock}
use study_notes.Memblock.Grow.{Grows}
use study_notes.Reserved.Keeps.{Extends, Extends-trans, reserve_memory_arch-Extends}
use study_notes.Reserved.Tree.{Name, size_prop, reg_prop, no_map, Property, State, Fdt}
use study_notes.Reserved.Reserve.{
  has_prop, t_len, save_node, reserve_one, reserve_loop, reserve_reg,
}
use study_notes.Reserved.Scan.{
  is_disabled, is_reserved_memory, is_enoent, scan_node, scan_reserved_mem,
}

-- What is documented of the device tree's functions: an entry has some bytes; addresses fit in 64 bits;
-- and the scan is nothing but a sequence of calls.
pub record IsFdt (fdt : Fdt) : Type 1 where
  pub wide : 0 < t_len fdt
  pub cells : (n : ℕ) (prop : List ℕ) → (fdt.next_cell n prop).0 ≤ ullong_max
  pub rsv : (n : ℕ) → (fdt.get_mem_rsv n).0 ≤ ullong_max
  pub scans :
      (f : ℕ → Name → ℕ → State → Run (State × Bool)) (P : State → Type 0)
      → ((node : ℕ) (name : Name) (depth : ℕ) (s : State)
          → P s
          → Returns (λ o. P o.0) (f node name depth s))
      → (s : State) → P s
      → Returns P (fdt.scan f s)

module _ (double_array : MemblockType → ℕ → ℕ → Option MemblockType) (grows : Grows double_array)
    (fdt : Fdt) (law : IsFdt fdt) (m0 : Memblock) where
  -- The memory map since `m0`, and the table of reserved nodes, which does not overflow.
  pub record Since (s : State) : Type 0 where
    pub extends : Extends m0 s.memblock
    pub room : length s.reserved_mem ≤ fdt.max_regions

  save_node-Since :
      (s : State) (node : ℕ) (uname : Name) (base size : ℕ)
      → Since s
      → Since (save_node fdt s node uname base size)
  unfolding save_node
  save_node-Since s node uname base size i =
      elim (Bool-cases (length s.reserved_mem == fdt.max_regions)) [
        | inl e ↦ rw e i
        | inr e ↦
            let full : length s.reserved_mem ≢ fdt.max_regions = (λ h. ground arith) in
            rw e (record {
              extends = i.extends;
              room = omega (
                arith,
                i.room,
                length-append s.reserved_mem (
                    record { fdt_node = node; name = uname; base = base; size = size; phandle = 0 }
                    ∷ []),
              );
            })
      ]

  saved-Since :
      (first : Bool) (s : State) (node : ℕ) (uname : Name) (base size : ℕ)
      → Since s
      → Since (if first then save_node fdt s node uname base size else s)
  saved-Since true s node uname base size i = save_node-Since s node uname base size i
  saved-Since false s node uname base size i = i

  reserve_one-Since :
      (node : ℕ) (uname : Name) (nomap : Bool) (base size : ℕ) (first : Bool) (s : State)
      → base ≤ ullong_max
      → Since s
      → Returns Since (reserve_one double_array fdt node uname nomap base size first s)
  unfolding reserve_one
  reserve_one-Since node uname nomap base size first s h i = elim (Bool-cases (size == 0)) [
    | inl e ↦ rw e (saved-Since first s node uname base size i)
    | inr e ↦ rw e (
        Returns->>=->>= (λ o. Extends s.memblock o.0) _ _ _ _
          (reserve_memory_arch-Extends double_array grows s.memblock base size nomap i.extends.boot
            h)
          λ (m, code) x.
            saved-Since first (record s { memblock = m }) node uname base size
              (record { extends = Extends-trans m0 s.memblock m i.extends x; room = i.room }))
  ]

  reserve_loop-Since :
      (fuel node : ℕ) (uname : Name) (nomap first : Bool) (len : ℕ) (prop : List ℕ) (s : State)
      → len < fuel
      → Since s
      → Returns Since (reserve_loop double_array fdt fuel node uname nomap first len prop s)
  unfolding reserve_loop
  reserve_loop-Since zero node uname nomap first len prop s f i = absurd (omega arith)
  reserve_loop-Since (suc fuel) node uname nomap first len prop s f i =
      elim (leb-cases (t_len fdt) len) [
        | inr (e, o) ↦ rw (e, reserve_loop) i
        | inl (e, o) ↦
            rw (e, reserve_loop)
              (Returns->>= Since Since _ _
                (reserve_one-Since node uname nomap _ _ first s (law.cells fdt.root_addr_cells prop)
                  i)
                λ s' i'.
                  reserve_loop-Since fuel node uname nomap false _ _ s' (omega (arith, law.wide))
                    i')
      ]

  reserve_reg-Since :
      (node : ℕ) (uname : Name) (s : State)
      → Since s
      → Returns (λ o. Since o.0) (reserve_reg double_array fdt node uname s)
  unfolding reserve_reg
  reserve_reg-Since node uname s i = by_prop (fdt.get_prop node reg_prop) refl
    where
      by_prop :
          (found : Option Property)
          → fdt.get_prop node reg_prop ≡ found
          → Returns (λ o. Since o.0) (reserve_reg double_array fdt node uname s)
      by_prop none e = rw (e, reserve_reg) i
      by_prop (some q) e = elim (Bool-cases (not (q.len == 0) && not (q.len % t_len fdt == 0))) [
        | inl h ↦ rw (e, h, reserve_reg) i
        | inr h ↦
            rw (e, h, reserve_reg)
              (Returns->>= Since _ _ _
                (reserve_loop-Since (suc q.len) node uname (has_prop fdt node no_map) true q.len
                  q.cells s (omega arith) i)
                λ s' i'. i')
      ]

  node_saved-Since :
      (missing : Bool) (s : State) (node : ℕ) (uname : Name)
      → Since s
      → Since (if missing then save_node fdt s node uname 0 0 else s)
  node_saved-Since missing s node uname i = saved-Since missing s node uname 0 0 i

  scan_node-Since :
      (node : ℕ) (uname : Name) (s : State)
      → Since s
      → Returns (λ o. Since o.0) (scan_node double_array fdt node uname s)
  unfolding scan_node
  scan_node-Since node uname s i = elim (Bool-cases (is_disabled fdt node)) [
    | inl e ↦ rw e i
    | inr e ↦ rw e (
        Returns->>= (λ o. Since o.0) _ _ _ (reserve_reg-Since node uname s i)
          λ (s', err) i'.
            node_saved-Since (is_enoent err && has_prop fdt node size_prop) s' node uname i')
  ]

  pub scan_reserved_mem-Since :
      (node : ℕ) (uname : Name) (depth : ℕ) (s : State)
      → Since s
      → Returns (λ o. Since o.0) (scan_reserved_mem double_array fdt node uname depth s)
  unfolding scan_reserved_mem
  scan_reserved_mem-Since node uname depth s i =
      elim (Bool-cases (not s.found && (depth == 1) && is_reserved_memory uname)) [
        | inl e ↦ elim (Bool-cases (fdt.check_root node)) [
          | inl h ↦ rw (e, h) (record { extends = i.extends; room = i.room })
          | inr h ↦ rw (e, h) i
        ]
        | inr e ↦ elim (Bool-cases s.found) [
          | inr h ↦ rw (e, h) (record { extends = i.extends; room = i.room })
          | inl h ↦ elim (ltb-cases depth 2) [
            | inl (x, _) ↦ rw (e, h, x) (record { extends = i.extends; room = i.room })
            | inr (x, _) ↦
                rw (e, h, x)
                  (scan_node-Since node uname (record s { found = true })
                    (record { extends = i.extends; room = i.room }))
          ]
        ]
      ]
