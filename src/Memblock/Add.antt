-- ===== src/Memblock/Add.antt =====
-- `memblock_add_range` and its two passes (mm/memblock.c). `memblock_double_array` is not part of the
-- repository: it is the parameter `double_array`, whose `none` is a negative return.
use study_notes.Common.{
  ℕ, zero, suc, ◌+◌, List, [], ◌∷◌, Option, none, some, Bool, true, false, get_elem?, min, add64,
  sub64, Run, done, bug, spent, ◌>>=◌, ltb, leb, ◌==◌, if◌then◌else◌,
}
use study_notes.Memblock.Region.{
  Region, MemblockType, cnt, region_end, Code, success, enomem, cap_size, set_region_node,
  insert_region,
}
use study_notes.Memblock.Merge.{merge_regions}

-- The variables of the loop: the array, `i`, `base` and `nr_new`.
pub record Pass : Type 0 where
  pub type : MemblockType
  pub i : ℕ
  pub base : ℕ
  pub nr_new : ℕ

module _ (insert : Bool) (end nid flags : ℕ) where
  -- `nr_new++; if (insert) memblock_insert_region(type, i, base, size, nid, flags);`, where `i` is
  -- stepped over an inserted region.
  abbrev pub put : Pass → ℕ → Run Pass
  put s size = elim insert [
    | false ↦ done (record s { nr_new = s.nr_new + 1 })
    | true ↦ insert_region s.type s.i s.base size nid flags >>= λ t.
        done (record s { type = t; i = s.i + 1; nr_new = s.nr_new + 1 })
  ]

  -- The part of a round behind the two early exits, up to `base = min(rend, end)`.
  abbrev pub overlap : Pass → Region → Run Pass
  overlap s rgn = (if ltb s.base rgn.base then put s (sub64 rgn.base s.base) else done s) >>= λ s'.
      done (record s' { i = s'.i + 1; base = min (region_end rgn) end })

  -- The `for` loop.
  unfoldable pub pass_loop : ℕ → Pass → Run Pass
  pass_loop zero s = spent
  pass_loop (suc fuel) s = elim (get_elem? s.type.regions s.i) [
    | none ↦ done s
    | some rgn ↦ elim (leb end rgn.base) [
      | true ↦ done s
      | false ↦ elim (leb (region_end rgn) s.base) [
        | true ↦ pass_loop fuel (record s { i = s.i + 1 })
        | false ↦ overlap s rgn >>= pass_loop fuel
      ]
    ]
  ]

  -- "insert the remaining portion"
  abbrev pub remaining : Pass → Run Pass
  remaining s = if ltb s.base end then put s (sub64 end s.base) else done s

  -- One pass over the array, from `repeat:` on.
  unfoldable pub add_pass : MemblockType → ℕ → Run Pass
  add_pass t obase =
      pass_loop (suc (cnt t)) (record { type = t; i = 0; base = obase; nr_new = 0 }) >>= remaining

module _ (double_array : MemblockType → ℕ → ℕ → Option MemblockType) where
  -- `while (type->cnt + n > type->max) if (memblock_double_array(type, base, size) < 0) return -ENOMEM;`
  unfoldable pub ensure_room : ℕ → MemblockType → ℕ → ℕ → ℕ → Run (MemblockType × Code)
  ensure_room zero t n base size = spent
  ensure_room (suc fuel) t n base size = elim (ltb t.max (cnt t + n)) [
    | false ↦ done (t, success)
    | true ↦ elim (double_array t base size) [
      | none ↦ done (t, enomem)
      | some t' ↦ ensure_room fuel t' n base size
    ]
  ]

  -- The first pass counts, the array is resized, the second pass inserts, and the array is merged.
  abbrev pub add_passes : MemblockType → ℕ → ℕ → ℕ → ℕ → ℕ → Run (MemblockType × Code)
  add_passes t base end size nid flags = add_pass false end nid flags t base >>= λ s.
      ensure_room (suc (cnt t + s.nr_new)) t s.nr_new base size >>= λ (t', code). elim code [
        | enomem ↦ done (t', enomem)
        | success ↦ add_pass true end nid flags t' base >>= λ s'.
            merge_regions s'.type >>= λ t''. done (t'', success)
      ]

  -- "special case for empty array", by what `type->regions` holds, or the two passes.
  abbrev pub add_sized : List Region → MemblockType → ℕ → ℕ → ℕ → ℕ → ℕ → Run (MemblockType × Code)
  add_sized [] t base end size nid flags = bug
  add_sized (r ∷ rs) t base end size nid flags =
      let passes = add_passes t base end size nid flags in
      if r.size == 0
      then done (
        record t {
          total_size = size;
          regions =
              set_region_node (record { base = base; size = size; flags = flags; nid = r.nid }) nid
              ∷ rs;
        },
        success,
      )
      else passes

  unfoldable pub add_range : MemblockType → ℕ → ℕ → ℕ → ℕ → Run (MemblockType × Code)
  add_range t base size0 nid flags =
      let size = cap_size base size0 in
      let end = add64 base size in
      if size == 0 then done (t, success) else add_sized t.regions t base end size nid flags
