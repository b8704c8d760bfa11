-- ===== src/Memblock/Isolate.antt =====
-- `memblock_isolate_range` and `memblock_remove_range` (mm/memblock.c).
use study_notes.Common.{
  ℕ, zero, suc, ◌+◌, Option, none, some, true, false, get_elem?, set, add64, sub64, Run, done,
  spent, ◌>>=◌, ltb, leb, ◌==◌, if◌then◌else◌,
}
use study_notes.Memblock.Region.{
  Region, MemblockType, cnt, region_end, Code, success, enomem, cap_size, insert_region,
  remove_region,
}
use study_notes.Memblock.Add.{ensure_room}

-- The array, the loop's `i`, `*start_rgn` and `*end_rgn`.
pub record Cut : Type 0 where
  pub type : MemblockType
  pub i : ℕ
  pub start_rgn : ℕ
  pub end_rgn : ℕ

-- The region `rgn` at `i` becomes its part from `at` on, and its part below `at` is inserted before it.
unfoldable pub split : MemblockType → ℕ → Region → ℕ → Run MemblockType
split t i rgn at =
    let below = sub64 at rgn.base in
    insert_region
      (record t {
        total_size = sub64 t.total_size below;
        regions = set t.regions i (record rgn { base = at; size = sub64 rgn.size below });
      })
      i rgn.base below rgn.nid rgn.flags

-- "@rgn is fully contained, record it"
abbrev pub contained : Cut → Cut
contained s = record s {
  i = s.i + 1;
  start_rgn = if s.end_rgn == 0 then s.i else s.start_rgn;
  end_rgn = s.i + 1;
}

module _ (base end : ℕ) where
  -- The `for` loop. Behind a split at `base` the next round is on the upper part; behind a split at
  -- `end`, where the source steps `i` back, it is on the lower part.
  unfoldable pub isolate_loop : ℕ → Cut → Run Cut
  isolate_loop zero s = spent
  isolate_loop (suc fuel) s = elim (get_elem? s.type.regions s.i) [
    | none ↦ done s
    | some rgn ↦ elim (leb end rgn.base) [
      | true ↦ done s
      | false ↦ elim (leb (region_end rgn) base) [
        | true ↦ isolate_loop fuel (record s { i = s.i + 1 })
        | false ↦ elim (ltb rgn.base base) [
          | true ↦ split s.type s.i rgn base >>= λ t.
              isolate_loop fuel (record s { type = t; i = s.i + 1 })
          | false ↦ elim (ltb end (region_end rgn)) [
            | true ↦ split s.type s.i rgn end >>= λ t. isolate_loop fuel (record s { type = t })
            | false ↦ isolate_loop fuel (contained s)
          ]
        ]
      ]
    ]
  ]

-- `for (i = end_rgn - 1; i >= start_rgn; i--) memblock_remove_region(type, i);`
unfoldable pub remove_loop : ℕ → ℕ → MemblockType → MemblockType
remove_loop zero start t = t
remove_loop (suc i) start t =
    let rest = remove_loop i start (remove_region t i) in if leb start i then rest else t

module _ (double_array : MemblockType → ℕ → ℕ → Option MemblockType) where
  -- The loop starts when there is room for two more regions.
  abbrev pub isolate_sized : MemblockType → ℕ → ℕ → ℕ → Run (Cut × Code)
  isolate_sized t base end size =
      ensure_room double_array (suc (cnt t + 2)) t 2 base size >>= λ (t', code). elim code [
        | enomem ↦ done (record { type = t'; i = 0; start_rgn = 0; end_rgn = 0 }, enomem)
        | success ↦
            isolate_loop base end (suc (cnt t' + 4))
              (record { type = t'; i = 0; start_rgn = 0; end_rgn = 0 })
            >>= λ s. done (s, success)
      ]

  unfoldable pub isolate_range : MemblockType → ℕ → ℕ → Run (Cut × Code)
  isolate_range t base size0 =
      let size = cap_size base size0 in
      let end = add64 base size in
      if size == 0
      then done (record { type = t; i = 0; start_rgn = 0; end_rgn = 0 }, success)
      else isolate_sized t base end size

  unfoldable pub remove_range : MemblockType → ℕ → ℕ → Run (MemblockType × Code)
  remove_range t base size = isolate_range t base size >>= λ (s, code). elim code [
    | enomem ↦ done (s.type, enomem)
    | success ↦ done (remove_loop s.end_rgn s.start_rgn s.type, success)
  ]
