-- ===== src/Buddy/Pageblock.antt =====
-- The migrate type of a block of pages (`set_pageblock_migratetype` of mm/buddy.c). With CONFIG_SPARSEMEM
-- the bitmap is that of the section; without CONFIG_DEBUG_VM the assertions on the zone are empty.
use Prim.Native.Nat.{bit_and, bit_or}
use study_notes.Common.{
  ℕ, ◌+◌, ◌-◌, ◌*◌, ◌/◌, ◌%◌, ◌^◌, List, [], ◌∷◌, Option, none, some, ◌&&◌, ◌==◌, ltb,
  if◌then◌else◌, word, Run, done, bug, ullong_max,
}
use study_notes.Buddy.Zone.{Memmap, Config}

-- `~x`
abbrev pub not64 : ℕ → ℕ
not64 x = ullong_max - x

-- MIGRATE_UNMOVABLE and so on, without CONFIG_CMA and CONFIG_MEMORY_ISOLATION.
pub data MigrateType : Type 0 where
  unmovable reclaimable movable reserve : MigrateType

abbrev pub migrate_number : MigrateType → ℕ
migrate_number unmovable = 0
migrate_number reclaimable = 1
migrate_number movable = 2
migrate_number reserve = 3

-- `PB_migrate`, `PB_migrate_end`, `NR_PAGEBLOCK_BITS`
abbrev pub pb_migrate : ℕ
pb_migrate = 0

abbrev pub pb_migrate_end : ℕ
pb_migrate_end = pb_migrate + 3 - 1

abbrev pub nr_pageblock_bits : ℕ
nr_pageblock_bits = pb_migrate_end + 2

-- The loop on `cmpxchg`: `seen` is what the word holds at each further attempt, as other CPUs write it.
unfoldable pub cmpxchg_loop : ℕ → ℕ → ℕ → List ℕ → ℕ
cmpxchg_loop flags mask word_read [] = bit_or (bit_and word_read (not64 mask)) flags
cmpxchg_loop flags mask word_read (old ∷ seen) =
    let next = cmpxchg_loop flags mask old seen in
    if word_read == old then bit_or (bit_and word_read (not64 mask)) flags else next

module _ (c : Config) where
  -- `pfn_to_section_nr`, `pfn_to_bitidx`
  abbrev pub pfn_to_section_nr : ℕ → ℕ
  pfn_to_section_nr pfn = pfn / 2 ^ c.section_shift

  abbrev pub pfn_to_bitidx : ℕ → ℕ
  pfn_to_bitidx pfn = pfn % 2 ^ c.section_shift / 2 ^ c.pageblock_order * nr_pageblock_bits

  -- A bitmap with a word replaced, and the table of bitmaps with one replaced.
  abbrev pub write_word : (ℕ → ℕ) → ℕ → ℕ → ℕ → ℕ
  write_word bitmap i w j = if i == j then w else bitmap j

  abbrev pub write_bitmap : (ℕ → Option (ℕ → ℕ)) → ℕ → (ℕ → ℕ) → ℕ → Option (ℕ → ℕ)
  write_bitmap table nr bitmap n = if nr == n then some bitmap else table n

  -- `set_pfnblock_flags_mask`; a NULL section is dereferenced.
  unfoldable pub set_pfnblock_flags_mask : List ℕ → Memmap → ℕ → ℕ → ℕ → ℕ → Run Memmap
  set_pfnblock_flags_mask seen m flags pfn end_bitidx mask =
      elim (m.pageblock_flags (pfn_to_section_nr pfn)) [
        | none ↦ bug
        | some bitmap ↦
            let bitidx = pfn_to_bitidx pfn in
            let shift = 2 ^ (64 - (bitidx % 64 + end_bitidx) - 1) in
            let new =
              cmpxchg_loop (flags * shift % word) (mask * shift % word) (bitmap (bitidx / 64))
                seen in
            done (record m {
              pageblock_flags =
                  write_bitmap m.pageblock_flags (pfn_to_section_nr pfn)
                    (write_word bitmap (bitidx / 64) new);
            })
      ]

  unfoldable pub set_pageblock_migratetype : List ℕ → Memmap → ℕ → MigrateType → Run Memmap
  set_pageblock_migratetype seen m pfn migratetype =
      let flags =
        if c.page_group_by_mobility_disabled && ltb (migrate_number migratetype) 3
        then migrate_number unmovable
        else migrate_number migratetype in
      set_pfnblock_flags_mask seen m flags pfn pb_migrate_end
        (2 ^ (pb_migrate_end - pb_migrate + 1) - 1)
