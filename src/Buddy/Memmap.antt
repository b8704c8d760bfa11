-- ===== src/Buddy/Memmap.antt =====
-- The page structures of a zone (`memmap_init_zone` of mm/buddy.c).
use Prim.Native.Nat.{bit_and, bit_or}
use study_notes.Common.{
  ℕ, zero, suc, ◌*◌, ◌%◌, ◌^◌, [], Bool, true, false, not, ◌&&◌, ◌==◌, ltb, leb, if◌then◌else◌,
  word, add64, sub64, Run, done, spent, ◌>>=◌,
}
use study_notes.Buddy.Frames.{ZoneType}
use study_notes.Buddy.Zone.{Zone, Page, Memmap, Config, zone_idx, zone_end_pfn}
use study_notes.Buddy.Pageblock.{not64, movable, set_pageblock_migratetype}

-- `enum memmap_context`
pub data Context : Type 0 where
  early hotplug : Context

module _ (c : Config) where
  -- `pfn_valid`
  abbrev pub pfn_valid : ℕ → Bool
  pfn_valid pfn = c.is_memory (pfn * 2 ^ 12 % word)

  -- `page->flags &= ~(MASK << SHIFT); page->flags |= (v & MASK) << SHIFT;`
  abbrev pub set_field : ℕ → ℕ → ℕ → ℕ → ℕ
  set_field mask shift v flags =
      bit_or (bit_and flags (not64 (mask * 2 ^ shift % word))) (bit_and v mask * 2 ^ shift % word)

  abbrev pub set_page_zone : ZoneType → Page → Page
  set_page_zone zone p = record p {
    flags = set_field c.zones_mask c.zones_pgshift (zone_idx zone) p.flags;
  }

  abbrev pub set_page_node : ℕ → Page → Page
  set_page_node node p = record p { flags = set_field c.nodes_mask c.nodes_pgshift node p.flags }

  abbrev pub set_page_links : ZoneType → ℕ → Page → Page
  set_page_links zone node p = set_page_node node (set_page_zone zone p)

  abbrev pub init_page_count : Page → Page
  init_page_count p = record p { page_count = 1 }

  -- -1
  abbrev pub page_mapcount_reset : Page → Page
  page_mapcount_reset p = record p { mapcount = 0xffff_ffff }

  -- `SetPageReserved`, from `PAGEFLAG(Reserved, reserved)`.
  abbrev pub set_page_reserved : Page → Page
  set_page_reserved p = record p { flags = bit_or p.flags (2 ^ c.pg_reserved) }

  unfoldable pub init_page : ZoneType → ℕ → Page → Page
  init_page zone nid p =
      record (set_page_reserved
        (page_mapcount_reset (init_page_count (set_page_links zone nid p)))) { lru = [] }

  abbrev pub write_page : (ℕ → Page) → ℕ → Page → ℕ → Page
  write_page page pfn p q = if pfn == q then p else page q

  -- The body of the loop, from `page = pfn_to_page(pfn)` on.
  unfoldable pub init_pfn : Zone → ZoneType → ℕ → ℕ → Memmap → Run Memmap
  init_pfn z zone nid pfn m =
      let m' = record m { page = write_page m.page pfn (init_page zone nid (m.page pfn)) } in
      if leb z.zone_start_pfn pfn && ltb pfn (zone_end_pfn z) && (pfn % 2 ^ c.pageblock_order == 0)
      then set_pageblock_migratetype c [] m' pfn movable
      else done m'

  abbrev pub skips : Context → ℕ → Bool
  skips early pfn = not (pfn_valid pfn)
  skips hotplug pfn = false

  -- `for (pfn = start_pfn; pfn < end_pfn; pfn++)`
  unfoldable pub memmap_loop : ℕ → Zone → ZoneType → ℕ → Context → ℕ → ℕ → Memmap → Run Memmap
  memmap_loop zero z zone nid context pfn end m = spent
  memmap_loop (suc fuel) z zone nid context pfn end m = elim (ltb pfn end) [
    | false ↦ done m
    | true ↦ elim (skips context pfn) [
      | true ↦ memmap_loop fuel z zone nid context (add64 pfn 1) end m
      | false ↦ init_pfn z zone nid pfn m >>= λ m'.
          memmap_loop fuel z zone nid context (add64 pfn 1) end m'
    ]
  ]

  -- `z` is the zone that the node has.
  unfoldable pub memmap_init_zone : Zone → ℕ → ℕ → ZoneType → ℕ → Context → Memmap → Run Memmap
  memmap_init_zone z size nid zone start_pfn context m =
      let end = add64 start_pfn size in
      let m' = record m {
        highest_memmap_pfn =
            if ltb m.highest_memmap_pfn (sub64 end 1) then sub64 end 1 else m.highest_memmap_pfn;
      } in
      memmap_loop (suc size) z zone nid context start_pfn end m'
