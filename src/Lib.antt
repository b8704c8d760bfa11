-- ===== src/Lib.antt =====
-- The boot memory allocator, the sections and the zones of memory, the timers and the load averages
-- of these notes.
--
-- The repository holds excerpts of the Linux kernel with notes. Those modelled are memory at boot
-- (memblock, the reserved memory of the device tree on top of it, the sections of sparse memory,
-- and the zones that are laid out over memblock's regions), the timer wheel and the tick, and the
-- averages of the scheduler.
--
-- memblock (mm/memblock.c, with `memblock_merge_regions`, `memblock_remove`,
-- `memblock_remove_region` and `memblock_free` from mm/memblock.md) keeps the physical memory map
-- of early boot: an array of the regions that are memory and one of those that are reserved. A
-- `struct memblock_type` is a record whose list holds the first `cnt` entries; an address or a size
-- is a number with the wrap-around at 2 ^ 64 written out (Common/Words). A function that can meet a
-- `BUG_ON` returns a `Run` (Common/Outcome).
--   Memblock/Region   the structures, `memblock_insert_region`, `memblock_remove_region`
--   Memblock/Merge    `memblock_merge_regions`
--   Memblock/Add      `memblock_add_range`, its two passes and the resizing loop
--   Memblock/Isolate  `memblock_isolate_range`, `memblock_remove_range`
--   Memblock/Api      `struct memblock` and the functions on it, with the allocator
--   Memblock/Chain    what an array means: which addresses it covers, its order, its total
--   Memblock/Fill, PassRounds, Passes, Counting, Agree, MergeList, MergeLoop, Grow, AddRange   addition
--   Memblock/Carve, IsolateRounds, IsolateLoop, RemoveLoop, Leaves, RemoveRange, Limit   removal
--   Memblock/Alloc    allocation
-- `memblock_double_array`, `__next_mem_range_rev`, `round_down` and the constants of the platform
-- are not part of the repository: they are parameters, and what the code relies on is a hypothesis
-- (`Grows`, `IsPlatform`), which Memblock/Tests and Memblock/Platforms fill. The loops run on fuel:
-- one round for each entry and a few more, which the theorems on them show to be enough. Messages
-- and the leak detector are left out, and so is the branch for bottom-up allocation, which is empty
-- in the source.
--
-- The reserved memory of the device tree (mm/memblock.c): what early boot reserves, through
-- memblock.
--   Reserved/Tree     the state, and the device tree as the code sees it: `Fdt`
--   Reserved/Reserve  `fdt_reserved_mem_save_node`, `early_init_dt_reserve_memory_arch`,
--                     `__reserved_mem_reserve_reg`
--   Reserved/Allocate `early_init_dt_alloc_reserved_memory_arch`, `__reserved_mem_alloc_size`
--   Reserved/Scan     `__fdt_scan_reserved_mem`, `fdt_init_reserved_mem`,
--                     `early_init_fdt_scan_reserved_mem`, `arm64_memblock_init`
--   Reserved/Keeps, Took, Spot, Blocks, Given, Windows, Sized   reservations and allocations one by one
--   Reserved/Since, Boot, Init      the scan, and boot as a whole
-- libfdt and drivers/of are not part of the repository: `Fdt` is a parameter, and `IsFdt` says what
-- is documented of it. A loop over a property runs on its length, a `reg` entry having some bytes;
-- the loop over `/memreserve/` entries runs on fuel beyond the entry that ends the list.
--
-- The set-up of the buddy allocator (mm/buddy.c, with the frame macros of mm/sparse_init.c):
--   Buddy/Frames      `zone_sizes_init`: the sizes and the holes of the zones
--   Buddy/Zone        `struct zone`, `struct pglist_data`, `struct page`, the globals
--   Buddy/WaitTable   `wait_table_hash_nr_entries`
--   Buddy/Stat        `__mod_zone_page_state`
--   Buddy/Pageblock   `set_pageblock_migratetype`, `set_pfnblock_flags_mask`
--   Buddy/Memmap      `memmap_init_zone`
--   Buddy/Core        `free_area_init_core`, `free_area_init_node`, `bootmem_init`
--   Buddy/Holes       the holes as the frames that no region holds
--   Buddy/Bits, Flags the digits of a word, and the bits of a block of pages
--   Buddy/Zonelist    `build_zonelists` (mm/build_all_zonelists.c), and Buddy/Grew, Fallback what it builds
--   Buddy/Painted     which pages `memmap_init_zone` initialises, and Buddy/PageInit what they hold
--   Buddy/Round, Rounds, Laid, Boot   a zone, the zones of a node, and boot as a whole
-- Zones are DMA, normal and movable; CONFIG_HIGHMEM and CONFIG_DEBUG_VM are unset, CONFIG_SPARSEMEM
-- is set. What the file only calls (the allocators, `zone_page_state_add`, `memblock_is_memory`,
-- `wait_table_bits`) and the constants of the page flags are the record `Config`, a parameter; the
-- page of a frame is a value of a function, and a bitmap that is not there is `none`. The loop over
-- the frames of a zone runs on their number. Locks, the wait queues of the node and messages are
-- left out.
--
-- The sparse memory set-up (mm/sparse_init.c) marks the sections of 2 ^ 18 frames that hold memory
-- and gives each a bitmap and its page structures, before the zones are laid out; the buddy
-- allocator finds the bitmap of a page block through the section.
--   Sparse/Section    `memory_present`, `arm64_memory_present`, `__nr_to_section` and what they call
--   Sparse/Virt       `memblock_virt_alloc_internal` and its callers, `memblock_free_early`, on memblock
--   Sparse/Usemap     `alloc_usemap_and_memmap`, `sparse_early_usemaps_alloc_node`
--   Sparse/Populate   `vmemmap_populate`, `sparse_mem_map_populate`, `sparse_init_one_section`, `sparse_init`
--   Sparse/Masks, Present, Marking    masks as arithmetic; which sections are present
--   Sparse/Backed, Chunks, Ranked, Bitmaps, OneNode    blocks, groups of sections, bitmaps
--   Sparse/Mapped, Ready, Boot, Init  page structures, a section, all sections, boot as a whole
-- NR_MEM_SECTIONS is a field of `Platform`. A pointer into the linear map is its physical address,
-- and null is 0. What the file calls and does not define is in `Platform`, `Backing` and `Paging`,
-- with what is documented of it in `IsBoot`, `IsPlatform` and `IsPaging`. `memory_present` runs on
-- a round for each section and one more, `vmemmap_populate` on one for each byte: each round goes
-- at least that far.
--
-- The timer wheel (timer/timer_list.c, CONFIG_BASE_SMALL unset) hangs timers on five levels of
-- lists by the distance of their expiry.
--   Timer/Wheel       `struct tvec_base`, `__internal_add_timer`, `internal_add_timer`, `cascade`,
--                     `__run_timers` and `detach_expired_timer`
--   Timer/Slots, Inv  where a timer may stand, and the invariant of the wheel
--   Timer/Cascade, Round, Pending, Collect   a round: the cascades and the work list
--   Timer/Sums, Count, Arm   sums over the wheel, the counter `all_timers`, arming a timer
--   Timer/Loop, Ran   the loop as a whole
--   Timer/Api         `mod_timer`, `add_timer`, `detach_if_pending`, `init_timers_cpu`,
--                     `timer_cpu_notify`, `run_timer_softirq`, on the bases of all CPUs
--   Timer/Detach, Mod, Init   a timer taken off, armed anew, a base for a CPU
--   Timer/Spin        a timer that arms itself again at once
-- A list of the wheel is a value of a function from levels and indices, and `list_add_tail` and
-- `list_replace_init` write it. The functions of the timers are a parameter: each gets the base and
-- what is left of the work list, and may take timers off both, or arm some; the inner loop takes the
-- first timer that is left at each round. The theorem on the loop asks what `IsHandler` says of them.
-- `jiffies` is an argument that stands still during a run. The outer loop runs on fuel: a round for
-- each jiffy to go and three more; the inner one on a round for each timer of the work list, which
-- nothing is added to. Times are below 2 ^ 62, far from the end of the counter. Locks, the wake-up of
-- idle CPUs and statistics are left out.
--
-- The tick (timer/timer.c) and the switch of a CPU to high resolution (timer/hrtimer.c) drive the
-- wheel.
--   Tick/Device       `tick_periodic`, `tick_handle_periodic`, `tick_setup_periodic`
--   Tick/Switch       `tick_check_oneshot_change`, `tick_switch_to_oneshot`, `tick_setup_sched_timer`,
--                     `hrtimer_switch_to_hres`, `hrtimer_run_pending`
--   Tick/Periodic     the periods that a late event has missed
--   Tick/Hres         a CPU that goes to high resolution
--   Tick/Reached      a CPU after any notifications and interrupts
-- The functions on devices and on hrtimers that the files call and do not define are the records
-- `Events` and `Switching`, with what is documented of them in `IsClock` and `IsSwitching`. The
-- handler runs on a round for each nanosecond that the event is late, the start of the tick timer
-- on the rounds that `IsSwitching` grants and one more. The broadcast state and the interrupt flag
-- are left out.
--
-- The scheduler's averages (scheduler/pelt.c) and priorities (scheduler/pri-nice.c):
--   Scheduler/Load    `__update_entity_runnable_avg`, `__update_task_entity_contrib`, `__sched_period`
--   Scheduler/Average an update of the averages, and Scheduler/Contrib the contribution of a task
--   Scheduler/Prio    nice values and priorities
-- `decay_load` and `__compute_runnable_contrib` are parameters with the hypothesis `IsDecay`.
-- 32-bit arithmetic wraps around.
--
-- Tests and witnesses stand in Memblock/Tests, Reserved/Tests, Buddy/Tests, Buddy/ListTests,
-- Sparse/Tests, Timer/Tests, Timer/ApiTests, Tick/Tests and Scheduler/Tests, with a platform, a
-- device tree and a periodic timer for them in Memblock/Platforms, Reserved/Trees and
-- Timer/Handlers.
--
-- Not modelled: the rest of the buddy allocator and of the zone lists (`build_all_zonelists`), the
-- hierarchy of scheduling entities, the registration of clock event devices, and the other excerpts
-- (drivers, QEMU and SPDK), which are call chains and structures for the greater part.
pub mod Common
pub mod Memblock
pub mod Reserved
pub mod Buddy
pub mod Timer
pub mod Scheduler
pub mod Sparse
pub mod Tick
