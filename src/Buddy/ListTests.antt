-- ===== src/Buddy/ListTests.antt =====
-- A run of `build_zonelists` on two nodes.
use study_notes.Common.{[], ℕ, ◌≡◌, refl, none, some, true, if◌then◌else◌, ◌==◌, arith}
use study_notes.Buddy.Frames.{ZoneType, zone_dma, zone_normal, zone_movable}
use study_notes.Buddy.Zone.{Zone, Node}
use study_notes.Buddy.Zonelist.{
  Zonelist, add_zone, build_zonelists_node, add_nodes, build_zonelists,
}
use study_notes.Buddy.Fallback.{Filled, build_zonelists-Filled}

abbrev zone_of : ℕ → Zone
zone_of pages = record {
  zone_start_pfn = 0;
  managed_pages = pages;
  spanned_pages = pages;
  present_pages = pages;
  name = none;
  vm_stat = 0;
  wait_table = none;
  wait_table_hash_nr_entries = 4;
  wait_table_bits = 2;
  free_area = λ order. record { free_list = λ t. []; nr_free = 0 };
}

-- Only node 0 has a DMA zone.
abbrev pages_of : ℕ → ZoneType → ℕ
pages_of node zone_dma = if node == 0 then 16 else 0
pages_of node zone_normal = 64
pages_of node zone_movable = 0

abbrev nodes : ℕ → Node
nodes node = record {
  node_id = node;
  node_start_pfn = 0;
  node_spanned_pages = 80;
  node_present_pages = 80;
  nr_zones = 2;
  node_zones = λ j. zone_of (pages_of node j);
}

abbrev blank : Zonelist
blank = record { zonerefs = λ i. none; nr_zones = 0 }

-- The node's own zones from the highest down, then those of the other.
list_of_1 :
    ((build_zonelists nodes (λ n. true) 2 1 blank).zonerefs 0
      ≡ some (record { node = 1; zone = zone_normal }))
    × ((build_zonelists nodes (λ n. true) 2 1 blank).zonerefs 1
        ≡ some (record { node = 0; zone = zone_normal }))
    × ((build_zonelists nodes (λ n. true) 2 1 blank).zonerefs 2
        ≡ some (record { node = 0; zone = zone_dma }))
    × ((build_zonelists nodes (λ n. true) 2 1 blank).zonerefs 3 ≡ none)
unfolding build_zonelists build_zonelists_node add_zone add_nodes
list_of_1 = (refl, refl, refl, refl)

build_zonelists-Filled_example :
    Filled nodes (λ n. true) 2 1 (build_zonelists nodes (λ n. true) 2 1 blank)
build_zonelists-Filled_example = build_zonelists-Filled nodes (λ n. true) 2 1 blank (omega arith)
