-- ===== src/Buddy/Zonelist.antt =====
-- The fallback list of a node (`build_zonelists` of mm/build_all_zonelists.c, without CONFIG_NUMA) and the
-- count of free pages over it.
use study_notes.Common.{ℕ, zero, suc, ◌+◌, ◌-◌, Option, none, some, Bool, not, ◌==◌, if◌then◌else◌}
use study_notes.Buddy.Frames.{ZoneType, zone_dma, zone_normal, zone_movable}
use study_notes.Buddy.Zone.{Zone, Node}

-- `struct zoneref`: the zone of a node; its `zone_idx` is that of the zone.
pub record ZoneRef : Type 0 where
  pub node : ℕ
  pub zone : ZoneType

-- `_zonerefs[]`, where a NULL zone is `none`, and the number of entries so far.
pub record Zonelist : Type 0 where
  pub zonerefs : ℕ → Option ZoneRef
  pub nr_zones : ℕ

abbrev pub populated_zone : Zone → Bool
populated_zone z = not (z.present_pages == 0)

abbrev pub write_ref : (ℕ → Option ZoneRef) → ℕ → Option ZoneRef → ℕ → Option ZoneRef
write_ref refs j r i = if j == i then r else refs i

-- `zoneref_set_zone` at `nr_zones++`, for a populated zone.
unfoldable pub add_zone : (ℕ → Node) → ℕ → ZoneType → Zonelist → Zonelist
add_zone nodes node z l =
    if populated_zone ((nodes node).node_zones z)
    then record {
      zonerefs = write_ref l.zonerefs l.nr_zones (some (record { node = node; zone = z }));
      nr_zones = l.nr_zones + 1;
    }
    else l

-- `do { zone_type--; ... } while (zone_type)`, from MAX_NR_ZONES down.
unfoldable pub build_zonelists_node : (ℕ → Node) → ℕ → Zonelist → Zonelist
build_zonelists_node nodes node l =
    add_zone nodes node zone_dma
      (add_zone nodes node zone_normal (add_zone nodes node zone_movable l))

-- `for (; node < end; node++)` for the `n` nodes from `node` on.
unfoldable pub add_nodes : (ℕ → Node) → (ℕ → Bool) → ℕ → ℕ → Zonelist → Zonelist
add_nodes nodes online zero node l = l
add_nodes nodes online (suc n) node l =
    add_nodes nodes online n (suc node)
      (if online node then build_zonelists_node nodes node l else l)

unfoldable pub build_zonelists : (ℕ → Node) → (ℕ → Bool) → ℕ → ℕ → Zonelist → Zonelist
build_zonelists nodes online max_numnodes local l =
    let own = build_zonelists_node nodes local (record l { nr_zones = 0 }) in
    let later = add_nodes nodes online (max_numnodes - (local + 1)) (local + 1) own in
    let all = add_nodes nodes online local 0 later in
    record all { zonerefs = write_ref all.zonerefs all.nr_zones none }
