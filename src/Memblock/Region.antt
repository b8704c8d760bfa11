-- ===== src/Memblock/Region.antt =====
-- The data of mm/memblock.c (`struct memblock_region`, `struct memblock_type`) and the operations on
-- one array: `memblock_cap_size`, `memblock_insert_region`, `memblock_set_region_node`, and
-- `memblock_remove_region` of mm/memblock.md. `regions` holds the first `cnt` entries of the array.
use study_notes.Common.{
  ℕ, min, ◌-◌, List, [], ◌∷◌, none, some, length, get_elem?, insert_at, remove_at, add64, sub64,
  ullong_max, Run, done, bug, leb, if◌then◌else◌,
}

pub record Region : Type 0 where
  pub base : ℕ
  pub size : ℕ
  pub flags : ℕ
  pub nid : ℕ

pub record MemblockType : Type 0 where
  pub max : ℕ
  pub total_size : ℕ
  pub regions : List Region

-- `type->cnt`
abbrev pub cnt : MemblockType → ℕ
cnt t = length t.regions

-- The code a function returns: 0 or -ENOMEM.
pub data Code : Type 0 where
  success enomem : Code

-- `MAX_NUMNODES`, the node id of a region that belongs to no node.
abbrev pub max_numnodes : ℕ
max_numnodes = 1

-- `rbase + rgn->size`
abbrev pub region_end : Region → ℕ
region_end r = add64 r.base r.size

unfoldable pub cap_size : ℕ → ℕ → ℕ
cap_size base size = min size (ullong_max - base)

abbrev pub set_region_node : Region → ℕ → Region
set_region_node r nid = record r { nid = nid }

unfoldable pub insert_region : MemblockType → ℕ → ℕ → ℕ → ℕ → ℕ → Run MemblockType
insert_region t idx base size nid flags =
    if leb t.max (cnt t)
    then bug
    else done (record t {
      regions =
          insert_at t.regions idx
            (set_region_node (record { base = base; size = size; flags = flags; nid = 0 }) nid);
      total_size = add64 t.total_size size;
    })

-- The entry that stands for an empty array.
abbrev pub dummy : Region
dummy = record { base = 0; size = 0; flags = 0; nid = max_numnodes }

-- The special case of an array that has become empty.
abbrev pub refill : List Region → List Region
refill [] = dummy ∷ []
refill (r ∷ rs) = r ∷ rs

unfoldable pub remove_region : MemblockType → ℕ → MemblockType
remove_region t r = elim (get_elem? t.regions r) [
  | none ↦ t
  | some rgn ↦ record t {
    total_size = sub64 t.total_size rgn.size;
    regions = refill (remove_at t.regions r);
  }
]
