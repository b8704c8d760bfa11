-- ===== src/Reserved/Tree.antt =====
-- The flat device tree as the functions of mm/memblock.c see it, and the state that they share. The
-- functions of libfdt and drivers/of, which are not part of the repository, are parameters.
use study_notes.Common.{ℕ, Bool, List, Option, Run}
use study_notes.Memblock.Api.{Memblock}

-- The names that the code looks up.
pub data Name : Type 0 where
  phandle_prop linux_phandle size_prop no_map alignment alloc_ranges status reg_prop
        reserved_memory :
      Name
  other : ℕ → Name

-- What `of_get_flat_dt_prop` returns: the length in bytes and the cells from the pointer on.
pub record Property : Type 0 where
  pub len : ℕ
  pub cells : List ℕ

-- `struct reserved_mem`
pub record ReservedMem : Type 0 where
  pub fdt_node : ℕ
  pub name : Name
  pub base : ℕ
  pub size : ℕ
  pub phandle : ℕ

-- `memblock`, `reserved_mem[0..reserved_mem_count]` and the `found` of the scan.
pub record State : Type 0 where
  pub memblock : Memblock
  pub reserved_mem : List ReservedMem
  pub found : Bool

-- The codes of these functions: 0, -EINVAL, -ENOENT, -ENOMEM.
pub data Errno : Type 0 where
  ok einval enoent enomem : Errno

-- An entry of the table of `RESERVEDMEM_OF_DECLARE`: its compatible string, and its function, which may
-- write the entry it is given and says whether it returned 0.
pub record Declared : Type 0 where
  pub compatible : ℕ
  pub initfn : ReservedMem → ReservedMem × Bool

-- `of_scan_flat_dt` calls a function on each node, with its name and its depth, until it returns other than 0.
pub record Fdt : Type 0 where
  pub get_prop : ℕ → Name → Option Property
  pub next_cell : ℕ → List ℕ → ℕ × List ℕ
  pub read_number : List ℕ → ℕ → ℕ
  pub root_addr_cells : ℕ
  pub root_size_cells : ℕ
  pub check_root : ℕ → Bool
  pub is_okay : Property → Bool
  pub is_compatible : ℕ → ℕ → Bool
  pub declared : List Declared
  pub max_regions : ℕ
  pub scan : (ℕ → Name → ℕ → State → Run (State × Bool)) → State → Run State
  pub get_mem_rsv : ℕ → ℕ × ℕ
