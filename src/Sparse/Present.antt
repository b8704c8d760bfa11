-- ===== src/Sparse/Present.antt =====
-- One round of `memory_present` (mm/sparse_init.c): what it does to each section.
use Prim.Native.Nat.{bit_and, bit_or}
use study_notes.Common.{
  ltb, subst, ℕ, ◌+◌, ◌*◌, ◌/◌, ◌%◌, ◌^◌, ◌≤◌, ◌<◌, ◌≡◌, refl, sym, ap, ◌∙◌, min, Option, none,
  some, true, false, ◌==◌, if◌then◌else◌, Bool-cases, inl, inr, Returns, Returns->>=, Returns-map,
  arith,
}
use study_notes.Memblock.Api.{Memblock}
use study_notes.Memblock.Chain.{IsValid}
use study_notes.Sparse.Masks.{bit_and-root_mask, bit_or-nid_flag}
use study_notes.Sparse.Section.{
  MemSection, Sparse, Platform, nr_to_section, write_section, IndexCode, indexed, set_root,
  sparse_index_init, sparse_index_alloc, set_section_nid, mark_present, present_round,
}

abbrev pub zeros : MemSection
zeros = record { section_mem_map = 0; pageblock_flags = 0 }

-- What stands at a pointer to a section, and zeros if there is none.
abbrev pub contents : Option MemSection → MemSection
contents none = zeros
contents (some ms) = ms

abbrev pub section_of : Sparse → ℕ → MemSection
section_of s nr = contents (nr_to_section s nr)

pub nr_to_section_lem :
    (s : Sparse) (nr : ℕ) (sections : ℕ → MemSection)
    → s.mem_section (nr / 256) ≡ some sections
    → nr_to_section s nr ≡ some (sections (nr % 256))
unfolding nr_to_section
nr_to_section_lem s nr sections e = ground (arith, bit_and-root_mask nr)

nr_to_section-none :
    (s : Sparse) (nr : ℕ) → s.mem_section (nr / 256) ≡ none → nr_to_section s nr ≡ none
unfolding nr_to_section
nr_to_section-none s nr e = ground arith

-- A write to a section that is there changes this section.
pub section_of-write :
    (s : Sparse) (k : ℕ) (old ms : MemSection)
    → nr_to_section s k ≡ some old
    → (j : ℕ) → section_of (write_section s k ms) j ≡ (if k == j then ms else section_of s j)
unfolding nr_to_section write_section
section_of-write s k old ms h j = ground (arith, bit_and-root_mask k, bit_and-root_mask j)

-- What the boot allocator gives for a root: a cleared array; the memory map stays, and `reserved` is in
-- order.
pub record Served (m : Memblock) (out : Memblock × Option (ℕ → MemSection)) : Type 0 where
  pub memory : out.0.memory ≡ m.memory
  pub valid : IsValid out.0.reserved
  pub cleared : (a : ℕ → MemSection) × (out.1 ≡ some a) × ((i : ℕ) → a i ≡ zeros)

-- What is documented of the functions that mm/sparse_init.c calls at boot: the slab allocator is not up,
-- the limits of the memory model are put where the sections end, and the boot allocator serves a root
-- table with cleared memory (it panics if it cannot).
pub record IsBoot (p : Platform) : Type 0 where
  pub early : p.slab_is_available ≡ false
  pub limits :
      (start end : ℕ)
      → p.validate_memmodel_limits start end
        ≡ (min start (p.nr_mem_sections * 2 ^ 18), min end (p.nr_mem_sections * 2 ^ 18))
  pub serves :
      (nid : ℕ) (m : Memblock)
      → IsValid m.reserved
      → Returns (Served m) (p.memblock_virt_alloc_node 0x1000 nid m)
  pub few : p.nr_mem_sections ≤ 2 ^ 18

-- What a step leaves alone: the memory map; and `reserved` is in order.
pub record Steady (s s' : Sparse) : Type 0 where
  pub memory : s'.memblock.memory ≡ s.memblock.memory
  pub valid : IsValid s'.memblock.reserved

-- `sparse_index_init`: the section is there afterwards, and no section has changed.
pub record Indexed (k : ℕ) (s : Sparse) (out : Sparse × IndexCode) : Type 0 where
  pub backed : (ms : MemSection) × (nr_to_section out.0 k ≡ some ms)
  pub same : (j : ℕ) → section_of out.0 j ≡ section_of s j
  pub table : out.0.section_to_node_table ≡ s.section_to_node_table
  pub steady : Steady s out.0

module _ (p : Platform) (boot : IsBoot p) where
  -- A cleared root table holds what was read where there was none.
  section_of-set_root :
      (k : ℕ) (s : Sparse) (m : Memblock) (a : ℕ → MemSection)
      → s.mem_section (k / 256) ≡ none
      → ((i : ℕ) → a i ≡ zeros)
      → (j : ℕ) → section_of (set_root p (k / 256) s (m, some a)) j ≡ section_of s j
  unfolding nr_to_section
  section_of-set_root k s m a e z j = ground (arith, z (bit_and j 0xff))

  set_root-Indexed :
      (k : ℕ) (s : Sparse) (m : Memblock) (sections : Option (ℕ → MemSection))
      → s.mem_section (k / 256) ≡ none
      → Served s.memblock (m, sections)
      → Indexed k s (set_root p (k / 256) s (m, sections), indexed)
  set_root-Indexed k s m sections e served =
      let (a, is, z) = served.cleared in
      rw is (record {
        backed = (
          a (k % 256),
          nr_to_section_lem (set_root p (k / 256) s (m, some a)) k a (ground arith),
        );
        same = section_of-set_root k s m a e z;
        table = refl;
        steady = record { memory = served.memory; valid = served.valid };
      })

  index_init-Indexed :
      (k nid : ℕ) (s : Sparse)
      → k < p.nr_mem_sections
      → IsValid s.memblock.reserved
      → Returns (Indexed k s) (sparse_index_init p k nid s)
  unfolding sparse_index_init sparse_index_alloc
  index_init-Indexed k nid s h v = by_root (s.mem_section (k / 256)) refl
    where
      in_range : ltb (k / 256) ((p.nr_mem_sections + 255) / 256) ≡ true
      in_range = ground arith

      by_root :
          (root : Option (ℕ → MemSection))
          → s.mem_section (k / 256) ≡ root
          → Returns (Indexed k s) (sparse_index_init p k nid s)
      by_root (some a) e =
          rw (in_range, e)
            (record {
              backed = (a (k % 256), nr_to_section_lem s k a e);
              same = λ j. refl;
              table = refl;
              steady = record { memory = refl; valid = v };
            })
      by_root none e =
          rw (in_range, e, boot.early)
            (Returns->>= (Served s.memblock) (Indexed k s)
              (p.memblock_virt_alloc_node 0x1000 nid s.memblock) _ (boot.serves nid s.memblock v)
              λ (m, sections) served. set_root-Indexed k s m sections e served)

  -- What a section holds once the node `nid` has marked it.
  abbrev pub marked : ℕ → MemSection → MemSection
  marked nid ms =
      if ms.section_mem_map == 0
      then record { section_mem_map = nid * 4 + 1; pageblock_flags = ms.pageblock_flags }
      else ms

  -- A round for section `k`.
  pub record Rounded (k nid : ℕ) (s s' : Sparse) : Type 0 where
    pub sections :
        (j : ℕ) → section_of s' j ≡ (if k == j then marked nid (section_of s j) else section_of s j)
    pub table :
        (j : ℕ)
        → s'.section_to_node_table j ≡ (if k == j then nid % 256 else s.section_to_node_table j)
    pub steady : Steady s s'

  mark_present-sections :
      (k nid : ℕ) (s : Sparse) (ms : MemSection)
      → nr_to_section s k ≡ some ms
      → Returns
          (λ s'.
            ((j : ℕ)
              → section_of s' j ≡ (if k == j then marked nid (section_of s j) else section_of s j))
            × (s'.section_to_node_table ≡ s.section_to_node_table)
            × (s'.memblock ≡ s.memblock))
          (mark_present p k nid s)
  unfolding mark_present write_section
  mark_present-sections k nid s ms e = elim (Bool-cases (ms.section_mem_map == 0)) [
    | inl z ↦
        rw (e, z, mark_present)
          (
            λ j. ground (
              arith,
              section_of-write s k ms (record ms { section_mem_map = bit_or (nid * 4) 1 }) e j,
              bit_or-nid_flag nid,
            ),
            refl,
            refl,
          )
    | inr z ↦ rw (e, z, mark_present) (λ j. ground arith, refl, refl)
  ]

  pub present_round-Rounded :
      (nid pfn : ℕ) (s : Sparse)
      → pfn / 2 ^ 18 < p.nr_mem_sections
      → IsValid s.memblock.reserved
      → Returns (Rounded (pfn / 2 ^ 18) nid s) (present_round p nid pfn s)
  unfolding present_round set_section_nid nr_to_section
  present_round-Rounded nid pfn s h v =
      Returns->>= (Indexed k s) (Rounded k nid s) (sparse_index_init p k nid s) _
        (index_init-Indexed k nid s h v)
        λ (s', code) i. rw in_range (
          Returns-map _ (Rounded k nid s) (mark_present p k nid (tabled s'))
            (λ s'' (x, y, z). record {
              sections = λ j. x j ∙ ap (λ ms. if k == j then marked nid ms else ms) (i.same j);
              table = λ j. ap (λ f. f j) y ∙ ap (λ f. if k == j then nid % 256 else f j) i.table;
              steady = record {
                memory = ap (λ m. m.memory) z ∙ i.steady.memory;
                valid = subst (λ m. IsValid m.reserved) (sym z) i.steady.valid;
              };
            })
            (mark_present-sections k nid (tabled s') i.backed.0 i.backed.1))
    where
      k : ℕ
      k = pfn / 2 ^ 18

      in_range : ltb (pfn / 2 ^ 18) p.nr_mem_sections ≡ true
      in_range = ground arith

      tabled : Sparse → Sparse
      tabled s' = record s' {
        section_to_node_table = λ i. if k == i then nid % 256 else s'.section_to_node_table i;
      }
