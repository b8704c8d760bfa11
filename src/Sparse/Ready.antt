-- ===== src/Sparse/Ready.antt =====
-- One section in `sparse_init` (mm/sparse_init.c): it gets its page structures and its bitmap, or goes.
use Prim.Native.Nat.{bit_and, bit_or}
use study_notes.Common.{
  ℕ, ◌+◌, ◌-◌, ◌*◌, ◌/◌, ◌%◌, ◌^◌, ◌≤◌, ◌<◌, ◌≡◌, ◌≢◌, ◌⊎◌, refl, sym, ap, ◌∙◌, none, some, true,
  false, Option, ◌==◌, word, add64, Bool-cases, inl, inr, done, Returns, Returns-value, arith,
}
use study_notes.Memblock.Region.{Code, success, enomem}
use study_notes.Memblock.Chain.{IsValid}
use study_notes.Sparse.Masks.{bit_and-one, bit_and-three, bit_or-flags, zero-bit_or, bit_or-zero}
use study_notes.Sparse.Section.{
  MemSection, Sparse, nr_to_section, write_section, present_section_nr, sparse_early_nid,
}
use study_notes.Sparse.Present.{section_of, section_of-write}
use study_notes.Sparse.Marking.{present_section_nr_lem}
use study_notes.Sparse.Virt.{Backing}
use study_notes.Sparse.Populate.{
  Paging, Mapping, Setup, with_mapping, mapping_of, vmemmap_populate, pfn_to_page,
  sparse_encode_mem_map, sparse_mem_map_populate, sparse_init_one_section,
  sparse_early_mem_map_alloc, map_section, init_section,
}
use study_notes.Sparse.Mapped.{Ends, Orderly, Populated, vmemmap_populate-Populated}

-- What is documented of the constants, for `n` sections: the two low bits of `section_mem_map` are the
-- flags, the second says that there is a memory map, and the page structures of all sections have room
-- behind `vmemmap`.
pub record IsPaging (g : Paging) (n : ℕ) : Type 0 where
  pub ends : Ends g
  pub orderly : Orderly g
  pub mask : g.section_map_mask ≡ word - 4
  pub has : g.section_has_mem_map ≡ 2
  pub aligned : g.vmemmap % 4 ≡ 0
  pub above : 0 < g.vmemmap
  pub pages : 0 < g.page_bytes
  pub few : n ≤ 2 ^ 18
  pub room : g.vmemmap + n * 2 ^ 18 * g.page_bytes < word

flags_of_three : (v : ℕ) → v % 4 ≡ 0 → bit_or 1 (bit_or v 2) ≡ v + 3
flags_of_three v h =
    let e : v / 4 * 4 + 0 ≡ v = omega arith in
    let inner : bit_or v 2 ≡ v / 4 * 4 + 2 =
      ap (λ (t : ℕ). bit_or t 2) (sym e)
      ∙ bit_or-flags (v / 4) 0 0 2 (omega arith) (omega arith)
      ∙ omega (arith, bit_or-zero (v / 4)) in
    rw inner (
      bit_or-flags 0 1 (v / 4) 2 (omega arith) (omega arith)
      ∙ rw (zero-bit_or (v / 4)) (omega arith))

module _ (g : Paging) (pnum : ℕ) where
  -- The section is left as it is if it is absent or has no bitmap.
  abbrev pub Left : ℕ → MemSection → MemSection → Type 0
  Left usemap old new = (new ≡ old) × ((old.section_mem_map % 2 ≡ 0) ⊎ (usemap ≡ 0))

  -- The section has its bitmap and a memory map, and its page structures are mapped.
  pub record IsReady (usemap : ℕ) (new : MemSection) (pmd : ℕ → ℕ) : Type 0 where
    pub holds : new ≡ record { section_mem_map = g.vmemmap + 3; pageblock_flags = usemap }
    pub bitmap : usemap ≢ 0
    pub mapped :
        (a : ℕ)
        → g.vmemmap + pnum * 2 ^ 18 * g.page_bytes ≤ a
        → a < g.vmemmap + pnum * 2 ^ 18 * g.page_bytes + 2 ^ 18 * g.page_bytes
        → pmd (a / 2 ^ 21) ≢ 0

  -- The section is no longer present: there was no memory to map its page structures.
  pub record Dropped (usemap : ℕ) (old new : MemSection) : Type 0 where
    pub holds : new ≡ record { section_mem_map = 0; pageblock_flags = old.pageblock_flags }
    pub bitmap : usemap ≢ 0
    pub before : Mapping
    pub after : Mapping
    pub refused :
        vmemmap_populate g
          (g.vmemmap + pnum * 2 ^ 18 * g.page_bytes)
          (g.vmemmap + pnum * 2 ^ 18 * g.page_bytes + 2 ^ 18 * g.page_bytes)
          (sparse_early_nid old)
          before
        ≡ done (after, enomem)

  abbrev pub Inited : ℕ → MemSection → MemSection → (ℕ → ℕ) → Type 0
  Inited usemap old new pmd = Left usemap old new ⊎ IsReady usemap new pmd ⊎ Dropped usemap old new

  pub record Stepped (usemap : ℕ) (w w' : Setup) : Type 0 where
    pub here : Inited usemap (section_of w.sparse pnum) (section_of w'.sparse pnum) w'.pmd
    pub others : (j : ℕ) → j ≢ pnum → section_of w'.sparse j ≡ section_of w.sparse j
    pub kept : (i : ℕ) → w.pmd i ≢ 0 → w'.pmd i ≡ w.pmd i
    pub valid : IsValid w.sparse.memblock.reserved → IsValid w'.sparse.memblock.reserved

module _ (g : Paging) (n : ℕ) (law : IsPaging g n) (pnum : ℕ) (below : pnum < n) where
  fits : g.vmemmap + pnum * 2 ^ 18 * g.page_bytes + 2 ^ 18 * g.page_bytes < word
  fits = grind (arith, law.room)

  map_address : pfn_to_page g (pnum * 2 ^ 18) ≡ g.vmemmap + pnum * 2 ^ 18 * g.page_bytes
  map_address = omega (arith, fits)

  encode : sparse_encode_mem_map g (pfn_to_page g (pnum * 2 ^ 18)) pnum ≡ g.vmemmap
  encode =
      let small : pnum * 2 ^ 18 % word ≡ pnum * 2 ^ 18 = omega (arith, law.few) in
      rw (map_address, small) (omega (arith, fits))

  one_section :
      (ms : MemSection) (bitmap : ℕ)
      → ms.section_mem_map % 4 ≡ 1
      → sparse_init_one_section g ms pnum (pfn_to_page g (pnum * 2 ^ 18)) bitmap
        ≡ some (record { section_mem_map = g.vmemmap + 3; pageblock_flags = bitmap })
  unfolding sparse_init_one_section
  one_section ms bitmap h =
      let bit : bit_and ms.section_mem_map 1 ≡ 1 = bit_and-one ms.section_mem_map ∙ omega arith in
      let low : bit_and ms.section_mem_map 3 ≡ 1 = bit_and-three ms.section_mem_map ∙ omega arith in
      simp (law.mask, law.has) (rw (bit, encode, low, flags_of_three g.vmemmap law.aligned) refl)

  -- A write to the section beside new mappings.
  wrote :
      (usemap : ℕ) (w : Setup) (t : Mapping) (code : Code) (old ms : MemSection)
      → nr_to_section w.sparse pnum ≡ some old
      → ((i : ℕ) → w.pmd i ≢ 0 → t.pmd i ≡ w.pmd i)
      → (IsValid w.sparse.memblock.reserved → IsValid t.memblock.reserved)
      → Inited g pnum usemap old ms t.pmd
      → Stepped g pnum usemap w
          (record { sparse = write_section (with_mapping w t).sparse pnum ms; pmd = t.pmd })
  unfolding nr_to_section write_section
  wrote usemap w t code old ms there kept v i =
      let s = record w.sparse { memblock = t.memblock } in
      let at_j = section_of-write s pnum old ms there in
      let this : section_of (write_section s pnum ms) pnum ≡ ms = at_j pnum ∙ ground arith in
      record {
        here = rw (this, there) i;
        others = λ j o. at_j j ∙ ground arith;
        kept = kept;
        valid = v;
      }

  map_section-Stepped :
      (b : Backing) (usemap : ℕ) (ms : MemSection) (w : Setup)
      → usemap ≢ 0
      → nr_to_section w.sparse pnum ≡ some ms
      → ms.section_mem_map % 4 ≡ 1
      → Returns (Stepped g pnum usemap w) (map_section g b pnum usemap ms w)
  unfolding map_section sparse_early_mem_map_alloc sparse_mem_map_populate
  map_section-Stepped b usemap ms w u there one =
      let (out, e, p) =
        Returns-value (Populated from upto (mapping_of w))
          (vmemmap_populate g from upto nid (mapping_of w))
          (vmemmap_populate-Populated g law.orderly law.ends from upto nid (mapping_of w)
            (omega (arith, law.pages))) in
      by_code out.0 out.1 e p
    where
      from : ℕ
      from = g.vmemmap + pnum * 2 ^ 18 * g.page_bytes

      upto : ℕ
      upto = from + 2 ^ 18 * g.page_bytes

      nid : ℕ
      nid = sparse_early_nid ms

      end_address : add64 from (2 ^ 18 * g.page_bytes) ≡ upto
      end_address = omega (arith, fits)

      nonzero : (pfn_to_page g (pnum * 2 ^ 18) == 0) ≡ false
      nonzero = ground (arith, map_address, law.above)

      by_code :
          (t : Mapping) (code : Code)
          → vmemmap_populate g from upto nid (mapping_of w) ≡ done (t, code)
          → Populated from upto (mapping_of w) (t, code)
          → Returns (Stepped g pnum usemap w) (map_section g b pnum usemap ms w)
      by_code t enomem e p =
          rw (map_address, end_address, e)
            (wrote usemap w t enomem ms (record ms { section_mem_map = 0 }) there p.kept p.valid
              (inr (
                inr (record {
                  holds = refl;
                  bitmap = u;
                  before = mapping_of w;
                  after = t;
                  refused = e;
                }))))
      by_code t success e p =
          rw (map_address, end_address, e)
            (rw (nonzero, one_section ms usemap one, nonzero)
              (wrote usemap w t success ms
                (record { section_mem_map = g.vmemmap + 3; pageblock_flags = usemap }) there p.kept
                p.valid (inr (inl (record { holds = refl; bitmap = u; mapped = p.mapped refl })))))

  present-there :
      (s : Sparse)
      → present_section_nr s pnum ≡ true
      → (ms : MemSection) × (nr_to_section s pnum ≡ some ms)
  unfolding present_section_nr
  present-there s h = by_pointer (nr_to_section s pnum) refl
    where
      by_pointer :
          (o : Option MemSection)
          → nr_to_section s pnum ≡ o
          → (ms : MemSection) × (nr_to_section s pnum ≡ some ms)
      by_pointer none e = absurd (ground arith)
      by_pointer (some ms) e = (ms, e)

  pub init_section-Stepped :
      (b : Backing) (usemap_map : ℕ → ℕ) (w : Setup)
      → ((section_of w.sparse pnum).section_mem_map % 2 ≡ 1
          → (section_of w.sparse pnum).section_mem_map % 4 ≡ 1)
      → Returns (Stepped g pnum (usemap_map pnum) w) (init_section g b usemap_map pnum w)
  unfolding init_section
  init_section-Stepped b usemap_map w early = elim (Bool-cases (present_section_nr w.sparse pnum)) [
    | inr absent ↦
        rw (absent, init_section)
          (same (inl (ground (arith, present_section_nr_lem w.sparse pnum))))
    | inl there ↦ elim (Bool-cases (usemap_map pnum == 0)) [
      | inl none_given ↦ rw (there, none_given, init_section) (same (inr (ground arith)))
      | inr given ↦
          let (ms, e) = present-there w.sparse there in
          let low : ms.section_mem_map % 4 ≡ 1 =
            ground (arith, early, present_section_nr_lem w.sparse pnum) in
          rw (there, given, e, init_section)
            (map_section-Stepped b (usemap_map pnum) ms w (ground arith) e low)
    ]
  ]
    where
      same :
          ((section_of w.sparse pnum).section_mem_map % 2 ≡ 0) ⊎ (usemap_map pnum ≡ 0)
          → Stepped g pnum (usemap_map pnum) w w
      same why = record {
        here = inl (refl, why);
        others = λ j o. refl;
        kept = λ i k. refl;
        valid = λ v. v;
      }
