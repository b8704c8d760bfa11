-- ===== src/Sparse/Marking.antt =====
-- `memory_present` and `arm64_memory_present` (mm/sparse_init.c): which sections a memory map marks.

use study_notes.Common.{
  ℕ, zero, suc, ◌+◌, ◌*◌, ◌/◌, ◌%◌, ◌^◌, ◌≤◌, ◌<◌, ◌≡◌, refl, ◌∙◌, min, List, [], ◌∷◌, Bool, true,
  false, ◌&&◌, ◌||◌, ◌==◌, ltb, leb, word, if◌then◌else◌, ltb-cases, inl, inr, Returns, Returns->>=,
  Returns-map, arith,
}
use study_notes.Memblock.Region.{Region}
use study_notes.Memblock.Chain.{IsValid}
use study_notes.Buddy.Frames.{base_pfn, end_pfn}
use study_notes.Buddy.Holes.{present}
use study_notes.Sparse.Masks.{bit_and-section_mask, bit_and-one}
use study_notes.Sparse.Section.{
  MemSection, Sparse, Platform, present_loop, present_round, memory_present, arm64_memory_present,
  present_section_nr,
}
use study_notes.Sparse.Present.{
  section_of, zeros, Steady, IsBoot, marked, Rounded, present_round-Rounded,
}

-- Sections `lo`, `lo` + 1 and so on, as far as they start below the frame `end`. Section `j` starts at
-- frame j * 2 ^ 18.
abbrev pub swept : ℕ → ℕ → ℕ → Bool
swept lo end j = leb lo j && ltb (j * 2 ^ 18) end

-- A value that the first section changes, and those behind it.
sweep_step {ℓ} :
    {A : Type ℓ} (f : A → A) (x y z : A) (k end j : ℕ)
    → k * 2 ^ 18 < end
    → y ≡ (if k == j then f x else x)
    → z ≡ (if swept (suc k) end j then f y else y)
    → z ≡ (if swept k end j then f x else x)
sweep_step f x y z k end j h ey ez = ground arith

clamped : (a e n j : ℕ) → swept (min a n) (min e (n * 2 ^ 18)) j ≡ swept a (min e (n * 2 ^ 18)) j
clamped a e n j = ground arith

module _ (p : Platform) (boot : IsBoot p) where
  -- What the sections hold after the node `nid` was marked from section `lo` to the frame `end`.
  pub record Swept (nid lo end : ℕ) (s s' : Sparse) : Type 0 where
    pub sections :
        (j : ℕ)
        → section_of s' j
          ≡ (if swept lo end j then marked p boot nid (section_of s j) else section_of s j)
    pub table :
        (j : ℕ)
        → s'.section_to_node_table j
          ≡ (if swept lo end j then nid % 256 else s.section_to_node_table j)
    pub steady : Steady s s'

  present_loop-Swept :
      (fuel nid k pfn end : ℕ) (s : Sparse)
      → pfn ≡ k * 2 ^ 18
      → p.nr_mem_sections < fuel + k
      → k ≤ p.nr_mem_sections
      → end ≤ p.nr_mem_sections * 2 ^ 18
      → IsValid s.memblock.reserved
      → Returns (Swept nid k end s) (present_loop p fuel nid pfn end s)
  unfolding present_loop
  present_loop-Swept zero nid k pfn end s e f b h v = absurd (omega arith)
  present_loop-Swept (suc fuel) nid k pfn end s e f b h v = elim (ltb-cases pfn end) [
    | inl (t, lt) ↦
        rw (t, present_loop)
          (Returns->>= (Rounded p boot (pfn / 2 ^ 18) nid s) (Swept nid k end s)
            (present_round p nid pfn s) _
            (present_round-Rounded p boot nid pfn s (omega (arith, boot.few)) v)
            λ s' r.
              Returns-map (Swept nid (suc k) end s') (Swept nid k end s) _
                (λ s'' w.
                  let here : pfn / 2 ^ 18 ≡ k = omega arith in
                  record {
                    sections = λ j.
                        sweep_step (marked p boot nid) (section_of s j) _ _ k end j (omega arith)
                          (rw here at (r.sections j)) (w.sections j);
                    table = λ j.
                        sweep_step (λ _. nid % 256) (s.section_to_node_table j) _ _ k end j
                          (omega arith) (rw here at (r.table j)) (w.table j);
                    steady = record {
                      memory = w.steady.memory ∙ r.steady.memory;
                      valid = w.steady.valid;
                    };
                  })
                (present_loop-Swept fuel nid (suc k) ((pfn + 2 ^ 18) % word) end s'
                  (omega (arith, boot.few)) (omega arith) (omega arith) h r.steady.valid))
    | inr (t, ge) ↦
        rw (t, present_loop)
          (record {
            sections = λ j. ground arith;
            table = λ j. ground arith;
            steady = record { memory = refl; valid = v };
          })
  ]

  -- `memory_present` of the frames [start, end) for a node, with `reserved` in order and a platform that
  -- serves root tables: it returns. A section is in reach if it is the one of `start` or a later one and
  -- starts below `end` and below the last section. Each section in reach that held nothing in
  -- `section_mem_map` now holds 4 times the node and 1 there; one that held something, and one out of
  -- reach, is as before, bitmaps included. In `section_to_node_table` each section in reach has the
  -- node, modulo 256, and each other one what it had. The memory map is as before.
  pub memory_present-Swept :
      (nid start end : ℕ) (s : Sparse)
      → start < word
      → IsValid s.memblock.reserved
      → Returns
          (Swept nid (start / 2 ^ 18) (min end (p.nr_mem_sections * 2 ^ 18)) s)
          (memory_present p nid start end s)
  unfolding memory_present
  memory_present-Swept nid start end s h v =
      rw (bit_and-section_mask start h, boot.limits, memory_present)
        (Returns-map (Swept nid k limit s) (Swept nid (start / 2 ^ 18) limit s) _
          (λ s' w. record {
            sections = λ j. rw (clamped (start / 2 ^ 18) end p.nr_mem_sections j) at (w.sections j);
            table = λ j. rw (clamped (start / 2 ^ 18) end p.nr_mem_sections j) at (w.table j);
            steady = w.steady;
          })
          (present_loop-Swept (p.nr_mem_sections + 1) nid k
            (min (start / 2 ^ 18 * 2 ^ 18) (p.nr_mem_sections * 2 ^ 18)) limit s (omega arith)
            (omega arith) (omega arith) (omega arith) v))
    where
      k : ℕ
      k = min (start / 2 ^ 18) p.nr_mem_sections

      limit : ℕ
      limit = min end (p.nr_mem_sections * 2 ^ 18)

  -- The section holds a frame of the region, or starts behind one and within it.
  abbrev pub touches : Region → ℕ → Bool
  touches r j = swept (base_pfn r / 2 ^ 18) (min (end_pfn r) (p.nr_mem_sections * 2 ^ 18)) j

  abbrev pub touched : List Region → ℕ → Bool
  touched [] j = false
  touched (r ∷ rs) j = touches r j || touched rs j

  pub record Marked (memory : List Region) (s s' : Sparse) : Type 0 where
    pub sections :
        (j : ℕ)
        → section_of s' j
          ≡ (if touched memory j then marked p boot 0 (section_of s j) else section_of s j)
    pub steady : Steady s s'

  marked_twice :
      (a b : Bool) (x y z : MemSection)
      → y ≡ (if a then marked p boot 0 x else x)
      → z ≡ (if b then marked p boot 0 y else y)
      → z ≡ (if a || b then marked p boot 0 x else x)
  marked_twice a b x y z ey ez = ground arith

  pub arm64_memory_present-Marked :
      (memory : List Region) (s : Sparse)
      → IsValid s.memblock.reserved
      → Returns (Marked memory s) (arm64_memory_present p memory s)
  unfolding arm64_memory_present
  arm64_memory_present-Marked [] s v = record {
    sections = λ j. refl;
    steady = record { memory = refl; valid = v };
  }
  arm64_memory_present-Marked (r ∷ rs) s v =
      Returns->>= (Swept 0 (base_pfn r / 2 ^ 18) (min (end_pfn r) (p.nr_mem_sections * 2 ^ 18)) s)
        (Marked (r ∷ rs) s) (memory_present p 0 (base_pfn r) (end_pfn r) s) _
        (memory_present-Swept 0 (base_pfn r) (end_pfn r) s (omega arith) v)
        λ s' w.
          Returns-map (Marked rs s') (Marked (r ∷ rs) s) _
            (λ s'' m. record {
              sections = λ j.
                  marked_twice (touches r j) (touched rs j) (section_of s j) (section_of s' j) _
                    (w.sections j) (m.sections j);
              steady = record {
                memory = m.steady.memory ∙ w.steady.memory;
                valid = m.steady.valid;
              };
            })
            (arm64_memory_present-Marked rs s' w.steady.valid)

-- A section is present exactly if bit 0 of what it holds is set; none is read as zeros.
pub present_section_nr_lem :
    (s : Sparse) (j : ℕ)
    → present_section_nr s j ≡ (if (section_of s j).section_mem_map % 2 == 0 then false else true)
unfolding present_section_nr
present_section_nr_lem s j =
    ground (arith, bit_and-one (section_of s j).section_mem_map, bit_and-one 0)

module _ (p : Platform) (boot : IsBoot p) where
  -- The sections of the memory map are present, those alone, on node 0, without a bitmap.
  pub record HasMemory (memory : List Region) (s s' : Sparse) : Type 0 where
    pub exactly : (j : ℕ) → present_section_nr s' j ≡ touched p boot memory j
    pub frames :
        (f : ℕ)
        → present memory f ≡ true
        → f < p.nr_mem_sections * 2 ^ 18
        → present_section_nr s' (f / 2 ^ 18) ≡ true
    pub held :
        (j : ℕ)
        → section_of s' j ≡ record {
          section_mem_map = if touched p boot memory j then 1 else 0;
          pageblock_flags = 0;
        }
    pub steady : Steady s s'

  present-touched :
      (memory : List Region) (f : ℕ)
      → present memory f ≡ true
      → f < p.nr_mem_sections * 2 ^ 18
      → touched p boot memory (f / 2 ^ 18) ≡ true
  present-touched [] f h b = absurd (cc)
  present-touched (r ∷ rs) f h b = ground (arith, present-touched rs f)

  -- With no section known before, `reserved` in order and a platform that serves root tables:
  -- `arm64_memory_present` returns. A section is then present exactly if some region touches it: it
  -- starts at or behind the section that holds the region's first frame, before the region's end and
  -- below NR_MEM_SECTIONS. So each frame of a region, below the last section, lies in a present section.
  -- Each present section is of node 0, and none has a bitmap; the memory map is as before.
  pub arm64_memory_present-HasMemory :
      (memory : List Region) (s : Sparse)
      → IsValid s.memblock.reserved
      → ((j : ℕ) → section_of s j ≡ zeros)
      → Returns (HasMemory memory s) (arm64_memory_present p memory s)
  arm64_memory_present-HasMemory memory s v empty =
      Returns-map (Marked p boot memory s) (HasMemory memory s) _
        (λ s' m.
          let exactly : (j : ℕ) → present_section_nr s' j ≡ touched p boot memory j =
            λ j. present_section_nr_lem s' j ∙ rw (m.sections j, empty j) (ground arith) in
          record {
            exactly = exactly;
            frames = λ f h b. exactly (f / 2 ^ 18) ∙ present-touched memory f h b;
            held = λ j. m.sections j ∙ rw (empty j) (ground arith);
            steady = m.steady;
          })
        (arm64_memory_present-Marked p boot memory s v)
