-- ===== src/Sparse/Boot.antt =====
-- `sparse_init` (mm/sparse_init.c) as a whole, on what `arm64_memory_present` left.
use study_notes.Common.{
  ℕ, zero, suc, ◌+◌, ◌/◌, ◌%◌, ◌^◌, ◌≤◌, ◌<◌, ◌≡◌, ◌≢◌, ◌⊎◌, refl, ◌∙◌, subst, ◌==◌, Bool-cases,
  inl, inr, Returns, Returns->>=, Returns-map, arith,
}
use study_notes.Memblock.Chain.{IsValid}
use study_notes.Sparse.Section.{MemSection}
use study_notes.Sparse.Present.{section_of}
use study_notes.Sparse.Virt.{Backing}
use study_notes.Sparse.Populate.{Paging, Setup, init_section, init_sections}
use study_notes.Sparse.Ready.{IsPaging, Inited, Stepped, init_section-Stepped}

module _ (g : Paging) where
  -- What becomes of the sections [lo, hi); the others stay.
  pub record AllInited (lo hi : ℕ) (maps : ℕ → ℕ) (w w' : Setup) : Type 0 where
    pub inside :
        (j : ℕ)
        → lo ≤ j
        → j < hi
        → Inited g j (maps j) (section_of w.sparse j) (section_of w'.sparse j) w'.pmd
    pub outside : (j : ℕ) → (j < lo) ⊎ (hi ≤ j) → section_of w'.sparse j ≡ section_of w.sparse j
    pub kept : (i : ℕ) → w.pmd i ≢ 0 → w'.pmd i ≡ w.pmd i
    pub valid : IsValid w.sparse.memblock.reserved → IsValid w'.sparse.memblock.reserved

  -- A section keeps what it got while the mappings stay.
  Inited-kept :
      (j usemap : ℕ) (old new : MemSection) (pmd pmd' : ℕ → ℕ)
      → ((i : ℕ) → pmd i ≢ 0 → pmd' i ≡ pmd i)
      → Inited g j usemap old new pmd
      → Inited g j usemap old new pmd'
  Inited-kept j usemap old new pmd pmd' kept (inl l) = inl l
  Inited-kept j usemap old new pmd pmd' kept (inr (inr d)) = inr (inr d)
  Inited-kept j usemap old new pmd pmd' kept (inr (inl r)) = inr (
      inl (record {
        holds = r.holds;
        bitmap = r.bitmap;
        mapped = λ a lo hi. rw (kept (a / 2 ^ 21) (r.mapped a lo hi)) (r.mapped a lo hi);
      }))

  -- Without a bitmap a section is left alone.
  pub Inited-null :
      (j usemap : ℕ) (old new : MemSection) (pmd : ℕ → ℕ)
      → usemap ≡ 0
      → Inited g j usemap old new pmd
      → new ≡ old
  Inited-null j usemap old new pmd z (inl l) = l.0
  Inited-null j usemap old new pmd z (inr (inl r)) = absurd (r.bitmap z)
  Inited-null j usemap old new pmd z (inr (inr d)) = absurd (d.bitmap z)

  AllInited-step :
      (pnum rounds : ℕ) (maps : ℕ → ℕ) (w w' w'' : Setup)
      → Stepped g pnum (maps pnum) w w'
      → AllInited (pnum + 1) (rounds + (pnum + 1)) maps w' w''
      → AllInited pnum (suc rounds + pnum) maps w w''
  AllInited-step pnum rounds maps w w' w'' s a = record {
    inside = λ j lo hi. elim (Bool-cases (pnum == j)) [
      | inl e ↦
          let same : pnum ≡ j = ground arith in
          subst (λ i. Inited g i (maps i) (section_of w.sparse i) (section_of w''.sparse i) w''.pmd)
            same here
      | inr e ↦ rw (s.others j (ground arith)) at (a.inside j (ground arith) (omega arith))
    ];
    outside = λ j o. a.outside j (ground arith) ∙ s.others j (ground arith);
    kept = λ i k. a.kept i (rw (s.kept i k) k) ∙ s.kept i k;
    valid = λ v. a.valid (s.valid v);
  }
    where
      here :
          Inited g pnum (maps pnum) (section_of w.sparse pnum) (section_of w''.sparse pnum) w''.pmd
      here =
          rw (a.outside pnum (inl (omega arith)))
            (Inited-kept pnum (maps pnum) _ _ w'.pmd w''.pmd a.kept s.here)

  -- Bit 0 is set only in a section that holds a node, with bit 1 clear.
  abbrev pub Early : Setup → Type 0
  Early w =
      (j : ℕ)
      → (section_of w.sparse j).section_mem_map % 2 ≡ 1
      → (section_of w.sparse j).section_mem_map % 4 ≡ 1

  module _ (n : ℕ) (law : IsPaging g n) (b : Backing) (maps : ℕ → ℕ) where
    pub init_sections-AllInited :
        (rounds pnum : ℕ) (w : Setup)
        → rounds + pnum ≤ n
        → ((j : ℕ)
            → pnum ≤ j
            → (section_of w.sparse j).section_mem_map % 2 ≡ 1
            → (section_of w.sparse j).section_mem_map % 4 ≡ 1)
        → Returns (AllInited pnum (rounds + pnum) maps w) (init_sections g b rounds pnum maps w)
    unfolding init_sections
    init_sections-AllInited zero pnum w h early = record {
      inside = λ j lo hi. absurd (omega arith);
      outside = λ j o. refl;
      kept = λ i k. refl;
      valid = λ v. v;
    }
    init_sections-AllInited (suc rounds) pnum w h early =
        Returns->>= (Stepped g pnum (maps pnum) w) (AllInited pnum (suc rounds + pnum) maps w)
          (init_section g b maps pnum w) _
          (init_section-Stepped g n law pnum (omega arith) b maps w (early pnum (omega arith)))
          λ w' s.
            Returns-map (AllInited (pnum + 1) (rounds + (pnum + 1)) maps w')
              (AllInited pnum (suc rounds + pnum) maps w) _
              (λ w'' a. AllInited-step pnum rounds maps w w' w'' s a)
              (init_sections-AllInited rounds (pnum + 1) w' (omega arith)
                λ j lo. rw (s.others j (omega arith)) (early j (omega arith)))
