-- ===== src/Buddy/Laid.antt =====
-- The zones that boot lays out: `bootmem_init`, from the memory map to the page counts.
use study_notes.Common.{
  ℕ, ◌+◌, ◌≤◌, ◌<◌, ◌≡◌, ◌≢◌, refl, sym, ap, subst, ◌∙◌, some, Bool, true, false, not, word,
  Returns, Returns-map, arith,
}
use study_notes.Memblock.Chain.{within}
use study_notes.Buddy.Frames.{ZoneType, zone_dma, zone_normal, zone_movable}
use study_notes.Buddy.Zone.{Page, Memmap, Kernel, Config}
use study_notes.Buddy.Memmap.{early, pfn_valid, init_page}
use study_notes.Buddy.Painted.{Mapped, painted}
use study_notes.Buddy.Core.{
  all_zones, sum_spanned, less_absent, calculate_node_totalpages, free_area_init_node,
}
use study_notes.Buddy.Round.{Counted, Placed, HasHeap}
use study_notes.Buddy.Rounds.{Rounds, init_zones-Rounds}

module _ (c : Config) where
  -- The page of each valid frame of [lo, hi) is set up for the zone.
  abbrev pub Paged : ZoneType → ℕ → ℕ → ℕ → (ℕ → Page) → Type 0
  Paged j nid lo hi page =
      (q : ℕ) → lo ≤ q → q < hi → pfn_valid c q ≡ true → (p : Page) × (page q ≡ init_page c j nid p)

  -- The zones from frame `start` on, `dma` and `normal` frames long, with so many missing.
  pub record Laid (nid start dma normal dma_hole normal_hole : ℕ) (k' : Kernel) : Type 0 where
    pub dma_counted : Counted dma dma_hole zone_dma (k'.node.node_zones zone_dma)
    pub normal_counted : Counted normal normal_hole zone_normal (k'.node.node_zones zone_normal)
    pub movable_counted : Counted 0 0 zone_movable (k'.node.node_zones zone_movable)
    pub dma_placed : dma ≢ 0 → Placed dma start (k'.node.node_zones zone_dma)
    pub normal_placed : normal ≢ 0 → Placed normal (start + dma) (k'.node.node_zones zone_normal)
    pub dma_paged : Paged zone_dma nid start (start + dma) k'.memmap.page
    pub normal_paged : Paged zone_normal nid (start + dma) (start + dma + normal) k'.memmap.page
    pub totals :
        (k'.node.node_spanned_pages ≡ dma + normal)
        × (k'.node.node_present_pages + (dma_hole + normal_hole) ≡ k'.node.node_spanned_pages)

  module _ (heap : HasHeap c) (zones_size zholes_size : ZoneType → ℕ) (k k' : Kernel)
      (start : ℕ) where
    painted-in :
        (j : ZoneType) (nid lo hi : ℕ) (page : ℕ → Page) (q : ℕ)
        → lo ≤ q
        → q < hi
        → pfn_valid c q ≡ true
        → painted c j nid early lo hi page q ≡ init_page c j nid (page q)
    painted-in j nid lo hi page q a b v =
        let inside : within lo hi q ≡ true = ground arith in rw (inside, v) refl

    painted-out :
        (j : ZoneType) (nid lo hi : ℕ) (page : ℕ → Page) (q : ℕ)
        → q < lo
        → painted c j nid early lo hi page q ≡ page q
    painted-out j nid lo hi page q h =
        let out : within lo hi q ≡ false = ground arith in rw out refl

    Rounds-Laid :
        zones_size zone_movable ≡ 0
        → zholes_size zone_movable ≡ 0
        → k.node.node_spanned_pages ≡ zones_size zone_dma + zones_size zone_normal
        → k.node.node_present_pages + (zholes_size zone_dma + zholes_size zone_normal)
          ≡ k.node.node_spanned_pages
        → Rounds c heap zones_size zholes_size all_zones start k k'
        → Laid k.node.node_id start
            (zones_size zone_dma)
            (zones_size zone_normal)
            (zholes_size zone_dma)
            (zholes_size zone_normal)
            k'
    Rounds-Laid z zh sp pr (k1, r1, (k2, r2, (k3, r3, e))) =
        let last : k3 ≡ k' = sym e in
        let dma : k3.node.node_zones zone_dma ≡ k1.node.node_zones zone_dma =
          r3.others zone_dma (omega arith) ∙ r2.others zone_dma (omega arith) in
        let normal : k3.node.node_zones zone_normal ≡ k2.node.node_zones zone_normal =
          r3.others zone_normal (omega arith) in
        subst
          (Laid k.node.node_id start (zones_size zone_dma) (zones_size zone_normal)
            (zholes_size zone_dma) (zholes_size zone_normal))
          last
          (record {
            dma_counted =
                subst (Counted (zones_size zone_dma) (zholes_size zone_dma) zone_dma) (sym dma)
                  r1.counted;
            normal_counted =
                subst (Counted (zones_size zone_normal) (zholes_size zone_normal) zone_normal)
                  (sym normal) r2.counted;
            movable_counted = rw (z, zh) at r3.counted;
            dma_placed = λ h. subst (Placed (zones_size zone_dma) start) (sym dma) (r1.placed h);
            normal_placed = λ h.
                subst (Placed (zones_size zone_normal) (start + zones_size zone_dma)) (sym normal)
                  (r2.placed h);
            dma_paged = λ q a b v. (
              k.memmap.page q,
              r3.pages q
                  ∙ painted-out zone_movable _ _ _ k2.memmap.page q (omega (arith, b))
                  ∙ r2.pages q
                  ∙ painted-out zone_normal _ _ _ k1.memmap.page q b
                  ∙ r1.pages q
                  ∙ painted-in zone_dma _ _ _ k.memmap.page q a b v,
            );
            normal_paged = λ q a b v. (
              k1.memmap.page q,
              r3.pages q
                  ∙ painted-out zone_movable _ _ _ k2.memmap.page q b
                  ∙ r2.pages q
                  ∙ painted-in zone_normal _ _ _ k1.memmap.page q a b v
                  ∙ ap (λ i. init_page c zone_normal i (k1.memmap.page q)) r1.node_id,
            );
            totals =
                let spanned = r3.totals.0 ∙ r2.totals.0 ∙ r1.totals.0 in
                let there = r3.totals.1 ∙ r2.totals.1 ∙ r1.totals.1 in (spanned ∙ sp, omega arith);
          })

  module _ (heap : HasHeap c) where
    -- Every valid frame of [lo, hi) has a bitmap.
    abbrev pub Sections : ℕ → ℕ → Memmap → Type 0
    Sections lo hi m = (q : ℕ) → lo ≤ q → q < hi → pfn_valid c q ≡ true → Mapped c m q

    true_by_not : (b : Bool) → not b ≡ false → b ≡ true
    true_by_not true h = refl
    true_by_not false h = cc

    pub free_area_init_node-Laid :
        (nid start : ℕ) (zones_size zholes_size : ZoneType → ℕ) (k : Kernel)
        → zones_size zone_movable ≡ 0
        → zholes_size zone_movable ≡ 0
        → zholes_size zone_dma ≤ zones_size zone_dma
        → zholes_size zone_normal ≤ zones_size zone_normal
        → start + zones_size zone_dma + zones_size zone_normal < word
        → Sections start (start + zones_size zone_dma + zones_size zone_normal) k.memmap
        → Returns
            (Laid nid start
              (zones_size zone_dma)
              (zones_size zone_normal)
              (zholes_size zone_dma)
              (zholes_size zone_normal))
            (free_area_init_node c nid zones_size start (some zholes_size) k)
    unfolding free_area_init_node calculate_node_totalpages sum_spanned less_absent
    free_area_init_node-Laid nid start zones_size zholes_size k z zh a b w h =
        Returns-map (Rounds c heap zones_size zholes_size all_zones start _) _ _
          (λ k' x.
            Rounds-Laid heap zones_size zholes_size _ k' start z zh (omega arith) (omega arith) x)
          (init_zones-Rounds c heap zones_size zholes_size all_zones start _ (
            a,
            omega arith,
            λ q x y v. h q x (omega arith) (true_by_not _ v),
            (
              b,
              omega arith,
              λ q x y v. h q (omega arith) y (true_by_not _ v),
              (omega arith, omega arith, λ q x y v. absurd (omega arith), tt),
            ),
          ))
