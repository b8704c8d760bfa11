-- ===== src/Buddy/Painted.antt =====
-- The page structures after `memmap_init_zone`.
use study_notes.Common.{
  ℕ, zero, suc, ◌+◌, ◌-◌, ◌%◌, ◌^◌, ◌≤◌, ◌<◌, ◌≡◌, refl, sym, ◌∙◌, List, [], Option, some, true,
  false, not, ◌&&◌, ◌==◌, ltb, leb, ltb-cases, Bool-cases, inl, inr, if◌then◌else◌, word, add64,
  max, Returns, Returns-map, Returns->>=, arith,
}
use study_notes.Memblock.Chain.{within}
use study_notes.Buddy.Frames.{ZoneType}
use study_notes.Buddy.Zone.{Zone, Page, Memmap, Config, zone_end_pfn}
use study_notes.Buddy.Pageblock.{
  MigrateType, movable, pfn_to_section_nr, write_bitmap, set_pfnblock_flags_mask,
  set_pageblock_migratetype,
}
use study_notes.Buddy.Memmap.{
  Context, init_page, write_page, init_pfn, skips, memmap_loop, memmap_init_zone,
}

module _ (c : Config) where
  -- The section of the frame has a bitmap.
  abbrev pub Mapped : Memmap → ℕ → Type 0
  Mapped m pfn = (bitmap : ℕ → ℕ) × (m.pageblock_flags (pfn_to_section_nr c pfn) ≡ some bitmap)

  -- The bitmaps of the sections are still there, and the highest frame is the same.
  abbrev pub Keeps : Memmap → Memmap → Type 0
  Keeps m m' = ((q : ℕ) → Mapped m q → Mapped m' q) × (m'.highest_memmap_pfn ≡ m.highest_memmap_pfn)

  write_bitmap-Mapped :
      (table : ℕ → Option (ℕ → ℕ)) (nr n : ℕ) (bitmap : ℕ → ℕ)
      → (b : ℕ → ℕ) × (table n ≡ some b)
      → (b : ℕ → ℕ) × (write_bitmap c table nr bitmap n ≡ some b)
  write_bitmap-Mapped table nr n bitmap (b, e) = elim (Bool-cases (nr == n)) [
    | inl h ↦ rw h (bitmap, refl)
    | inr h ↦ rw h (b, e)
  ]

  set_pageblock_migratetype-Keeps :
      (seen : List ℕ) (m : Memmap) (pfn : ℕ) (t : MigrateType)
      → Mapped m pfn
      → Returns (λ m'. (m'.page ≡ m.page) × Keeps m m') (set_pageblock_migratetype c seen m pfn t)
  unfolding set_pageblock_migratetype set_pfnblock_flags_mask
  set_pageblock_migratetype-Keeps seen m pfn t (b, e) =
      rw (e, set_pageblock_migratetype, set_pfnblock_flags_mask)
        (refl, (λ q h. write_bitmap-Mapped m.pageblock_flags (pfn_to_section_nr c pfn) _ _ h, refl))

  module _ (zone : ZoneType) (nid : ℕ) where
    init_pfn-Keeps :
        (z : Zone) (pfn : ℕ) (m : Memmap)
        → Mapped m pfn
        → Returns
            (λ m'.
              (m'.page ≡ write_page c m.page pfn (init_page c zone nid (m.page pfn))) × Keeps m m')
            (init_pfn c z zone nid pfn m)
    unfolding init_pfn
    init_pfn-Keeps z pfn m h =
        elim (Bool-cases (
          leb z.zone_start_pfn pfn
          && ltb pfn (zone_end_pfn z)
          && (pfn % 2 ^ c.pageblock_order == 0))) [
            | inl e ↦ rw e (
                set_pageblock_migratetype-Keeps []
                  (record m { page = write_page c m.page pfn (init_page c zone nid (m.page pfn)) })
                  pfn movable h)
            | inr e ↦ rw e (refl, (λ q k. k, refl))
          ]

    -- The page of a frame of [lo, hi) that is not skipped is set up; any other is as it was.
    abbrev pub painted : Context → ℕ → ℕ → (ℕ → Page) → ℕ → Page
    painted context lo hi page q =
        if within lo hi q && not (skips c context q) then init_page c zone nid (page q) else page q

    -- What `memmap_init_zone` does to the frames of [lo, hi).
    pub record Painted (context : Context) (lo hi : ℕ) (m m' : Memmap) : Type 0 where
      pub pages : (q : ℕ) → m'.page q ≡ painted context lo hi m.page q
      pub keeps : Keeps m m'

    painted-skip :
        (context : Context) (lo hi : ℕ) (page : ℕ → Page) (q : ℕ)
        → skips c context lo ≡ true
        → lo < hi
        → painted context (suc lo) hi page q ≡ painted context lo hi page q
    painted-skip context lo hi page q s h = elim (Bool-cases (lo == q)) [
      | inl e ↦
          let at : lo ≡ q = ground arith in
          let out : within (suc lo) hi lo ≡ false = ground arith in rw (← at, s, out) (ground arith)
      | inr e ↦ let at : within (suc lo) hi q ≡ within lo hi q = ground arith in rw at refl
    ]

    painted-write :
        (context : Context) (lo hi : ℕ) (page : ℕ → Page) (q : ℕ)
        → skips c context lo ≡ false
        → lo < hi
        → painted context (suc lo) hi (write_page c page lo (init_page c zone nid (page lo))) q
          ≡ painted context lo hi page q
    painted-write context lo hi page q s h = elim (Bool-cases (lo == q)) [
      | inl e ↦
          let at : lo ≡ q = ground arith in
          let out : within (suc lo) hi lo ≡ false = ground arith in
          let inside : within lo hi lo ≡ true = ground arith in
          let self : (lo == lo) ≡ true = ground arith in rw (← at, s, out, inside, self) refl
      | inr e ↦ let at : within (suc lo) hi q ≡ within lo hi q = ground arith in rw (at, e) refl
    ]

    pub painted-none :
        (context : Context) (lo hi : ℕ) (page : ℕ → Page) (q : ℕ)
        → hi ≤ lo
        → painted context lo hi page q ≡ page q
    painted-none context lo hi page q h =
        let out : within lo hi q ≡ false = ground arith in rw out refl

    painted-ext :
        (context : Context) (lo hi : ℕ) (page page' : ℕ → Page) (q : ℕ)
        → page ≡ page'
        → painted context lo hi page q ≡ painted context lo hi page' q
    painted-ext context lo hi page page' q e = rw e refl

    memmap_loop-Painted :
        (fuel : ℕ) (z : Zone) (context : Context) (pfn end : ℕ) (m : Memmap)
        → pfn ≤ end
        → end < pfn + fuel
        → end < word
        → ((q : ℕ) → pfn ≤ q → q < end → skips c context q ≡ false → Mapped m q)
        → Returns (Painted context pfn end m) (memmap_loop c fuel z zone nid context pfn end m)
    unfolding memmap_loop
    memmap_loop-Painted zero z context pfn end m l f w h = absurd (omega arith)
    memmap_loop-Painted (suc fuel) z context pfn end m l f w h = elim (ltb-cases pfn end) [
      | inr (e, o) ↦
          rw (e, memmap_loop)
            (record {
              pages = λ q. sym (painted-none context pfn end m.page q o);
              keeps = (λ q k. k, refl);
            })
      | inl (e, o) ↦
          let next : add64 pfn 1 ≡ suc pfn = omega arith in
          elim (Bool-cases (skips c context pfn)) [
            | inl s ↦
                rw (e, s, next, memmap_loop)
                  (Returns-map (Painted context (suc pfn) end m) (Painted context pfn end m) _
                    (λ m' x. record {
                      pages = λ q. x.pages q ∙ painted-skip context pfn end m.page q s o;
                      keeps = x.keeps;
                    })
                    (memmap_loop-Painted fuel z context (suc pfn) end m (omega arith) (omega arith)
                      w λ q a b k. h q (omega arith) b k))
            | inr s ↦
                rw (e, s, next, memmap_loop)
                  (Returns->>=
                    (λ m'.
                      (m'.page ≡ write_page c m.page pfn (init_page c zone nid (m.page pfn)))
                      × Keeps m m')
                    (Painted context pfn end m) _ _
                    (init_pfn-Keeps z pfn m (h pfn (omega arith) o s))
                    λ m1 (p, (k1, u)).
                      Returns-map (Painted context (suc pfn) end m1) (Painted context pfn end m) _
                        (λ m' x. record {
                          pages = λ q.
                              x.pages q
                              ∙ painted-ext context (suc pfn) end m1.page
                                  (write_page c m.page pfn (init_page c zone nid (m.page pfn))) q p
                              ∙ painted-write context pfn end m.page q s o;
                          keeps = (λ q k. x.keeps.0 q (k1 q k), x.keeps.1 ∙ u);
                        })
                        (memmap_loop-Painted fuel z context (suc pfn) end m1 (omega arith)
                          (omega arith) w λ q a b k. k1 q (h q (omega arith) b k)))
          ]
    ]

    -- What `memmap_init_zone` does: `size` frames from `start` on.
    pub record Initialised (context : Context) (start size : ℕ) (m m' : Memmap) : Type 0 where
      pub pages : (q : ℕ) → m'.page q ≡ painted context start (start + size) m.page q
      pub mapped : (q : ℕ) → Mapped m q → Mapped m' q
      pub highest : m'.highest_memmap_pfn ≡ max m.highest_memmap_pfn (start + size - 1)

    -- It returns, and `init_page` has been applied to the page of each frame that is not skipped.
    pub memmap_init_zone-Initialised :
        (z : Zone) (size start : ℕ) (context : Context) (m : Memmap)
        → 0 < size
        → start + size < word
        → ((q : ℕ) → start ≤ q → q < start + size → skips c context q ≡ false → Mapped m q)
        → Returns
            (Initialised context start size m)
            (memmap_init_zone c z size nid zone start context m)
    unfolding memmap_init_zone
    memmap_init_zone-Initialised z size start context m p w h =
        let end : add64 start size ≡ start + size = omega arith in
        rw end (
          Returns-map _ (Initialised context start size m) _
            (λ m' x. record {
              pages = x.pages;
              mapped = x.keeps.0;
              highest = x.keeps.1 ∙ ground arith;
            })
            (memmap_loop-Painted (suc size) z context start (start + size) _ (omega arith)
              (omega arith) w h))
