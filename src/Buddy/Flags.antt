-- ===== src/Buddy/Flags.antt =====
-- The bits that `set_pfnblock_flags_mask` writes.
use Prim.Native.Nat.{bit_and, bit_or}
use native.Mathlib.Nat.{pow-le-pow_right}
use study_notes.Common.{
  ℕ, ◌+◌, ◌-◌, ◌*◌, ◌/◌, ◌%◌, ◌^◌, ◌≤◌, ◌<◌, ◌≡◌, ◌≢◌, refl, ◌∙◌, List, [], ◌∷◌, some, true, false,
  ◌&&◌, ◌==◌, ◌⊎◌, inl, inr, ltb, ltb-cases, Bool-cases, if◌then◌else◌, word, ullong_max, Returns,
  arith,
}
use study_notes.Memblock.Chain.{within}
use study_notes.Buddy.Zone.{Memmap, Config}
use study_notes.Buddy.Pageblock.{
  not64, MigrateType, unmovable, reclaimable, movable, reserve, migrate_number, cmpxchg_loop,
  pfn_to_section_nr, pfn_to_bitidx, write_word, set_pfnblock_flags_mask, set_pageblock_migratetype,
}
use study_notes.Buddy.Bits.{
  bit_at, bit_at-le, bit_at-bit_or, bit_at-bit_and, bit_at-not64, bit_at-below, bit_at-shifted,
  bit_at-high, bit_at-mask,
}

-- The word with three digits from `s` on replaced by those of `v`, the others being those of `old`.
abbrev pub Replaced : ℕ → ℕ → ℕ → ℕ → Type 0
Replaced s v old new =
    (i : ℕ)
    → i < 64
    → bit_at i new ≡ (if within s (s + 3) i then bit_at (i - s) v else bit_at i old)

-- It is what the loop stored over one of the values that the word has had.
abbrev pub Among : ℕ → List ℕ → Type 0
Among x [] = ⊥
Among x (y ∷ ys) = (x ≡ y) ⊎ Among x ys

module _ (s : ℕ) (hs : s ≤ 61) where
  shift-le : (k : ℕ) → k < 8 → k * 2 ^ s ≤ ullong_max
  shift-le k h = let top : 2 ^ s ≤ 2 ^ 61 = pow-le-pow_right (omega arith) hs in grind (arith, top)

  field_at :
      (v i : ℕ)
      → v < 8
      → bit_at i (v * 2 ^ s) ≡ (if within s (s + 3) i then bit_at (i - s) v else 0)
  field_at v i hv = elim (ltb-cases i s) [
    | inl (_, o) ↦
        let out : within s (s + 3) i ≡ false = ground arith in rw out (bit_at-below i s v o)
    | inr (_, o) ↦
        let there : s + (i - s) ≡ i = omega arith in
        let shifted : bit_at i (v * 2 ^ s) ≡ bit_at (i - s) v =
          rw there at (bit_at-shifted (i - s) s v) in
        elim (ltb-cases i (s + 3)) [
          | inl (_, u) ↦ let inside : within s (s + 3) i ≡ true = ground arith in rw inside shifted
          | inr (_, u) ↦
              let out : within s (s + 3) i ≡ false = ground arith in
              rw out (shifted ∙ bit_at-high (i - s) v (omega arith) hv)
        ]
  ]

  -- `(word & ~mask) | flags`
  stored-Replaced :
      (v old : ℕ)
      → v < 8
      → Replaced s v old (bit_or (bit_and old (not64 (7 * 2 ^ s % word))) (v * 2 ^ s % word))
  stored-Replaced v old hv i hi =
      let mask : 7 * 2 ^ s % word ≡ 7 * 2 ^ s = omega (arith, shift-le 7 (omega arith)) in
      let flags : v * 2 ^ s % word ≡ v * 2 ^ s = omega (arith, shift-le v hv) in
      let turned = bit_at-not64 i (7 * 2 ^ s) hi (shift-le 7 (omega arith)) in
      let kept = bit_at-bit_and i old (not64 (7 * 2 ^ s)) in
      let all = bit_at-bit_or i (bit_and old (not64 (7 * 2 ^ s))) (v * 2 ^ s) in
      elim (Bool-cases (within s (s + 3) i)) [
        | inl e ↦
            let m : bit_at i (7 * 2 ^ s) ≡ 1 =
              rw e at (field_at 7 i (omega arith)) ∙ bit_at-mask (i - s) (ground arith) in
            let f : bit_at i (v * 2 ^ s) ≡ bit_at (i - s) v = rw e at (field_at v i hv) in
            rw (mask, flags, e) (omega (arith, bit_at-le (i - s) v))
        | inr e ↦
            let m : bit_at i (7 * 2 ^ s) ≡ 0 = rw e at (field_at 7 i (omega arith)) in
            let f : bit_at i (v * 2 ^ s) ≡ 0 = rw e at (field_at v i hv) in
            rw (mask, flags, e) (omega (arith, bit_at-le i old))
      ]

  cmpxchg_loop-Replaced :
      (v old : ℕ) (seen : List ℕ)
      → v < 8
      → (last : ℕ) × Among last (old ∷ seen)
        × Replaced s v last (cmpxchg_loop (v * 2 ^ s % word) (7 * 2 ^ s % word) old seen)
  unfolding cmpxchg_loop
  cmpxchg_loop-Replaced v old [] hv = (old, inl refl, stored-Replaced v old hv)
  cmpxchg_loop-Replaced v old (next ∷ seen) hv = elim (Bool-cases (old == next)) [
    | inl e ↦ (old, inl refl, rw e (stored-Replaced v old hv))
    | inr e ↦ let (last, a, r) = cmpxchg_loop-Replaced v next seen hv in (last, inr a, rw e r)
  ]

-- The number that `set_pageblock_migratetype` writes.
abbrev pub effective : Config → MigrateType → ℕ
effective c t =
    if c.page_group_by_mobility_disabled && ltb (migrate_number t) 3
    then migrate_number unmovable
    else migrate_number t

effective-lt : (c : Config) (t : MigrateType) → effective c t < 8
effective-lt c unmovable = ground arith
effective-lt c reclaimable = ground arith
effective-lt c movable = ground arith
effective-lt c reserve = ground arith

module _ (c : Config) where
  -- The three digits of the frame's block hold the type; the rest of the bitmaps is as it was.
  pub record Typed (pfn : ℕ) (t : MigrateType) (seen : List ℕ) (bitmap : ℕ → ℕ) (m m' : Memmap)
      : Type 0 where
    pub after : ℕ → ℕ
    pub there : m'.pageblock_flags (pfn_to_section_nr c pfn) ≡ some after
    pub last : ℕ
    pub among : Among last (bitmap (pfn_to_bitidx c pfn / 64) ∷ seen)
    pub bits :
        Replaced
          (64 - (pfn_to_bitidx c pfn % 64 + 2) - 1)
          (effective c t)
          last
          (after (pfn_to_bitidx c pfn / 64))
    pub words : (j : ℕ) → pfn_to_bitidx c pfn / 64 ≢ j → after j ≡ bitmap j
    pub sections :
        (n : ℕ) → pfn_to_section_nr c pfn ≢ n → m'.pageblock_flags n ≡ m.pageblock_flags n
    pub pages : m'.page ≡ m.page

  -- `set_pageblock_migratetype`, where the section of the frame has a bitmap, whatever other CPUs
  -- write into the word between the attempts of `cmpxchg`: it returns; the three bits of the frame's
  -- block hold the type (MIGRATE_UNMOVABLE for an unmovable, reclaimable or movable block where
  -- grouping by mobility is disabled), every other bit of the word is that of one of the values that
  -- the word has had, and the other words, the other sections and the pages are as they were.
  pub set_pageblock_migratetype-Typed :
      (seen : List ℕ) (m : Memmap) (pfn : ℕ) (t : MigrateType) (bitmap : ℕ → ℕ)
      → m.pageblock_flags (pfn_to_section_nr c pfn) ≡ some bitmap
      → Returns (Typed pfn t seen bitmap m) (set_pageblock_migratetype c seen m pfn t)
  unfolding set_pageblock_migratetype set_pfnblock_flags_mask
  set_pageblock_migratetype-Typed seen m pfn t bitmap e =
      let shift : ℕ = 2 ^ (64 - (pfn_to_bitidx c pfn % 64 + 2) - 1) in
      let new : ℕ =
        cmpxchg_loop (effective c t * shift % word) (7 * shift % word)
          (bitmap (pfn_to_bitidx c pfn / 64)) seen in
      let (last, a, r) =
        cmpxchg_loop-Replaced (64 - (pfn_to_bitidx c pfn % 64 + 2) - 1) (omega arith)
          (effective c t) (bitmap (pfn_to_bitidx c pfn / 64)) seen (effective-lt c t) in
      let self : (pfn_to_bitidx c pfn / 64 == pfn_to_bitidx c pfn / 64) ≡ true = ground arith in
      let same : (pfn_to_section_nr c pfn == pfn_to_section_nr c pfn) ≡ true = ground arith in
      rw (e, set_pageblock_migratetype, set_pfnblock_flags_mask)
        (record {
          after = write_word c bitmap (pfn_to_bitidx c pfn / 64) new;
          there = rw same refl;
          last = last;
          among = a;
          bits = rw self r;
          words = λ j d.
              let other : (pfn_to_bitidx c pfn / 64 == j) ≡ false = ground arith in rw other refl;
          sections = λ n d.
              let other : (pfn_to_section_nr c pfn == n) ≡ false = ground arith in rw other refl;
          pages = refl;
        })
