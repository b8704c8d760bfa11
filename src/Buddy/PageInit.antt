-- ===== src/Buddy/PageInit.antt =====
-- What `memmap_init_zone` (mm/buddy.c) makes of a page, bit by bit.
use Prim.Native.Nat.{bit_and}
use native.Mathlib.Nat.{pow-suc, div-add-mod'}
use study_notes.Common.{
  sym, ap, ◌/◌, ℕ, zero, suc, ◌+◌, ◌-◌, ◌*◌, ◌%◌, ◌^◌, ◌≤◌, ◌<◌, ◌≡◌, refl, ◌∙◌, [], true, false,
  not, ◌&&◌, ◌==◌, ltb, ltb-cases, Bool-cases, inl, inr, if◌then◌else◌, word, max, min, Returns,
  Returns-map, arith,
}
use study_notes.Memblock.Chain.{within}
use study_notes.Buddy.Frames.{ZoneType}
use study_notes.Buddy.Zone.{Zone, Page, Memmap, Config, zone_idx}
use study_notes.Buddy.Pageblock.{not64}
use study_notes.Buddy.Bits.{
  bit_at, bit_at-le, bit_at-zero, bit_at-bit_or, bit_at-bit_and, bit_at-not64, bit_at-below,
  bit_at-shifted,
}
use study_notes.Buddy.Memmap.{Context, set_field, init_page, skips, memmap_init_zone}
use study_notes.Buddy.Painted.{Mapped, Initialised, memmap_init_zone-Initialised}

-- Digit `i` of a number that is shifted to the left.
abbrev pub shifted_at : ℕ → ℕ → ℕ → ℕ
shifted_at v s i = if ltb i s then 0 else bit_at (i - s) v

bit_at-shifted_at : (v s i : ℕ) → bit_at i (v * 2 ^ s) ≡ shifted_at v s i
bit_at-shifted_at v s i = elim (ltb-cases i s) [
  | inl (e, o) ↦ rw e (bit_at-below i s v o)
  | inr (e, o) ↦
      let there : s + (i - s) ≡ i = omega arith in rw e (rw there at (bit_at-shifted (i - s) s v))
]

shifted_at-le : (v s i : ℕ) → shifted_at v s i ≤ 1
shifted_at-le v s i = elim (ltb-cases i s) [
  | inl (e, o) ↦ rw e (omega arith)
  | inr (e, o) ↦ rw e (bit_at-le (i - s) v)
]

shifted_at-bit_and :
    (v mask s i : ℕ)
    → shifted_at (bit_and v mask) s i ≡ min (shifted_at v s i) (shifted_at mask s i)
shifted_at-bit_and v mask s i = elim (ltb-cases i s) [
  | inl (e, o) ↦ rw e refl
  | inr (e, o) ↦ rw e (bit_at-bit_and (i - s) v mask)
]

bit_at-one : (j : ℕ) → bit_at j 1 ≡ (if j == 0 then 1 else 0)
bit_at-one zero = refl
bit_at-one (suc j) = let other : (suc j == 0) ≡ false = ground arith in rw other (bit_at-zero j)

-- The digits below `w` do not depend on what stands above.
low_bits : (i w q r : ℕ) → i < w → bit_at i (q * 2 ^ w + r) ≡ bit_at i r
low_bits i zero q r h = absurd (omega arith)
low_bits zero (suc w) q r h = omega (arith, ap (λ (t : ℕ). q * t) (pow-suc 2 w))
low_bits (suc i) (suc w) q r h =
    let half : (q * 2 ^ suc w + r) / 2 ≡ q * 2 ^ w + r / 2 =
      omega (arith, ap (λ (t : ℕ). q * t) (pow-suc 2 w)) in
    ap (λ y. bit_at i y) half ∙ low_bits i w q (r / 2) (omega arith)

bit_at-word : (i w x : ℕ) → i < w → bit_at i (x % 2 ^ w) ≡ bit_at i x
bit_at-word i w x h =
    sym (low_bits i w (x / 2 ^ w) (x % 2 ^ w) h) ∙ ap (λ y. bit_at i y) (div-add-mod' x (2 ^ w))

reserved_bit : (i k : ℕ) → bit_at i (2 ^ k) ≡ (if i == k then 1 else 0)
reserved_bit i k =
    let single : 1 * 2 ^ k ≡ 2 ^ k = omega arith in
    rw single at (bit_at-shifted_at 1 k i) ∙ elim (ltb-cases i k) [
      | inl (e, o) ↦ let other : (i == k) ≡ false = ground arith in rw (e, other) refl
      | inr (e, o) ↦ elim (Bool-cases (i == k)) [
        | inl x ↦ let none_left : i - k ≡ 0 = ground arith in rw (e, x, none_left) refl
        | inr x ↦
            let some_left : (i - k == 0) ≡ false = ground arith in
            rw (e, x) (bit_at-one (i - k) ∙ rw some_left refl)
      ]
    ]

module _ (c : Config) where
  set_field-bits :
      (mask s v flags i : ℕ)
      → mask * 2 ^ s < word
      → i < 64
      → bit_at i (set_field c mask s v flags)
        ≡ (if shifted_at mask s i == 1 then shifted_at v s i else bit_at i flags)
  set_field-bits mask s v flags i h k =
      let fits : mask * 2 ^ s % word ≡ mask * 2 ^ s = omega arith in
      let all =
        bit_at-bit_or i (bit_and flags (not64 (mask * 2 ^ s))) (bit_and v mask * 2 ^ s % word) in
      let kept = bit_at-bit_and i flags (not64 (mask * 2 ^ s)) in
      let turned = bit_at-not64 i (mask * 2 ^ s) k (omega arith) in
      let here = bit_at-shifted_at mask s i in
      let new : bit_at i (bit_and v mask * 2 ^ s % word)
          ≡ min (shifted_at v s i) (shifted_at mask s i) =
        bit_at-word i 64 (bit_and v mask * 2 ^ s) k
        ∙ bit_at-shifted_at (bit_and v mask) s i
        ∙ shifted_at-bit_and v mask s i in
      rw fits (elim (Bool-cases (shifted_at mask s i == 1)) [
        | inl e ↦
            let one : shifted_at mask s i ≡ 1 = ground arith in
            rw e (omega (arith, shifted_at-le v s i))
        | inr e ↦
            let none_here : shifted_at mask s i ≡ 0 = ground (arith, shifted_at-le mask s i) in
            rw e (omega (arith, bit_at-le i flags))
      ])

  -- The fields of a zone and a node, and the flag PG_reserved, lie within a word.
  pub record IsFlags : Type 0 where
    pub zones : c.zones_mask * 2 ^ c.zones_pgshift < word
    pub nodes : c.nodes_mask * 2 ^ c.nodes_pgshift < word
    pub reserved : c.pg_reserved < 64

  -- Bit `i` of the flags of a page that is set up.
  abbrev pub ready_bit : ZoneType → ℕ → ℕ → ℕ → ℕ
  ready_bit zone nid old i =
      if i == c.pg_reserved
      then 1
      else if shifted_at c.nodes_mask c.nodes_pgshift i == 1
      then shifted_at nid c.nodes_pgshift i
      else if shifted_at c.zones_mask c.zones_pgshift i == 1
      then shifted_at (zone_idx zone) c.zones_pgshift i
      else bit_at i old

  -- A page that is set up: one reference, not mapped, in no list, and in its flags the zone, the node
  -- and PG_reserved, beside what the other bits were before.
  pub record Ready (zone : ZoneType) (nid : ℕ) (old new : Page) : Type 0 where
    pub count : new.page_count ≡ 1
    pub mapcount : new.mapcount ≡ 2 ^ 32 - 1
    pub lru : new.lru ≡ []
    pub flags : (i : ℕ) → i < 64 → bit_at i new.flags ≡ ready_bit zone nid old.flags i

  -- The frames of the range that are not skipped have pages that are set up; the rest is as it was.
  pub record Prepared (zone : ZoneType) (nid : ℕ) (context : Context) (start size : ℕ)
      (m m' : Memmap) : Type 0 where
    pub ready :
        (q : ℕ)
        → start ≤ q
        → q < start + size
        → skips c context q ≡ false
        → Ready zone nid (m.page q) (m'.page q)
    pub others :
        (q : ℕ)
        → (within start (start + size) q && not (skips c context q)) ≡ false
        → m'.page q ≡ m.page q
    pub mapped : (q : ℕ) → Mapped c m q → Mapped c m' q
    pub highest : m'.highest_memmap_pfn ≡ max m.highest_memmap_pfn (start + size - 1)

  module _ (law : IsFlags) where
    init_page-Ready :
        (zone : ZoneType) (nid : ℕ) (p : Page) → Ready zone nid p (init_page c zone nid p)
    unfolding init_page
    init_page-Ready zone nid p = record {
      count = refl;
      mapcount = refl;
      lru = refl;
      flags = λ i h.
          let linked = set_field c c.zones_mask c.zones_pgshift (zone_idx zone) p.flags in
          let placed = set_field c c.nodes_mask c.nodes_pgshift nid linked in
          let by_zone =
            set_field-bits c.zones_mask c.zones_pgshift (zone_idx zone) p.flags i law.zones h in
          let by_node = set_field-bits c.nodes_mask c.nodes_pgshift nid linked i law.nodes h in
          let all = bit_at-bit_or i placed (2 ^ c.pg_reserved) in
          let flag : bit_at i (2 ^ c.pg_reserved) ≡ (if i == c.pg_reserved then 1 else 0) =
            reserved_bit i c.pg_reserved in
          elim (Bool-cases (i == c.pg_reserved)) [
            | inl e ↦ rw e (omega (arith, rw e at flag, bit_at-le i placed))
            | inr e ↦ rw (e, ← by_zone, ← by_node) (omega (arith, rw e at flag, bit_at-le i placed))
          ];
    }

    -- `memmap_init_zone`, for at least one frame, where the frames end below 2 ^ 64, the fields of the
    -- flags lie within a word, and the section of each frame that is not skipped (none is on hotplug,
    -- and those of no memory are early on) has a bitmap: it returns; the page of each frame of the range
    -- that is not skipped has one reference, a mapcount of -1, an empty list, and flags that name the
    -- zone and the node, with PG_reserved set and every other bit as it was; every other page is as it
    -- was; no bitmap is lost; and `highest_memmap_pfn` is raised to the last frame of the range and
    -- never lowered.
    pub memmap_init_zone-Ready :
        (zone : ZoneType) (nid : ℕ) (z : Zone) (size start : ℕ) (context : Context) (m : Memmap)
        → 0 < size
        → start + size < word
        → ((q : ℕ) → start ≤ q → q < start + size → skips c context q ≡ false → Mapped c m q)
        → Returns
            (Prepared zone nid context start size m)
            (memmap_init_zone c z size nid zone start context m)
    memmap_init_zone-Ready zone nid z size start context m p w h =
        Returns-map (Initialised c zone nid context start size m)
          (Prepared zone nid context start size m) _
          (λ m' x. record {
            ready = λ q a b s.
                let here : (within start (start + size) q && not (skips c context q)) ≡ true =
                  ground arith in
                rw (x.pages q, here) (init_page-Ready zone nid (m.page q));
            others = λ q o. rw (x.pages q, o) refl;
            mapped = x.mapped;
            highest = x.highest;
          })
          (memmap_init_zone-Initialised c zone nid z size start context m p w h)
