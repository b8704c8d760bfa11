-- ===== src/Buddy/Holes.antt =====
-- The holes of the zones: what `zone_sizes_init` leaves in `zhole_size[]` is what no region holds.
use study_notes.Common.{
  ℕ, zero, suc, ◌+◌, ◌-◌, ◌^◌, ◌≤◌, ◌<◌, ◌≡◌, refl, ◌∙◌, min, max, List, [], ◌∷◌, Bool, false, ◌&&◌,
  ◌||◌, ltb-cases, leb-cases, inl, inr, if◌then◌else◌, add64, sub64, word, arith,
}
use study_notes.Memblock.Region.{Region}
use study_notes.Memblock.Chain.{Chain, within}
use study_notes.Buddy.Frames.{
  pfn_down, base_pfn, end_pfn, zone_dma, zone_normal, zone_movable, zone_size, take_region, holes,
  zhole_size,
}

-- How many of the `n` numbers from `lo` on pass a test.
abbrev pub count : (ℕ → Bool) → ℕ → ℕ → ℕ
count f lo zero = 0
count f lo (suc n) = (if f lo then 1 else 0) + count f (suc lo) n

-- The frame lies in some region.
abbrev pub present : List Region → ℕ → Bool
present [] p = false
present (r ∷ rs) p = within (base_pfn r) (end_pfn r) p || present rs p

-- Each region holds the start of a frame, or touches one, and starts at least a page below 2 ^ 64.
abbrev pub Framed : List Region → Type 0
Framed [] = Unit {0}
Framed (r ∷ rs) = (r.base + 0xfff < word) × (base_pfn r ≤ end_pfn r) × Framed rs

-- The frames of the regions ascend from `lo`.
abbrev pub FrameChain : ℕ → List Region → Type 0
FrameChain lo [] = Unit {0}
FrameChain lo (r ∷ rs) =
    (lo ≤ base_pfn r) × (base_pfn r ≤ end_pfn r) × (end_pfn r < 2 ^ 52) × FrameChain (end_pfn r) rs

pub Chain-FrameChain :
    (lo : ℕ) (rs : List Region) → Chain lo rs → Framed rs → FrameChain (pfn_down lo) rs
Chain-FrameChain lo [] c f = tt
Chain-FrameChain lo (r ∷ rs) c f =
    let end : add64 r.base r.size ≡ r.base + r.size = omega (arith, c.2) in
    (omega arith, f.1, omega arith, rw end (Chain-FrameChain (r.base + r.size) rs c.3 f.2))

-- The frames of [lo, hi) in a region, and in all.
abbrev clip : ℕ → ℕ → Region → ℕ
clip lo hi r = min (end_pfn r) hi - max (base_pfn r) lo

abbrev clips : ℕ → ℕ → List Region → ℕ
clips lo hi [] = 0
clips lo hi (r ∷ rs) = clip lo hi r + clips lo hi rs

count-within : (a b lo n : ℕ) → a ≤ b → count (within a b) lo n ≡ min b (lo + n) - max a lo
count-within a b lo zero h = omega arith
count-within a b lo (suc n) h = ground (arith, count-within a b (suc lo) n h)

count-or :
    (f g : ℕ → Bool) (lo n : ℕ)
    → ((p : ℕ) → (f p && g p) ≡ false)
    → count (λ p. f p || g p) lo n ≡ count f lo n + count g lo n
count-or f g lo zero h = omega arith
count-or f g lo (suc n) h = ground (arith, h lo, count-or f g (suc lo) n h)

count-false : (lo n : ℕ) → count (λ p. false) lo n ≡ 0
count-false lo zero = refl
count-false lo (suc n) = omega (arith, count-false (suc lo) n)

pub count-le : (f : ℕ → Bool) (lo n : ℕ) → count f lo n ≤ n
count-le f lo zero = omega arith
count-le f lo (suc n) = ground (arith, count-le f (suc lo) n)

present-below :
    (lo : ℕ) (rs : List Region) (p : ℕ) → FrameChain lo rs → p < lo → present rs p ≡ false
present-below lo [] p c h = refl
present-below lo (r ∷ rs) p c h = ground (arith, present-below (end_pfn r) rs p c.3)

count-present :
    (from : ℕ) (rs : List Region) (lo n : ℕ)
    → FrameChain from rs
    → count (present rs) lo n ≡ clips lo (lo + n) rs
count-present from [] lo n c = count-false lo n
count-present from (r ∷ rs) lo n c =
    let apart : (p : ℕ) → (within (base_pfn r) (end_pfn r) p && present rs p) ≡ false = λ p.
      elim (ltb-cases p (end_pfn r)) [
        | inl (_, o) ↦ ground (arith, present-below (end_pfn r) rs p c.3 o)
        | inr (e, o) ↦ ground arith
      ] in
    count-or (within (base_pfn r) (end_pfn r)) (present rs) lo n apart
    ∙ omega (
      arith,
      count-within (base_pfn r) (end_pfn r) lo n c.1,
      count-present (end_pfn r) rs lo n c.3,
    )

module _ (min_pfn max_pfn max_dma : ℕ) (h : min_pfn ≤ max_dma) (k : max_dma ≤ max_pfn) where
  take_region-clip :
      (r : Region) (dma normal : ℕ)
      → min_pfn ≤ base_pfn r
      → base_pfn r ≤ end_pfn r
      → end_pfn r < 2 ^ 52
      → clip min_pfn max_dma r ≤ dma
      → clip max_dma max_pfn r ≤ normal
      → dma < word
      → normal < word
      → ((take_region max_pfn max_dma r (dma, normal)).0 + clip min_pfn max_dma r ≡ dma)
        × ((take_region max_pfn max_dma r (dma, normal)).1 + clip max_dma max_pfn r ≡ normal)
  unfolding take_region
  take_region-clip r dma normal a b c d n dw nw = elim (leb-cases max_pfn (base_pfn r)) [
    | inl (e, o) ↦ rw e (omega arith, omega arith)
    | inr (e, o) ↦ rw e (ground arith, ground arith)
  ]

  holes-clips :
      (from : ℕ) (rs : List Region) (dma normal : ℕ)
      → FrameChain from rs
      → min_pfn ≤ from
      → clips min_pfn max_dma rs ≤ dma
      → clips max_dma max_pfn rs ≤ normal
      → dma < word
      → normal < word
      → ((holes max_pfn max_dma rs (dma, normal)).0 + clips min_pfn max_dma rs ≡ dma)
        × ((holes max_pfn max_dma rs (dma, normal)).1 + clips max_dma max_pfn rs ≡ normal)
  unfolding holes
  holes-clips from [] dma normal c l d n dw nw = (omega arith, omega arith)
  holes-clips from (r ∷ rs) dma normal c l d n dw nw =
      let (x, y) =
        take_region-clip r dma normal (omega arith) c.1 c.2 (omega arith) (omega arith) dw nw in
      let (u, v) =
        holes-clips (end_pfn r) rs (take_region max_pfn max_dma r (dma, normal)).0
          (take_region max_pfn max_dma r (dma, normal)).1 c.3 (omega (arith, c.0, c.1))
          (omega arith) (omega arith) (omega arith) (omega arith) in
      (omega arith, omega arith)

  -- `zone_sizes_init`, where the frames of the memory regions ascend from `min` without overlap and
  -- `min <= max_dma <= max < 2 ^ 52`: for the DMA and the normal zone, `zhole_size` and the number
  -- of frames of the zone that lie in some region add up to `zone_size`.
  pub zhole_size-Holes :
      (rs : List Region)
      → FrameChain min_pfn rs
      → max_pfn < 2 ^ 52
      → (zhole_size min_pfn max_pfn max_dma rs zone_dma
            + count (present rs) min_pfn (max_dma - min_pfn)
          ≡ zone_size min_pfn max_pfn max_dma zone_dma)
        × (zhole_size min_pfn max_pfn max_dma rs zone_normal
              + count (present rs) max_dma (max_pfn - max_dma)
            ≡ zone_size min_pfn max_pfn max_dma zone_normal)
  unfolding zhole_size
  zhole_size-Holes rs c w =
      let low = count-present min_pfn rs min_pfn (max_dma - min_pfn) c in
      let high = count-present min_pfn rs max_dma (max_pfn - max_dma) c in
      let top : max_dma + (max_pfn - max_dma) ≡ max_pfn = omega arith in
      let mid : min_pfn + (max_dma - min_pfn) ≡ max_dma = omega arith in
      let low' : count (present rs) min_pfn (max_dma - min_pfn) ≡ clips min_pfn max_dma rs =
        rw mid at low in
      let high' : count (present rs) max_dma (max_pfn - max_dma) ≡ clips max_dma max_pfn rs =
        rw top at high in
      let (u, v) =
        holes-clips min_pfn rs (sub64 max_dma min_pfn) (sub64 max_pfn max_dma) c (omega arith)
          (omega (arith, count-le (present rs) min_pfn (max_dma - min_pfn)))
          (omega (arith, count-le (present rs) max_dma (max_pfn - max_dma))) (omega arith)
          (omega arith) in
      (omega arith, omega arith)

pub zhole_size-movable :
    (min_pfn max_pfn max_dma : ℕ) (rs : List Region)
    → zhole_size min_pfn max_pfn max_dma rs zone_movable ≡ 0
unfolding zhole_size
zhole_size-movable min_pfn max_pfn max_dma rs = refl
