-- ===== src/Memblock/Limit.antt =====
-- `memblock_enforce_memory_limit`: how much memory it leaves.
use study_notes.Common.{
  ℕ, ◌+◌, ◌-◌, ◌≤◌, ◌<◌, ◌≡◌, refl, min, List, [], ◌∷◌, inl, inr, leb-cases, ltb-cases, ◌==◌,
  ullong_max, add64, Option, Returns, Returns->>=, false, arith,
}
use study_notes.Memblock.Region.{Region, MemblockType, cnt, refill}
use study_notes.Memblock.Api.{Memblock, max_address, enforce_memory_limit}
use study_notes.Memblock.Chain.{IsValid, Chain, Shape-cases, sum_sizes}
use study_notes.Memblock.Carve.{
  carve, carve-nil, carve-skip, carve-meet, carve-inside, cut, cut_high, carve-dummy,
}
use study_notes.Memblock.Grow.{Grows}
use study_notes.Memblock.RemoveRange.{Removed, remove_range-Removed}

-- The walk stops at the address below which `limit` bytes of the regions lie.
max_address-ge :
    (limit lo : ℕ) (rs : List Region)
    → Chain lo rs
    → lo ≤ ullong_max
    → 0 < limit
    → (lo ≤ max_address limit rs) × (max_address limit rs ≤ ullong_max)
unfolding max_address
max_address-ge limit lo [] c b p = omega arith
max_address-ge limit lo (r ∷ rs) c b p = elim (leb-cases limit r.size) [
  | inl (e, o) ↦ rw e (omega arith)
  | inr (e, o) ↦ rw e (omega (arith, max_address-ge (limit - r.size) (r.base + r.size) rs c.3))
]

-- Nothing is left of regions that start behind the cut.
sum-carve_all :
    (base lo : ℕ) (rs : List Region)
    → Chain lo rs
    → base ≤ lo
    → sum_sizes (carve base ullong_max rs) ≡ 0
sum-carve_all base lo [] c h = rw (carve-nil base ullong_max) refl
sum-carve_all base lo (r ∷ rs) c h =
    rw
      ((carve-inside base ullong_max r rs (omega arith) (omega arith) (omega arith)
        (omega arith)).0)
      (sum-carve_all base (r.base + r.size) rs c.3 (omega arith))

-- A cut in a region keeps what lies below.
sum-cut :
    (limit lo : ℕ) (r : Region) (rs : List Region)
    → Chain lo (r ∷ rs)
    → 0 < limit
    → limit ≤ r.size
    → sum_sizes (carve (r.base + limit) ullong_max (r ∷ rs)) ≡ min limit (sum_sizes (r ∷ rs))
unfolding cut cut_high
sum-cut limit lo r rs c p o = elim (leb-cases r.size limit) [
  | inl (e, u) ↦
      rw (carve-skip (r.base + limit) ullong_max r rs (omega arith) (omega arith))
        (omega (arith, sum-carve_all (r.base + limit) (r.base + r.size) rs c.3))
  | inr (e, u) ↦
      rw (carve-meet (r.base + limit) ullong_max r rs (omega arith) (omega arith))
        (ground (arith, sum-carve_all (r.base + limit) (r.base + r.size) rs c.3))
]

-- Cutting there leaves `limit` bytes, or all of them where there are fewer.
sum-carve :
    (limit lo : ℕ) (rs : List Region)
    → Chain lo rs
    → lo ≤ ullong_max
    → 0 < limit
    → sum_sizes (carve (max_address limit rs) ullong_max rs) ≡ min limit (sum_sizes rs)
unfolding max_address
sum-carve limit lo [] c b p = rw (carve-nil ullong_max ullong_max) (omega arith)
sum-carve limit lo (r ∷ rs) c b p = elim (leb-cases limit r.size) [
  | inl (e, o) ↦
      let at : add64 r.base limit ≡ r.base + limit = omega arith in
      rw (e, at) (sum-cut limit lo r rs c p o)
  | inr (e, o) ↦
      let m =
        max_address-ge (limit - r.size) (r.base + r.size) rs c.3 (omega arith) (omega arith) in
      rw (e, carve-skip (max_address (limit - r.size) rs) ullong_max r rs (omega arith) m.0)
        (omega (arith, sum-carve (limit - r.size) (r.base + r.size) rs c.3))
]

sum-carve_none :
    (lo : ℕ) (rs : List Region)
    → Chain lo rs
    → sum_sizes (carve ullong_max ullong_max rs) ≡ sum_sizes rs
sum-carve_none lo [] c = rw (carve-nil ullong_max ullong_max) refl
sum-carve_none lo (r ∷ rs) c =
    rw (carve-skip ullong_max ullong_max r rs (omega arith) (omega arith))
      (omega (arith, sum-carve_none (r.base + r.size) rs c.3))

pub max_address-le : (limit : ℕ) (rs : List Region) → max_address limit rs ≤ ullong_max
unfolding max_address
max_address-le limit [] = omega arith
max_address-le limit (r ∷ rs) = ground (arith, max_address-le (limit - r.size) rs)

sum-refill : (rs : List Region) → sum_sizes (refill rs) ≡ sum_sizes rs
sum-refill [] = omega arith
sum-refill (r ∷ rs) = refl

-- The entries that are left where the removal succeeded.
sum_left :
    (t : MemblockType) (limit : ℕ) (out : MemblockType)
    → IsValid t
    → 0 < limit
    → (max_address limit t.regions < ullong_max
        → out.regions ≡ refill (carve (max_address limit t.regions) ullong_max t.regions))
    → (max_address limit t.regions ≡ ullong_max → out.regions ≡ t.regions)
    → sum_sizes out.regions ≡ min limit (sum_sizes t.regions)
sum_left t limit out v p trimmed whole = elim (Shape-cases t.regions v.shape) [
  | inl (r, e, b, z) ↦ elim (ltb-cases (max_address limit t.regions) ullong_max) [
    | inl (x, o) ↦
        rw (trimmed o, e, carve-dummy (max_address limit (r ∷ [])) ullong_max r (omega arith) b z)
          (omega arith)
    | inr (x, o) ↦ rw (whole (omega (arith, max_le)), e) (omega arith)
  ]
  | inr (c, q) ↦
      let left = sum-carve limit 0 t.regions c (omega arith) p in
      let m = max_address-ge limit 0 t.regions c (omega arith) p in
      elim (ltb-cases (max_address limit t.regions) ullong_max) [
        | inl (x, o) ↦
            rw (trimmed o, sum-refill (carve (max_address limit t.regions) ullong_max t.regions))
              left
        | inr (x, o) ↦
            let top : max_address limit t.regions ≡ ullong_max = omega (arith, m) in
            let left' : sum_sizes (carve ullong_max ullong_max t.regions)
                ≡ min limit (sum_sizes t.regions) =
              rw top at left in
            rw (whole top) (omega (arith, sum-carve_none 0 t.regions c, left'))
      ]
]
  where
    max_le : max_address limit t.regions ≤ ullong_max
    max_le = max_address-le limit t.regions

module _ (double_array : MemblockType → ℕ → ℕ → Option MemblockType)
    (grows : Grows double_array) where
  -- What is left of the memory map.
  pub record Limited (m : Memblock) (limit : ℕ) (m' : Memblock) : Type 0 where
    pub memory : IsValid m'.memory
    pub reserved : IsValid m'.reserved
    pub sum : sum_sizes m'.memory.regions ≡ min limit (sum_sizes m.memory.regions)

  -- `memblock_enforce_memory_limit` with a limit other than 0, on arrays in order of which `memory`
  -- has room for two more entries, and with a `memblock_double_array` that keeps the entries and adds
  -- room: it returns, both arrays are in order, and the memory adds up to `limit`, or to what there
  -- was if that is less.
  pub enforce_memory_limit-Limited :
      (m : Memblock) (limit : ℕ)
      → IsValid m.memory
      → IsValid m.reserved
      → cnt m.memory + 2 ≤ m.memory.max
      → 0 < limit
      → Returns (Limited m limit) (enforce_memory_limit double_array m limit)
  unfolding enforce_memory_limit
  enforce_memory_limit-Limited m limit v w room p = rw zero (
      Returns->>= (Removed m.memory top end) (Limited m limit) _ _
        (remove_range-Removed double_array grows m.memory top ullong_max v
          (max_address-le limit m.memory.regions))
        λ (t, code) a.
          Returns->>= (Removed m.reserved top end) (Limited m limit) _ _
            (remove_range-Removed double_array grows m.reserved top ullong_max w
              (max_address-le limit m.memory.regions))
            λ (t', code') a'. record {
              memory = a.valid;
              reserved = a'.valid;
              sum =
                  sum_left m.memory limit t v p
                    (λ h. rw all at (
                      a.left (a.succeeds room)
                        (omega (arith, max_address-le limit m.memory.regions))))
                    (λ h. a.left_whole (omega (arith, max_address-le limit m.memory.regions)));
            })
    where
      top : ℕ
      top = max_address limit m.memory.regions

      end : ℕ
      end = top + min ullong_max (ullong_max - top)

      all : end ≡ ullong_max
      all = omega (arith, max_address-le limit m.memory.regions)

      zero : (limit == 0) ≡ false
      zero = ground arith
