-- ===== src/Memblock/Carve.antt =====
-- What removing [base, end) from a list of regions amounts to: one walk that cuts the regions it meets.
use study_notes.Common.{
  ℕ, suc, ◌+◌, ◌-◌, ◌≤◌, ◌<◌, ◌≡◌, refl, List, [], ◌∷◌, true, false, not, ◌&&◌, length, ltb, leb,
  if◌then◌else◌, arith, inl, inr, ltb-cases, leb-cases,
}
use study_notes.Memblock.Region.{Region}
use study_notes.Memblock.Chain.{within, covers, Chain, Chain-weaken, Chain-below}

-- The parts of a region below and from an address.
abbrev pub lower : Region → ℕ → Region
lower r at = record r { size = at - r.base }

abbrev pub upper : Region → ℕ → Region
upper r at = record r { base = at; size = r.base + r.size - at }

module _ (base end : ℕ) where
  -- What is left of a region that meets [base, end), in front of the rest: `more` if the region does not
  -- reach beyond `end`, else `rest` itself.
  unfoldable pub cut_high : Region → List Region → List Region → List Region
  cut_high r rest more = if ltb end (r.base + r.size) then upper r end ∷ rest else more

  unfoldable pub cut : Region → List Region → List Region → List Region
  cut r rest more =
      if ltb r.base base then lower r base ∷ cut_high r rest more else cut_high r rest more

  pub carve : List Region → List Region
  carve [] = []
  carve (r ∷ rs) = elim (leb end r.base) [
    | true ↦ r ∷ rs
    | false ↦ elim (leb (r.base + r.size) base) [
      | true ↦ r ∷ carve rs
      | false ↦ cut r rs (carve rs)
    ]
  ]

  pub carve-nil : carve [] ≡ []
  unfolding carve
  carve-nil = refl

  pub carve-stop : (r : Region) (rs : List Region) → end ≤ r.base → carve (r ∷ rs) ≡ r ∷ rs
  unfolding carve
  carve-stop r rs o = ground arith

  pub carve-skip :
      (r : Region) (rs : List Region)
      → r.base < end
      → r.base + r.size ≤ base
      → carve (r ∷ rs) ≡ r ∷ carve rs
  unfolding carve
  carve-skip r rs o u = ground arith

  pub carve-meet :
      (r : Region) (rs : List Region)
      → r.base < end
      → base < r.base + r.size
      → carve (r ∷ rs) ≡ cut r rs (carve rs)
  unfolding carve
  carve-meet r rs o u = ground arith

  -- How often the walk splits a region.
  pub cuts : List Region → ℕ
  cuts [] = 0
  cuts (r ∷ rs) =
      if leb end r.base
      then 0
      else if leb (r.base + r.size) base
      then cuts rs
      else (if ltb r.base base then 1 else 0) + (if ltb end (r.base + r.size) then 1 else cuts rs)

  cuts-le_one : (lo : ℕ) (rs : List Region) → Chain lo rs → base ≤ lo → cuts rs ≤ 1
  unfolding cuts
  cuts-le_one lo [] c h = omega arith
  cuts-le_one lo (r ∷ rs) c h = ground (arith, cuts-le_one (r.base + r.size) rs c.3)

  pub cuts-le : (lo : ℕ) (rs : List Region) → Chain lo rs → cuts rs ≤ 2
  unfolding cuts
  cuts-le lo [] c = omega arith
  cuts-le lo (r ∷ rs) c =
      ground (arith, cuts-le (r.base + r.size) rs c.3, cuts-le_one (r.base + r.size) rs c.3)

  cut_high-Chain :
      (lo' lo : ℕ) (r : Region) (rs more : List Region)
      → Chain lo (r ∷ rs)
      → lo' ≤ r.base + r.size
      → lo' ≤ end
      → Chain (r.base + r.size) more
      → Chain lo' (cut_high r rs more)
  unfolding cut_high
  cut_high-Chain lo' lo r rs more c o u m = elim (ltb-cases end (r.base + r.size)) [
    | inl (p, k) ↦ rw p (
      u,
      omega arith,
      omega arith,
      Chain-weaken (r.base + r.size) (end + (r.base + r.size - end)) rs (omega arith) c.3,
    )
    | inr (p, k) ↦ rw p (Chain-weaken (r.base + r.size) lo' more o m)
  ]

  cut-Chain :
      (lo : ℕ) (r : Region) (rs more : List Region)
      → Chain lo (r ∷ rs)
      → r.base < end
      → base < r.base + r.size
      → base ≤ end
      → Chain (r.base + r.size) more
      → Chain lo (cut r rs more)
  unfolding cut
  cut-Chain lo r rs more c o u h m = elim (ltb-cases r.base base) [
    | inl (p, k) ↦ rw p (
      c.0,
      omega arith,
      omega arith,
      cut_high-Chain (r.base + (base - r.base)) lo r rs more c (omega arith) (omega arith) m,
    )
    | inr (p, k) ↦ rw p (cut_high-Chain lo lo r rs more c (omega arith) (omega arith) m)
  ]

  pub carve-Chain : (lo : ℕ) (rs : List Region) → Chain lo rs → base ≤ end → Chain lo (carve rs)
  unfolding carve
  carve-Chain lo [] c h = tt
  carve-Chain lo (r ∷ rs) c h = elim (leb-cases end r.base) [
    | inl (p, o) ↦ rw (carve-stop r rs o) c
    | inr (p, o) ↦ elim (leb-cases (r.base + r.size) base) [
      | inl (q, u) ↦
          rw (carve-skip r rs o u) (c.0, c.1, c.2, carve-Chain (r.base + r.size) rs c.3 h)
      | inr (q, u) ↦
          rw (carve-meet r rs o u)
            (cut-Chain lo r rs (carve rs) c o u h (carve-Chain (r.base + r.size) rs c.3 h))
    ]
  ]

  covers-cut :
      (a : ℕ) (r : Region) (rs more : List Region)
      → r.base < end
      → base < r.base + r.size
      → (a < end → end < r.base + r.size → covers a rs ≡ false)
      → covers a more ≡ (not (within base end a) && covers a rs)
      → covers a (cut r rs more) ≡ (not (within base end a) && covers a (r ∷ rs))
  unfolding cut cut_high
  covers-cut a r rs more o u m h = elim (ltb-cases end (r.base + r.size)) [
    | inl (p, k) ↦ elim (ltb-cases r.base base) [
      | inl (q, l) ↦ rw (p, q) (ground (arith, m))
      | inr (q, l) ↦ rw (p, q) (ground (arith, m))
    ]
    | inr (p, k) ↦ rw p (ground arith)
  ]

  -- Exactly the addresses outside [base, end) stay covered.
  pub covers-carve :
      (a lo : ℕ) (rs : List Region)
      → Chain lo rs
      → covers a (carve rs) ≡ (not (within base end a) && covers a rs)
  unfolding carve
  covers-carve a lo [] c = ground arith
  covers-carve a lo (r ∷ rs) c = elim (leb-cases end r.base) [
    | inl (p, o) ↦ rw (carve-stop r rs o) (ground (arith, Chain-below a r.base (r ∷ rs)))
    | inr (p, o) ↦ elim (leb-cases (r.base + r.size) base) [
      | inl (q, u) ↦
          rw (carve-skip r rs o u) (ground (arith, covers-carve a (r.base + r.size) rs c.3))
      | inr (q, u) ↦ rw (carve-meet r rs o u) (
          covers-cut a r rs (carve rs) o u
            (λ k l. Chain-below a (r.base + r.size) rs c.3 (omega arith))
            (covers-carve a (r.base + r.size) rs c.3))
    ]
  ]

  -- The steps of the loop that splits in place, as equations of `carve` and `cuts`.
  pub cuts-skip :
      (r : Region) (rs : List Region)
      → r.base < end
      → r.base + r.size ≤ base
      → cuts (r ∷ rs) ≡ cuts rs
  unfolding cuts
  cuts-skip r rs o u = ground arith

  pub carve-low :
      (r : Region) (rs : List Region)
      → r.base < base
      → base < r.base + r.size
      → base < end
      → (carve (r ∷ rs) ≡ lower r base ∷ carve (upper r base ∷ rs))
        × (cuts (r ∷ rs) ≡ suc (cuts (upper r base ∷ rs)))
  unfolding carve cuts cut cut_high
  carve-low r rs o u h = (ground arith, ground arith)

  pub carve-high :
      (r : Region) (rs : List Region)
      → base ≤ r.base
      → r.base < end
      → end < r.base + r.size
      → (carve (r ∷ rs) ≡ carve (lower r end ∷ upper r end ∷ rs))
        × (cuts (r ∷ rs) ≡ suc (cuts (lower r end ∷ upper r end ∷ rs)))
  unfolding carve cuts cut cut_high
  carve-high r rs o u h = (ground arith, ground arith)

  pub carve-inside :
      (r : Region) (rs : List Region)
      → base ≤ r.base
      → base < r.base + r.size
      → r.base < end
      → r.base + r.size ≤ end
      → (carve (r ∷ rs) ≡ carve rs) × (cuts (r ∷ rs) ≡ cuts rs)
  unfolding carve cuts cut cut_high
  carve-inside r rs o u h k = (ground arith, ground arith)

  pub length-carve : (rs : List Region) → length (carve rs) ≤ length rs + 1
  unfolding carve cut cut_high
  length-carve [] = omega arith
  length-carve (r ∷ rs) = ground (arith, length-carve rs)

  -- The empty array's entry is left alone.
  pub carve-dummy : (r : Region) → 0 < end → r.base ≡ 0 → r.size ≡ 0 → carve (r ∷ []) ≡ r ∷ []
  unfolding carve cut cut_high
  carve-dummy r h b z = ground arith
