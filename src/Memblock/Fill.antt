-- ===== src/Memblock/Fill.antt =====
-- What the two passes of `memblock_add_range` amount to: one walk over the list of regions.
use study_notes.Common.{
  ℕ, ◌+◌, ◌-◌, ◌≤◌, ◌<◌, ◌≡◌, refl, min, List, [], ◌∷◌, Bool, true, false, ◌||◌, length, ltb, leb,
  ullong_max, if◌then◌else◌, arith, max, inl, inr, ltb-cases, leb-cases,
}
use study_notes.Memblock.Region.{Region}
use study_notes.Memblock.Chain.{within, covers, Chain, Chain-weaken}

module _ (end : ℕ) where
  split3 :
      (a b lo hi : ℕ) (rest : Bool)
      → lo < end
      → b < hi
      → (within b lo a || (within lo hi a || (within (min hi end) end a || rest)))
        ≡ (within b end a || (within lo hi a || rest))
  split3 a b lo hi rest h k = ground arith

module _ (end nid flags : ℕ) where
  -- A new region [b, c) in front of `l`, if it is not empty.
  unfoldable pub gap : ℕ → ℕ → List Region → List Region
  gap b c l = if ltb b c then record { base = b; size = c - b; flags = flags; nid = nid } ∷ l else l

  -- The regions with what they leave uncovered of [b, end) put between them.
  pub fill : ℕ → List Region → List Region
  fill b [] = gap b end []
  fill b (r ∷ rs) = elim (leb end r.base) [
    | true ↦ gap b end (r ∷ rs)
    | false ↦ elim (leb (r.base + r.size) b) [
      | true ↦ r ∷ fill b rs
      | false ↦ gap b r.base (r ∷ fill (min (r.base + r.size) end) rs)
    ]
  ]

  gap-Chain :
      (b c lo : ℕ) (l : List Region)
      → c ≤ ullong_max
      → min lo c ≤ b
      → Chain lo l
      → Chain (max lo c) l
      → Chain lo (gap b c l)
  unfolding gap
  gap-Chain b c lo l h m p q = elim (ltb-cases b c) [
    | inl (e, o) ↦ rw e (
      omega arith,
      omega arith,
      omega arith,
      Chain-weaken (max lo c) (b + (c - b)) l (omega arith) q,
    )
    | inr (e, o) ↦ rw e p
  ]

  covers-gap : (a b c : ℕ) (l : List Region) → covers a (gap b c l) ≡ (within b c a || covers a l)
  unfolding gap
  covers-gap a b c l = ground arith

  pub fill-nil : (b : ℕ) → fill b [] ≡ gap b end []
  unfolding fill
  fill-nil b = refl

  -- The three cases of a region: behind the new area, in front of it, or met by it.
  pub fill-stop :
      (b : ℕ) (r : Region) (rs : List Region) → end ≤ r.base → fill b (r ∷ rs) ≡ gap b end (r ∷ rs)
  unfolding fill
  fill-stop b r rs o = ground arith

  pub fill-skip :
      (b : ℕ) (r : Region) (rs : List Region)
      → r.base < end
      → r.base + r.size ≤ b
      → fill b (r ∷ rs) ≡ r ∷ fill b rs
  unfolding fill
  fill-skip b r rs o u = ground arith

  pub fill-meet :
      (b : ℕ) (r : Region) (rs : List Region)
      → r.base < end
      → b < r.base + r.size
      → fill b (r ∷ rs) ≡ gap b r.base (r ∷ fill (min (r.base + r.size) end) rs)
  unfolding fill
  fill-meet b r rs o u = ground arith

  -- The result is a chain again.
  pub fill-Chain :
      (b lo : ℕ) (rs : List Region)
      → min lo end ≤ b
      → end ≤ ullong_max
      → Chain lo rs
      → Chain lo (fill b rs)
  unfolding fill
  fill-Chain b lo [] h e c = gap-Chain b end lo [] e h tt tt
  fill-Chain b lo (r ∷ rs) h e c = elim (leb-cases end r.base) [
    | inl (p, o) ↦
        rw (fill-stop b r rs o) (gap-Chain b end lo (r ∷ rs) e h c (omega arith, c.1, c.2, c.3))
    | inr (p, o) ↦ elim (leb-cases (r.base + r.size) b) [
      | inl (q, u) ↦
          rw (fill-skip b r rs o u)
            (c.0, c.1, c.2, fill-Chain b (r.base + r.size) rs (omega arith) e c.3)
      | inr (q, u) ↦
          let rest =
            fill-Chain (min (r.base + r.size) end) (r.base + r.size) rs (omega arith) e c.3 in
          rw (fill-meet b r rs o u) (
            gap-Chain b r.base lo (r ∷ fill (min (r.base + r.size) end) rs) (omega arith)
              (omega arith) (c.0, c.1, c.2, rest) (omega arith, c.1, c.2, rest))
    ]
  ]

  -- It covers what the regions covered, and [b, end).
  pub covers-fill :
      (a b : ℕ) (rs : List Region) → covers a (fill b rs) ≡ (within b end a || covers a rs)
  unfolding fill
  covers-fill a b [] = covers-gap a b end []
  covers-fill a b (r ∷ rs) = elim (leb-cases end r.base) [
    | inl (p, o) ↦ rw (fill-stop b r rs o) (covers-gap a b end (r ∷ rs))
    | inr (p, o) ↦ elim (leb-cases (r.base + r.size) b) [
      | inl (q, u) ↦ rw (fill-skip b r rs o u, covers-fill a b rs) (ground arith)
      | inr (q, u) ↦
          rw (fill-meet b r rs o u, covers-gap, covers-fill a (min (r.base + r.size) end) rs)
            (split3 end a b r.base (r.base + r.size) (covers a rs) o u)
    ]
  ]

  pub length-fill : (b : ℕ) (rs : List Region) → length rs ≤ length (fill b rs)
  unfolding fill gap
  length-fill b [] = ground arith
  length-fill b (r ∷ rs) =
      ground (arith, length-fill b rs, length-fill (min (r.base + r.size) end) rs)

  pub length-gap :
      (b c : ℕ) (l l' : List Region)
      → length (gap b c l) + length l' ≡ length (gap b c l') + length l
  unfolding gap
  length-gap b c l l' = ground arith
