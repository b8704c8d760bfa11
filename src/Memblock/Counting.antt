-- ===== src/Memblock/Counting.antt =====
-- The first pass of `memblock_add_range` counts the regions that `fill` adds.
use study_notes.Common.{
  ℕ, zero, suc, ◌+◌, ◌≤◌, ◌<◌, ◌≡◌, refl, ◌∙◌, min, List, [], ◌∷◌, ◌++◌, false, length, ullong_max,
  arith, inl, inr, ltb-cases, leb-cases, some, Returns-map, done, ◌>>=◌, Returns, get_elem?,
  get_elem?-append, get_elem?-end, append-snoc, length-snoc,
}
use mathlib.Core.List.{append-nil}
use study_notes.Memblock.Region.{Region, MemblockType, region_end}
use study_notes.Memblock.Add.{Pass, overlap, pass_loop, remaining}
use study_notes.Memblock.Chain.{Chain}
use study_notes.Memblock.Fill.{gap, fill, fill-nil, fill-stop, fill-skip, fill-meet}
use study_notes.Memblock.PassRounds.{loop-end, loop-stop, loop-skip, loop-meet}

-- The array is `t`, and as many regions were counted, on top of `nr`, as `all` has more than `old`.
abbrev pub Counts : MemblockType → ℕ → ℕ → ℕ → Pass → Type 0
Counts t nr old all s' = (s'.type ≡ t) × (s'.nr_new + old ≡ nr + all)

module _ (nid flags : ℕ) where
  -- The counting pass leaves the array alone and counts the regions that `fill` adds.
  remaining-false :
      (s : Pass) (end : ℕ) (rest : List Region)
      → Returns
          (Counts s.type s.nr_new (length rest) (length (gap end nid flags s.base end rest)))
          (remaining false end nid flags s)
  unfolding gap
  remaining-false s end rest = elim (ltb-cases s.base end) [
    | inl (p, o) ↦ rw p (refl, omega arith)
    | inr (p, o) ↦ rw p (refl, refl)
  ]

  overlap-false :
      (s : Pass) (end : ℕ) (r : Region) (l : List Region)
      → r.base + r.size ≤ ullong_max
      → (s' : Pass) × (overlap false end nid flags s r ≡ done s')
        × (s'.type ≡ s.type)
        × (s'.i ≡ s.i + 1)
        × (s'.base ≡ min (r.base + r.size) end)
        × (s'.nr_new + suc (length l) ≡ s.nr_new + length (gap end nid flags s.base r.base (r ∷ l)))
  unfolding gap
  overlap-false s end r l e = elim (ltb-cases s.base r.base) [
    | inl (p, o) ↦ rw p (
      record s { i = s.i + 1; base = min (region_end r) end; nr_new = s.nr_new + 1 },
      refl,
      refl,
      refl,
      omega arith,
      omega arith,
    )
    | inr (p, o) ↦ rw p (
      record s { i = s.i + 1; base = min (region_end r) end },
      refl,
      refl,
      refl,
      omega arith,
      refl,
    )
  ]

  pub pass_false :
      (fuel : ℕ) (s : Pass) (end lo : ℕ) (pre rest : List Region)
      → s.type.regions ≡ pre ++ rest
      → s.i ≡ length pre
      → Chain lo rest
      → length rest < fuel
      → Returns
          (Counts s.type s.nr_new (length rest) (length (fill end nid flags s.base rest)))
          (pass_loop false end nid flags fuel s >>= remaining false end nid flags)
  pass_false zero s end lo pre rest h hi c f = absurd (omega arith)
  pass_false (suc fuel) s end lo pre [] h hi c f =
      rw
        (
          loop-end false end nid flags fuel s (rw (h, hi, append-nil) (get_elem?-end pre)),
          fill-nil end nid flags s.base,
        )
        (remaining-false s end [])
  pass_false (suc fuel) s end lo pre (r ∷ rest) h hi c f =
      let at : get_elem? s.type.regions s.i ≡ some r = rw (h, hi) (get_elem?-append pre rest r) in
      elim (leb-cases end r.base) [
        | inl (p, o) ↦
            rw
              (loop-stop false end nid flags fuel s r at o, fill-stop end nid flags s.base r rest o)
              (remaining-false s end (r ∷ rest))
        | inr (p, o) ↦ elim (leb-cases (r.base + r.size) s.base) [
          | inl (q, u) ↦
              rw
                (
                  loop-skip false end nid flags fuel s r at o (omega arith),
                  fill-skip end nid flags s.base r rest o u,
                )
                (Returns-map
                  (Counts s.type s.nr_new (length rest) (length (fill end nid flags s.base rest)))
                  (Counts s.type s.nr_new (suc (length rest))
                    (suc (length (fill end nid flags s.base rest))))
                  _ (λ s' k. (k.0, omega arith))
                  (pass_false fuel (record s { i = s.i + 1 }) end (r.base + r.size) (pre ++ r ∷ [])
                    rest (rw (← append-snoc pre r rest) h) (omega (arith, length-snoc pre r)) c.3
                    (omega arith)))
          | inr (q, u) ↦
              let (s', e, et, ei, eb, en) =
                overlap-false s end r (fill end nid flags (min (r.base + r.size) end) rest) c.2 in
              let rest' : length (fill end nid flags s'.base rest)
                  ≡ length (fill end nid flags (min (r.base + r.size) end) rest) =
                rw eb in
              rw
                (
                  loop-meet false end nid flags fuel s r at o (omega arith),
                  e,
                  fill-meet end nid flags s.base r rest o u,
                )
                (Returns-map
                  (Counts s'.type s'.nr_new (length rest)
                    (length (fill end nid flags s'.base rest)))
                  (Counts s.type s.nr_new (suc (length rest)) (
                    length (
                      gap end nid flags s.base r.base
                        (r ∷ fill end nid flags (min (r.base + r.size) end) rest))))
                  _ (λ s'' k. (k.0 ∙ et, omega arith))
                  (pass_false fuel s' end (r.base + r.size) (pre ++ r ∷ []) rest
                    (rw (et, ← append-snoc pre r rest) h) (omega (arith, length-snoc pre r)) c.3
                    (omega arith)))
        ]
      ]
