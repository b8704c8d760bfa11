-- ===== src/Memblock/IsolateLoop.antt =====
-- The loop of `memblock_isolate_range` cuts the regions at both ends of the range and records where the
-- ones between them stand.
use study_notes.Common.{
  ℕ, zero, suc, ◌+◌, ◌*◌, ◌≤◌, ◌<◌, ◌≡◌, refl, sym, ◌∙◌, ap, List, [], ◌∷◌, ◌++◌, inl, inr, length,
  length-append, length-snoc, append-snoc, ◌⊎◌, ltb-cases, leb-cases, ullong_max, done, Returns,
  arith,
}
use study_notes.Memblock.Region.{Region}
use study_notes.Memblock.Isolate.{Cut, contained, isolate_loop}
use study_notes.Memblock.Chain.{Chain, Chain-weaken}
use study_notes.Memblock.Entries.{Holds, at-Holds, end-Holds}
use study_notes.Memblock.Carve.{
  lower, upper, carve, carve-nil, carve-stop, carve-skip, cuts, cuts-skip, carve-low, carve-high,
  carve-inside,
}
use study_notes.Memblock.IsolateRounds.{
  IsSmall, Isolated, Tracks, contained-Tracks, front-step, loop-end, loop-stop, loop-skip, loop-low,
  loop-high, loop-inside, mid-step, split-Halved, split-IsSmall,
}

module _ (base end : ℕ) (ordered : base < end) (bounded : end ≤ ullong_max) where
  pub isolate_loop-Isolated :
      (fuel : ℕ) (s : Cut) (n lo : ℕ) (front mid rest target : List Region)
      → Holds ((front ++ mid) ++ rest) n s.type
      → IsSmall ((front ++ mid) ++ rest)
      → s.i ≡ length front + length mid
      → Tracks front mid s
      → Chain lo rest
      → (length mid ≡ 0) ⊎ (base ≤ lo)
      → length rest + 2 * cuts base end rest < fuel
      → length front + length mid + length rest + cuts base end rest ≤ n
      → target ≡ front ++ carve base end rest
      → Returns (Isolated n target) (isolate_loop base end fuel s)
  isolate_loop-Isolated zero s n lo front mid rest target h sm hi k c b f m ht =
      absurd (omega arith)
  isolate_loop-Isolated (suc fuel) s n lo front mid [] target h sm hi k c b f m ht =
      rw
        (loop-end base end fuel s (end-Holds (front ++ mid) h (hi ∙ sym (length-append front mid))))
        (record {
          front = front;
          mid = mid;
          back = [];
          holds = h;
          small = sm;
          left = ht ∙ ap (λ l. front ++ l) (carve-nil base end);
          tracks = k;
        })
  isolate_loop-Isolated (suc fuel) s n lo front mid (r ∷ rest) target h sm hi k c b f m ht =
      let hi' = hi ∙ sym (length-append front mid) in
      let at = at-Holds (front ++ mid) rest h hi' in
      elim (leb-cases end r.base) [
        | inl (p, o) ↦ rw (loop-stop base end fuel s r at o) (record {
          front = front;
          mid = mid;
          back = r ∷ rest;
          holds = h;
          small = sm;
          left = ht ∙ ap (λ l. front ++ l) (carve-stop base end r rest o);
          tracks = k;
        })
        | inr (p, o) ↦ elim (leb-cases (r.base + r.size) base) [
          | inl (q, u) ↦
              let none_yet : length mid ≡ 0 = omega arith in
              rw (loop-skip base end fuel s r at o (omega arith)) (
                isolate_loop-Isolated fuel (record s { i = s.i + 1 }) n (r.base + r.size)
                  (front ++ r ∷ []) [] rest target (rw (← front-step front mid r rest none_yet) h)
                  (rw (← front-step front mid r rest none_yet) sm)
                  (omega (arith, length-snoc front r)) (omega arith) c.3 (inl refl)
                  (omega (arith, cuts-skip base end r rest o u))
                  (omega (arith, cuts-skip base end r rest o u, length-snoc front r))
                  (ht
                    ∙ ap (λ l. front ++ l) (carve-skip base end r rest o u)
                    ∙ append-snoc front r _))
          | inr (q, u) ↦ elim (ltb-cases r.base base) [
            | inl (x, low) ↦
                let none_yet : length mid ≡ 0 = omega arith in
                let step = carve-low base end r rest low u ordered in
                let cut =
                  split-Halved (front ++ mid) rest n s.i s.type r base h hi'
                    (omega (arith, length-append front mid)) low u c.2 in
                rw (loop-low base end fuel s r at o (omega arith) low, cut.runs)
                  (isolate_loop-Isolated fuel (record s { type = cut.after; i = s.i + 1 }) n base
                    (front ++ lower r base ∷ []) [] (upper r base ∷ rest) target
                    (rw (← front-step front mid (lower r base) (upper r base ∷ rest) none_yet)
                      cut.holds)
                    (rw (← front-step front mid (lower r base) (upper r base ∷ rest) none_yet)
                      (split-IsSmall (front ++ mid) r base rest low u sm))
                    (omega (arith, length-snoc front (lower r base))) (omega arith)
                    (
                      omega arith,
                      omega arith,
                      omega arith,
                      Chain-weaken (r.base + r.size) _ rest (omega arith) c.3,
                    )
                    (inl refl) (omega (arith, step.1))
                    (omega (arith, step.1, length-snoc front (lower r base)))
                    (ht ∙ ap (λ l. front ++ l) step.0 ∙ append-snoc front (lower r base) _))
            | inr (x, low) ↦ elim (ltb-cases end (r.base + r.size)) [
              | inl (y, high) ↦
                  let step = carve-high base end r rest low o high in
                  let cut =
                    split-Halved (front ++ mid) rest n s.i s.type r end h hi'
                      (omega (arith, length-append front mid)) o high c.2 in
                  rw (loop-high base end fuel s r at o (omega arith) low (omega arith), cut.runs)
                    (isolate_loop-Isolated fuel (record s { type = cut.after }) n r.base front mid
                      (lower r end ∷ upper r end ∷ rest) target cut.holds
                      (split-IsSmall (front ++ mid) r end rest o high sm) hi k
                      (
                        omega arith,
                        omega arith,
                        omega arith,
                        (
                          omega arith,
                          omega arith,
                          omega arith,
                          Chain-weaken (r.base + r.size) _ rest (omega arith) c.3,
                        ),
                      )
                      (inr low) (omega (arith, step.1)) (omega (arith, step.1))
                      (ht ∙ ap (λ l. front ++ l) step.0))
              | inr (y, high) ↦
                  let step = carve-inside base end r rest low u o high in
                  rw (loop-inside base end fuel s r at o (omega arith) low (omega arith)) (
                    isolate_loop-Isolated fuel (contained s) n (r.base + r.size) front
                      (mid ++ r ∷ []) rest target (rw (← mid-step front mid r rest) h)
                      (rw (← mid-step front mid r rest) sm) (omega (arith, length-snoc mid r))
                      (contained-Tracks front mid r s hi k) c.3 (inr (omega arith))
                      (omega (arith, step.1)) (omega (arith, step.1, length-snoc mid r))
                      (ht ∙ ap (λ l. front ++ l) step.0))
            ]
          ]
        ]
      ]

-- On the empty array the loop records nothing.
pub isolate_loop_empty :
    (base end fuel : ℕ) (s : Cut) (r : Region)
    → 0 < end
    → s.type.regions ≡ r ∷ []
    → s.i ≡ 0
    → r.base ≡ 0
    → r.size ≡ 0
    → isolate_loop base end (suc (suc fuel)) s ≡ done (record s { i = s.i + 1 })
isolate_loop_empty base end fuel s r p h hi b z = rw (
  loop-skip base end (suc fuel) s r (rw (h, hi) refl) (omega arith) (omega arith),
  loop-end base end fuel (record s { i = s.i + 1 }) (rw (h, hi) refl),
)
