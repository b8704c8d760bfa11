-- ===== src/Memblock/MergeLoop.antt =====
-- The loop of `memblock_merge_regions` does what `merge_from` says.

use study_notes.Common.{
  ℕ, zero, suc, ◌+◌, ◌≤◌, ◌<◌, ◌≡◌, refl, ap, List, [], ◌∷◌, ◌++◌, true, false, length, some, none,
  inl, inr, Bool-cases, ltb-cases, Returns, get_elem?, set-append, remove_at-append, append-snoc,
  length-snoc, arith, set, remove_at, done, ◌∙◌,
}
use study_notes.Memblock.Region.{Region, MemblockType, region_end}
use study_notes.Memblock.Merge.{compatible, join, merge_loop, merge_regions}
use study_notes.Memblock.Chain.{Chain, sum_sizes-append}
use study_notes.Memblock.Entries.{Holds, at-Holds, end-Holds}
use study_notes.Memblock.MergeList.{
  merge, merge_from, merge-nil, merge-join, merge-keep, join-ends, join-Chain,
}

-- One round of the loop at `r`, by what stands behind it.
module _ (fuel : ℕ) (t : MemblockType) (i : ℕ) (r : Region)
    (at : get_elem? t.regions i ≡ some r) where
  loop-last : get_elem? t.regions (suc i) ≡ none → merge_loop (suc fuel) t i ≡ done t
  unfolding merge_loop
  loop-last e = ground arith

  loop-join :
      (s : Region)
      → get_elem? t.regions (suc i) ≡ some s
      → compatible r s ≡ true
      → merge_loop (suc fuel) t i
        ≡ merge_loop fuel (record t { regions = remove_at (set t.regions i (join r s)) (suc i) }) i
  unfolding merge_loop
  loop-join s e h = rw (at, e, h, merge_loop)

  loop-keep :
      (s : Region)
      → get_elem? t.regions (suc i) ≡ some s
      → compatible r s ≡ false
      → region_end r ≤ s.base
      → merge_loop (suc fuel) t i ≡ merge_loop fuel t (suc i)
  unfolding merge_loop
  loop-keep s e h k = elim (ltb-cases s.base (region_end r)) [
    | inl (p, o) ↦ absurd (omega arith)
    | inr (p, o) ↦ rw (at, e, h, p, merge_loop)
  ]

-- Joining `r` with the region behind it is the two array writes of the source.
join-Holds :
    (t : MemblockType) (i n lo : ℕ) (pre : List Region) (r s : Region) (rest : List Region)
    → Holds (pre ++ r ∷ s ∷ rest) n t
    → i ≡ length pre
    → Chain lo (r ∷ s ∷ rest)
    → compatible r s ≡ true
    → Holds
        (pre ++ join r s ∷ rest)
        n
        (record t { regions = remove_at (set t.regions i (join r s)) (suc i) })
join-Holds t i n lo pre r s rest h hi c e = record {
  regions = rw (
    h.regions,
    hi,
    set-append pre (s ∷ rest) r (join r s),
    append-snoc pre (join r s) (s ∷ rest),
    ← length-snoc pre (join r s),
    remove_at-append (pre ++ join r s ∷ []) rest s,
    ← append-snoc pre (join r s) rest,
  );
  room = h.room;
  total = rw h.total (
      omega (
        arith,
        join-ends lo r s rest c e,
        sum_sizes-append pre (r ∷ s ∷ rest),
        sum_sizes-append pre (join r s ∷ rest),
      ));
}

-- The loop, from a point on, does what `merge_from` says and never meets its `BUG_ON`.
pub merge_loop-Holds :
    (fuel : ℕ) (t : MemblockType) (i n lo : ℕ) (pre : List Region) (r : Region)
    (rest target : List Region)
    → Holds (pre ++ r ∷ rest) n t
    → i ≡ length pre
    → Chain lo (r ∷ rest)
    → length rest < fuel
    → target ≡ pre ++ merge_from r rest
    → Returns (Holds target n) (merge_loop fuel t i)
merge_loop-Holds zero t i n lo pre r rest target h hi c f ht = absurd (omega arith)
merge_loop-Holds (suc fuel) t i n lo pre r [] target h hi c f ht =
    let h' : Holds ((pre ++ r ∷ []) ++ []) n t = rw (← append-snoc pre r []) h in
    let hi' : suc i ≡ length (pre ++ r ∷ []) = omega (arith, length-snoc pre r) in
    rw
      (
        ht,
        merge-nil r,
        loop-last fuel t i r (at-Holds pre [] h hi) (end-Holds (pre ++ r ∷ []) h' hi'),
      )
      h
merge_loop-Holds (suc fuel) t i n lo pre r (s ∷ rest) target h hi c f ht =
    let at = at-Holds pre (s ∷ rest) h hi in
    let h' : Holds ((pre ++ r ∷ []) ++ s ∷ rest) n t = rw (← append-snoc pre r (s ∷ rest)) h in
    let hi' : suc i ≡ length (pre ++ r ∷ []) = omega (arith, length-snoc pre r) in
    let next = at-Holds (pre ++ r ∷ []) rest h' hi' in
    elim (Bool-cases (compatible r s)) [
      | inl e ↦ rw (loop-join fuel t i r at s next e) (
          merge_loop-Holds fuel _ i n lo pre (join r s) rest target
            (join-Holds t i n lo pre r s rest h hi c e) hi (join-Chain lo r s rest c e)
            (omega arith) (ht ∙ ap (λ l. pre ++ l) (merge-join r s rest e)))
      | inr e ↦ rw (loop-keep fuel t i r at s next e (omega arith)) (
          merge_loop-Holds fuel t (suc i) n (r.base + r.size) (pre ++ r ∷ []) s rest target h' hi'
            c.3 (omega arith)
            (ht
              ∙ ap (λ l. pre ++ l) (merge-keep r s rest e)
              ∙ append-snoc pre r (merge_from s rest)))
    ]

-- `memblock_merge_regions` on an array of regions in order: it returns, so its `BUG_ON` is not met,
-- and the array holds what one pass over the list makes of the regions, with the total of the sizes
-- and the room unchanged.
pub merge_regions-Holds :
    (t : MemblockType) (l : List Region) (n : ℕ)
    → Holds l n t
    → 0 < length l
    → Chain 0 l
    → Returns (Holds (merge l) n) (merge_regions t)
unfolding merge_regions
merge_regions-Holds t [] n h p c = absurd (omega arith)
merge_regions-Holds t (r ∷ rs) n h p c =
    merge_loop-Holds (length t.regions) t 0 n 0 [] r rs (merge_from r rs) h refl c
      (omega (arith, ap length h.regions)) refl
