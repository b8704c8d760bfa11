-- ===== src/Memblock/Leaves.antt =====
-- The array that the loop of `memblock_remove_range` leaves of what was isolated (mm/memblock.c).

use study_notes.Common.{
  ℕ, ◌-◌, ◌≤◌, ◌<◌, ◌≡◌, refl, ◌∙◌, sym, List, [], ◌∷◌, ◌++◌, inl, inr, length, append-nil,
  nil_of_length, arith,
}
use study_notes.Memblock.Region.{Region, MemblockType, refill}
use study_notes.Memblock.Isolate.{Cut, remove_loop}
use study_notes.Memblock.Chain.{IsValid, Chain, covers}
use study_notes.Memblock.IsolateRounds.{Isolated}
use study_notes.Memblock.RemoveLoop.{Leaves, remove_loop-Leaves}

refill-some : (rs : List Region) → 0 < length rs → refill rs ≡ rs
refill-some [] h = absurd (omega arith)
refill-some (r ∷ rs) h = refl

pub Isolated-Leaves :
    (n : ℕ) (target : List Region) (s : Cut)
    → Isolated n target s
    → Leaves target n (remove_loop s.end_rgn s.start_rgn s.type)
unfolding remove_loop
Isolated-Leaves n target s h = elim h.tracks [
  | inl (z, st, en) ↦
      let same : (h.front ++ h.mid) ++ h.back ≡ target =
        rw (nil_of_length h.mid z, append-nil h.front) (sym h.left) in
      rw en (record {
        regions = h.holds.regions ∙ same ∙ sym (refill-some target (rw same at h.small.0));
        room = h.holds.room;
        total = rw same at h.holds.total;
      })
  | inr (z, st, en) ↦
      rw (st, h.left)
        (remove_loop-Leaves (length h.mid - 1) h.front h.mid h.back n s.end_rgn s.type (omega arith)
          en h.holds h.small.1)
]

pub Leaves-IsValid :
    (rs : List Region) (n : ℕ) (t : MemblockType)
    → Leaves rs n t
    → Chain 0 rs
    → length rs ≤ n
    → 0 < n
    → IsValid t
Leaves-IsValid [] n t h c l p = record {
  fits = rw (h.regions, h.room) p;
  total = rw h.regions h.total;
  shape = rw h.regions (inl (refl, refl, refl));
}
Leaves-IsValid (r ∷ rs) n t h c l p = record {
  fits = rw (h.regions, h.room) l;
  total = rw h.regions h.total;
  shape = rw h.regions (inr c);
}

pub covers-refill : (a : ℕ) (rs : List Region) → covers a (refill rs) ≡ covers a rs
covers-refill a [] = ground arith
covers-refill a (r ∷ rs) = refl
