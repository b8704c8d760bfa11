-- ===== src/Memblock/RemoveLoop.antt =====
-- The loop of `memblock_remove_range` takes out the regions that were isolated.
use study_notes.Common.{
  ℕ, zero, suc, ◌+◌, ◌%◌, ◌≤◌, ◌<◌, ◌≡◌, refl, sym, ap, ◌∙◌, List, [], ◌∷◌, ◌++◌, length, word,
  ullong_max, length-append, length-snoc, append-snoc, append-nil, append_assoc, remove_at-append,
  nil_of_length, unsnoc, arith,
}
use study_notes.Memblock.Region.{Region, MemblockType, remove_region, refill}
use study_notes.Memblock.Isolate.{remove_loop}
use study_notes.Memblock.Chain.{sum_sizes, sum_sizes-append}
use study_notes.Memblock.Entries.{Holds, at-Holds}

-- The entries `rs`, or the dummy where there are none, and their total.
pub record Leaves (rs : List Region) (n : ℕ) (t : MemblockType) : Type 0 where
  pub regions : t.regions ≡ refill rs
  pub room : t.max ≡ n
  pub total : t.total_size ≡ sum_sizes rs % word

refill-append : (pre rest : List Region) → 0 < length pre → refill (pre ++ rest) ≡ pre ++ rest
refill-append [] rest h = absurd (omega arith)
refill-append (r ∷ pre) rest h = refl

remove_region-Leaves :
    (pre rest : List Region) (n i : ℕ) (t : MemblockType) (r : Region)
    → Holds (pre ++ r ∷ rest) n t
    → sum_sizes (pre ++ r ∷ rest) ≤ ullong_max
    → i ≡ length pre
    → Leaves (pre ++ rest) n (remove_region t i)
unfolding remove_region
remove_region-Leaves pre rest n i t r h sm hi =
    rw (at-Holds pre rest h hi, remove_region)
      (record {
        regions = rw (h.regions, hi) (ap refill (remove_at-append pre rest r));
        room = h.room;
        total =
            rw h.total (omega (arith, sum_sizes-append pre (r ∷ rest), sum_sizes-append pre rest));
      })

remove_loop-stop : (i start : ℕ) (t : MemblockType) → i ≤ start → remove_loop i start t ≡ t
unfolding remove_loop
remove_loop-stop zero start t h = refl
remove_loop-stop (suc i) start t h = ground arith

remove_loop-step :
    (i start : ℕ) (t : MemblockType)
    → start ≤ i
    → remove_loop (suc i) start t ≡ remove_loop i start (remove_region t i)
unfolding remove_loop
remove_loop-step i start t h = ground arith

peel :
    (front mid mid' back : List Region) (r : Region)
    → mid ≡ mid' ++ r ∷ []
    → (front ++ mid) ++ back ≡ (front ++ mid') ++ r ∷ back
peel front mid mid' back r e =
    rw (e, ← append_assoc front mid' (r ∷ [])) (sym (append-snoc (front ++ mid') r back))

-- One round takes the last recorded region out.
record Peeled (front mid back : List Region) (n end : ℕ) (t : MemblockType) : Type 0 where
  fewer : List Region
  i : ℕ
  one_less : suc (length fewer) ≡ length mid
  ends : end ≡ suc i
  at : i ≡ length front + length fewer
  leaves : Leaves ((front ++ fewer) ++ back) n (remove_region t i)
  small : sum_sizes ((front ++ fewer) ++ back) ≤ ullong_max

remove-Peeled :
    (front mid back : List Region) (n end : ℕ) (t : MemblockType)
    → 0 < length mid
    → end ≡ length front + length mid
    → Holds ((front ++ mid) ++ back) n t
    → sum_sizes ((front ++ mid) ++ back) ≤ ullong_max
    → Peeled front mid back n end t
remove-Peeled front mid back n end t hl he h sm =
    let (ys, y, e) = unsnoc mid hl in
    let moved = peel front mid ys back y e in
    record {
      fewer = ys;
      i = length (front ++ ys);
      one_less = omega (arith, ap length e, length-snoc ys y);
      ends = omega (arith, length-append front ys, ap length e, length-snoc ys y);
      at = length-append front ys;
      leaves =
          remove_region-Leaves (front ++ ys) back n (length (front ++ ys)) t y (rw (← moved) h)
            (rw (← moved) sm) refl;
      small = omega (
        arith,
        ap sum_sizes moved,
        sum_sizes-append (front ++ ys) (y ∷ back),
        sum_sizes-append (front ++ ys) back,
      );
    }

pub remove_loop-Leaves :
    (j : ℕ) (front mid back : List Region) (n end : ℕ) (t : MemblockType)
    → length mid ≡ suc j
    → end ≡ length front + length mid
    → Holds ((front ++ mid) ++ back) n t
    → sum_sizes ((front ++ mid) ++ back) ≤ ullong_max
    → Leaves (front ++ back) n (remove_loop end (length front) t)
remove_loop-Leaves zero front mid back n end t hl he h sm =
    let p = remove-Peeled front mid back n end t (omega arith) he h sm in
    rw
      (
        p.ends,
        remove_loop-step p.i (length front) t (omega (arith, p.at)),
        remove_loop-stop p.i (length front) (remove_region t p.i) (omega (arith, p.at, p.one_less)),
      )
      (rw (nil_of_length p.fewer (omega (arith, p.one_less)), append-nil front) at p.leaves)
remove_loop-Leaves (suc j) front mid back n end t hl he h sm =
    let p = remove-Peeled front mid back n end t (omega arith) he h sm in
    let more : 0 < length (front ++ p.fewer) =
      omega (arith, length-append front p.fewer, p.one_less) in
    rw (p.ends, remove_loop-step p.i (length front) t (omega (arith, p.at)))
      (remove_loop-Leaves j front p.fewer back n p.i (remove_region t p.i)
        (omega (arith, p.one_less)) p.at
        (record {
          regions = p.leaves.regions ∙ refill-append (front ++ p.fewer) back more;
          room = p.leaves.room;
          total = p.leaves.total;
        })
        p.small)
