-- ===== src/Memblock/Passes.antt =====
-- The second pass of `memblock_add_range` inserts the regions that `fill` adds, and never meets the
-- `BUG_ON` of `memblock_insert_region`.
use study_notes.Common.{
  ℕ, zero, suc, ◌+◌, ◌-◌, ◌≤◌, ◌<◌, ◌≡◌, ◌∙◌, ap, min, List, [], ◌∷◌, ◌++◌, true, length,
  ullong_max, word, arith, inl, inr, ltb-cases, leb-cases, add64, sub64, done, ◌>>=◌, Returns,
  insert_at-append, append-snoc, length-snoc, length-append, insert_at,
}
use study_notes.Memblock.Region.{Region, insert_region, region_end}
use study_notes.Memblock.Add.{Pass, put, overlap, pass_loop, remaining}
use study_notes.Memblock.Entries.{Holds, cnt-Holds, at-Holds, end-Holds}
use study_notes.Memblock.Chain.{Chain, sum_sizes-append}
use study_notes.Memblock.Fill.{
  gap, fill, fill-nil, fill-stop, fill-skip, fill-meet, length-fill, length-gap,
}
use study_notes.Memblock.PassRounds.{loop-end, loop-stop, loop-skip, loop-meet}

sub64_lem : (b c : ℕ) → b < c → c < word → sub64 c b ≡ c - b
sub64_lem b c h k = omega arith

module _ (nid flags : ℕ) where
  abbrev new : ℕ → ℕ → Region
  new b n = record { base = b; size = n; flags = flags; nid = nid }

  -- What `put` does to the array when it inserts.
  abbrev put_to : Pass → ℕ → Pass
  put_to s size = record s {
    type = record (s.type) {
      regions = insert_at s.type.regions s.i (new s.base size);
      total_size = add64 s.type.total_size size;
    };
    i = s.i + 1;
    nr_new = s.nr_new + 1;
  }

  put-true :
      (s : Pass) (n end size : ℕ) (pre rest : List Region)
      → Holds (pre ++ rest) n s.type
      → s.i ≡ length pre
      → length pre + length rest < n
      → put true end nid flags s size ≡ done (put_to s size)
  unfolding insert_region
  put-true s n end size pre rest h hi hm = elim (leb-cases s.type.max (length s.type.regions)) [
    | inl (e, o) ↦ absurd (omega (arith, h.room, cnt-Holds pre rest h))
    | inr (e, o) ↦ rw e
  ]

  put_to-Holds :
      (s : Pass) (n size : ℕ) (pre rest : List Region)
      → Holds (pre ++ rest) n s.type
      → s.i ≡ length pre
      → Holds (pre ++ new s.base size ∷ rest) n (put_to s size).type
  put_to-Holds s n size pre rest h hi = record {
    regions = rw (h.regions, hi) (insert_at-append pre rest (new s.base size));
    room = h.room;
    total =
        rw h.total
          (omega (arith, sum_sizes-append pre (new s.base size ∷ rest), sum_sizes-append pre rest));
  }

  -- "insert the remaining portion" puts a last region behind `pre`.
  remaining-true :
      (s : Pass) (n end : ℕ) (pre rest : List Region)
      → Holds (pre ++ rest) n s.type
      → s.i ≡ length pre
      → end ≤ ullong_max
      → length pre + length (gap end nid flags s.base end rest) ≤ n
      → Returns
          (λ s'. Holds (pre ++ gap end nid flags s.base end rest) n s'.type)
          (remaining true end nid flags s)
  unfolding gap
  remaining-true s n end pre rest h hi e m = elim (ltb-cases s.base end) [
    | inl (p, o) ↦
        let m' : length pre + suc (length rest) ≤ n = rw p at m in
        rw
          (
            p,
            put-true s n end (sub64 end s.base) pre rest h hi (omega arith),
            ← sub64_lem s.base end o (omega arith),
          )
          (put_to-Holds s n (sub64 end s.base) pre rest h hi)
    | inr (p, o) ↦ rw p h
  ]

  -- Where a region is met, the gap in front of it is filled and the loop steps behind it.
  record Met (s : Pass) (n end : ℕ) (pre : List Region) (r : Region) (rest : List Region)
      : Type 0 where
    after : Pass
    behind : List Region
    runs : overlap true end nid flags s r ≡ done after
    holds : Holds (behind ++ rest) n after.type
    index : after.i ≡ length behind
    base : after.base ≡ min (r.base + r.size) end
    filled : (l : List Region) → pre ++ gap end nid flags s.base r.base (r ∷ l) ≡ behind ++ l

  overlap-Met :
      (s : Pass) (n end : ℕ) (pre : List Region) (r : Region) (rest : List Region)
      → Holds (pre ++ r ∷ rest) n s.type
      → s.i ≡ length pre
      → r.base + r.size ≤ ullong_max
      → length pre + length (gap end nid flags s.base r.base (r ∷ rest)) ≤ n
      → Met s n end pre r rest
  unfolding gap
  overlap-Met s n end pre r rest h hi e m = elim (ltb-cases s.base r.base) [
    | inl (p, o) ↦
        let m' : length pre + suc (suc (length rest)) ≤ n = rw p at m in
        let size = sub64 r.base s.base in
        record {
          after = record (put_to s size) { i = s.i + 1 + 1; base = min (region_end r) end };
          behind = (pre ++ new s.base size ∷ []) ++ r ∷ [];
          runs = rw (p, put-true s n end size pre (r ∷ rest) h hi (omega arith));
          holds =
              rw
                (
                  ← append-snoc (pre ++ new s.base size ∷ []) r rest,
                  ← append-snoc pre (new s.base size) (r ∷ rest),
                )
                (put_to-Holds s n size pre (r ∷ rest) h hi);
          index = omega (
            arith,
            length-snoc (pre ++ new s.base size ∷ []) r,
            length-snoc pre (new s.base size),
          );
          base = omega arith;
          filled = λ l.
              rw (p, ← sub64_lem s.base r.base o (omega arith))
                (append-snoc pre (new s.base size) (r ∷ l)
                  ∙ append-snoc (pre ++ new s.base size ∷ []) r l);
        }
    | inr (p, o) ↦ record {
      after = record s { i = s.i + 1; base = min (region_end r) end };
      behind = pre ++ r ∷ [];
      runs = rw p;
      holds = rw (← append-snoc pre r rest) h;
      index = omega (arith, length-snoc pre r);
      base = omega arith;
      filled = λ l. rw p (append-snoc pre r l);
    }
  ]

  -- The inserting pass from a point of the array on: `pre` is done, `rest` is to come.
  pub pass_true :
      (fuel : ℕ) (s : Pass) (n end lo : ℕ) (pre rest target : List Region)
      → Holds (pre ++ rest) n s.type
      → s.i ≡ length pre
      → Chain lo rest
      → end ≤ ullong_max
      → length rest < fuel
      → length pre + length (fill end nid flags s.base rest) ≤ n
      → target ≡ pre ++ fill end nid flags s.base rest
      → Returns
          (λ s'. Holds target n s'.type)
          (pass_loop true end nid flags fuel s >>= remaining true end nid flags)
  pass_true zero s n end lo pre rest target h hi c e f m ht = absurd (omega arith)
  pass_true (suc fuel) s n end lo pre [] target h hi c e f m ht =
      rw (ht, loop-end true end nid flags fuel s (end-Holds pre h hi))
        (rw (fill-nil end nid flags s.base)
          (remaining-true s n end pre [] h hi e (rw (fill-nil end nid flags s.base) at m)))
  pass_true (suc fuel) s n end lo pre (r ∷ rest) target h hi c e f m ht =
      elim (leb-cases end r.base) [
        | inl (p, o) ↦
            rw
              (
                ht,
                loop-stop true end nid flags fuel s r (at-Holds pre rest h hi) o,
                fill-stop end nid flags s.base r rest o,
              )
              (remaining-true s n end pre (r ∷ rest) h hi e
                (rw (fill-stop end nid flags s.base r rest o) at m))
        | inr (p, o) ↦ elim (leb-cases (r.base + r.size) s.base) [
          | inl (q, u) ↦
              let step = fill-skip end nid flags s.base r rest o u in
              rw (loop-skip true end nid flags fuel s r (at-Holds pre rest h hi) o (omega arith)) (
                pass_true fuel (record s { i = s.i + 1 }) n end (r.base + r.size) (pre ++ r ∷ [])
                  rest target (rw (← append-snoc pre r rest) h) (omega (arith, length-snoc pre r))
                  c.3 e (omega arith) (omega (arith, length-snoc pre r, ap length step))
                  (ht ∙ rw step (append-snoc pre r (fill end nid flags s.base rest))))
          | inr (q, u) ↦
              let step = fill-meet end nid flags s.base r rest o u in
              let short = length-fill end nid flags (min (r.base + r.size) end) rest in
              let met = overlap-Met s n end pre r rest h hi c.2 (
                omega (
                  arith,
                  ap length step,
                  length-gap end nid flags s.base r.base
                      (r ∷ fill end nid flags (min (r.base + r.size) end) rest) (r ∷ rest),
                  short,
                )) in
              let joined : pre ++ fill end nid flags s.base (r ∷ rest)
                  ≡ met.behind ++ fill end nid flags met.after.base rest =
                rw (step, met.base)
                  (met.filled (fill end nid flags (min (r.base + r.size) end) rest)) in
              rw
                (
                  loop-meet true end nid flags fuel s r (at-Holds pre rest h hi) o (omega arith),
                  met.runs,
                )
                (pass_true fuel met.after n end (r.base + r.size) met.behind rest target met.holds
                  met.index c.3 e (omega arith)
                  (omega (
                    arith,
                    ap length joined,
                    length-append pre (fill end nid flags s.base (r ∷ rest)),
                    length-append met.behind (fill end nid flags met.after.base rest),
                  ))
                  (ht ∙ joined))
        ]
      ]
