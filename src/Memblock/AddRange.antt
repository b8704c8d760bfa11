-- ===== src/Memblock/AddRange.antt =====
-- `memblock_add_range` and its callers: what they leave in the array.
use study_notes.Common.{
  ℕ, suc, ◌+◌, ◌-◌, ◌≤◌, ◌<◌, ◌≡◌, refl, ap, ◌∙◌, List, [], ◌∷◌, true, ◌||◌, length, Option, inl,
  inr, Bool-cases, Returns, Returns->>=, done, ullong_max, add64, arith, min, ◌==◌, ◌>>=◌,
}
use study_notes.Memblock.Region.{Region, MemblockType, Code, success, enomem, cnt, cap_size}
use study_notes.Memblock.Add.{add_pass, add_passes, add_sized, add_range}
use study_notes.Memblock.Merge.{merge_regions}
use study_notes.Memblock.Chain.{
  IsValid, Shape, Shape-nil, Shape-Chain, Chain-Shape, Chain, covers, within,
}
use study_notes.Memblock.Entries.{Holds}
use study_notes.Memblock.Fill.{fill, fill-Chain, covers-fill, length-fill}
use study_notes.Memblock.MergeList.{IsMerged, merge, merge-Merges}
use study_notes.Memblock.MergeLoop.{merge_regions-Holds}
use study_notes.Memblock.Passes.{pass_true}
use study_notes.Memblock.Counting.{Counts, pass_false}
use study_notes.Memblock.Grow.{Grows, HasRoom, ensure_room-HasRoom, HasRoom-IsValid}

-- What `memblock_add_range` is to do with [base, end): either it succeeds, and exactly these addresses
-- are added, or it runs out of memory and keeps the entries. Either way the array stays in order.
pub record Added (t : MemblockType) (base end : ℕ) (out : MemblockType × Code) : Type 0 where
  pub valid : IsValid out.0
  pub covered :
      out.1 ≡ success → (a : ℕ) → covers a out.0.regions ≡ (within base end a || covers a t.regions)
  pub kept : out.1 ≡ enomem → out.0.regions ≡ t.regions
  pub merged : IsMerged t.regions → IsMerged out.0.regions

module _ (double_array : MemblockType → ℕ → ℕ → Option MemblockType)
    (grows : Grows double_array) where
  add_passes-Added :
      (t : MemblockType) (base end size nid flags : ℕ)
      → IsValid t
      → 0 < cnt t
      → Chain 0 t.regions
      → end ≤ ullong_max
      → Returns (Added t base end) (add_passes double_array t base end size nid flags)
  unfolding add_pass
  add_passes-Added t base end size nid flags v p c e =
      Returns->>= (Counts t 0 (cnt t) (length filled)) (Added t base end) _ _
        (pass_false nid flags (suc (cnt t)) _ end 0 [] t.regions refl refl c (omega arith))
        λ s counts.
          Returns->>= (HasRoom t s.nr_new) (Added t base end) _ _
            (ensure_room-HasRoom double_array grows (suc (cnt t + s.nr_new)) t s.nr_new base size
              (omega arith) (omega arith))
            λ (t', code) room. second t' code s.nr_new counts.1 room
    where
      filled : List Region
      filled = fill end nid flags base t.regions

      finish :
          (t'' : MemblockType) (n : ℕ)
          → length filled ≤ n
          → Holds (merge filled) n t''
          → Added t base end (t'', success)
      finish t'' n bound final =
          let m =
            merge-Merges filled (fill-Chain end nid flags base 0 t.regions (omega arith) e c) in
          record {
            valid = record {
              fits = rw (final.regions, final.room) (omega (arith, m.shorter));
              total = rw (final.regions) final.total;
              shape = rw final.regions (
                  Chain-Shape (merge filled)
                    (m.some_left (omega (arith, length-fill end nid flags base t.regions)))
                    m.chain);
            };
            covered =
                λ _ a. rw (final.regions, m.covered a) (covers-fill end nid flags a base t.regions);
            kept = λ h. cc;
            merged = λ _. rw final.regions m.merged;
          }

      second :
          (t' : MemblockType) (code : Code) (n : ℕ)
          → n + cnt t ≡ 0 + length filled
          → HasRoom t n (t', code)
          → Returns (Added t base end) (elim code [
            | enomem ↦ done (t', enomem)
            | success ↦ add_pass true end nid flags t' base >>= λ s'.
                merge_regions s'.type >>= λ t''. done (t'', success)
          ])
      second t' enomem n counted room = record {
        valid = HasRoom-IsValid v room;
        covered = λ h. cc;
        kept = λ _. room.regions;
        merged = λ m. rw room.regions m;
      }
      second t' success n counted room =
          let bound : length filled ≤ t'.max = omega (arith, room.enough refl) in
          Returns->>= (λ s'. Holds filled t'.max s'.type) (Added t base end) _ _
            (pass_true nid flags (suc (cnt t')) _ t'.max end 0 [] t'.regions filled
              (record {
                regions = refl;
                room = refl;
                total = rw (room.regions, room.total) v.total;
              })
              refl (rw room.regions c) e (omega arith) (rw room.regions (omega arith))
              (rw room.regions refl))
            λ s' holds.
              Returns->>= (Holds (merge filled) t'.max) (Added t base end) _ _
                (merge_regions-Holds s'.type filled t'.max holds
                  (omega (arith, length-fill end nid flags base t.regions))
                  (fill-Chain end nid flags base 0 t.regions (omega arith) e c))
                λ t'' final. finish t'' t'.max bound final

  -- The entry for the empty array becomes the only region.
  add_first :
      (t : MemblockType) (base size nid flags : ℕ) (r : Region)
      → IsValid t
      → t.regions ≡ r ∷ []
      → r.size ≡ 0
      → 0 < size
      → base + size ≤ ullong_max
      → Added t base (base + size) (
        record t {
          total_size = size;
          regions = record { base = base; size = size; flags = flags; nid = nid } ∷ [];
        },
        success,
      )
  add_first t base size nid flags r v e z p b = record {
    valid = record {
      fits = omega (arith, v.fits, ap length e);
      total = omega arith;
      shape = inr (omega arith);
    };
    covered = λ _ a. rw (e, z) (ground arith);
    kept = λ h. cc;
    merged = λ _. (tt, tt);
  }

  add_sized-Added :
      (t : MemblockType) (base size nid flags : ℕ) (l : List Region)
      → IsValid t
      → t.regions ≡ l
      → 0 < size
      → base + size ≤ ullong_max
      → Returns
          (Added t base (base + size))
          (add_sized double_array l t base (base + size) size nid flags)
  add_sized-Added t base size nid flags [] v h p b = rw h at v.shape
  add_sized-Added t base size nid flags (r ∷ rs) v h p b = elim (Bool-cases (r.size == 0)) [
    | inl e ↦
        let z : r.size ≡ 0 = ground arith in
        let nil = Shape-nil r rs shape z in
        rw (e, nil) (add_first t base size nid flags r v (h ∙ rw nil) z p b)
    | inr e ↦ rw e (
        add_passes-Added t base (base + size) size nid flags v (omega (arith, ap length h))
          (rw h (Shape-Chain r rs shape (ground arith))) b)
  ]
    where
      shape : Shape (r ∷ rs)
      shape = rw h at v.shape

  -- `memblock_add_range` on an array in order, with a `base` that fits in 64 bits: where
  -- `memblock_double_array` only ever keeps the entries and adds room, it returns, so no `BUG_ON` is met
  -- and no loop runs on, and the array stays in order. If the code is 0, exactly the addresses of
  -- [base, base + size), cut off at ULLONG_MAX, have been added to those the array covers; if it is
  -- -ENOMEM, the entries are as before. No two neighbours can be merged afterwards if none could before.
  pub add_range-Added :
      (t : MemblockType) (base size nid flags : ℕ)
      → IsValid t
      → base ≤ ullong_max
      → Returns
          (Added t base (base + min size (ullong_max - base)))
          (add_range double_array t base size nid flags)
  unfolding add_range cap_size
  add_range-Added t base size nid flags v b =
      elim (Bool-cases (min size (ullong_max - base) == 0)) [
        | inl e ↦
            rw e (record {
              valid = v;
              covered = λ _ a. ground arith;
              kept = λ h. refl;
              merged = λ m. m;
            })
        | inr e ↦
            rw (e, end)
              (add_sized-Added t base (min size (ullong_max - base)) nid flags t.regions v refl
                (ground arith) (omega arith))
      ]
    where
      end : add64 base (min size (ullong_max - base)) ≡ base + min size (ullong_max - base)
      end = omega arith
