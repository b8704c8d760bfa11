-- ===== src/Memblock/RemoveRange.antt =====
-- `memblock_remove_range`: what it leaves in the array.
use mathlib.Core.Path.{subst}
use study_notes.Common.{
  ℕ, suc, ◌+◌, ◌-◌, ◌≤◌, ◌<◌, ◌≡◌, refl, ap, ◌∙◌, min, [], ◌∷◌, not, ◌&&◌, inl, inr, length, Option,
  Run, done, ◌>>=◌, Returns, Returns->>=, Returns-map, Returns->>=->>=, Returns-assoc, Bool-cases,
  ◌==◌, ullong_max, add64, arith,
}
use study_notes.Memblock.Region.{Region, MemblockType, cnt, Code, success, enomem, cap_size, refill}
use study_notes.Memblock.Isolate.{
  Cut, isolate_loop, isolate_sized, isolate_range, remove_loop, remove_range,
}
use study_notes.Memblock.Chain.{IsValid, Shape-cases, Chain, Chain-sum, covers, within}
use study_notes.Memblock.Carve.{
  carve, carve-Chain, covers-carve, length-carve, carve-dummy, cuts-le,
}
use study_notes.Memblock.IsolateRounds.{Isolated}
use study_notes.Memblock.IsolateLoop.{isolate_loop-Isolated, isolate_loop_empty}
use study_notes.Memblock.RemoveLoop.{Leaves}
use study_notes.Memblock.Grow.{Grows, HasRoom, HasRoom-IsValid, ensure_room-HasRoom}
use study_notes.Memblock.Leaves.{Isolated-Leaves, Leaves-IsValid, covers-refill}

-- What `memblock_remove_range` is to do with [base, end): either it succeeds, and exactly these addresses
-- are taken out, or it runs out of memory and keeps the entries. Either way the array stays in order.
pub record Removed (t : MemblockType) (base end : ℕ) (out : MemblockType × Code) : Type 0 where
  pub valid : IsValid out.0
  pub covered :
      out.1 ≡ success
      → (a : ℕ) → covers a out.0.regions ≡ (not (within base end a) && covers a t.regions)
  pub kept : out.1 ≡ enomem → out.0.regions ≡ t.regions
  pub left : out.1 ≡ success → base < end → out.0.regions ≡ refill (carve base end t.regions)
  pub left_whole : end ≤ base → out.0.regions ≡ t.regions
  pub succeeds : cnt t + 2 ≤ t.max → out.1 ≡ success

-- The second half of the function, on what was isolated.
abbrev finish : Cut × Code → Run (MemblockType × Code)
finish (s, code) = elim code [
  | enomem ↦ done (s.type, enomem)
  | success ↦ done (remove_loop s.end_rgn s.start_rgn s.type, success)
]

-- A range of no size leaves the array alone.
unchanged-Removed :
    (t : MemblockType) (base : ℕ) → IsValid t → Removed t base (base + 0) (t, success)
unchanged-Removed t base v = record {
  valid = v;
  covered = λ _ a. ground arith;
  kept = λ h. cc;
  left = λ _ h. absurd (omega arith);
  left_whole = λ _. refl;
  succeeds = λ _. refl;
}

module _ (base end : ℕ) (ordered : base < end) (bounded : end ≤ ullong_max) (t : MemblockType)
    (v : IsValid t) where
  enomem-Removed : (t' : MemblockType) → HasRoom t 2 (t', enomem) → Removed t base end (t', enomem)
  enomem-Removed t' room = record {
    valid = HasRoom-IsValid v room;
    covered = λ h. cc;
    kept = λ _. room.regions;
    left = λ h. cc;
    left_whole = λ h. absurd (omega arith);
    succeeds = room.succeeds;
  }

  Leaves-Removed :
      (n : ℕ) (t' : MemblockType)
      → Chain 0 t.regions
      → cnt t + 2 ≤ n
      → Leaves (carve base end t.regions) n t'
      → Removed t base end (t', success)
  Leaves-Removed n t' c room h = record {
    valid =
        Leaves-IsValid (carve base end t.regions) n t' h
          (carve-Chain base end 0 t.regions c (omega arith))
          (omega (arith, length-carve base end t.regions)) (omega arith);
    covered = λ _ a.
        rw (h.regions, covers-refill a (carve base end t.regions))
          (covers-carve base end a 0 t.regions c);
    kept = λ h. cc;
    left = λ _ _. h.regions;
    left_whole = λ h. absurd (omega arith);
    succeeds = λ _. refl;
  }

  empty-Removed :
      (t' : MemblockType) (r : Region)
      → t.regions ≡ r ∷ []
      → r.base ≡ 0
      → r.size ≡ 0
      → HasRoom t 2 (t', success)
      → Removed t base end (remove_loop 0 0 t', success)
  unfolding remove_loop
  empty-Removed t' r e b z room = record {
    valid = HasRoom-IsValid v room;
    covered = λ _ a. rw (room.regions, e) (ground arith);
    kept = λ h. cc;
    left = λ _ _. rw (room.regions, e, carve-dummy base end r (omega arith) b z) refl;
    left_whole = λ h. absurd (omega arith);
    succeeds = λ _. refl;
  }

  -- From an array with room for two more entries on.
  isolated-Removed :
      (t' : MemblockType)
      → HasRoom t 2 (t', success)
      → Returns (Removed t base end) (
          isolate_loop base end
            (suc (cnt t' + 4))
            (record { type = t'; i = 0; start_rgn = 0; end_rgn = 0 })
          >>= λ s. finish (s, success))
  isolated-Removed t' room = elim (Shape-cases t.regions v.shape) [
    | inl (r, e, b, z) ↦
        let fuel : cnt t' + 4 ≡ suc (cnt t' + 3) = omega arith in
        rw
          (
            fuel,
            isolate_loop_empty base end (cnt t' + 3)
                (record { type = t'; i = 0; start_rgn = 0; end_rgn = 0 }) r (omega arith)
                (room.regions ∙ e) refl b z,
          )
          (empty-Removed t' r e b z room)
    | inr (c, p) ↦
        Returns->>= (Isolated t'.max (carve base end t.regions)) (Removed t base end) _ _
          (isolate_loop-Isolated base end ordered bounded (suc (cnt t' + 4)) _ t'.max 0 [] []
            t'.regions (carve base end t.regions)
            (record { regions = refl; room = refl; total = rw (room.regions, room.total) v.total })
            (
              omega (arith, ap length room.regions),
              rw room.regions (omega (arith, Chain-sum 0 t.regions c)),
            )
            refl (inl (refl, refl, refl)) (rw room.regions c) (inl refl)
            (rw room.regions (omega (arith, cuts-le base end 0 t.regions c)))
            (rw room.regions (omega (arith, cuts-le base end 0 t.regions c, room.enough refl)))
            (rw room.regions refl))
          λ s h.
            Leaves-Removed t'.max _ c (room.enough refl)
              (Isolated-Leaves t'.max (carve base end t.regions) s h)
  ]

module _ (double_array : MemblockType → ℕ → ℕ → Option MemblockType)
    (grows : Grows double_array) where
  isolate_sized-Removed :
      (t : MemblockType) (base end size : ℕ)
      → base < end
      → end ≤ ullong_max
      → IsValid t
      → Returns (Removed t base end) (isolate_sized double_array t base end size >>= finish)
  isolate_sized-Removed t base end size o b v =
      Returns->>=->>= (HasRoom t 2) (Removed t base end) _ _ finish
        (ensure_room-HasRoom double_array grows (suc (cnt t + 2)) t 2 base size (omega arith)
          (omega arith))
        λ (t', code). by_code t' code
    where
      by_code :
          (t' : MemblockType) (code : Code)
          → HasRoom t 2 (t', code)
          → Returns (Removed t base end) (
              (elim code [
                | enomem ↦ done (record { type = t'; i = 0; start_rgn = 0; end_rgn = 0 }, enomem)
                | success ↦
                    isolate_loop base end
                      (suc (cnt t' + 4))
                      (record { type = t'; i = 0; start_rgn = 0; end_rgn = 0 })
                    >>= λ s. done (s, success)
              ])
              >>= finish)
      by_code t' enomem room = enomem-Removed base end o b t v t' room
      by_code t' success room =
          Returns-assoc (Removed t base end)
            (isolate_loop base end (suc (cnt t' + 4))
              (record { type = t'; i = 0; start_rgn = 0; end_rgn = 0 }))
            (λ s. done (s, success)) finish (isolated-Removed base end o b t v t' room)

  -- `memblock_remove_range` on an array in order, with a `base` that fits in 64 bits: where
  -- `memblock_double_array` only ever keeps the entries and adds room, it returns, so no `BUG_ON` is met
  -- and no loop runs on, and the array stays in order. If the code is 0, exactly the addresses of
  -- [base, base + size), cut off at ULLONG_MAX, have been taken from those the array covers; if it is
  -- -ENOMEM, the entries are as before. It is 0 where the array has room for two more entries.
  pub remove_range-Removed :
      (t : MemblockType) (base size : ℕ)
      → IsValid t
      → base ≤ ullong_max
      → Returns
          (Removed t base (base + min size (ullong_max - base)))
          (remove_range double_array t base size)
  unfolding remove_range isolate_range cap_size remove_loop
  remove_range-Removed t base size v b = elim (Bool-cases (min size (ullong_max - base) == 0)) [
    | inl e ↦
        let z : min size (ullong_max - base) ≡ 0 = ground arith in rw z (unchanged-Removed t base v)
    | inr e ↦ rw e (
        Returns-map (Removed t base (add64 base (cap_size base size)))
          (Removed t base (base + min size (ullong_max - base)))
          (isolate_sized double_array t base (add64 base (cap_size base size)) (cap_size base size)
            >>= finish)
          (λ out h. subst (λ x. Removed t base x out) sum h)
          (isolate_sized-Removed t base (add64 base (cap_size base size)) (cap_size base size)
            (ground arith) (omega arith) v))
  ]
    where
      sum : add64 base (cap_size base size) ≡ base + min size (ullong_max - base)
      sum = omega arith
