-- ===== src/Reserved/Blocks.antt =====
-- The blocks of the device tree that are given back or removed from memory.
use study_notes.Common.{
  ℕ, ◌+◌, ◌-◌, ◌<◌, ◌≡◌, ◌≢◌, refl, min, Bool, true, false, ◌==◌, inl, inr, ◌⊎◌, ◌≤◌, Option,
  ullong_max, ltb-cases, Bool-cases, done, Returns, Returns->>=, arith,
}
use study_notes.Memblock.Region.{MemblockType, Code, success, cap_size}
use study_notes.Memblock.Isolate.{isolate_range, remove_range, remove_loop}
use study_notes.Memblock.Api.{Memblock, Platform, memblock_remove, memblock_free}
use study_notes.Memblock.Chain.{covers, within}
use study_notes.Memblock.Grow.{Grows}
use study_notes.Memblock.RemoveRange.{Removed, remove_range-Removed}
use study_notes.Memblock.Alloc.{IsPlatform}
use study_notes.Reserved.Keeps.{Boot, Extends, Extends-refl, Extends-trans, remove-Extends}
use study_notes.Reserved.Tree.{Errno}
use study_notes.Reserved.Allocate.{take_block}
use study_notes.Reserved.Took.{Took}

-- The map, and what stands in `*res_base` then: what it was, or the block, which is still reserved.
abbrev pub Kept : Memblock → ℕ → ℕ → Memblock × ℕ → Memblock × ℕ × Errno → Type 0
Kept m start res_base out o =
    Extends m o.0 × ((o.1 ≡ res_base) ⊎ ((o.1 ≡ out.1) × (start ≤ out.1) × Extends out.0 o.0))

module _ (p : Platform) (law : IsPlatform p) where
  module _ (double_array : MemblockType → ℕ → ℕ → Option MemblockType)
      (grows : Grows double_array) where
    remove_range-zero :
        (t : MemblockType) (base : ℕ) → remove_range double_array t base 0 ≡ done (t, success)
    unfolding remove_range isolate_range cap_size remove_loop
    remove_range-zero t base = let z : min 0 (ullong_max - base) ≡ 0 = omega arith in rw z refl

    -- Freeing a block that was taken leaves what was reserved before.
    freed-Extends :
        (m : Memblock) (size : ℕ) (out : Memblock × ℕ) (t : MemblockType) (code : Code)
        → Boot m
        → out.1 ≢ 0
        → 0 < size
        → Took p law m size out
        → Removed out.0.reserved out.1 (out.1 + min size (ullong_max - out.1)) (t, code)
        → Extends m (record (out.0) { reserved = t })
    freed-Extends m size out t code b n q k r =
        let whole : min size (ullong_max - out.1) ≡ size = omega (arith, k.bound n q) in
        record {
          boot = record {
            memory = k.extends.boot.memory;
            reserved = r.valid;
            limit = k.extends.boot.limit;
          };
          reserved = λ a c. still code refl whole a c;
          memory = λ a c. k.extends.memory a c;
        }
      where
        apart : (a : ℕ) → covers a m.reserved.regions ≡ true → within out.1 (out.1 + size) a ≡ false
        apart a c = elim (Bool-cases (within out.1 (out.1 + size) a)) [
          | inl w ↦
              let x : covers a m.reserved.regions ≡ false =
                k.free n a (ground arith) (ground arith) in
              cc
          | inr w ↦ w
        ]

        still :
            (code' : Code)
            → code ≡ code'
            → min size (ullong_max - out.1) ≡ size
            → (a : ℕ) → covers a m.reserved.regions ≡ true
            → covers a t.regions ≡ true
        still success e whole a c = rw (r.covered e a, whole, k.covered n a, c, apart a c) refl
        still Code.enomem e whole a c = rw (r.kept e) (k.extends.reserved a c)

    free-Extends :
        (m : Memblock) (size : ℕ) (out : Memblock × ℕ)
        → Boot m
        → out.1 ≢ 0
        → Took p law m size out
        → Returns (λ o. Extends m o.0) (memblock_free double_array (out.0) out.1 size)
    unfolding memblock_free
    free-Extends m size out b n k = elim (Bool-cases (size == 0)) [
      | inl z ↦ let zero : size ≡ 0 = ground arith in rw (zero, remove_range-zero) k.extends
      | inr z ↦
          Returns->>= (Removed out.0.reserved out.1 (out.1 + min size (ullong_max - out.1))) _ _ _
            (remove_range-Removed double_array grows out.0.reserved out.1 size
              k.extends.boot.reserved (omega (arith, k.bound n (ground arith))))
            λ (t, code) r. freed-Extends m size out t code b n (ground arith) k r
    ]

    remove_zero :
        (m : Memblock) (base : ℕ) → memblock_remove double_array m base 0 ≡ done (m, success)
    unfolding memblock_remove
    remove_zero m base = rw (remove_range-zero m.memory base) refl

    pub take_block-Kept :
        (m : Memblock) (size start : ℕ) (nomap : Bool) (res_base : ℕ) (out : Memblock × ℕ)
        → Boot m
        → out.1 ≢ 0
        → Took p law m size out
        → Returns
            (Kept m start res_base out)
            (take_block p double_array (out.0) size start nomap res_base out.1)
    unfolding take_block
    take_block-Kept m size start nomap res_base out b n k = elim (ltb-cases out.1 start) [
      | inl (e, _) ↦ rw e (
          Returns->>= (λ o. Extends m o.0) _ _ _ (free-Extends m size out b n k)
            λ o x. (x, inl refl))
      | inr (e, low) ↦
          let same = Extends-refl out.0 k.extends.boot in
          elim (Bool-cases nomap) [
            | inr f ↦ rw (e, f) (k.extends, inr (refl, low, same))
            | inl f ↦ elim (Bool-cases (size == 0)) [
              | inl z ↦
                  let zero : size ≡ 0 = ground arith in
                  rw (e, f, zero, remove_zero out.0 out.1) (k.extends, inr (refl, low, same))
              | inr z ↦
                  rw (e, f)
                    (Returns->>= (λ o. Extends out.0 o.0) _ _ _
                      (remove-Extends double_array grows out.0 out.1 size k.extends.boot
                        (omega (arith, k.bound n (ground arith))))
                      λ o x. (Extends-trans m out.0 o.0 k.extends x, inr (refl, low, x)))
            ]
          ]
    ]
