-- ===== src/Reserved/Took.antt =====
-- A block that early boot allocates for the device tree, whatever its size and alignment.
use study_notes.Common.{
  ℕ, ◌+◌, ◌-◌, ◌≤◌, ◌<◌, ◌≡◌, ◌≢◌, refl, min, false, ◌||◌, ◌==◌, inl, inr, Option, ullong_max,
  Bool-cases, done, Returns, Returns->>=->>=, if◌then◌else◌, arith,
}
use study_notes.Memblock.Region.{MemblockType, Code, success, enomem, cap_size}
use study_notes.Memblock.Add.{add_range}
use study_notes.Memblock.Api.{
  Memblock, Platform, find_in_range_node, memblock_reserve, alloc_aligned, alloc_range_nid,
  alloc_base,
}
use study_notes.Memblock.Chain.{covers, within}
use study_notes.Memblock.Grow.{Grows}
use study_notes.Memblock.AddRange.{Added, add_range-Added}
use study_notes.Memblock.Alloc.{IsPlatform}
use study_notes.Reserved.Keeps.{Boot, Extends, Extends-refl}
use study_notes.Reserved.Spot.{find_range_top_down-Block}
use study_notes.Reserved.Tree.{enomem}

module _ (p : Platform) (law : IsPlatform p) where
  -- What an allocation has done, by the address it returns.
  pub record Took (m : Memblock) (size : ℕ) (out : Memblock × ℕ) : Type 0 where
    pub extends : Extends m out.0
    pub memory : out.0.memory ≡ m.memory
    pub free :
        out.1 ≢ 0 → (a : ℕ) → out.1 ≤ a → a < out.1 + size → covers a m.reserved.regions ≡ false
    pub covered :
        out.1 ≢ 0
        → (a : ℕ)
        → covers a out.0.reserved.regions
          ≡ (within out.1 (out.1 + size) a || covers a m.reserved.regions)
    pub bound : out.1 ≢ 0 → 0 < size → out.1 + size ≤ ullong_max

  module _ (double_array : MemblockType → ℕ → ℕ → Option MemblockType)
      (grows : Grows double_array) where
    -- Nothing is done about an area of size 0.
    add_range-zero :
        (t : MemblockType) (base nid flags : ℕ)
        → add_range double_array t base 0 nid flags ≡ done (t, success)
    unfolding add_range cap_size
    add_range-zero t base nid flags =
        let z : min 0 (ullong_max - base) ≡ 0 = omega arith in rw z refl

    taken :
        (m : Memblock) (size found : ℕ) (t : MemblockType) (code : Code)
        → Boot m
        → 0 < size
        → found + size ≤ ullong_max
        → ((a : ℕ) → found ≤ a → a < found + size → covers a m.reserved.regions ≡ false)
        → Added m.reserved found (found + min size (ullong_max - found)) (t, code)
        → Took m size (record m { reserved = t }, elim code [ success ↦ found | enomem ↦ 0 ])
    taken m size found t success b q h free k =
        let whole : min size (ullong_max - found) ≡ size = omega arith in
        record {
          extends = record {
            boot = record { memory = b.memory; reserved = k.valid; limit = b.limit };
            reserved = λ a c. rw (k.covered refl a, c) (ground arith);
            memory = λ a c. c;
          };
          memory = refl;
          free = λ _. free;
          covered = λ _ a. rw whole at (k.covered refl a);
          bound = λ _ _. h;
        }
    taken m size found t Code.enomem b q h free k = record {
      extends = record {
        boot = record { memory = b.memory; reserved = k.valid; limit = b.limit };
        reserved = λ a c. rw (k.kept refl) c;
        memory = λ a c. c;
      };
      memory = refl;
      free = λ n. absurd (n refl);
      covered = λ n. absurd (n refl);
      bound = λ n. absurd (n refl);
    }

    alloc_aligned-Took :
        (m : Memblock) (size align start end nid : ℕ)
        → Boot m
        → Returns (Took m size) (alloc_aligned p double_array m size align start end nid)
    unfolding alloc_aligned memblock_reserve find_in_range_node
    alloc_aligned-Took m size align start end nid b = elim (Bool-cases (found == 0)) [
      | inl e ↦ rw e (record {
        extends = Extends-refl m b;
        memory = refl;
        free = λ n. absurd (n refl);
        covered = λ n. absurd (n refl);
        bound = λ n. absurd (n refl);
      })
      | inr e ↦ elim (Bool-cases (size == 0)) [
        | inl z ↦
            let zero : size ≡ 0 = ground arith in
            rw (e, zero, add_range-zero)
              (record {
                extends = Extends-refl m b;
                memory = refl;
                free = λ n a x y. absurd (omega arith);
                covered = λ n a. ground arith;
                bound = λ n x. absurd (omega arith);
              })
        | inr z ↦
            let block =
              find_range_top_down-Block p law (p.free_ranges m.memory m.reserved nid) _ _ size align
                found (omega arith) (ground arith) refl (ground arith) in
            let (bound, free) =
              law.free m.memory m.reserved nid found (found + size) block.inside in
            rw e (
              Returns->>=->>= (Added m.reserved found (found + min size (ullong_max - found))) _ _ _
                _
                (add_range-Added double_array grows m.reserved found size _ _ b.reserved
                  (omega arith))
                λ (t, code) k.
                  taken m size found t code b (ground arith) bound (λ a x y. (free a x y).1) k)
      ]
    ]
      where
        found : ℕ
        found = find_in_range_node p m size align start end nid

    pub alloc_base-Took :
        (m : Memblock) (size align max_addr : ℕ)
        → Boot m
        → Returns (Took m size) (alloc_base p double_array m size align max_addr)
    unfolding alloc_base alloc_range_nid
    alloc_base-Took m size align max_addr b =
        alloc_aligned-Took m size (if align == 0 then p.smp_cache_bytes else align) 0 max_addr
          p.numa_no_node b
