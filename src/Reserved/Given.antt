-- ===== src/Reserved/Given.antt =====
-- What `early_init_dt_alloc_reserved_memory_arch` (mm/memblock.c) gives out.
use study_notes.Common.{
  ℕ, ◌+◌, ◌%◌, ◌^◌, ◌≤◌, ◌<◌, ◌≡◌, ◌≢◌, refl, Bool, true, false, ◌==◌, ◌⊎◌, inl, inr, Option,
  Bool-cases, Run, done, bug, spent, ◌∙◌, Returns, Returns-map, Returns->>=, arith,
}
use study_notes.Memblock.Region.{MemblockType}
use study_notes.Memblock.Api.{Memblock, Platform, alloc_base}
use study_notes.Memblock.Chain.{covers}
use study_notes.Memblock.Grow.{Grows}
use study_notes.Memblock.Alloc.{IsPlatform}
use study_notes.Reserved.Keeps.{Boot, Extends}
use study_notes.Reserved.Allocate.{alloc_reserved_arch}
use study_notes.Reserved.Took.{Took, alloc_base-Took}
use study_notes.Reserved.Spot.{Spot, alloc_base-Spot}
use study_notes.Reserved.Blocks.{Kept, take_block-Kept}

-- The block is memory that was free in `m` and is reserved in `m'`; it is aligned, and in its window.
pub record Given (m : Memblock) (size align : ℕ) (window : ℕ → Type 0) (m' : Memblock) (base : ℕ)
    : Type 0 where
  pub memory : (a : ℕ) → base ≤ a → a < base + size → covers a m.memory.regions ≡ true
  pub free : (a : ℕ) → base ≤ a → a < base + size → covers a m.reserved.regions ≡ false
  pub reserved : (a : ℕ) → base ≤ a → a < base + size → covers a m'.reserved.regions ≡ true
  pub aligned : (k : ℕ) → align ≡ 2 ^ k → base % 2 ^ k ≡ 0
  pub in_window : window base

-- An allocation for a later map is one for an earlier one.
pub Given-before :
    (m m1 m' : Memblock) (size align base : ℕ) (window : ℕ → Type 0)
    → Extends m m1
    → Given m1 size align window m' base
    → Given m size align window m' base
Given-before m m1 m' size align base window x g = record {
  memory = λ a l u. x.memory a (g.memory a l u);
  free = λ a l u. elim (Bool-cases (covers a m.reserved.regions)) [
    | inl e ↦ let still = x.reserved a e in let free = g.free a l u in cc
    | inr e ↦ e
  ];
  reserved = g.reserved;
  aligned = g.aligned;
  in_window = g.in_window;
}

-- It stays reserved.
pub Given-after :
    (m m1 m' : Memblock) (size align base : ℕ) (window : ℕ → Type 0)
    → Extends m1 m'
    → Given m size align window m1 base
    → Given m size align window m' base
Given-after m m1 m' size align base window x g = record {
  memory = g.memory;
  free = g.free;
  reserved = λ a l u. x.reserved a (g.reserved a l u);
  aligned = g.aligned;
  in_window = g.in_window;
}

pub Given-window :
    (m m' : Memblock) (size align base : ℕ) (v w : ℕ → Type 0)
    → (v base → w base)
    → Given m size align v m' base
    → Given m size align w m' base
Given-window m m' size align base v w f g = record {
  memory = g.memory;
  free = g.free;
  reserved = g.reserved;
  aligned = g.aligned;
  in_window = f g.in_window;
}

-- The map after an attempt, and `*res_base`: what it was, or what has been given out.
pub record Allotted (m : Memblock) (size align : ℕ) (window : ℕ → Type 0) (before : ℕ)
    (m' : Memblock) (base : ℕ) : Type 0 where
  pub extends : Extends m m'
  pub given : (base ≡ before) ⊎ (0 < size → Given m size align window m' base)

-- The window of one attempt, without an end if `end` is 0.
abbrev pub Between : ℕ → ℕ → ℕ → ℕ → Type 0
Between size start end base = (start ≤ base) × (end ≢ 0 → base + size ≤ end)

Returns-both :
    {A : Type 0} (P Q : A → Type 0) (m : Run A)
    → Returns P m
    → Returns Q m
    → Returns (λ a. P a × Q a) m
Returns-both P Q (done a) p q = (p, q)
Returns-both P Q bug p q = absurd p
Returns-both P Q spent p q = absurd p

module _ (p : Platform) (law : IsPlatform p)
    (double_array : MemblockType → ℕ → ℕ → Option MemblockType) (grows : Grows double_array) where
  alloc_base-Both :
      (m : Memblock) (size align end : ℕ)
      → Boot m
      → Returns
          (λ out. Took p law m size out × (0 < size → out.1 ≢ 0 → Spot m size align end out.1))
          (alloc_base p double_array m size align end)
  alloc_base-Both m size align end b =
      Returns-both (Took p law m size)
        (λ (out : Memblock × ℕ). 0 < size → out.1 ≢ 0 → Spot m size align end out.1) _
        (alloc_base-Took p law double_array grows m size align end b)
        (elim (Bool-cases (size == 0)) [
          | inl e ↦
              Returns-map (Took p law m size) _ _ (λ out t q. absurd (ground arith))
                (alloc_base-Took p law double_array grows m size align end b)
          | inr e ↦
              Returns-map (λ (out : Memblock × ℕ). out.1 ≢ 0 → Spot m size align end out.1) _ _
                (λ out s q n. s n)
                (alloc_base-Spot p law double_array grows m size align end b (ground arith))
        ])

  pub alloc_reserved_arch-Allotted :
      (m : Memblock) (size align start end : ℕ) (nomap : Bool) (before : ℕ)
      → Boot m
      → Returns
          (λ o. Allotted m size align (Between size start end) before o.0 o.1)
          (alloc_reserved_arch p double_array m size align start end nomap before)
  unfolding alloc_reserved_arch
  alloc_reserved_arch-Allotted m size align start end nomap before b =
      Returns->>=
        (λ out. Took p law m size out × (0 < size → out.1 ≢ 0 → Spot m size align end out.1)) _ _ _
        (alloc_base-Both m size align end b)
        λ out (k, spot). elim (Bool-cases (out.1 == 0)) [
          | inl e ↦ rw e (record { extends = k.extends; given = inl refl })
          | inr e ↦
              let n : out.1 ≢ 0 = ground arith in
              rw e (
                Returns-map (Kept m start before out)
                  (λ o. Allotted m size align (Between size start end) before o.0 o.1) _
                  (λ o (x, or). record {
                    extends = x;
                    given = elim or [
                      | inl same ↦ inl same
                      | inr (same, low, after) ↦ inr (λ q.
                          let s = spot q n in
                          rw same (record {
                            memory = s.memory;
                            free = k.free n;
                            reserved = λ a l u. after.reserved a (k.covered n a ∙ ground arith);
                            aligned = s.aligned;
                            in_window = (low, s.window);
                          }))
                    ];
                  })
                  (take_block-Kept p law double_array grows m size start nomap before out b n k))
        ]
