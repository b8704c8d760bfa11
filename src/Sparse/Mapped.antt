-- ===== src/Sparse/Mapped.antt =====
-- `vmemmap_populate` (mm/sparse_init.c): it ends, and which addresses it maps.
use study_notes.Common.{
  ℕ, zero, suc, ◌+◌, ◌-◌, ◌*◌, ◌/◌, ◌^◌, ◌≤◌, ◌<◌, ◌≡◌, ◌≢◌, ◌⊎◌, refl, ap, ◌∙◌, none, some, Option,
  ltb-cases, ◌==◌, Bool-cases, inl, inr, Returns, Returns-map, arith,
}
use study_notes.Memblock.Region.{Code, success, enomem}
use study_notes.Memblock.Chain.{IsValid}
use study_notes.Memblock.Api.{Memblock}
use study_notes.Sparse.Masks.{bit_or-ne_zero}
use study_notes.Sparse.Populate.{
  Paging, Mapping, populate_pmd, populate_one, populate_loop, vmemmap_populate,
}

-- What is documented of `pmd_addr_end`: the end of the block of `addr`, or `end` if that comes first.
abbrev pub Ends : Paging → Type 0
Ends g =
    (addr end : ℕ)
    → addr < end
    → (addr < g.pmd_addr_end addr end)
      × (g.pmd_addr_end addr end ≤ end)
      × (g.pmd_addr_end addr end ≤ (addr / 2 ^ 21 + 1) * 2 ^ 21)
      × ((g.pmd_addr_end addr end ≡ end) ⊎ (g.pmd_addr_end addr end ≡ (addr / 2 ^ 21 + 1) * 2 ^ 21))

-- The allocators keep `reserved` in order.
pub record Orderly (g : Paging) : Type 0 where
  pub pgd :
      (addr node : ℕ) (m m' : Memblock)
      → g.vmemmap_pgd_populate addr node m ≡ some m'
      → IsValid m.reserved
      → IsValid m'.reserved
  pub pud :
      (addr node : ℕ) (m m' : Memblock)
      → g.vmemmap_pud_populate addr node m ≡ some m'
      → IsValid m.reserved
      → IsValid m'.reserved
  pub block :
      (size node : ℕ) (m : Memblock)
      → IsValid m.reserved
      → IsValid (g.vmemmap_alloc_block_buf size node m).0.reserved

-- The entries of [start, end) are made where they are missing, and no other; all of them, if the code is 0.
pub record Populated (start end : ℕ) (t : Mapping) (out : Mapping × Code) : Type 0 where
  pub kept : (i : ℕ) → t.pmd i ≢ 0 → out.0.pmd i ≡ t.pmd i
  pub outside : (i : ℕ) → (i < start / 2 ^ 21) ⊎ (end ≤ i * 2 ^ 21) → out.0.pmd i ≡ t.pmd i
  pub mapped : out.1 ≡ success → (a : ℕ) → start ≤ a → a < end → out.0.pmd (a / 2 ^ 21) ≢ 0
  pub valid : IsValid t.memblock.reserved → IsValid out.0.memblock.reserved

module _ (g : Paging) (orderly : Orderly g) where
  record One (addr : ℕ) (t : Mapping) (out : Mapping × Code) : Type 0 where
    kept : (i : ℕ) → t.pmd i ≢ 0 → out.0.pmd i ≡ t.pmd i
    others : (i : ℕ) → i ≢ addr / 2 ^ 21 → out.0.pmd i ≡ t.pmd i
    there : out.1 ≡ success → out.0.pmd (addr / 2 ^ 21) ≢ 0
    valid : IsValid t.memblock.reserved → IsValid out.0.memblock.reserved

  populate_pmd-One : (addr node : ℕ) (t : Mapping) → One addr t (populate_pmd g addr node t)
  unfolding populate_pmd
  populate_pmd-One addr node t = record {
    kept = λ i h. ground arith;
    others = λ i h. ground arith;
    there = λ e. ground (
      arith,
      bit_or-ne_zero (g.vmemmap_alloc_block_buf (2 ^ 21) node t.memblock).1 g.prot_sect_normal,
    );
    valid = λ v. elim (Bool-cases (t.pmd (addr / 2 ^ 21) == 0)) [
      | inr e ↦ rw (e, populate_pmd) v
      | inl e ↦
          let kept = orderly.block (2 ^ 21) node t.memblock v in
          elim (Bool-cases ((g.vmemmap_alloc_block_buf (2 ^ 21) node t.memblock).1 == 0)) [
            | inl none_left ↦ rw (e, none_left, populate_pmd) kept
            | inr got ↦ rw (e, got, populate_pmd) kept
          ]
    ];
  }

  populate_one-One : (addr node : ℕ) (t : Mapping) → One addr t (populate_one g addr node t)
  unfolding populate_one
  populate_one-One addr node t = by_pgd (g.vmemmap_pgd_populate addr node t.memblock) refl
    where
      failed :
          (t' : Mapping)
          → t'.pmd ≡ t.pmd
          → (IsValid t.memblock.reserved → IsValid t'.memblock.reserved)
          → One addr t (t', enomem)
      failed t' e k = record {
        kept = λ i h. ap (λ f. f i) e;
        others = λ i h. ap (λ f. f i) e;
        there = λ x. cc;
        valid = k;
      }

      by_pgd :
          (r : Option Memblock)
          → g.vmemmap_pgd_populate addr node t.memblock ≡ r
          → One addr t (populate_one g addr node t)
      by_pgd none e = rw (e, populate_one) (failed t refl (λ v. v))
      by_pgd (some m) e = by_pud (g.vmemmap_pud_populate addr node m) refl
        where
          by_pud :
              (r : Option Memblock)
              → g.vmemmap_pud_populate addr node m ≡ r
              → One addr t (populate_one g addr node t)
          by_pud none e' =
              rw (e, e', populate_one)
                (failed (record t { memblock = m }) refl (orderly.pgd addr node t.memblock m e))
          by_pud (some m') e' =
              let o = populate_pmd-One addr node (record t { memblock = m' }) in
              rw (e, e', populate_one)
                (record {
                  kept = o.kept;
                  others = o.others;
                  there = o.there;
                  valid = λ v.
                      o.valid
                        (orderly.pud addr node m m' e' (orderly.pgd addr node t.memblock m e v));
                })

  module _ (ends : Ends g) where
    populate_loop-Populated :
        (fuel addr end node : ℕ) (t : Mapping)
        → addr < end
        → end ≤ fuel + addr
        → Returns (Populated addr end t) (populate_loop g fuel addr end node t)
    unfolding populate_loop
    populate_loop-Populated zero addr end node t h f = absurd (omega arith)
    populate_loop-Populated (suc fuel) addr end node t h f =
        by_code (populate_one g addr node t).1 refl
          λ n. populate_loop-Populated fuel next end node t' n (omega (arith, ends addr end h))
      where
        one : One addr t (populate_one g addr node t)
        one = populate_one-One addr node t

        t' : Mapping
        t' = (populate_one g addr node t).0

        next : ℕ
        next = g.pmd_addr_end addr end

        clear : (i : ℕ) → (i < addr / 2 ^ 21) ⊎ (end ≤ i * 2 ^ 21) → i ≢ addr / 2 ^ 21
        clear i o x = ground arith

        beyond :
            (i : ℕ)
            → (i < addr / 2 ^ 21) ⊎ (end ≤ i * 2 ^ 21)
            → (i < next / 2 ^ 21) ⊎ (end ≤ i * 2 ^ 21)
        beyond i (inl o) = inl (omega (arith, ends addr end h))
        beyond i (inr o) = inr o

        block : (a : ℕ) → addr ≤ a → a < next → a / 2 ^ 21 ≡ addr / 2 ^ 21
        block a lo hi = omega (arith, ends addr end h)

        by_code :
            (code : Code)
            → (populate_one g addr node t).1 ≡ code
            → (next < end → Returns (Populated next end t') (populate_loop g fuel next end node t'))
            → Returns (Populated addr end t) (populate_loop g (suc fuel) addr end node t)
        by_code enomem e rest =
            rw (e, populate_loop)
              (record {
                kept = one.kept;
                outside = λ i o. one.others i (clear i o);
                mapped = λ x. cc;
                valid = one.valid;
              })
        by_code success e rest = elim (Bool-cases (next == end)) [
          | inl last ↦
              rw (e, last, populate_loop)
                (record {
                  kept = one.kept;
                  outside = λ i o. one.others i (clear i o);
                  mapped =
                      λ x a lo hi. let same = block a lo (ground arith) in rw same (one.there e);
                  valid = one.valid;
                })
          | inr more ↦
              rw (e, more, populate_loop)
                (Returns-map (Populated next end t') (Populated addr end t) _
                  (λ out p. record {
                    kept = λ i k. p.kept i (rw (one.kept i k) k) ∙ one.kept i k;
                    outside = λ i o. p.outside i (beyond i o) ∙ one.others i (clear i o);
                    mapped = λ x a lo hi. elim (ltb-cases a next) [
                      | inl (y, near) ↦
                          rw (block a lo near)
                            (rw (← p.kept (addr / 2 ^ 21) (one.there e)) at (one.there e))
                      | inr (y, far) ↦ p.mapped x a far hi
                    ];
                    valid = λ v. p.valid (one.valid v);
                  })
                  (rest (ground (arith, ends addr end h))))
        ]

    -- `vmemmap_populate`, with a `pmd_addr_end` that gives the end of the block of an address or the end
    -- of the range, for a range that is not empty: it returns. An entry that was there is as before, and so
    -- is each one outside of the range. If it returns 0, then each address of the range is mapped.
    pub vmemmap_populate-Populated :
        (start end node : ℕ) (t : Mapping)
        → start < end
        → Returns (Populated start end t) (vmemmap_populate g start end node t)
    unfolding vmemmap_populate
    vmemmap_populate-Populated start end node t h =
        populate_loop-Populated (end - start) start end node t h (omega arith)
