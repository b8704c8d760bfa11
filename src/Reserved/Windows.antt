-- ===== src/Reserved/Windows.antt =====
-- The windows that a node of the device tree allows, and the allocation in one of them.
use study_notes.Common.{
  ℕ, zero, suc, ◌%◌, ◌<◌, ◌≡◌, refl, List, [], ◌∷◌, ◌⊎◌, ◌∙◌, ◌-◌, add64, Bool, ◌==◌, inl, inr,
  Option, none, some, Bool-cases, Returns, Returns-map, Returns->>=, if◌then◌else◌, arith,
}
use study_notes.Memblock.Region.{MemblockType}
use study_notes.Memblock.Api.{Memblock, Platform}
use study_notes.Memblock.Grow.{Grows}
use study_notes.Memblock.Alloc.{IsPlatform}
use study_notes.Reserved.Keeps.{Boot, Extends-refl, Extends-trans}
use study_notes.Reserved.Given.{
  Given-before, Given-after, Given-window, Between, Allotted, alloc_reserved_arch-Allotted,
}
use study_notes.Reserved.Tree.{alloc_ranges, Property, Fdt}
use study_notes.Reserved.Reserve.{t_len}
use study_notes.Reserved.Allocate.{is_ok, alloc_loop, alloc_anywhere}

-- The windows of `alloc-ranges`, an address and a length each, with their ends wrapped around.
abbrev windows : Fdt → ℕ → ℕ → List ℕ → List (ℕ × ℕ)
windows fdt zero len prop = []
windows fdt (suc fuel) len prop =
    let (start, prop') = fdt.next_cell fdt.root_addr_cells prop in
    let (room, prop'') = fdt.next_cell fdt.root_size_cells prop' in
    let rest = windows fdt fuel (len - t_len fdt) prop'' in
    if len == 0 then [] else (start, add64 start room) ∷ rest

-- The block lies in one of the windows.
abbrev pub InWindow : ℕ → List (ℕ × ℕ) → ℕ → Type 0
InWindow size [] base = ⊥
InWindow size ((start, end) ∷ ws) base = Between size start end base ⊎ InWindow size ws base

abbrev pub Fits : Fdt → ℕ → Option Property → ℕ → Type 0
Fits fdt size none base = Unit {0}
Fits fdt size (some r) base = InWindow size (windows fdt (suc r.len) r.len r.cells) base

module _ (p : Platform) (law : IsPlatform p)
    (double_array : MemblockType → ℕ → ℕ → Option MemblockType) (grows : Grows double_array)
    (fdt : Fdt) (wide : 0 < t_len fdt) where
  -- An attempt that failed, and the attempts after it.
  later-Allotted :
      (m m1 m2 : Memblock) (size align start end before base base' : ℕ) (ws : List (ℕ × ℕ))
      → Allotted m size align (Between size start end) before m1 base
      → Allotted m1 size align (InWindow size ws) base m2 base'
      → Allotted m size align (InWindow size ((start, end) ∷ ws)) before m2 base'
  later-Allotted m m1 m2 size align start end before base base' ws x y = record {
    extends = Extends-trans m m1 m2 x.extends y.extends;
    given = elim y.given [
      | inr g ↦ inr (λ q.
          Given-window m m2 size align base' (InWindow size ws) (InWindow size ((start, end) ∷ ws))
            (λ w. inr w) (Given-before m m1 m2 size align base' (InWindow size ws) x.extends (g q)))
      | inl e ↦ elim x.given [
        | inl e' ↦ inl (e ∙ e')
        | inr g ↦ inr (λ q. rw e (
            Given-window m m2 size align base (Between size start end)
              (InWindow size ((start, end) ∷ ws)) (λ w. inl w)
              (Given-after m m1 m2 size align base (Between size start end) y.extends (g q))))
      ]
    ];
  }

  first-Allotted :
      (m m1 : Memblock) (size align start end before base : ℕ) (ws : List (ℕ × ℕ))
      → Allotted m size align (Between size start end) before m1 base
      → Allotted m size align (InWindow size ((start, end) ∷ ws)) before m1 base
  first-Allotted m m1 size align start end before base ws x = record {
    extends = x.extends;
    given = elim x.given [
      | inl e ↦ inl e
      | inr g ↦ inr (λ q.
          Given-window m m1 size align base (Between size start end)
            (InWindow size ((start, end) ∷ ws)) (λ w. inl w) (g q))
    ];
  }

  -- A multiple of `t_len` is used up in as many rounds.
  alloc_loop-Allotted :
      (fuel size align : ℕ) (nomap : Bool) (len : ℕ) (prop : List ℕ) (m : Memblock) (base : ℕ)
      → Boot m
      → len < fuel
      → Returns
          (λ o. Allotted m size align (InWindow size (windows fdt fuel len prop)) base o.0 o.1)
          (alloc_loop p double_array fdt fuel size align nomap len prop m base)
  unfolding alloc_loop
  alloc_loop-Allotted zero size align nomap len prop m base b f = absurd (omega arith)
  alloc_loop-Allotted (suc fuel) size align nomap len prop m base b f =
      elim (Bool-cases (len == 0)) [
        | inl e ↦ rw (e, alloc_loop) (record { extends = Extends-refl m b; given = inl refl })
        | inr e ↦
            let start = (fdt.next_cell fdt.root_addr_cells prop).0 in
            let prop' = (fdt.next_cell fdt.root_addr_cells prop).1 in
            let end = add64 start (fdt.next_cell fdt.root_size_cells prop').0 in
            let prop'' = (fdt.next_cell fdt.root_size_cells prop').1 in
            let ws = windows fdt fuel (len - t_len fdt) prop'' in
            rw (e, alloc_loop)
              (Returns->>= (λ o. Allotted m size align (Between size start end) base o.0 o.1)
                (λ (o : Memblock × ℕ).
                  Allotted m size align (InWindow size ((start, end) ∷ ws)) base o.0 o.1)
                _ _
                (alloc_reserved_arch-Allotted p law double_array grows m size align start end nomap
                  base b)
                λ o x. elim (Bool-cases (is_ok o.2)) [
                  | inl y ↦ rw y (first-Allotted m o.0 size align start end base o.1 ws x)
                  | inr y ↦ rw y (
                      Returns-map (λ o'. Allotted o.0 size align (InWindow size ws) o.1 o'.0 o'.1) _
                        _
                        (λ o' x'.
                          later-Allotted m o.0 o'.0 size align start end base o.1 o'.1 ws x x')
                        (alloc_loop-Allotted fuel size align nomap _ _ o.0 o.1 x.extends.boot
                          (ground arith)))
                ])
      ]

  -- The allocation, where it was tried.
  abbrev pub Tried : Memblock → ℕ → ℕ → Option Property → Option (Memblock × ℕ) → Type 0
  Tried m size align ranges none = Unit {0}
  Tried m size align ranges (some o) = Allotted m size align (Fits fdt size ranges) 0 o.0 o.1

  anywhere-Allotted :
      (m m1 : Memblock) (size align base : ℕ)
      → Allotted m size align (Between size 0 0) 0 m1 base
      → Allotted m size align (Fits fdt size none) 0 m1 base
  anywhere-Allotted m m1 size align base x = record {
    extends = x.extends;
    given = elim x.given [
      | inl e ↦ inl e
      | inr g ↦ inr (λ q.
          Given-window m m1 size align base (Between size 0 0) (Fits fdt size none) (λ w. tt) (g q))
    ];
  }

  pub alloc_anywhere-Tried :
      (node size align : ℕ) (nomap : Bool) (m : Memblock)
      → Boot m
      → Returns
          (Tried m size align (fdt.get_prop node alloc_ranges))
          (alloc_anywhere p double_array fdt node size align nomap m)
  unfolding alloc_anywhere
  alloc_anywhere-Tried node size align nomap m b = by_prop (fdt.get_prop node alloc_ranges) refl
    where
      by_prop :
          (found : Option Property)
          → fdt.get_prop node alloc_ranges ≡ found
          → Returns
              (Tried m size align found)
              (alloc_anywhere p double_array fdt node size align nomap m)
      by_prop none e =
          rw (e, alloc_anywhere)
            (Returns->>= (λ o. Allotted m size align (Between size 0 0) 0 o.0 o.1) _ _ _
              (alloc_reserved_arch-Allotted p law double_array grows m size align 0 0 nomap 0 b)
              λ o x. anywhere-Allotted m o.0 size align o.1 x)
      by_prop (some r) e = elim (Bool-cases (r.len % t_len fdt == 0)) [
        | inl y ↦
            rw (e, y, alloc_anywhere)
              (Returns->>=
                (λ o.
                  Allotted m size align (InWindow size (windows fdt (suc r.len) r.len r.cells)) 0
                    o.0 o.1)
                _ _ _
                (alloc_loop-Allotted (suc r.len) size align nomap r.len r.cells m 0 b (omega arith))
                λ o x. x)
        | inr y ↦ rw (e, y, alloc_anywhere) tt
      ]
