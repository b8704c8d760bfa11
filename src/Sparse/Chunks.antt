-- ===== src/Sparse/Chunks.antt =====
-- `alloc_usemap_and_memmap` (mm/sparse_init.c) against a plain reading of it: the present sections in
-- groups of neighbours of one node, and one call of the callback for each group.
use mathlib.Core.Path.{fun_ext}
use study_notes.Common.{
  ℕ, zero, suc, ◌+◌, ◌-◌, ◌≡◌, refl, sym, ap, ◌∙◌, List, [], ◌∷◌, true, false, ◌==◌, if◌then◌else◌,
  Bool-cases, inl, inr, Run, done, bug, spent, ◌>>=◌, arith,
}
use study_notes.Sparse.Section.{Sparse, present_section_nr}
use study_notes.Sparse.Usemap.{nid_of, first_present, chunk_loop, alloc_usemap_and_memmap}

-- The present ones among `n` sections from `pnum` on, with their nodes.
abbrev pub places : Sparse → ℕ → ℕ → List (ℕ × ℕ)
places s zero pnum = []
places s (suc n) pnum =
    let rest = places s n (pnum + 1) in
    if present_section_nr s pnum then (pnum, nid_of s pnum) ∷ rest else rest

-- A call of the callback.
pub record Chunk : Type 0 where
  pub begin : ℕ
  pub end : ℕ
  pub count : ℕ
  pub nid : ℕ

-- A group that goes on with the first of `cs` if that is of its node, and ends where it begins if not.
abbrev pub group : ℕ → ℕ → ℕ → ℕ → List Chunk → List Chunk
group last begin count nid [] = record { begin = begin; end = last; count = count; nid = nid } ∷ []
group last begin count nid (c ∷ cs) =
    if c.nid == nid
    then record { begin = begin; end = c.end; count = count + c.count; nid = nid } ∷ cs
    else record { begin = begin; end = c.begin; count = count; nid = nid } ∷ c ∷ cs

abbrev pub chunks : ℕ → List (ℕ × ℕ) → List Chunk
chunks last [] = []
chunks last ((pnum, nid) ∷ rest) = group last pnum 1 nid (chunks last rest)

module _ {D : Type 0} (alloc_func : ℕ → ℕ → ℕ → ℕ → D → Run D) where
  abbrev pub run_chunks : List Chunk → D → Run D
  run_chunks [] d = done d
  run_chunks (c ∷ cs) d = alloc_func c.begin c.end c.count c.nid d >>= run_chunks cs

group-join_same :
    (last begin count nid pnum nid' : ℕ) (cs : List Chunk)
    → (nid' == nid) ≡ true
    → group last begin count nid (group last pnum 1 nid' cs) ≡ group last begin (count + 1) nid cs
group-join_same last begin count nid pnum nid' [] h = ground arith
group-join_same last begin count nid pnum nid' (c ∷ cs) h = ground arith

group-join_other :
    (last begin count nid pnum nid' : ℕ) (cs : List Chunk)
    → (nid' == nid) ≡ false
    → group last begin count nid (group last pnum 1 nid' cs)
      ≡ record { begin = begin; end = pnum; count = count; nid = nid } ∷ group last pnum 1 nid' cs
group-join_other last begin count nid pnum nid' [] h = ground arith
group-join_other last begin count nid pnum nid' (c ∷ cs) h = ground arith

bind-done {ℓ} : {A : Type ℓ} (m : Run A) → m ≡ (m >>= λ x. done x)
bind-done (done a) = refl
bind-done bug = refl
bind-done spent = refl

head-eq :
    (p nid p' nid' : ℕ) (rest rest' : List (ℕ × ℕ))
    → (p, nid) ∷ rest ≡ (p', nid') ∷ rest'
    → (p ≡ p') × (nid ≡ nid') × (rest ≡ rest')
head-eq p nid p' nid' rest rest' e = (cc, cc, cc)

nonempty : {A : Type 0} {x : A} {xs : List A} → x ∷ xs ≡ [] → ⊥
nonempty h = cc

places-tail : (s : Sparse) (n : ℕ) → places s n 0 ≡ [] → places s (n - 1) 1 ≡ []
places-tail s zero e = refl
places-tail s (suc m) e = elim (Bool-cases (present_section_nr s 0)) [
  | inr absent ↦ let less : suc m - 1 ≡ m = omega arith in rw less (rw absent at e)
  | inl there ↦ absurd (nonempty (rw there at e))
]

module _ {D : Type 0} (s : Sparse) (alloc_func : ℕ → ℕ → ℕ → ℕ → D → Run D) (n : ℕ) where
  chunk_loop-run :
      (rounds pnum begin nid count : ℕ) (d : D)
      → chunk_loop s alloc_func n rounds pnum begin nid count d
        ≡ run_chunks alloc_func (group n begin count nid (chunks n (places s rounds pnum))) d
  unfolding chunk_loop
  chunk_loop-run zero pnum begin nid count d = bind-done (alloc_func begin n count nid d)
  chunk_loop-run (suc rounds) pnum begin nid count d =
      elim (Bool-cases (present_section_nr s pnum)) [
        | inr absent ↦ rw (absent, chunk_loop) (chunk_loop-run rounds (pnum + 1) begin nid count d)
        | inl there ↦ elim (Bool-cases (nid_of s pnum == nid)) [
          | inl same ↦
              rw (there, same, chunk_loop)
                (chunk_loop-run rounds (pnum + 1) begin nid (count + 1) d
                  ∙ ap (λ cs. run_chunks alloc_func cs d)
                      (sym (group-join_same n begin count nid pnum (nid_of s pnum) later same)))
          | inr other ↦
              rw (there, other, chunk_loop)
                (ap (λ f. alloc_func begin pnum count nid d >>= f)
                    (fun_ext (chunk_loop-run rounds (pnum + 1) pnum (nid_of s pnum) 1))
                  ∙ ap (λ cs. run_chunks alloc_func cs d)
                      (sym (group-join_other n begin count nid pnum (nid_of s pnum) later other)))
        ]
      ]
    where
      later : List Chunk
      later = chunks n (places s rounds (pnum + 1))

  first_present-places :
      (rounds pnum p nid : ℕ) (rest : List (ℕ × ℕ))
      → places s rounds pnum ≡ (p, nid) ∷ rest
      → (first_present s alloc_func n rounds pnum ≡ (p, nid))
        × (rest ≡ places s (rounds + pnum - (p + 1)) (p + 1))
  unfolding first_present
  first_present-places zero pnum p nid rest e = cc
  first_present-places (suc rounds) pnum p nid rest e =
      elim (Bool-cases (present_section_nr s pnum)) [
        | inr absent ↦
            let (x, y) = first_present-places rounds (pnum + 1) p nid rest (rw absent at e) in
            let shift : suc rounds + pnum - (p + 1) ≡ rounds + (pnum + 1) - (p + 1) = omega arith in
            (rw (absent, first_present) x, rw shift y)
        | inl there ↦
            let (x, y, z) = head-eq pnum (nid_of s pnum) p nid _ rest (rw there at e) in
            let shift : suc rounds + pnum - (p + 1) ≡ rounds = omega arith in
            (
              rw (there, first_present)
                  (ap (λ k. (k, nid_of s k)) x ∙ ap (λ m. (p, m)) (ap (nid_of s) (sym x) ∙ y)),
              rw (shift, ← x) (sym z),
            )
      ]

  first_present-none :
      (rounds pnum : ℕ)
      → places s rounds pnum ≡ []
      → first_present s alloc_func n rounds pnum ≡ (0, 0)
  unfolding first_present
  first_present-none zero pnum e = refl
  first_present-none (suc rounds) pnum e = elim (Bool-cases (present_section_nr s pnum)) [
    | inr absent ↦
        rw (absent, first_present) (first_present-none rounds (pnum + 1) (rw absent at e))
    | inl there ↦ absurd (nonempty (rw there at e))
  ]

  -- `alloc_usemap_and_memmap`, for any callback that leaves the table of sections alone: where some
  -- section is present, it calls the callback once for each group of present sections of one node that
  -- no present section of another node parts, in ascending order, with the first section of the group,
  -- the first of the next (NR_MEM_SECTIONS behind the last), the number of present sections in the
  -- group and their node. Where none is present, it calls it once, for section 0 of node 0.
  pub alloc_usemap_and_memmap-chunks :
      (d : D)
      → alloc_usemap_and_memmap s alloc_func n d ≡ elim (places s n 0) [
        | [] ↦ alloc_func 0 n 1 0 d
        | place ∷ rest ↦ run_chunks alloc_func (chunks n (place ∷ rest)) d
      ]
  unfolding alloc_usemap_and_memmap
  alloc_usemap_and_memmap-chunks d = by_places (places s n 0) refl
    where
      by_places :
          (ps : List (ℕ × ℕ))
          → places s n 0 ≡ ps
          → alloc_usemap_and_memmap s alloc_func n d ≡ elim ps [
            | [] ↦ alloc_func 0 n 1 0 d
            | place ∷ rest ↦ run_chunks alloc_func (chunks n (place ∷ rest)) d
          ]
      by_places [] e = rw (first_present-none n 0 e) (
          chunk_loop-run (n - 1) 1 0 0 1 d
          ∙ rw (places-tail s n e) (sym (bind-done (alloc_func 0 n 1 0 d))))
      by_places ((p, nid) ∷ rest) e =
          let (x, y) = first_present-places n 0 p nid rest e in
          let whole : n + 0 ≡ n = omega arith in
          rw (x, y, whole) (chunk_loop-run (n - (p + 1)) (p + 1) p nid 1 d)
