-- ===== src/Memblock/MergeList.antt =====
-- What `memblock_merge_regions` amounts to on the list of regions, and that the loop does it.
use mathlib.Core.Path.{subst}
use study_notes.Common.{
  ℕ, suc, ◌+◌, ◌≤◌, ◌<◌, ◌≡◌, refl, List, [], ◌∷◌, true, false, length, inl, inr, Bool-cases, arith,
}
use study_notes.Memblock.Region.{Region}
use study_notes.Memblock.Merge.{compatible, join}
use study_notes.Memblock.Chain.{Chain, covers, sum_sizes}

-- `r` is merged with as many of the regions behind it as continue it, and so on.
pub merge_from : Region → List Region → List Region
merge_from r [] = r ∷ []
merge_from r (s ∷ rs) = elim (compatible r s) [
  | true ↦ merge_from (join r s) rs
  | false ↦ r ∷ merge_from s rs
]

pub merge-nil : (r : Region) → merge_from r [] ≡ r ∷ []
unfolding merge_from
merge-nil r = refl

pub merge-join :
    (r s : Region) (rs : List Region)
    → compatible r s ≡ true
    → merge_from r (s ∷ rs) ≡ merge_from (join r s) rs
unfolding merge_from
merge-join r s rs e = ground arith

pub merge-keep :
    (r s : Region) (rs : List Region)
    → compatible r s ≡ false
    → merge_from r (s ∷ rs) ≡ r ∷ merge_from s rs
unfolding merge_from
merge-keep r s rs e = ground arith

-- In a chain a merged region ends where the second ended.
pub join-ends :
    (lo : ℕ) (r s : Region) (rs : List Region)
    → Chain lo (r ∷ s ∷ rs)
    → compatible r s ≡ true
    → (s.base ≡ r.base + r.size) × ((join r s).size ≡ r.size + s.size)
join-ends lo r s rs c e = ground arith

pub join-Chain :
    (lo : ℕ) (r s : Region) (rs : List Region)
    → Chain lo (r ∷ s ∷ rs)
    → compatible r s ≡ true
    → Chain lo (join r s ∷ rs)
join-Chain lo r s rs c e =
    let (eb, es) = join-ends lo r s rs c e in
    (c.0, omega arith, omega arith, subst (λ x. Chain x rs) (omega arith) c.3.3)

-- Merging keeps the chain, its addresses and its total.
pub merge_from-Chain :
    (lo : ℕ) (r : Region) (rs : List Region) → Chain lo (r ∷ rs) → Chain lo (merge_from r rs)
unfolding merge_from
merge_from-Chain lo r [] c = c
merge_from-Chain lo r (s ∷ rs) c = elim (Bool-cases (compatible r s)) [
  | inl e ↦ rw (merge-join r s rs e) (merge_from-Chain lo (join r s) rs (join-Chain lo r s rs c e))
  | inr e ↦ rw (merge-keep r s rs e) (c.0, c.1, c.2, merge_from-Chain (r.base + r.size) s rs c.3)
]

pub covers-merge_from :
    (a lo : ℕ) (r : Region) (rs : List Region)
    → Chain lo (r ∷ rs)
    → covers a (merge_from r rs) ≡ covers a (r ∷ rs)
unfolding merge_from
covers-merge_from a lo r [] c = refl
covers-merge_from a lo r (s ∷ rs) c = elim (Bool-cases (compatible r s)) [
  | inl e ↦
      let (eb, es) = join-ends lo r s rs c e in
      rw (merge-join r s rs e, covers-merge_from a lo (join r s) rs (join-Chain lo r s rs c e), es)
        (ground arith)
  | inr e ↦ rw (merge-keep r s rs e, covers-merge_from a (r.base + r.size) s rs c.3)
]

pub sum_sizes-merge_from :
    (lo : ℕ) (r : Region) (rs : List Region)
    → Chain lo (r ∷ rs)
    → sum_sizes (merge_from r rs) ≡ sum_sizes (r ∷ rs)
unfolding merge_from
sum_sizes-merge_from lo r [] c = refl
sum_sizes-merge_from lo r (s ∷ rs) c = elim (Bool-cases (compatible r s)) [
  | inl e ↦
      let (eb, es) = join-ends lo r s rs c e in
      rw (merge-join r s rs e)
        (omega (arith, sum_sizes-merge_from lo (join r s) rs (join-Chain lo r s rs c e)))
  | inr e ↦
      rw (merge-keep r s rs e) (omega (arith, sum_sizes-merge_from (r.base + r.size) s rs c.3))
]

pub length-merge_from :
    (r : Region) (rs : List Region)
    → (0 < length (merge_from r rs)) × (length (merge_from r rs) ≤ suc (length rs))
unfolding merge_from
length-merge_from r [] = omega arith
length-merge_from r (s ∷ rs) =
    ground (arith, length-merge_from (join r s) rs, length-merge_from s rs)

-- Afterwards no two neighbours could be merged.
abbrev pub Apart : Region → List Region → Type 0
Apart r [] = Unit {0}
Apart r (s ∷ rs) = compatible r s ≡ false

abbrev pub IsMerged : List Region → Type 0
IsMerged [] = Unit {0}
IsMerged (r ∷ rs) = Apart r rs × IsMerged rs

merge_from-Apart :
    (r s : Region) (rs : List Region) → compatible r s ≡ false → Apart r (merge_from s rs)
unfolding merge_from
merge_from-Apart r s [] e = e
merge_from-Apart r s (x ∷ rs) e = elim (Bool-cases (compatible s x)) [
  | inl k ↦ rw (merge-join s x rs k) (merge_from-Apart r (join s x) rs e)
  | inr k ↦ rw (merge-keep s x rs k) e
]

pub merge_from-IsMerged : (r : Region) (rs : List Region) → IsMerged (merge_from r rs)
unfolding merge_from
merge_from-IsMerged r [] = (tt, tt)
merge_from-IsMerged r (s ∷ rs) = elim (Bool-cases (compatible r s)) [
  | inl e ↦ rw (merge-join r s rs e) (merge_from-IsMerged (join r s) rs)
  | inr e ↦ rw (merge-keep r s rs e) (merge_from-Apart r s rs e, merge_from-IsMerged s rs)
]

-- The whole list.
abbrev pub merge : List Region → List Region
merge [] = []
merge (r ∷ rs) = merge_from r rs

-- The list `l'` covers what `l` covered, adds up to the same, and has nothing left to merge.
pub record Merges (l l' : List Region) : Type 0 where
  pub chain : Chain 0 l'
  pub covered : (a : ℕ) → covers a l' ≡ covers a l
  pub sum : sum_sizes l' ≡ sum_sizes l
  pub some_left : 0 < length l → 0 < length l'
  pub shorter : length l' ≤ length l
  pub merged : IsMerged l'

pub merge-Merges : (l : List Region) → Chain 0 l → Merges l (merge l)
merge-Merges [] c = record {
  chain = tt;
  covered = λ a. refl;
  sum = refl;
  some_left = λ h. h;
  shorter = omega arith;
  merged = tt;
}
merge-Merges (r ∷ rs) c = record {
  chain = merge_from-Chain 0 r rs c;
  covered = λ a. covers-merge_from a 0 r rs c;
  sum = sum_sizes-merge_from 0 r rs c;
  some_left = λ h. (length-merge_from r rs).0;
  shorter = (length-merge_from r rs).1;
  merged = merge_from-IsMerged r rs;
}
