-- ===== src/Memblock/Platforms.antt =====
-- A platform for the tests of the allocator: while nothing is reserved, every region of memory is free.
use native.Mathlib.Nat.{mul-mod_left}
use study_notes.Common.{
  ℕ, ◌+◌, ◌*◌, ◌/◌, ◌^◌, ◌≤◌, ◌<◌, ◌≡◌, refl, List, [], ◌∷◌, true, false, ◌==◌, if◌then◌else◌, ltb,
  ullong_max, Bool-cases, ltb-cases, inl, inr, arith,
}
use study_notes.Memblock.Region.{Region, MemblockType}
use study_notes.Memblock.Api.{Platform}
use study_notes.Memblock.Chain.{covers, sum_sizes}
use study_notes.Memblock.Alloc.{Inside, IsPlatform}

abbrev ranges : List Region → List (ℕ × ℕ)
ranges [] = []
ranges (r ∷ rs) =
    let rest = ranges rs in
    if ltb ullong_max (r.base + r.size) then rest else (r.base, r.base + r.size) ∷ rest

ranges-covered :
    (rs : List Region) (a b : ℕ)
    → Inside a b (ranges rs)
    → (b ≤ ullong_max) × ((x : ℕ) → a ≤ x → x < b → covers x rs ≡ true)
ranges-covered [] a b i = absurd i
ranges-covered (r ∷ rs) a b i = elim (ltb-cases ullong_max (r.base + r.size)) [
  | inl (e, o) ↦
      let (h, c) = ranges-covered rs a b (rw e at i) in (h, λ x p q. ground (arith, c x p q))
  | inr (e, o) ↦ elim (rw e at i) [
    | inl h ↦ (omega arith, λ x p q. ground arith)
    | inr j ↦ let (h, c) = ranges-covered rs a b j in (h, λ x p q. ground (arith, c x p q))
  ]
]

nothing-covered : (rs : List Region) (x : ℕ) → sum_sizes rs ≡ 0 → covers x rs ≡ false
nothing-covered [] x h = refl
nothing-covered (r ∷ rs) x h = ground (arith, nothing-covered rs x (omega arith))

abbrev pub board : Platform
board = record {
  free_ranges =
      λ memory reserved nid. if sum_sizes reserved.regions == 0 then ranges memory.regions else [];
  round_down = λ x a. x / a * a;
  page_size = 0x1000;
  smp_cache_bytes = 64;
  numa_no_node = 0;
}

board-free :
    (memory reserved : MemblockType) (nid a b : ℕ)
    → Inside a b (board.free_ranges memory reserved nid)
    → (b ≤ ullong_max)
      × ((x : ℕ)
          → a ≤ x
          → x < b
          → (covers x memory.regions ≡ true) × (covers x reserved.regions ≡ false))
board-free memory reserved nid a b i = elim (Bool-cases (sum_sizes reserved.regions == 0)) [
  | inl e ↦
      let (h, c) = ranges-covered memory.regions a b (rw e at i) in
      (h, λ x p q. (c x p q, nothing-covered reserved.regions x (ground arith)))
  | inr e ↦ absurd (rw e at i)
]

pub board-IsPlatform : IsPlatform board
board-IsPlatform = record {
  free = board-free;
  rounds_below = λ x k. omega arith;
  rounds = λ x k. mul-mod_left (x / 2 ^ k) (2 ^ k);
  page = omega arith;
}
