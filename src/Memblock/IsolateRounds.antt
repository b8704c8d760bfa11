-- ===== src/Memblock/IsolateRounds.antt =====
-- One round of the loop of `memblock_isolate_range`, and what it keeps track of.
use study_notes.Common.{
  ℕ, suc, ◌+◌, ◌-◌, ◌≤◌, ◌<◌, ◌≡◌, refl, ◌∙◌, ap, List, [], ◌∷◌, ◌++◌, some, none, inr, length,
  get_elem?, length-append, length-snoc, append-snoc, append_assoc, append-nil, nil_of_length, ◌⊎◌,
  set-append, insert_at-append, insert_at, set, length-set, leb, false, add64, sub64, ullong_max,
  done, ◌>>=◌, arith,
}
use study_notes.Memblock.Region.{Region, MemblockType, region_end, insert_region}
use study_notes.Memblock.Isolate.{Cut, split, contained, isolate_loop}
use study_notes.Memblock.Chain.{sum_sizes, sum_sizes-append}
use study_notes.Memblock.Entries.{Holds, cnt-Holds}
use study_notes.Memblock.Carve.{lower, upper}

-- One round of the loop, by what it finds.
module _ (base end fuel : ℕ) (s : Cut) where
  pub loop-end : get_elem? s.type.regions s.i ≡ none → isolate_loop base end (suc fuel) s ≡ done s
  unfolding isolate_loop
  loop-end e = rw (e, isolate_loop)

  module _ (r : Region) (at : get_elem? s.type.regions s.i ≡ some r) where
    pub loop-stop : end ≤ r.base → isolate_loop base end (suc fuel) s ≡ done s
    unfolding isolate_loop
    loop-stop h = ground arith

    pub loop-skip :
        r.base < end
        → region_end r ≤ base
        → isolate_loop base end (suc fuel) s ≡ isolate_loop base end fuel (record s { i = s.i + 1 })
    unfolding isolate_loop
    loop-skip h k = ground arith

    pub loop-low :
        r.base < end
        → base < region_end r
        → r.base < base
        → isolate_loop base end (suc fuel) s ≡ (
            split s.type s.i r base >>= λ t.
            isolate_loop base end fuel (record s { type = t; i = s.i + 1 }))
    unfolding isolate_loop
    loop-low h k l = ground arith

    pub loop-high :
        r.base < end
        → base < region_end r
        → base ≤ r.base
        → end < region_end r
        → isolate_loop base end (suc fuel) s
          ≡ (split s.type s.i r end >>= λ t. isolate_loop base end fuel (record s { type = t }))
    unfolding isolate_loop
    loop-high h k l m = ground arith

    pub loop-inside :
        r.base < end
        → base < region_end r
        → base ≤ r.base
        → region_end r ≤ end
        → isolate_loop base end (suc fuel) s ≡ isolate_loop base end fuel (contained s)
    unfolding isolate_loop
    loop-inside h k l m = ground arith

-- A split puts the two parts of a region in its place, and keeps the total.
pub record Halved (pre rest : List Region) (n i : ℕ) (t : MemblockType) (r : Region) (at : ℕ)
    : Type 0 where
  pub after : MemblockType
  pub runs : split t i r at ≡ done after
  pub holds : Holds (pre ++ lower r at ∷ upper r at ∷ rest) n after

pub split-Halved :
    (pre rest : List Region) (n i : ℕ) (t : MemblockType) (r : Region) (at : ℕ)
    → Holds (pre ++ r ∷ rest) n t
    → i ≡ length pre
    → length pre + suc (length rest) < n
    → r.base < at
    → at < r.base + r.size
    → r.base + r.size ≤ ullong_max
    → Halved pre rest n i t r at
unfolding split insert_region
split-Halved pre rest n i t r at h hi m lo hi' e = record {
  after = record t {
    total_size = add64 (sub64 t.total_size below) below;
    regions = insert_at (set t.regions i top) i (record r { size = below });
  };
  runs = rw room;
  holds = record {
    regions =
        rw
          (
            h.regions,
            hi,
            set-append pre rest r top,
            insert_at-append pre (top ∷ rest) (record r { size = below }),
            is_upper,
            is_below,
          )
          refl;
    room = h.room;
    total = rw h.total (
        omega (
          arith,
          sum_sizes-append pre (r ∷ rest),
          sum_sizes-append pre (lower r at ∷ upper r at ∷ rest),
        ));
  };
}
  where
    below : ℕ
    below = sub64 at r.base

    top : Region
    top = record r { base = at; size = sub64 r.size below }

    is_below : sub64 at r.base ≡ at - r.base
    is_below = omega arith

    is_upper : sub64 r.size (sub64 at r.base) ≡ r.base + r.size - at
    is_upper = omega arith

    room : leb t.max (length (set t.regions i top)) ≡ false
    room = ground (arith, length-set t.regions i top, cnt-Holds pre (r ∷ rest) h, h.room)

-- There is an entry, and the sizes add up to less than 2 ^ 64.
abbrev pub IsSmall : List Region → Type 0
IsSmall rs = (0 < length rs) × (sum_sizes rs ≤ ullong_max)

pub split-IsSmall :
    (pre : List Region) (r : Region) (at : ℕ) (rest : List Region)
    → r.base < at
    → at < r.base + r.size
    → IsSmall (pre ++ r ∷ rest)
    → IsSmall (pre ++ lower r at ∷ upper r at ∷ rest)
split-IsSmall pre r at rest lo hi h = (
  omega (arith, length-append pre (lower r at ∷ upper r at ∷ rest)),
  omega (
    arith,
    sum_sizes-append pre (r ∷ rest),
    sum_sizes-append pre (lower r at ∷ upper r at ∷ rest),
  ),
)

-- Where the regions between the two cuts stand: `mid` behind `front`.
abbrev pub Tracks : List Region → List Region → Cut → Type 0
Tracks front mid s =
    ((length mid ≡ 0) × (s.start_rgn ≡ 0) × (s.end_rgn ≡ 0))
    ⊎ ((0 < length mid) × (s.start_rgn ≡ length front) × (s.end_rgn ≡ length front + length mid))

-- The loop is done: what it recorded stands between what it leaves, which is `target`.
pub record Isolated (n : ℕ) (target : List Region) (s : Cut) : Type 0 where
  pub front : List Region
  pub mid : List Region
  pub back : List Region
  pub holds : Holds ((front ++ mid) ++ back) n s.type
  pub small : IsSmall ((front ++ mid) ++ back)
  pub left : target ≡ front ++ back
  pub tracks : Tracks front mid s

-- In front of the range nothing is recorded yet.
pub front-step :
    (front mid : List Region) (r : Region) (rest : List Region)
    → length mid ≡ 0
    → (front ++ mid) ++ r ∷ rest ≡ ((front ++ r ∷ []) ++ []) ++ rest
front-step front mid r rest h =
    rw (nil_of_length mid h, append-nil front, append-nil (front ++ r ∷ []))
      (append-snoc front r rest)

pub mid-step :
    (front mid : List Region) (r : Region) (rest : List Region)
    → (front ++ mid) ++ r ∷ rest ≡ (front ++ (mid ++ r ∷ [])) ++ rest
mid-step front mid r rest =
    append-snoc (front ++ mid) r rest ∙ ap (λ l. l ++ rest) (append_assoc front mid (r ∷ []))

pub contained-Tracks :
    (front mid : List Region) (r : Region) (s : Cut)
    → s.i ≡ length front + length mid
    → Tracks front mid s
    → Tracks front (mid ++ r ∷ []) (contained s)
contained-Tracks front mid r s hi k = inr (
  ground (arith, length-snoc mid r),
  ground (arith, length-snoc mid r),
  ground (arith, length-snoc mid r),
)
