-- ===== src/Memblock/Entries.antt =====
-- The entries of a region array in a loop that has done a prefix of them.
use mathlib.Core.List.{append-nil}
use study_notes.Common.{
  ℕ, ◌+◌, ◌%◌, ◌≡◌, ◌∙◌, ap, List, [], ◌∷◌, ◌++◌, length, word, some, none, get_elem?,
  get_elem?-append, get_elem?-end, length-append,
}
use study_notes.Memblock.Region.{Region, MemblockType}
use study_notes.Memblock.Chain.{sum_sizes}

-- The array `t` holds the regions `rs`, has room for `n` entries, and its total is right.
pub record Holds (rs : List Region) (n : ℕ) (t : MemblockType) : Type 0 where
  pub regions : t.regions ≡ rs
  pub room : t.max ≡ n
  pub total : t.total_size ≡ sum_sizes rs % word

pub cnt-Holds :
    (pre rest : List Region) {n : ℕ} {t : MemblockType}
    → Holds (pre ++ rest) n t
    → length t.regions ≡ length pre + length rest
cnt-Holds pre rest h = ap length h.regions ∙ length-append pre rest

pub at-Holds :
    (pre rest : List Region) {n i : ℕ} {t : MemblockType} {r : Region}
    → Holds (pre ++ r ∷ rest) n t
    → i ≡ length pre
    → get_elem? t.regions i ≡ some r
at-Holds pre rest {r = r} h hi = rw (h.regions, hi) (get_elem?-append pre rest r)

pub end-Holds :
    (pre : List Region) {n i : ℕ} {t : MemblockType}
    → Holds (pre ++ []) n t
    → i ≡ length pre
    → get_elem? t.regions i ≡ none
end-Holds pre h hi = rw (h.regions, hi, append-nil) (get_elem?-end pre)
