-- ===== src/Buddy/WaitTable.antt =====
-- The size of the hash table of wait queues of a zone (`wait_table_hash_nr_entries` of mm/buddy.c).
use native.Mathlib.Nat.{pow-suc}
use study_notes.Common.{
  ℕ, zero, suc, ◌+◌, ◌*◌, ◌/◌, ◌%◌, ◌^◌, ◌≤◌, ◌<◌, ◌≡◌, refl, min, max, ◌⊎◌, inl, inr, ltb,
  ltb-cases, leb-cases, true, false, Run, done, spent, ◌>>=◌, Returns, Returns->>=, word,
  ullong_max, arith,
}

-- `while (size < pages) size <<= 1;`
unfoldable pub grow : ℕ → ℕ → ℕ → Run ℕ
grow zero size pages = spent
grow (suc fuel) size pages = elim (ltb size pages) [
  | true ↦ grow fuel (size * 2 % word) pages
  | false ↦ done size
]

unfoldable pub wait_table_hash_nr_entries : ℕ → Run ℕ
wait_table_hash_nr_entries pages = grow 65 1 (pages / 256) >>= λ size. done (max (min size 4096) 4)

-- The least power of two from 1 on that is at least `pages`.
abbrev Grown : ℕ → ℕ → Type 0
Grown pages size = ((k : ℕ) × (size ≡ 2 ^ k)) × (pages ≤ size) × ((size ≡ 1) ⊎ (size < pages * 2))

grow-Grown :
    (fuel k size pages : ℕ)
    → size ≡ 2 ^ k
    → k + fuel ≡ 65
    → pages < 2 ^ 56
    → (size ≡ 1) ⊎ (size < pages * 2)
    → Returns (Grown pages) (grow fuel size pages)
unfolding grow
grow-Grown zero k size pages e f p h =
    let at : size ≡ 2 ^ 65 = (let q : k ≡ 65 = omega (arith, f) in rw q at e) in
    absurd (ground (arith, h))
grow-Grown (suc fuel) k size pages e f p h = elim (ltb-cases size pages) [
  | inr (x, o) ↦ rw (x, grow) ((k, e), o, h)
  | inl (x, o) ↦
      let double : size * 2 % word ≡ 2 ^ suc k = omega (arith, pow-suc 2 k) in
      rw (x, grow)
        (grow-Grown fuel (suc k) (size * 2 % word) pages double (omega arith) p (inr (omega arith)))
]

-- The table has room for a queue per 256 pages up to 4096, and is no larger than twice that.
pub record Entries (pages entries : ℕ) : Type 0 where
  pub power : (k : ℕ) × (entries ≡ 2 ^ k)
  pub least : 4 ≤ entries
  pub most : entries ≤ 4096
  pub enough : (entries ≡ 4096) ⊎ (pages / 256 ≤ entries)
  pub tight : (entries ≡ 4) ⊎ (entries < pages / 256 * 2)

-- `wait_table_hash_nr_entries` for every 64-bit number of pages: its loop ends, and the result is a
-- power of two from 4 to 4096 that, unless it is 4096, is at least the number of pages divided by
-- 256, and, unless it is 4, is less than twice that.
pub wait_table_hash_nr_entries-Entries :
    (pages : ℕ) → pages ≤ ullong_max → Returns (Entries pages) (wait_table_hash_nr_entries pages)
unfolding wait_table_hash_nr_entries
wait_table_hash_nr_entries-Entries pages h =
    Returns->>= (Grown (pages / 256)) (Entries pages) _ _
      (grow-Grown 65 0 1 (pages / 256) refl refl (omega arith) (inl refl))
      λ size ((k, e), o, t). elim (leb-cases size 4) [
        | inl (_, x) ↦ record {
          power = (2, omega arith);
          least = omega arith;
          most = omega arith;
          enough = inr (omega arith);
          tight = inl (omega arith);
        }
        | inr (_, x) ↦ elim (leb-cases size 4096) [
          | inl (_, y) ↦ record {
            power = (k, omega arith);
            least = omega arith;
            most = omega arith;
            enough = inr (omega arith);
            tight = ground arith;
          }
          | inr (_, y) ↦ record {
            power = (12, omega arith);
            least = omega arith;
            most = omega arith;
            enough = inl (omega arith);
            tight = ground arith;
          }
        ]
      ]
