-- ===== src/Memblock/Grow.antt =====
-- The loop that resizes a region array, and what `memblock_double_array` may do.
use study_notes.Common.{
  ℕ, zero, suc, ◌+◌, ◌≤◌, ◌<◌, ◌≡◌, refl, ap, ◌∙◌, length, some, none, Option, inl, inr, ltb-cases,
  Returns, Returns-map, done, arith,
}
use study_notes.Memblock.Region.{MemblockType, Code, success, enomem, cnt}
use study_notes.Memblock.Add.{ensure_room}
use study_notes.Memblock.Chain.{IsValid}

-- What a call of `memblock_double_array` that succeeds may change: the room of the array, which grows.
pub record IsGrown (t t' : MemblockType) : Type 0 where
  pub regions : t'.regions ≡ t.regions
  pub total : t'.total_size ≡ t.total_size
  pub room : t.max < t'.max

abbrev pub Grows : (MemblockType → ℕ → ℕ → Option MemblockType) → Type 0
Grows double_array =
    (t : MemblockType) (base size : ℕ) (t' : MemblockType)
    → double_array t base size ≡ some t'
    → IsGrown t t'

-- What the resizing loop returns: the same entries, with room for `n` more unless it failed.
pub record HasRoom (t : MemblockType) (n : ℕ) (out : MemblockType × Code) : Type 0 where
  pub regions : out.0.regions ≡ t.regions
  pub total : out.0.total_size ≡ t.total_size
  pub room : t.max ≤ out.0.max
  pub enough : out.1 ≡ success → cnt t + n ≤ out.0.max
  pub succeeds : cnt t + n ≤ t.max → out.1 ≡ success

module _ (double_array : MemblockType → ℕ → ℕ → Option MemblockType)
    (grows : Grows double_array) where
  -- The loop that resizes an array for `n` more entries ends, where every call of `memblock_double_array`
  -- that succeeds keeps the entries and adds room: as many rounds as there are entries wanted beyond the
  -- room, and one more, are enough. The entries are as before, there is no less room, enough of it if the
  -- code is 0, and the code is 0 if there was enough to start with.
  pub ensure_room-HasRoom :
      (fuel : ℕ) (t : MemblockType) (n base size : ℕ)
      → 0 < fuel
      → cnt t + n < fuel + t.max
      → Returns (HasRoom t n) (ensure_room double_array fuel t n base size)
  unfolding ensure_room
  ensure_room-HasRoom zero t n base size p f = absurd (omega arith)
  ensure_room-HasRoom (suc fuel) t n base size p f = elim (ltb-cases t.max (cnt t + n)) [
    | inl (e, o) ↦
        rw (e, ensure_room)
          (more (λ h. omega arith) (double_array t base size) refl
            λ t' g.
              Returns-map (HasRoom t' n) (HasRoom t n) _
                (λ out k. record {
                  regions = k.regions ∙ g.regions;
                  total = k.total ∙ g.total;
                  room = omega (arith, g.room, k.room);
                  enough = λ q. omega (arith, k.enough q, ap length g.regions);
                  succeeds = λ q. absurd (omega arith);
                })
                (ensure_room-HasRoom fuel t' n base size (omega arith)
                  (omega (arith, g.room, ap length g.regions))))
    | inr (e, o) ↦
        rw (e, ensure_room)
          (record {
            regions = refl;
            total = refl;
            room = omega arith;
            enough = λ _. omega arith;
            succeeds = λ _. refl;
          })
  ]
    where
      more :
          (full : cnt t + n ≤ t.max → ⊥) (r : Option MemblockType)
          → double_array t base size ≡ r
          → ((t' : MemblockType)
              → IsGrown t t'
              → Returns (HasRoom t n) (ensure_room double_array fuel t' n base size))
          → Returns (HasRoom t n) (elim r [
            | none ↦ done (t, enomem)
            | some t' ↦ ensure_room double_array fuel t' n base size
          ])
      more full none q rec = record {
        regions = refl;
        total = refl;
        room = omega arith;
        enough = λ h. cc;
        succeeds = λ h. absurd (full h);
      }
      more full (some t') q rec = rec t' (grows t base size t' q)

pub HasRoom-IsValid :
    {t : MemblockType} {n : ℕ} {out : MemblockType × Code}
    → IsValid t
    → HasRoom t n out
    → IsValid out.0
HasRoom-IsValid v k = record {
  fits = omega (arith, v.fits, k.room, ap length k.regions);
  total = rw (k.total, k.regions) v.total;
  shape = rw k.regions v.shape;
}
