-- ===== src/Reserved/Keeps.antt =====
-- What early boot does to the memory map: nothing that is reserved is given up, and no memory appears.
use study_notes.Common.{
  ℕ, ◌+◌, ◌-◌, ◌≤◌, ◌≡◌, refl, min, Bool, true, false, Option, ullong_max, Returns, Returns->>=,
  arith,
}
use study_notes.Memblock.Region.{MemblockType, Code, success, enomem}
use study_notes.Memblock.Api.{Memblock, memblock_reserve, memblock_remove}
use study_notes.Memblock.Chain.{IsValid, covers}
use study_notes.Memblock.Grow.{Grows}
use study_notes.Memblock.AddRange.{Added, add_range-Added}
use study_notes.Memblock.RemoveRange.{Removed, remove_range-Removed}
use study_notes.Reserved.Reserve.{reserve_memory_arch}

-- Both arrays are in order, and the limit fits in 64 bits.
pub record Boot (m : Memblock) : Type 0 where
  pub memory : IsValid m.memory
  pub reserved : IsValid m.reserved
  pub limit : m.current_limit ≤ ullong_max

-- What was reserved still is, what is memory was memory before, and the arrays are in order.
pub record Extends (m m' : Memblock) : Type 0 where
  pub boot : Boot m'
  pub reserved : (a : ℕ) → covers a m.reserved.regions ≡ true → covers a m'.reserved.regions ≡ true
  pub memory : (a : ℕ) → covers a m'.memory.regions ≡ true → covers a m.memory.regions ≡ true

pub Extends-refl : (m : Memblock) → Boot m → Extends m m
Extends-refl m b = record { boot = b; reserved = λ a h. h; memory = λ a h. h }

pub Extends-trans : (m m' m'' : Memblock) → Extends m m' → Extends m' m'' → Extends m m''
Extends-trans m m' m'' e f = record {
  boot = f.boot;
  reserved = λ a h. f.reserved a (e.reserved a h);
  memory = λ a h. e.memory a (f.memory a h);
}

module _ (double_array : MemblockType → ℕ → ℕ → Option MemblockType)
    (grows : Grows double_array) where
  reserved-Extends :
      (m : Memblock) (base end : ℕ) (t : MemblockType) (code : Code)
      → Boot m
      → Added m.reserved base end (t, code)
      → Extends m (record m { reserved = t })
  reserved-Extends m base end t success b k = record {
    boot = record { memory = b.memory; reserved = k.valid; limit = b.limit };
    reserved = λ a h. rw (k.covered refl a, h) (ground arith);
    memory = λ a h. h;
  }
  reserved-Extends m base end t enomem b k = record {
    boot = record { memory = b.memory; reserved = k.valid; limit = b.limit };
    reserved = λ a h. rw (k.kept refl) h;
    memory = λ a h. h;
  }

  pub reserve-Extends :
      (m : Memblock) (base size : ℕ)
      → Boot m
      → base ≤ ullong_max
      → Returns (λ out. Extends m out.0) (memblock_reserve double_array m base size)
  unfolding memblock_reserve
  reserve-Extends m base size b h =
      Returns->>= (Added m.reserved base (base + min size (ullong_max - base))) _ _ _
        (add_range-Added double_array grows m.reserved base size _ _ b.reserved h)
        λ (t, code) k. reserved-Extends m base _ t code b k

  Removed-Extends :
      (m : Memblock) (base end : ℕ) (t : MemblockType) (code : Code)
      → Boot m
      → Removed m.memory base end (t, code)
      → Extends m (record m { memory = t })
  Removed-Extends m base end t success b k = record {
    boot = record { memory = k.valid; reserved = b.reserved; limit = b.limit };
    reserved = λ a h. h;
    memory = λ a h. let e = k.covered refl a in ground arith;
  }
  Removed-Extends m base end t enomem b k = record {
    boot = record { memory = k.valid; reserved = b.reserved; limit = b.limit };
    reserved = λ a h. h;
    memory = λ a h. rw (k.kept refl) at h;
  }

  pub remove-Extends :
      (m : Memblock) (base size : ℕ)
      → Boot m
      → base ≤ ullong_max
      → Returns (λ out. Extends m out.0) (memblock_remove double_array m base size)
  unfolding memblock_remove
  remove-Extends m base size b h =
      Returns->>= (Removed m.memory base (base + min size (ullong_max - base))) _ _ _
        (remove_range-Removed double_array grows m.memory base size b.memory h)
        λ (t, code) k. Removed-Extends m base _ t code b k

  pub reserve_memory_arch-Extends :
      (m : Memblock) (base size : ℕ) (nomap : Bool)
      → Boot m
      → base ≤ ullong_max
      → Returns (λ out. Extends m out.0) (reserve_memory_arch double_array m base size nomap)
  unfolding reserve_memory_arch
  reserve_memory_arch-Extends m base size true b h = remove-Extends m base size b h
  reserve_memory_arch-Extends m base size false b h = reserve-Extends m base size b h
