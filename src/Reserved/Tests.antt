-- ===== src/Reserved/Tests.antt =====
-- Runs of the boot-time reservations on a small machine.
use study_notes.Common.{
  ℕ, ◌+◌, refl, [], ◌∷◌, Option, none, some, inl, inr, false, done, Returns, ullong_max, arith,
}
use study_notes.Memblock.Region.{Region, MemblockType}
use study_notes.Memblock.Api.{Memblock, zeroed}
use study_notes.Memblock.Grow.{Grows}
use study_notes.Memblock.Chain.{IsValid}
use study_notes.Memblock.Platforms.{board, board-IsPlatform}
use study_notes.Reserved.Tree.{State}
use study_notes.Reserved.Allocate.{alloc_size}
use study_notes.Reserved.Scan.{scan_and_init, arm64_memblock_init}
use study_notes.Reserved.Keeps.{Boot, Extends-refl}
use study_notes.Reserved.Sized.{Sized, alloc_size-Sized}
use study_notes.Reserved.Since.{Since}
use study_notes.Reserved.Boot.{scan_and_init-Since}
use study_notes.Reserved.Init.{Booted, arm64_memblock_init-Booted}
use study_notes.Reserved.Trees.{board_tree, board_tree-IsFdt}

-- An array that always doubles.
abbrev doubling : MemblockType → ℕ → ℕ → Option MemblockType
doubling t base size = some (record t { max = t.max + t.max + 1 })

doubling-Grows : Grows doubling
doubling-Grows t base size t' e = ground arith

abbrev region : ℕ → ℕ → Region
region b n = record { base = b; size = n; flags = 0; nid = 1 }

abbrev machine : Memblock
machine = record {
  bottom_up = false;
  current_limit = ullong_max;
  memory = record {
    max = 8;
    total_size = 0x3000;
    regions = region 0x1000 0x1000 ∷ region 0x4000 0x2000 ∷ [];
  };
  reserved = zeroed;
}

memory-IsValid : IsValid machine.memory
memory-IsValid = record { fits = omega arith; total = refl; shape = inr (omega arith) }

zeroed-IsValid : IsValid zeroed
zeroed-IsValid = record { fits = omega arith; total = refl; shape = inl (refl, refl, refl) }

machine-Boot : Boot machine
machine-Boot = record { memory = memory-IsValid; reserved = zeroed-IsValid; limit = omega arith }

abbrev start : State
start = record { memblock = machine; reserved_mem = []; found = false }

alloc_size-Sized_example :
    Returns (Sized board_tree 3 machine) (alloc_size board doubling board_tree 3 machine)
alloc_size-Sized_example =
    alloc_size-Sized board board-IsPlatform doubling doubling-Grows board_tree (omega arith) 3
      machine machine-Boot

scan_and_init-Since_example :
    Returns
      (Since doubling doubling-Grows board_tree board_tree-IsFdt machine)
      (scan_and_init doubling board_tree board 1 (some (0x1000, 0x100)) start)
scan_and_init-Since_example =
    scan_and_init-Since doubling doubling-Grows board_tree board_tree-IsFdt machine board
      board-IsPlatform 1 0 (some (0x1000, 0x100)) start (omega arith) refl
      (λ base size h. ground arith)
      (record { extends = Extends-refl machine machine-Boot; room = omega arith })

arm64_memblock_init-Booted_example :
    Returns
      (Booted doubling doubling-Grows board_tree board_tree-IsFdt board board-IsPlatform machine
        0x2800)
      (arm64_memblock_init doubling board_tree board 1 0x2800
        (0x1000, 0x800)
        none
        (some (0x1800, 0x100))
        0x1_0000_0000
        (λ limit m. done m)
        start)
arm64_memblock_init-Booted_example =
    arm64_memblock_init-Booted doubling doubling-Grows board_tree board_tree-IsFdt board
      board-IsPlatform 1 0 0x2800 0x1000 0x800 none (some (0x1800, 0x100)) 0x1_0000_0000
      (λ limit m. done m) start machine-Boot (omega arith) (omega arith)
      (λ base size h. ground arith) (λ base size h. ground arith) (omega arith) refl
      (λ m b. Extends-refl m b)
