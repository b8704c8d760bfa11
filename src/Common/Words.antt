-- ===== src/Common/Words.antt =====
-- 64-bit words (`phys_addr_t`, `unsigned long`): native numbers, with `+` and `-` modulo 2 ^ 64.
use Prim.Native.Nat.{ℕ, ◌+◌, ◌-◌, ◌%◌}

abbrev pub word : ℕ
word = 0x1_0000_0000_0000_0000

-- `ULLONG_MAX`
abbrev pub ullong_max : ℕ
ullong_max = 0xffff_ffff_ffff_ffff

abbrev pub add64 : ℕ → ℕ → ℕ
add64 a b = (a + b) % word

abbrev pub sub64 : ℕ → ℕ → ℕ
sub64 a b = (a + word - b) % word

-- 32-bit words.
abbrev pub word32 : ℕ
word32 = 0x1_0000_0000

abbrev pub add32 : ℕ → ℕ → ℕ
add32 a b = (a + b) % word32

abbrev pub sub32 : ℕ → ℕ → ℕ
sub32 a b = (a + (word32 - b)) % word32
