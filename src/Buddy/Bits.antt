-- ===== src/Buddy/Bits.antt =====
-- The digits of a word under the bit operations of mm/buddy.c.
use Prim.Native.Nat.{bit_and, bit_or, digits, bit_and-bitwise, bit_or-bitwise}
use native.Mathlib.Nat.{pow-suc, one-le-pow, le_refl}
use study_notes.Common.{
  ℕ, zero, suc, ◌+◌, ◌-◌, ◌*◌, ◌/◌, ◌%◌, ◌^◌, ◌≤◌, ◌<◌, ◌≡◌, refl, ap, ◌∙◌, min, max, ullong_max,
  arith,
}
use study_notes.Buddy.Pageblock.{not64}

-- Digit `i`, from the lowest.
abbrev pub bit_at : ℕ → ℕ → ℕ
bit_at zero w = w % 2
bit_at (suc i) w = bit_at i (w / 2)

pub bit_at-le : (i w : ℕ) → bit_at i w ≤ 1
bit_at-le zero w = omega arith
bit_at-le (suc i) w = bit_at-le i (w / 2)

pub bit_at-zero : (i : ℕ) → bit_at i 0 ≡ 0
bit_at-zero zero = refl
bit_at-zero (suc i) = bit_at-zero i

-- Any digitwise operation that keeps 0 and 1 and does with 0 what it does at the end of the first number.
module _ (z : ℕ → ℕ) (f : ℕ → ℕ → ℕ) (small : (x y : ℕ) → x ≤ 1 → y ≤ 1 → f x y ≤ 1)
    (ends : (i b : ℕ) → bit_at i (z b) ≡ f 0 (bit_at i b)) where
  bit_at-digits : (i n a b : ℕ) → a ≤ n → bit_at i (digits z f n a b) ≡ f (bit_at i a) (bit_at i b)
  bit_at-digits i zero zero b h = rw (bit_at-zero i) (ends i b)
  bit_at-digits i zero (suc a) b h = absurd (omega arith)
  bit_at-digits i (suc n) zero b h = rw (bit_at-zero i) (ends i b)
  bit_at-digits zero (suc n) (suc a) b h =
      omega (arith, small (suc a % 2) (b % 2) (omega arith) (omega arith))
  bit_at-digits (suc i) (suc n) (suc a) b h =
      let half : (digits z f n (suc a / 2) (b / 2) * 2 + f (suc a % 2) (b % 2)) / 2
          ≡ digits z f n (suc a / 2) (b / 2) =
        omega (arith, small (suc a % 2) (b % 2) (omega arith) (omega arith)) in
      ap (λ x. bit_at i x) half ∙ bit_at-digits i n (suc a / 2) (b / 2) (omega arith)

pub bit_at-bit_or : (i a b : ℕ) → bit_at i (bit_or a b) ≡ max (bit_at i a) (bit_at i b)
bit_at-bit_or i a b =
    simp bit_or-bitwise
      (bit_at-digits (λ y. y) max (λ x y p q. omega arith) (λ j y. omega arith) i a a b (le_refl a))

pub bit_at-bit_and : (i a b : ℕ) → bit_at i (bit_and a b) ≡ min (bit_at i a) (bit_at i b)
bit_at-bit_and i a b = simp bit_and-bitwise (
    bit_at-digits (λ y. 0) min (λ x y p q. omega arith) (λ j y. bit_at-zero j ∙ omega arith) i a a b
      (le_refl a))

-- All digits below `w` are turned.
bit_at-turned : (i w x : ℕ) → i < w → x < 2 ^ w → bit_at i (2 ^ w - 1 - x) ≡ 1 - bit_at i x
bit_at-turned i zero x h k = absurd (omega arith)
bit_at-turned zero (suc w) x h k = omega (arith, pow-suc 2 w, one-le-pow w 2)
bit_at-turned (suc i) (suc w) x h k =
    let half : (2 ^ suc w - 1 - x) / 2 ≡ 2 ^ w - 1 - x / 2 = omega (arith, pow-suc 2 w) in
    ap (λ y. bit_at i y) half ∙ bit_at-turned i w (x / 2) (omega arith) (omega (arith, pow-suc 2 w))

pub bit_at-not64 : (i x : ℕ) → i < 64 → x ≤ ullong_max → bit_at i (not64 x) ≡ 1 - bit_at i x
bit_at-not64 i x h k = bit_at-turned i 64 x h (omega arith)

-- A shift to the left.
pub bit_at-below : (i s v : ℕ) → i < s → bit_at i (v * 2 ^ s) ≡ 0
bit_at-below i zero v h = absurd (omega arith)
bit_at-below zero (suc s) v h = omega (arith, ap (λ (t : ℕ). v * t) (pow-suc 2 s))
bit_at-below (suc i) (suc s) v h =
    let half : v * 2 ^ suc s / 2 ≡ v * 2 ^ s = omega (arith, ap (λ (t : ℕ). v * t) (pow-suc 2 s)) in
    ap (λ y. bit_at i y) half ∙ bit_at-below i s v (omega arith)

pub bit_at-shifted : (j s v : ℕ) → bit_at (s + j) (v * 2 ^ s) ≡ bit_at j v
bit_at-shifted j zero v =
    let there : 0 + j ≡ j = omega arith in
    let whole : v * 2 ^ 0 ≡ v = omega arith in rw (there, whole) refl
bit_at-shifted j (suc s) v =
    let there : suc s + j ≡ suc (s + j) = omega arith in
    let half : v * 2 ^ suc s / 2 ≡ v * 2 ^ s = omega (arith, ap (λ (t : ℕ). v * t) (pow-suc 2 s)) in
    rw there (ap (λ y. bit_at (s + j) y) half ∙ bit_at-shifted j s v)

-- The code of a migrate type fits three digits.
pub bit_at-high : (j v : ℕ) → 3 ≤ j → v < 8 → bit_at j v ≡ 0
bit_at-high zero v h k = absurd (omega arith)
bit_at-high (suc zero) v h k = absurd (omega arith)
bit_at-high (suc (suc zero)) v h k = absurd (omega arith)
bit_at-high (suc (suc (suc j))) v h k =
    let none_left : v / 2 / 2 / 2 ≡ 0 = omega arith in
    ap (λ y. bit_at j y) none_left ∙ bit_at-zero j

pub bit_at-mask : (j : ℕ) → j < 3 → bit_at j 7 ≡ 1
bit_at-mask zero h = refl
bit_at-mask (suc zero) h = refl
bit_at-mask (suc (suc zero)) h = refl
bit_at-mask (suc (suc (suc j))) h = absurd (omega arith)
