-- ===== src/Sparse/Masks.antt =====
-- The masks and shifts of mm/sparse_init.c as arithmetic.
use Prim.Native.Nat.{bit_and, bit_or}
use native.Mathlib.Nat.{pow-suc, one-le-pow}
use study_notes.Buddy.Bits.{bit_at, bit_at-zero, bit_at-bit_or, bit_at-bit_and}
use study_notes.Common.{
  ◌≢◌, ℕ, zero, suc, ◌+◌, ◌-◌, ◌*◌, ◌/◌, ◌%◌, ◌^◌, ◌≤◌, ◌<◌, ◌≡◌, refl, ap, sym, ◌∙◌, min, max,
  word, arith,
}

-- A number is its digits.
same_bits : (n x y : ℕ) → x ≤ n → y ≤ n → ((i : ℕ) → bit_at i x ≡ bit_at i y) → x ≡ y
same_bits zero x y p q h = omega arith
same_bits (suc n) x y p q h =
    omega (arith, h 0, same_bits n (x / 2) (y / 2) (omega arith) (omega arith) (λ i. h (suc i)))

bits_eq : (x y : ℕ) → ((i : ℕ) → bit_at i x ≡ bit_at i y) → x ≡ y
bits_eq x y = same_bits (x + y) x y (omega arith) (omega arith)

-- An operation on each digit, taken apart at the lowest.
module _ (op f : ℕ → ℕ → ℕ)
    (digitwise : (i a b : ℕ) → bit_at i (op a b) ≡ f (bit_at i a) (bit_at i b)) where
  lowest_apart : (a b : ℕ) → op a b ≡ op (a / 2) (b / 2) * 2 + f (a % 2) (b % 2)
  lowest_apart a b =
      let high : op a b / 2 ≡ op (a / 2) (b / 2) =
        bits_eq (op a b / 2) (op (a / 2) (b / 2))
          λ i. digitwise (suc i) a b ∙ sym (digitwise i (a / 2) (b / 2)) in
      omega (arith, digitwise 0 a b, high)

-- An operation with such a law works apart on the digits above `2 ^ k` and on those below.
module _ (op g : ℕ → ℕ → ℕ)
    (step : (a b : ℕ) → op a b ≡ op (a / 2) (b / 2) * 2 + g (a % 2) (b % 2)) where
  digits_split :
      (k h l h' l' : ℕ)
      → l < 2 ^ k
      → l' < 2 ^ k
      → op 0 0 ≡ 0
      → op (h * 2 ^ k + l) (h' * 2 ^ k + l') ≡ op h h' * 2 ^ k + op l l'
  digits_split zero h l h' l' p q o =
      let a : h * 2 ^ 0 + l ≡ h = omega arith in
      let a' : h' * 2 ^ 0 + l' ≡ h' = omega arith in
      let b : l ≡ 0 = omega arith in
      let b' : l' ≡ 0 = omega arith in rw (a, a', b, b') (omega (arith, o))
  digits_split (suc k) h l h' l' p q o =
      let e : h * 2 ^ suc k ≡ h * 2 ^ k * 2 = omega (arith, ap (λ (t : ℕ). h * t) (pow-suc 2 k)) in
      let e' : h' * 2 ^ suc k ≡ h' * 2 ^ k * 2 =
        omega (arith, ap (λ (t : ℕ). h' * t) (pow-suc 2 k)) in
      let below : (n : ℕ) → n < 2 ^ suc k → n / 2 < 2 ^ k = λ n b. omega (arith, pow-suc 2 k) in
      let r : op h h' * 2 ^ suc k ≡ op h h' * 2 ^ k * 2 =
        omega (arith, ap (λ (t : ℕ). op h h' * t) (pow-suc 2 k)) in
      let half : (h * 2 ^ suc k + l) / 2 ≡ h * 2 ^ k + l / 2 = omega arith in
      let half' : (h' * 2 ^ suc k + l') / 2 ≡ h' * 2 ^ k + l' / 2 = omega arith in
      let low : (h * 2 ^ suc k + l) % 2 ≡ l % 2 = omega arith in
      let low' : (h' * 2 ^ suc k + l') % 2 ≡ l' % 2 = omega arith in
      step (h * 2 ^ suc k + l) (h' * 2 ^ suc k + l')
      ∙ rw (half, half', low, low')
          (omega
            (arith, digits_split k h (l / 2) h' (l' / 2) (below l p) (below l' q) o, step l l'))

bit_and_split :
    (k h l h' l' : ℕ)
    → l < 2 ^ k
    → l' < 2 ^ k
    → bit_and (h * 2 ^ k + l) (h' * 2 ^ k + l') ≡ bit_and h h' * 2 ^ k + bit_and l l'
bit_and_split k h l h' l' p q =
    digits_split bit_and min (lowest_apart bit_and min bit_at-bit_and) k h l h' l' p q refl

bit_or_split :
    (k h l h' l' : ℕ)
    → l < 2 ^ k
    → l' < 2 ^ k
    → bit_or (h * 2 ^ k + l) (h' * 2 ^ k + l') ≡ bit_or h h' * 2 ^ k + bit_or l l'
bit_or_split k h l h' l' p q =
    digits_split bit_or max (lowest_apart bit_or max bit_at-bit_or) k h l h' l' p q refl

pub bit_and-zero : (a : ℕ) → bit_and a 0 ≡ 0
bit_and-zero a = bits_eq (bit_and a 0) 0 λ i. omega (arith, bit_at-bit_and i a 0, bit_at-zero i)

pub bit_or-zero : (a : ℕ) → bit_or a 0 ≡ a
bit_or-zero a = bits_eq (bit_or a 0) a λ i. omega (arith, bit_at-bit_or i a 0, bit_at-zero i)

-- A mask of `k` ones keeps a number of `k` digits.
bit_and-ones : (k a : ℕ) → a < 2 ^ k → bit_and a (2 ^ k - 1) ≡ a
bit_and-ones zero a h = let e : a ≡ 0 = omega arith in rw e refl
bit_and-ones (suc k) a h =
    let half : (2 ^ suc k - 1) / 2 ≡ 2 ^ k - 1 = omega (arith, pow-suc 2 k, one-le-pow k 2) in
    let low : (2 ^ suc k - 1) % 2 ≡ 1 = omega (arith, pow-suc 2 k, one-le-pow k 2) in
    lowest_apart bit_and min bit_at-bit_and a (2 ^ suc k - 1)
    ∙ rw (half, low) (omega (arith, bit_and-ones k (a / 2) (omega (arith, pow-suc 2 k))))

-- `x & ~(2 ^ 18 - 1)`, `x & 255`, `x & 1` and `x & 3`.
pub bit_and-section_mask : (x : ℕ) → x < word → bit_and x (word - 2 ^ 18) ≡ x / 2 ^ 18 * 2 ^ 18
bit_and-section_mask x h =
    let e : x / 2 ^ 18 * 2 ^ 18 + x % 2 ^ 18 ≡ x = omega arith in
    ap (λ t. bit_and t (word - 2 ^ 18)) (sym e)
    ∙ bit_and_split 18 (x / 2 ^ 18) (x % 2 ^ 18) (2 ^ 46 - 1) 0 (omega arith) (omega arith)
    ∙ rw (bit_and-ones 46 (x / 2 ^ 18) (omega arith), bit_and-zero) (omega arith)

pub bit_and-low : (k x : ℕ) → bit_and (x / 2 ^ k * 2 ^ k + x % 2 ^ k) (2 ^ k - 1) ≡ x % 2 ^ k
bit_and-low k x =
    let lt : x % 2 ^ k < 2 ^ k = omega (arith, one-le-pow k 2) in
    let e : 0 * 2 ^ k + (2 ^ k - 1) ≡ 2 ^ k - 1 = omega arith in
    ap (λ t. bit_and (x / 2 ^ k * 2 ^ k + x % 2 ^ k) t) (sym e)
    ∙ bit_and_split k (x / 2 ^ k) (x % 2 ^ k) 0 (2 ^ k - 1) lt (omega (arith, one-le-pow k 2))
    ∙ rw (bit_and-ones k (x % 2 ^ k) lt, bit_and-zero) (omega arith)

pub bit_and-root_mask : (x : ℕ) → bit_and x 0xff ≡ x % 256
bit_and-root_mask x =
    let e : x / 2 ^ 8 * 2 ^ 8 + x % 2 ^ 8 ≡ x = omega arith in
    ap (λ t. bit_and t 0xff) (sym e) ∙ bit_and-low 8 x

pub bit_and-one : (x : ℕ) → bit_and x 1 ≡ x % 2
bit_and-one x =
    let e : x / 2 ^ 1 * 2 ^ 1 + x % 2 ^ 1 ≡ x = omega arith in
    ap (λ t. bit_and t 1) (sym e) ∙ bit_and-low 1 x

pub bit_and-three : (x : ℕ) → bit_and x 3 ≡ x % 4
bit_and-three x =
    let e : x / 2 ^ 2 * 2 ^ 2 + x % 2 ^ 2 ≡ x = omega arith in
    ap (λ t. bit_and t 3) (sym e) ∙ bit_and-low 2 x

-- Flags below bit 2 beside a number above it.
pub bit_or-flags :
    (h l h' l' : ℕ)
    → l < 4
    → l' < 4
    → bit_or (h * 4 + l) (h' * 4 + l') ≡ bit_or h h' * 4 + bit_or l l'
bit_or-flags h l h' l' p q = bit_or_split 2 h l h' l' p q

pub zero-bit_or : (a : ℕ) → bit_or 0 a ≡ a
zero-bit_or a = bits_eq (bit_or 0 a) a λ i. omega (arith, bit_at-bit_or i 0 a, bit_at-zero i)

pub bit_or-nid_flag : (nid : ℕ) → bit_or (nid * 4) 1 ≡ nid * 4 + 1
bit_or-nid_flag nid =
    let e : nid * 4 + 0 ≡ nid * 4 = omega arith in
    ap (λ t. bit_or t 1) (sym e)
    ∙ bit_or-flags nid 0 0 1 (omega arith) (omega arith)
    ∙ rw (bit_or-zero nid, zero-bit_or) refl

-- What was not 0 stays so.
pub bit_or-ne_zero : (a b : ℕ) → a ≢ 0 → bit_or a b ≢ 0
bit_or-ne_zero a b h e = h (
    bits_eq a 0
      λ i. omega (arith, bit_at-bit_or i a b, ap (λ (x : ℕ). bit_at i x) e, bit_at-zero i))
