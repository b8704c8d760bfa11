-- ===== src/Timer/Inv.antt =====
-- The invariant of the wheel: every timer stands where the wheel comes round to it in time.
use study_notes.Common.{
  ℕ, ◌+◌, ◌≤◌, ◌<◌, ◌≡◌, ◌≢◌, refl, List, [], ◌∷◌, ◌++◌, true, ◌⊎◌, inl, inr, ◌==◌, Bool-cases,
  arith,
}
use study_notes.Timer.Wheel.{
  Timer, Tv, tv1, tv2, tv3, tv4, tv5, same_tv, Base, write, slot, put, put_all,
}
use study_notes.Timer.Slots.{horizon, In, slot-In}

-- Every timer of a list satisfies `P`.
abbrev pub All : (Timer → Type 0) → List Timer → Type 0
All P [] = Unit {0}
All P (t ∷ ts) = P t × All P ts

pub All-append : (P : Timer → Type 0) (xs ys : List Timer) → All P xs → All P ys → All P (xs ++ ys)
All-append P [] ys h k = k
All-append P (x ∷ xs) ys h k = (h.0, All-append P xs ys h.1 k)

pub All-map :
    (P Q : Timer → Type 0) (xs : List Timer) → ((t : Timer) → P t → Q t) → All P xs → All Q xs
All-map P Q [] f h = tt
All-map P Q (x ∷ xs) f h = (f x h.0, All-map P Q xs f h.1)

pub All-both :
    (P Q R : Timer → Type 0) (xs : List Timer)
    → ((t : Timer) → P t → Q t → R t)
    → All P xs
    → All Q xs
    → All R xs
All-both P Q R [] f h k = tt
All-both P Q R (x ∷ xs) f h k = (f x h.0 k.0, All-both P Q R xs f h.1 k.1)

abbrev pub Fits : ℕ → ℕ → Tv → ℕ → Timer → Type 0
Fits now c k i t = (t.expires < horizon) × In now c k i t.expires

-- `c k` is the time up to which level `k` has been cascaded: the wheel's time or the jiffy behind it.
pub record Wheel (c : Tv → ℕ) (b : Base) : Type 0 where
  pub time : b.timer_jiffies < horizon
  pub low : (k : Tv) → b.timer_jiffies ≤ c k
  pub high : (k : Tv) → c k ≤ b.timer_jiffies + 1
  pub lists : (k : Tv) (i : ℕ) → All (Fits b.timer_jiffies (c k) k i) (b.tv k i)

pub same_tv-eq : (k k' : Tv) → same_tv k k' ≡ true → k ≡ k'
same_tv-eq tv1 tv1 h = refl
same_tv-eq tv2 tv2 h = refl
same_tv-eq tv3 tv3 h = refl
same_tv-eq tv4 tv4 h = refl
same_tv-eq tv5 tv5 h = refl
same_tv-eq tv1 tv2 h = cc
same_tv-eq tv1 tv3 h = cc
same_tv-eq tv1 tv4 h = cc
same_tv-eq tv1 tv5 h = cc
same_tv-eq tv2 tv1 h = cc
same_tv-eq tv2 tv3 h = cc
same_tv-eq tv2 tv4 h = cc
same_tv-eq tv2 tv5 h = cc
same_tv-eq tv3 tv1 h = cc
same_tv-eq tv3 tv2 h = cc
same_tv-eq tv3 tv4 h = cc
same_tv-eq tv3 tv5 h = cc
same_tv-eq tv4 tv1 h = cc
same_tv-eq tv4 tv2 h = cc
same_tv-eq tv4 tv3 h = cc
same_tv-eq tv4 tv5 h = cc
same_tv-eq tv5 tv1 h = cc
same_tv-eq tv5 tv2 h = cc
same_tv-eq tv5 tv3 h = cc
same_tv-eq tv5 tv4 h = cc

pub same_tv_refl : (k : Tv) → same_tv k k ≡ true
same_tv_refl tv1 = refl
same_tv_refl tv2 = refl
same_tv_refl tv3 = refl
same_tv_refl tv4 = refl
same_tv_refl tv5 = refl

pub ==_refl : (i : ℕ) → (i == i) ≡ true
==_refl i = ground arith

-- A list of the wheel after one has been replaced.
pub write-cases :
    (f : Tv → ℕ → List Timer) (k : Tv) (i : ℕ) (l : List Timer) (k' : Tv) (i' : ℕ)
    → ((k ≡ k') × (i ≡ i') × (write f k i l k' i' ≡ l))
      ⊎ ((k ≡ k' → i ≢ i') × (write f k i l k' i' ≡ f k' i'))
write-cases f k i l k' i' = elim (Bool-cases (same_tv k k')) [
  | inl e ↦ elim (Bool-cases (i == i')) [
    | inl x ↦ inl (same_tv-eq k k' e, ground arith, rw (e, x) refl)
    | inr x ↦ inr (λ _ h. ground arith, rw (e, x) refl)
  ]
  | inr e ↦ inr ((λ h _. cc (same_tv_refl k)), rw e refl)
]

-- To show something of every list, show it of the new one and of the others.
pub write-All :
    (P : Tv → ℕ → Timer → Type 0) (f : Tv → ℕ → List Timer) (k : Tv) (i : ℕ) (l : List Timer)
    → All (P k i) l
    → ((k' : Tv) (i' : ℕ) → (k ≡ k' → i ≢ i') → All (P k' i') (f k' i'))
    → (k' : Tv) (i' : ℕ) → All (P k' i') (write f k i l k' i')
write-All P f k i l new old k' i' = elim (write-cases f k i l k' i') [
  | inl (e, x, h) ↦ rw (h, ← e, ← x) new
  | inr (n, h) ↦ rw h (old k' i' n)
]

pub put-Wheel :
    (c : Tv → ℕ) (b : Base) (t : Timer) → t.expires < horizon → Wheel c b → Wheel c (put b t)
unfolding put
put-Wheel c b t e w = record {
  time = w.time;
  low = w.low;
  high = w.high;
  lists =
      write-All (λ k i. Fits b.timer_jiffies (c k) k i) b.tv at.0 at.1 (b.tv at.0 at.1 ++ t ∷ [])
        (All-append (Fits b.timer_jiffies (c at.0) at.0 at.1) (b.tv at.0 at.1) (t ∷ [])
          (w.lists at.0 at.1)
          ((e, slot-In b.timer_jiffies (c at.0) t.expires w.time e (w.low at.0) (w.high at.0)), tt))
        (λ k' i' _. w.lists k' i');
}
  where
    at : Tv × ℕ
    at = slot b.timer_jiffies t.expires

pub put_all-Wheel :
    (c : Tv → ℕ) (b : Base) (ts : List Timer)
    → All (λ t. t.expires < horizon) ts
    → Wheel c b
    → Wheel c (put_all b ts)
unfolding put_all
put_all-Wheel c b [] h w = w
put_all-Wheel c b (t ∷ ts) h w = put_all-Wheel c (put b t) ts h.1 (put-Wheel c b t h.0 w)
