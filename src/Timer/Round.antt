-- ===== src/Timer/Round.antt =====
-- The cascades of a round: afterwards the wheel is ready for the next jiffy.
use study_notes.Common.{
  ℕ, ◌+◌, ◌/◌, ◌%◌, ◌^◌, ◌≡◌, ◌≢◌, ◌∙◌, refl, sym, subst, List, [], ◌∷◌, inl, inr, ◌==◌, Bool-cases,
  arith,
}
use study_notes.Timer.Wheel.{
  Timer, Tv, tv2, tv3, tv4, tv5, Base, write, put, put_all, cascade, cascades, cascades3, cascades4,
  index0, index1, index2,
}
use study_notes.Timer.Inv.{Wheel}
use study_notes.Timer.Cascade.{unit, raise, idle-Wheel, cascade-Wheel}

put-time : (b : Base) (t : Timer) → (put b t).timer_jiffies ≡ b.timer_jiffies
unfolding put
put-time b t = refl

put_all-time : (b : Base) (ts : List Timer) → (put_all b ts).timer_jiffies ≡ b.timer_jiffies
unfolding put_all
put_all-time b [] = refl
put_all-time b (t ∷ ts) = put_all-time (put b t) ts ∙ put-time b t

cascade-time : (b : Base) (k : Tv) (i : ℕ) → (cascade b k i).timer_jiffies ≡ b.timer_jiffies
unfolding cascade
cascade-time b k i = put_all-time (record b { tv = write b.tv k i [] }) (b.tv k i)

-- The wheel at the time `now`, with its levels cascaded up to `c`.
abbrev pub At : ℕ → (Tv → ℕ) → Base → Type 0
At now c b = (b.timer_jiffies ≡ now) × Wheel c b

idle-At :
    (now : ℕ) (c : Tv → ℕ) (b : Base) (k : Tv)
    → c k ≡ now
    → now % unit k ≢ 0
    → At now c b
    → At now (raise c k (now + 1)) b
idle-At now c b k e n (h, w) =
    (h, subst (λ x. Wheel (raise c k (x + 1)) b) h (idle-Wheel c b k (e ∙ sym h) (rw h n) w))

cascade-At :
    (now : ℕ) (c : Tv → ℕ) (b : Base) (k : Tv) (i : ℕ)
    → c k ≡ now
    → i ≡ now / unit k % 64
    → At now c b
    → At now (raise c k (now + 1)) (cascade b k i)
cascade-At now c b k i e x (h, w) = (
  cascade-time b k i ∙ h,
  rw x (
      subst (λ z. Wheel (raise c k (z + 1)) (cascade b k (z / unit k % 64))) h
        (cascade-Wheel c b k (e ∙ sym h) w)),
)

cascades4-At :
    (now : ℕ) (c : Tv → ℕ) (b : Base)
    → c tv4 ≡ now
    → c tv5 ≡ now
    → At now c b
    → At now (raise (raise c tv4 (now + 1)) tv5 (now + 1)) (cascades4 b)
unfolding cascades4
cascades4-At now c b x y a =
    let a' = cascade-At now c b tv4 (index2 b) x (omega (arith, a.0)) a in
    elim (Bool-cases (index2 b == 0)) [
      | inl e ↦ rw e (cascade-At now _ _ tv5 _ y (omega (arith, a.0)) a')
      | inr e ↦ rw e (idle-At now _ _ tv5 y (λ z. ground (arith, a.0)) a')
    ]

cascades3-At :
    (now : ℕ) (c : Tv → ℕ) (b : Base)
    → c tv3 ≡ now
    → c tv4 ≡ now
    → c tv5 ≡ now
    → At now c b
    → At now (raise (raise (raise c tv3 (now + 1)) tv4 (now + 1)) tv5 (now + 1)) (cascades3 b)
unfolding cascades3
cascades3-At now c b x y z a =
    let a' = cascade-At now c b tv3 (index1 b) x (omega (arith, a.0)) a in
    elim (Bool-cases (index1 b == 0)) [
      | inl e ↦ rw e (cascades4-At now _ _ y z a')
      | inr e ↦ rw e (
          idle-At now _ _ tv5 z (λ h. ground (arith, a.0))
            (idle-At now _ _ tv4 y (λ h. ground (arith, a.0)) a'))
    ]

-- All levels at `v`, one after the other.
abbrev pub raised : (Tv → ℕ) → ℕ → Tv → ℕ
raised c v = raise (raise (raise (raise c tv2 v) tv3 v) tv4 v) tv5 v

pub cascades-At :
    (now : ℕ) (c : Tv → ℕ) (b : Base)
    → ((k : Tv) → c k ≡ now)
    → At now c b
    → At now (raised c (now + 1)) (cascades b)
unfolding cascades
cascades-At now c b f a = elim (Bool-cases (b.timer_jiffies % 2 ^ 8 == 0)) [
  | inr e ↦ rw e (
      idle-At now _ _ tv5 (f tv5) (λ h. ground (arith, a.0))
        (idle-At now _ _ tv4 (f tv4) (λ h. ground (arith, a.0))
          (idle-At now _ _ tv3 (f tv3) (λ h. ground (arith, a.0))
            (idle-At now _ _ tv2 (f tv2) (λ h. ground (arith, a.0)) a))))
  | inl r ↦
      let a' = cascade-At now c b tv2 (index0 b) (f tv2) (omega (arith, a.0)) a in
      elim (Bool-cases (index0 b == 0)) [
        | inl e ↦ rw (r, e) (cascades3-At now _ _ (f tv3) (f tv4) (f tv5) a')
        | inr e ↦
            rw (r, e)
              (idle-At now _ _ tv5 (f tv5) (λ h. ground (arith, a.0))
                (idle-At now _ _ tv4 (f tv4) (λ h. ground (arith, a.0))
                  (idle-At now _ _ tv3 (f tv3) (λ h. ground (arith, a.0)) a')))
      ]
]

pub Wheel-ext : (c c' : Tv → ℕ) (b : Base) → ((k : Tv) → c k ≡ c' k) → Wheel c b → Wheel c' b
Wheel-ext c c' b f w = record {
  time = w.time;
  low = λ k. rw (← f k) (w.low k);
  high = λ k. rw (← f k) (w.high k);
  lists = λ k i. rw (← f k) (w.lists k i);
}
