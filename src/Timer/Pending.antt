-- ===== src/Timer/Pending.antt =====
-- Which timers stand in the wheel: moving them loses none and invents none.
use study_notes.Common.{
  ℕ, ◌%◌, ◌^◌, ◌<◌, ◌≡◌, refl, List, [], ◌∷◌, ◌++◌, ◌⊎◌, inl, inr, ◌==◌, Bool-cases, arith,
}
use study_notes.Timer.Wheel.{
  Timer, Tv, tv2, tv3, Base, write, slot, put, put_all, cascade, cascades, cascades3, cascades4,
  index0, index1, index2,
}
use study_notes.Timer.Inv.{All, All-append, write-All, write-cases, same_tv_refl, ==_refl}

abbrev pub Member : Timer → List Timer → Type 0
Member t [] = ⊥
Member t (x ∷ xs) = (t ≡ x) ⊎ Member t xs

-- `timer_pending`: the timer stands in some list of the wheel.
abbrev pub Pending : Timer → Base → Type 0
Pending t b = (k : Tv) × (i : ℕ) × Member t (b.tv k i)

-- Every timer of the wheel satisfies `P`.
abbrev pub Every : (Timer → Type 0) → Base → Type 0
Every P b = (k : Tv) (i : ℕ) → All P (b.tv k i)

pub All-Member : (P : Timer → Type 0) (xs : List Timer) (t : Timer) → All P xs → Member t xs → P t
All-Member P [] t h m = absurd m
All-Member P (x ∷ xs) t h (inl e) = rw e h.0
All-Member P (x ∷ xs) t h (inr m) = All-Member P xs t h.1 m

pub Member-All :
    (P : Timer → Type 0) (xs : List Timer) → ((t : Timer) → Member t xs → P t) → All P xs
Member-All P [] f = tt
Member-All P (x ∷ xs) f = (f x (inl refl), Member-All P xs (λ t m. f t (inr m)))

Member-left : (t : Timer) (xs ys : List Timer) → Member t xs → Member t (xs ++ ys)
Member-left t [] ys h = absurd h
Member-left t (x ∷ xs) ys (inl e) = inl e
Member-left t (x ∷ xs) ys (inr h) = inr (Member-left t xs ys h)

Member-last : (t : Timer) (xs : List Timer) → Member t (xs ++ t ∷ [])
Member-last t [] = inl refl
Member-last t (x ∷ xs) = inr (Member-last t xs)

pub write-there :
    (f : Tv → ℕ → List Timer) (k : Tv) (i : ℕ) (l : List Timer) → write f k i l k i ≡ l
write-there f k i l = rw (same_tv_refl k, ==_refl i) refl

pub put-adds : (b : Base) (t : Timer) → Pending t (put b t)
unfolding put
put-adds b t = (
  at.0,
  at.1,
  rw (write-there b.tv at.0 at.1 (b.tv at.0 at.1 ++ t ∷ [])) (Member-last t (b.tv at.0 at.1)),
)
  where
    at : Tv × ℕ
    at = slot b.timer_jiffies t.expires

pub put-keeps : (b : Base) (x t : Timer) → Pending t b → Pending t (put b x)
unfolding put
put-keeps b x t (k, i, h) = (
  k,
  i,
  elim (write-cases b.tv at.0 at.1 (b.tv at.0 at.1 ++ x ∷ []) k i) [
    | inl (e, z, w) ↦ rw (w, e, z) (Member-left t (b.tv k i) (x ∷ []) h)
    | inr (n, w) ↦ rw w h
  ],
)
  where
    at : Tv × ℕ
    at = slot b.timer_jiffies x.expires

put_all-keeps : (b : Base) (ts : List Timer) (t : Timer) → Pending t b → Pending t (put_all b ts)
unfolding put_all
put_all-keeps b [] t h = h
put_all-keeps b (x ∷ ts) t h = put_all-keeps (put b x) ts t (put-keeps b x t h)

put_all-adds : (b : Base) (ts : List Timer) (t : Timer) → Member t ts → Pending t (put_all b ts)
unfolding put_all
put_all-adds b [] t h = absurd h
put_all-adds b (x ∷ ts) t (inl e) = put_all-keeps (put b x) ts t (rw e (put-adds b x))
put_all-adds b (x ∷ ts) t (inr h) = put_all-adds (put b x) ts t h

cascade-keeps : (b : Base) (k : Tv) (i : ℕ) (t : Timer) → Pending t b → Pending t (cascade b k i)
unfolding cascade
cascade-keeps b k i t (k', i', h) = elim (write-cases b.tv k i [] k' i') [
  | inl (e, z, w) ↦ put_all-adds (record b { tv = write b.tv k i [] }) (b.tv k i) t (rw (e, z) h)
  | inr (n, w) ↦ put_all-keeps (record b { tv = write b.tv k i [] }) (b.tv k i) t (k', i', rw w h)
]

pub put-Every : (P : Timer → Type 0) (b : Base) (t : Timer) → P t → Every P b → Every P (put b t)
unfolding put
put-Every P b t p h =
    write-All (λ k i. P) b.tv at.0 at.1 (b.tv at.0 at.1 ++ t ∷ [])
      (All-append P (b.tv at.0 at.1) (t ∷ []) (h at.0 at.1) (p, tt)) (λ k i _. h k i)
  where
    at : Tv × ℕ
    at = slot b.timer_jiffies t.expires

put_all-Every :
    (P : Timer → Type 0) (b : Base) (ts : List Timer)
    → All P ts
    → Every P b
    → Every P (put_all b ts)
unfolding put_all
put_all-Every P b [] q h = h
put_all-Every P b (t ∷ ts) q h = put_all-Every P (put b t) ts q.1 (put-Every P b t q.0 h)

cascade-Every :
    (P : Timer → Type 0) (b : Base) (k : Tv) (i : ℕ) → Every P b → Every P (cascade b k i)
unfolding cascade
cascade-Every P b k i h =
    put_all-Every P (record b { tv = write b.tv k i [] }) (b.tv k i) (h k i)
      (write-All (λ k i. P) b.tv k i [] tt (λ k' i' _. h k' i'))

-- What every cascade keeps, a round of cascades keeps.
pub kept_by_cascades :
    (Q : Base → Type 0)
    → ((b : Base) (k : Tv) (i : ℕ) → i < 64 → Q b → Q (cascade b k i))
    → (b : Base) → Q b
    → Q (cascades b)
unfolding cascades cascades3 cascades4
kept_by_cascades Q f b q = elim (Bool-cases (b.timer_jiffies % 2 ^ 8 == 0)) [
  | inr r ↦ rw r q
  | inl r ↦ elim (Bool-cases (index0 b == 0)) [
    | inr e0 ↦ rw (r, e0) (f _ _ _ (omega arith) q)
    | inl e0 ↦ elim (Bool-cases (index1 b1 == 0)) [
      | inr e1 ↦ rw (r, e0, e1) (f _ _ _ (omega arith) (f _ _ _ (omega arith) q))
      | inl e1 ↦ elim (Bool-cases (index2 b2 == 0)) [
        | inr e2 ↦
            rw (r, e0, e1, e2)
              (f _ _ _ (omega arith) (f _ _ _ (omega arith) (f _ _ _ (omega arith) q)))
        | inl e2 ↦
            rw (r, e0, e1, e2)
              (f _ _ _ (omega arith)
                (f _ _ _ (omega arith) (f _ _ _ (omega arith) (f _ _ _ (omega arith) q))))
      ]
    ]
  ]
]
  where
    b1 : Base
    b1 = cascade b tv2 (index0 b)

    b2 : Base
    b2 = cascade b1 tv3 (index1 b1)

pub cascades-keeps : (b : Base) (t : Timer) → Pending t b → Pending t (cascades b)
cascades-keeps b t h = kept_by_cascades (Pending t) (λ b' k i _ q. cascade-keeps b' k i t q) b h

pub cascades-Every : (P : Timer → Type 0) (b : Base) → Every P b → Every P (cascades b)
cascades-Every P b h = kept_by_cascades (Every P) (λ b' k i _ q. cascade-Every P b' k i q) b h
