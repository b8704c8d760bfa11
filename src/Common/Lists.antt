-- ===== src/Common/Lists.antt =====
-- C arrays as lists with native indices: reads, insertion by `memmove`, removal by `memmove`.
use Prim.Native.Nat.{ℕ, zero, suc, ◌+◌, ◌<◌}
use mathlib.Core.Path.{◌≡◌, refl, ap}
use mathlib.Core.List.{List, [], ◌∷◌, ◌++◌}
use mathlib.Core.Option.{Option, none, some}
use native.Mathlib.Omega.{arith}

module _ {ℓ} {A : Type ℓ} where
  abbrev pub length : List A → ℕ
  length [] = 0
  length (x ∷ xs) = suc (length xs)

  abbrev pub get_elem? : List A → ℕ → Option A
  get_elem? [] i = none
  get_elem? (x ∷ xs) zero = some x
  get_elem? (x ∷ xs) (suc i) = get_elem? xs i

  -- A write out of bounds changes nothing.
  abbrev pub set : List A → ℕ → A → List A
  set [] i v = []
  set (x ∷ xs) zero v = v ∷ xs
  set (x ∷ xs) (suc i) v = x ∷ set xs i v

  -- `memmove(a + i + 1, a + i, ...)`, then a write of `v` at `i`.
  abbrev pub insert_at : List A → ℕ → A → List A
  insert_at xs zero v = v ∷ xs
  insert_at [] (suc i) v = v ∷ []
  insert_at (x ∷ xs) (suc i) v = x ∷ insert_at xs i v

  -- `memmove(a + i, a + i + 1, ...)`.
  abbrev pub remove_at : List A → ℕ → List A
  remove_at [] i = []
  remove_at (x ∷ xs) zero = xs
  remove_at (x ∷ xs) (suc i) = x ∷ remove_at xs i

  pub length-append : (xs ys : List A) → length (xs ++ ys) ≡ length xs + length ys
  length-append [] ys = omega arith
  length-append (x ∷ xs) ys = omega (arith, length-append xs ys)

  -- What stands just behind a prefix.
  pub get_elem?-append : (xs ys : List A) (v : A) → get_elem? (xs ++ v ∷ ys) (length xs) ≡ some v
  get_elem?-append [] ys v = refl
  get_elem?-append (x ∷ xs) ys v = get_elem?-append xs ys v

  pub get_elem?-end : (xs : List A) → get_elem? xs (length xs) ≡ none
  get_elem?-end [] = refl
  get_elem?-end (x ∷ xs) = get_elem?-end xs

  pub set-append : (xs ys : List A) (u v : A) → set (xs ++ u ∷ ys) (length xs) v ≡ xs ++ v ∷ ys
  set-append [] ys u v = refl
  set-append (x ∷ xs) ys u v = ap (λ l. x ∷ l) (set-append xs ys u v)

  pub insert_at-append :
      (xs ys : List A) (v : A) → insert_at (xs ++ ys) (length xs) v ≡ xs ++ v ∷ ys
  insert_at-append [] ys v = refl
  insert_at-append (x ∷ xs) ys v = ap (λ l. x ∷ l) (insert_at-append xs ys v)

  pub remove_at-append : (xs ys : List A) (v : A) → remove_at (xs ++ v ∷ ys) (length xs) ≡ xs ++ ys
  remove_at-append [] ys v = refl
  remove_at-append (x ∷ xs) ys v = ap (λ l. x ∷ l) (remove_at-append xs ys v)

  pub append-snoc : (xs : List A) (v : A) (ys : List A) → xs ++ v ∷ ys ≡ (xs ++ v ∷ []) ++ ys
  append-snoc [] v ys = refl
  append-snoc (x ∷ xs) v ys = ap (λ l. x ∷ l) (append-snoc xs v ys)

  pub length-snoc : (xs : List A) (v : A) → length (xs ++ v ∷ []) ≡ suc (length xs)
  length-snoc [] v = refl
  length-snoc (x ∷ xs) v = ap suc (length-snoc xs v)

  pub nil_of_length : (xs : List A) → length xs ≡ 0 → xs ≡ []
  nil_of_length [] h = refl
  nil_of_length (x ∷ xs) h = absurd (omega arith)

  pub append_assoc : (xs ys zs : List A) → (xs ++ ys) ++ zs ≡ xs ++ (ys ++ zs)
  append_assoc [] ys zs = refl
  append_assoc (x ∷ xs) ys zs = ap (λ l. x ∷ l) (append_assoc xs ys zs)

  pub append-nil : (xs : List A) → xs ++ [] ≡ xs
  append-nil [] = refl
  append-nil (x ∷ xs) = ap (λ l. x ∷ l) (append-nil xs)

  pub length-set : (xs : List A) (i : ℕ) (v : A) → length (set xs i v) ≡ length xs
  length-set [] i v = refl
  length-set (x ∷ xs) zero v = refl
  length-set (x ∷ xs) (suc i) v = ap suc (length-set xs i v)

  -- The last element of a list that is not empty.
  pub unsnoc : (xs : List A) → 0 < length xs → (ys : List A) × (y : A) × (xs ≡ ys ++ y ∷ [])
  unsnoc [] h = absurd (omega arith)
  unsnoc (x ∷ []) h = ([], x, refl)
  unsnoc (x ∷ x' ∷ xs) h =
      let (ys, y, e) = unsnoc (x' ∷ xs) (omega arith) in (x ∷ ys, y, ap (λ l. x ∷ l) e)
