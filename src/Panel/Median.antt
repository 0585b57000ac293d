-- ===== src/Panel/Median.antt =====
-- `discreteMedian` of app/worker/src/panel.js. `Array.prototype.sort` with a numeric comparison is an
-- insertion sort here: the order of equal numbers cannot be told apart.
use sonsteng_magnum_opus.Prelude.{
  ℕ, zero, suc, ◌+◌, ◌-◌, ◌*◌, ◌/◌, ◌≤◌, ◌<◌, ◌≡◌, refl, Bool, List, [], ◌∷◌, length, count, All,
  leb, if◌then◌else◌, arith, Bool-cases, inl, inr,
}

unfoldable pub insert : ℕ → List ℕ → List ℕ
insert x [] = x ∷ []
insert x (y ∷ ys) = let rest = insert x ys in if leb x y then x ∷ y ∷ ys else y ∷ rest

unfoldable pub ordered : List ℕ → List ℕ
unfolding insert
ordered [] = []
ordered (x ∷ xs) = insert x (ordered xs)

-- `xs[k]`, and 0 behind the end.
unfoldable pub score_at : ℕ → List ℕ → ℕ
score_at k [] = 0
score_at zero (x ∷ xs) = x
score_at (suc k) (x ∷ xs) = score_at k xs

-- Of an empty list the source takes the item -1, which is undefined; here it is 0.
unfoldable pub discrete_median : List ℕ → ℕ
unfolding ordered score_at
discrete_median scores = score_at ((length (ordered scores) - 1) / 2) (ordered scores)

abbrev IsSorted : List ℕ → Type 0
IsSorted [] = Unit
IsSorted (x ∷ xs) = All (λ (y : ℕ). x ≤ y) xs × IsSorted xs

abbrev pub AtLeast : ℕ → List ℕ → Type 0
AtLeast m xs = All (λ (y : ℕ). m ≤ y) xs

pub AtLeast-weaken : (m n : ℕ) (xs : List ℕ) → m ≤ n → AtLeast n xs → AtLeast m xs
AtLeast-weaken m n [] h a = tt
AtLeast-weaken m n (x ∷ xs) h a = (omega (arith, a.0), AtLeast-weaken m n xs h a.1)

AtLeast-insert : (m x : ℕ) (xs : List ℕ) → m ≤ x → AtLeast m xs → AtLeast m (insert x xs)
unfolding insert
AtLeast-insert m x [] h a = (h, tt)
AtLeast-insert m x (y ∷ ys) h a = elim (Bool-cases (leb x y)) [
  | inl before ↦ rw before (h, a)
  | inr behind ↦ rw behind (a.0, AtLeast-insert m x ys h a.1)
]

insert-IsSorted : (x : ℕ) (xs : List ℕ) → IsSorted xs → IsSorted (insert x xs)
unfolding insert
insert-IsSorted x [] s = (tt, tt)
insert-IsSorted x (y ∷ ys) s = elim (Bool-cases (leb x y)) [
  | inl before ↦
      let le : x ≤ y = ground (arith, before) in rw before ((le, AtLeast-weaken x y ys le s.0), s)
  | inr behind ↦
      rw behind (AtLeast-insert y x ys (ground (arith, behind)) s.0, insert-IsSorted x ys s.1)
]

ordered-IsSorted : (xs : List ℕ) → IsSorted (ordered xs)
unfolding ordered
ordered-IsSorted [] = tt
ordered-IsSorted (x ∷ xs) = insert-IsSorted x (ordered xs) (ordered-IsSorted xs)

count-insert : (p : ℕ → Bool) (x : ℕ) (xs : List ℕ) → count p (insert x xs) ≡ count p (x ∷ xs)
unfolding insert
count-insert p x [] = refl
count-insert p x (y ∷ ys) = ground (arith, count-insert p x ys)

count-ordered : (p : ℕ → Bool) (xs : List ℕ) → count p (ordered xs) ≡ count p xs
unfolding ordered
count-ordered p [] = refl
count-ordered p (x ∷ xs) = omega (arith, count-insert p x (ordered xs), count-ordered p xs)

length-insert : (x : ℕ) (xs : List ℕ) → length (insert x xs) ≡ suc (length xs)
unfolding insert
length-insert x [] = refl
length-insert x (y ∷ ys) = ground (arith, length-insert x ys)

length-ordered : (xs : List ℕ) → length (ordered xs) ≡ length xs
unfolding ordered
length-ordered [] = refl
length-ordered (x ∷ xs) = omega (arith, length-insert x (ordered xs), length-ordered xs)

count-AtLeast : (m : ℕ) (xs : List ℕ) → AtLeast m xs → count (λ (y : ℕ). leb m y) xs ≡ length xs
count-AtLeast m [] a = refl
count-AtLeast m (x ∷ xs) a = ground (arith, a.0, count-AtLeast m xs a.1)

AtLeast-score_at : (m k : ℕ) (xs : List ℕ) → AtLeast m xs → k < length xs → m ≤ score_at k xs
unfolding score_at
AtLeast-score_at m k [] a h = omega (arith, h)
AtLeast-score_at m zero (x ∷ xs) a h = a.0
AtLeast-score_at m (suc k) (x ∷ xs) a h = AtLeast-score_at m k xs a.1 (omega (arith, h))

-- Of a sorted list, k + 1 items are at most the item k, and all but k items are at least it.
below :
    (k : ℕ) (xs : List ℕ)
    → IsSorted xs
    → k < length xs
    → k + 1 ≤ count (λ (y : ℕ). leb y (score_at k xs)) xs
unfolding score_at
below k [] s h = omega (arith, h)
below zero (x ∷ xs) s h = ground arith
below (suc k) (x ∷ xs) s h =
    ground
      (arith, below k xs s.1 (omega (arith, h)), AtLeast-score_at x k xs s.0 (omega (arith, h)))

above :
    (k : ℕ) (xs : List ℕ)
    → IsSorted xs
    → k < length xs
    → length xs ≤ k + count (λ (y : ℕ). leb (score_at k xs) y) xs
unfolding score_at
above k [] s h = omega (arith, h)
above zero (x ∷ xs) s h = ground (arith, count-AtLeast x xs s.0)
above (suc k) (x ∷ xs) s h = ground (arith, above k xs s.1 (omega (arith, h)))

-- The median of scores is the lower median: at least half of the scores are at most it, more than
-- half of them are at least it.
pub discrete_median_halves :
    (scores : List ℕ)
    → 0 < length scores
    → let m = discrete_median scores in
      (length scores ≤ 2 * count (λ (y : ℕ). leb y m) scores)
      × (length scores < 2 * count (λ (y : ℕ). leb m y) scores)
unfolding discrete_median
discrete_median_halves scores h =
    let xs = ordered scores in
    let k = (length xs - 1) / 2 in
    let m = score_at k xs in
    let n = length-ordered scores in
    let s = ordered-IsSorted scores in
    (
      omega (arith, n, below k xs s (omega (arith, n)), count-ordered (λ (y : ℕ). leb y m) scores),
      omega (arith, n, above k xs s (omega (arith, n)), count-ordered (λ (y : ℕ). leb m y) scores),
    )
