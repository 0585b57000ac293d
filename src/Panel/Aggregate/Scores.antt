-- ===== src/Panel/Aggregate/Scores.antt =====
-- The scores of a heading in `aggregateMemoPanel` of app/worker/src/panel.js: their bounds, their median and
-- the score that is decided on.
use sonsteng_magnum_opus.Prelude.{
  ℕ, ◌-◌, Bool, true, false, ◌||◌, any, nat_beq, nat_beq_iff, if_case, ◌≤◌, ◌<◌, ◌≡◌, refl,
  string_eq, Option, none, some, List, [], ◌∷◌, length, count, All, leb, arith, inl, inr,
  Bool-cases,
}
use sonsteng_magnum_opus.Prelude.Value.{
  Value, undefined, null, object, fraction, bool, nat, negative, text,
}
use sonsteng_magnum_opus.Panel.Median.{
  discrete_median, discrete_median_halves, AtLeast, AtLeast-weaken,
}
use sonsteng_magnum_opus.Panel.Aggregate.{min_of, max_of, constrain, judged, judge}

abbrev pub AtMost : ℕ → List ℕ → Type 0
AtMost m xs = All (λ (y : ℕ). y ≤ m) xs

AtMost-weaken : (m n : ℕ) (xs : List ℕ) → n ≤ m → AtMost n xs → AtMost m xs
AtMost-weaken m n [] h a = tt
AtMost-weaken m n (x ∷ xs) h a = (omega (arith, a.0), AtMost-weaken m n xs h a.1)

pub min_of-AtLeast : (xs : List ℕ) → AtLeast (min_of xs) xs
unfolding min_of
min_of-AtLeast [] = tt
min_of-AtLeast (x ∷ []) = (omega arith, tt)
min_of-AtLeast (x ∷ y ∷ ys) = (
  ground arith,
  AtLeast-weaken (min_of (x ∷ y ∷ ys)) (min_of (y ∷ ys)) (y ∷ ys) (ground arith)
      (min_of-AtLeast (y ∷ ys)),
)

pub max_of-AtMost : (xs : List ℕ) → AtMost (max_of xs) xs
unfolding max_of
max_of-AtMost [] = tt
max_of-AtMost (x ∷ xs) =
    (ground arith, AtMost-weaken (max_of (x ∷ xs)) (max_of xs) xs (ground arith) (max_of-AtMost xs))

some_below :
    (low m : ℕ) (xs : List ℕ) → AtLeast low xs → 0 < count (λ (y : ℕ). leb y m) xs → low ≤ m
some_below low m [] a h = absurd (omega (arith, h))
some_below low m (x ∷ xs) a h = elim (Bool-cases (leb x m)) [
  | inl under ↦ ground (arith, under, a.0)
  | inr over ↦ some_below low m xs a.1 (ground (arith, h, over))
]

some_above :
    (high m : ℕ) (xs : List ℕ) → AtMost high xs → 0 < count (λ (y : ℕ). leb m y) xs → m ≤ high
some_above high m [] a h = absurd (omega (arith, h))
some_above high m (x ∷ xs) a h = elim (Bool-cases (leb m x)) [
  | inl over ↦ ground (arith, over, a.0)
  | inr under ↦ some_above high m xs a.1 (ground (arith, h, under))
]

pub median_within :
    (xs : List ℕ)
    → 0 < length xs
    → (min_of xs ≤ discrete_median xs) × (discrete_median xs ≤ max_of xs)
median_within xs h =
    let m = discrete_median xs in
    let (lower, upper) = discrete_median_halves xs h in
    (
      some_below (min_of xs) m xs (min_of-AtLeast xs) (omega (arith, lower, h)),
      some_above (max_of xs) m xs (max_of-AtMost xs) (omega (arith, upper)),
    )

-- A score between the bounds, or none.
abbrev Within : ℕ → ℕ → Option (Value × ℕ) → Type 0
Within low high none = Unit
Within low high (some (v, n)) = (low ≤ n) × (n ≤ high)

constrain-Within :
    (low high : ℕ) (proposed : Option Value)
    → low ≤ high
    → Within low high (constrain low high proposed)
constrain-Within low high none h = tt
constrain-Within low high (some undefined) h = tt
constrain-Within low high (some null) h = tt
constrain-Within low high (some object) h = tt
constrain-Within low high (some fraction) h = tt
constrain-Within low high (some (bool b)) h = tt
constrain-Within low high (some (text t)) h = tt
constrain-Within low high (some (nat n)) h = (ground arith, ground arith)
constrain-Within low high (some (negative n)) h = (ground arith, ground arith)

judged-Within :
    (low high median : ℕ) (o : Option (Value × ℕ))
    → low ≤ median
    → median ≤ high
    → Within low high o
    → (low ≤ (judged median o).0) × ((judged median o).0 ≤ high)
judged-Within low high median none a b w = (a, b)
judged-Within low high median (some (v, n)) a b w = w

pub judge_within :
    (proposed : Option Value) (low high median : ℕ)
    → low ≤ median
    → median ≤ high
    → (low ≤ (judge proposed low high median).0)
      × ((judge proposed low high median).0 ≤ high)
      × (high - low < 2 → (judge proposed low high median).0 ≡ median)
judge_within proposed low high median a b =
    let o = constrain low high proposed in
    let (c, d) =
      judged-Within low high median o a b (constrain-Within low high proposed (omega arith)) in
    elim (Bool-cases (leb 2 (high - low))) [
      | inl wide ↦ rw wide (c, d, λ narrow. absurd (ground (arith, wide, narrow)))
      | inr narrow ↦ rw narrow (a, b, λ h. refl)
    ]

abbrev pub is_among : ℕ → List ℕ → Bool
is_among m xs = any (λ (x : ℕ). nat_beq x m) xs

one_of_either : (a b : Bool) → b ≡ true → (a || b) ≡ true
one_of_either true b h = refl
one_of_either false b h = h

self_among : (x : ℕ) (xs : List ℕ) → is_among x (x ∷ xs) ≡ true
self_among x xs = rw ((nat_beq_iff x x).1 refl) refl

-- The greatest of no scores is 0.
behind : (x : ℕ) (xs : List ℕ) → leb (max_of xs) x ≡ false → 0 < length xs
unfolding max_of
behind x [] h = absurd (ground (arith, h))
behind x (y ∷ ys) h = omega arith

pub min_of_among : (xs : List ℕ) → 0 < length xs → is_among (min_of xs) xs ≡ true
unfolding min_of
min_of_among [] h = absurd (omega (arith, h))
min_of_among (x ∷ []) h = self_among x []
min_of_among (x ∷ y ∷ ys) h =
    if_case (λ (m : ℕ). is_among m (x ∷ y ∷ ys) ≡ true) (leb x (min_of (y ∷ ys))) x
      (min_of (y ∷ ys)) (λ _. self_among x (y ∷ ys))
      (λ _. one_of_either (nat_beq x (min_of (y ∷ ys))) _ (min_of_among (y ∷ ys) (omega arith)))

pub max_of_among : (xs : List ℕ) → 0 < length xs → is_among (max_of xs) xs ≡ true
unfolding max_of
max_of_among [] h = absurd (omega (arith, h))
max_of_among (x ∷ xs) h =
    if_case (λ (m : ℕ). is_among m (x ∷ xs) ≡ true) (leb (max_of xs) x) x (max_of xs)
      (λ _. self_among x xs)
      (λ under. one_of_either (nat_beq x (max_of xs)) _ (max_of_among xs (behind x xs under)))

pub both :
    (low high : ℕ) (xs : List ℕ)
    → AtLeast low xs
    → AtMost high xs
    → All (λ (s : ℕ). (low ≤ s) × (s ≤ high)) xs
both low high [] a b = tt
both low high (x ∷ xs) a b = ((a.0, b.0), both low high xs a.1 b.1)
