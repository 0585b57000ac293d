-- ===== src/Prelude/Table.antt =====
-- An SQL table with a primary key, as a list of keys and rows: `SELECT … WHERE key=?`, the upsert
-- `INSERT … ON CONFLICT(key) DO UPDATE`, `UPDATE` and `DELETE … WHERE key=?`, and a sum over rows.
use sonsteng_magnum_opus.Prelude.Tests.{Option-cases, if◌then◌else◌}
use sonsteng_magnum_opus.Prelude.Eq.{Eq, ◌==◌}
use Prim.Native.Nat.{ℕ, ◌+◌, ◌≤◌}
use mathlib.Core.Path.{◌≡◌, refl}
use mathlib.Core.Logic.{inl, inr}
use mathlib.Core.Bool.{Bool, false}
use mathlib.Core.Option.{Option, none, some}
use mathlib.Core.List.{List, [], ◌∷◌}
use native.Mathlib.Omega.{arith}

abbrev pub Table {ℓ κ} : Type ℓ → Type κ → Type (ℓ ⊔ κ)
Table K V = List (K × V)

-- What a row contributes, or nothing where there is none.
abbrev pub weight {ℓ} : {V : Type ℓ} → (V → ℕ) → Option V → ℕ
weight f none = 0
weight f (some v) = f v

abbrev pub map_row {ℓ} : {V : Type ℓ} → (V → V) → Option V → Option V
map_row f none = none
map_row f (some v) = some (f v)

module _ {ℓ κ} {K : Type ℓ} {V : Type κ} where
  -- `DELETE … WHERE NOT p`
  unfoldable pub keep : (V → Bool) → Table K V → Table K V
  keep p [] = []
  keep p ((j, w) ∷ t) = let rest = keep p t in if p w then (j, w) ∷ rest else rest

  unfoldable pub total : (V → ℕ) → Table K V → ℕ
  total f [] = 0
  total f ((j, w) ∷ t) = f w + total f t

  pub total-keep-le : (f : V → ℕ) (p : V → Bool) (t : Table K V) → total f (keep p t) ≤ total f t
  unfolding keep total
  total-keep-le f p [] = omega arith
  total-keep-le f p ((i, w) ∷ t) = ground (arith, total-keep-le f p t)

  -- The rows weigh nothing by `f` where they weigh nothing by `g`.
  pub total_zero :
      (f g : V → ℕ)
      → ((v : V) → g v ≡ 0 → f v ≡ 0)
      → (t : Table K V) → total g t ≡ 0
      → total f t ≡ 0
  unfolding total
  total_zero f g h [] z = refl
  total_zero f g h ((k, v) ∷ t) z =
      omega (arith, h v (omega arith), total_zero f g h t (omega arith))

  pub total-keep_zero :
      (f g : V → ℕ) (p : V → Bool)
      → ((v : V) → g v ≡ 0 → p v ≡ false)
      → (t : Table K V) → total g t ≡ 0
      → total f (keep p t) ≡ 0
  unfolding total keep
  total-keep_zero f g p h [] z = refl
  total-keep_zero f g p h ((k, v) ∷ t) z =
      ground (arith, h v (omega arith), total-keep_zero f g p h t (omega arith))

module _ {ℓ κ} {K : Type ℓ} {V : Type κ} ⦃e : Eq K⦄ where
  unfoldable pub find : K → Table K V → Option V
  find k [] = none
  find k ((j, v) ∷ t) = if j == k then some v else find k t

  unfoldable pub put : K → V → Table K V → Table K V
  put k v [] = (k, v) ∷ []
  put k v ((j, w) ∷ t) = if j == k then (j, v) ∷ t else (j, w) ∷ put k v t

  unfoldable pub erase : K → Table K V → Table K V
  erase k [] = []
  erase k ((j, w) ∷ t) = let rest = erase k t in if j == k then rest else (j, w) ∷ rest

  -- `UPDATE … WHERE key=?`: nothing where there is no row.
  unfoldable pub modify : K → (V → V) → Table K V → Table K V
  modify k f t = elim (find k t) [ none ↦ t | some v ↦ put k (f v) t ]

  pub find-put :
      (k j : K) (v : V) (t : Table K V) → find j (put k v t) ≡ (if k == j then some v else find j t)
  unfolding find put
  find-put k j v [] = refl
  find-put k j v ((i, w) ∷ t) =
      ground (arith, e.beq_iff i k, e.beq_iff i j, e.beq_iff k j, find-put k j v t)

  pub find-put_self : (k : K) (v : V) (t : Table K V) → find k (put k v t) ≡ some v
  find-put_self k v t = rw find-put (rw ((e.beq_iff k k).1 refl))

  pub find-erase :
      (k j : K) (t : Table K V) → find j (erase k t) ≡ (if k == j then none else find j t)
  unfolding find erase
  find-erase k j [] = ground arith
  find-erase k j ((i, w) ∷ t) =
      ground (arith, e.beq_iff i k, e.beq_iff i j, e.beq_iff k j, find-erase k j t)

  pub total-put :
      (f : V → ℕ) (k : K) (v : V) (t : Table K V)
      → total f (put k v t) + weight f (find k t) ≡ total f t + f v
  unfolding find put total
  total-put f k v [] = omega arith
  total-put f k v ((i, w) ∷ t) = ground (arith, total-put f k v t)

  pub weight-le-total : (f : V → ℕ) (k : K) (t : Table K V) → weight f (find k t) ≤ total f t
  unfolding find total
  weight-le-total f k [] = omega arith
  weight-le-total f k ((i, w) ∷ t) = ground (arith, weight-le-total f k t)

  pub total-erase-le : (f : V → ℕ) (k : K) (t : Table K V) → total f (erase k t) ≤ total f t
  unfolding erase total
  total-erase-le f k [] = omega arith
  total-erase-le f k ((i, w) ∷ t) = ground (arith, total-erase-le f k t)

  pub total-erase :
      (f : V → ℕ) (k : K) (t : Table K V) → total f (erase k t) + weight f (find k t) ≤ total f t
  unfolding find erase total
  total-erase f k [] = omega arith
  total-erase f k ((i, w) ∷ t) = ground (arith, total-erase f k t, total-erase-le f k t)

  pub total-modify :
      (g : V → ℕ) (f : V → V) (k : K) (t : Table K V)
      → total g (modify k f t) + weight g (find k t) ≡ total g t + weight g (map_row f (find k t))
  unfolding modify
  total-modify g f k t = elim (Option-cases (find k t)) [
    | inl missing ↦ ground arith
    | inr (v, there) ↦ ground (arith, total-put g k (f v) t)
  ]

  pub find-modify :
      (f : V → V) (k j : K) (t : Table K V)
      → find j (modify k f t) ≡ (if k == j then map_row f (find j t) else find j t)
  unfolding modify
  find-modify f k j t = elim (Option-cases (find k t)) [
    | inl missing ↦ ground (arith, e.beq_iff k j)
    | inr (v, there) ↦ ground (arith, find-put k j (f v) t, e.beq_iff k j)
  ]
