-- ===== src/Hours/Merge.antt =====
-- The merge of `previewImport` of app/hours/hours-core.js: its loop over the entries, which is also its
-- loop over the contributions. What has an id and compares with `JSON.stringify` is a parameter. Both logs
-- passed `validateLog`, so that an id is no property that every object has.
pub mod Pointwise
use sonsteng_magnum_opus.Prelude.{
  Bool, not, Option, none, some, List, [], ◌∷◌, ◌++◌, select, ◌==◌, if◌then◌else◌,
}
use sonsteng_magnum_opus.Prelude.Eq.{Eq}

module _ {ℓ κ} {R : Type ℓ} {K : Type κ} ⦃keys : Eq K⦄ (id_of : R → K) (same : R → R → Bool) where
  pub record Conflict : Type (ℓ ⊔ κ) where
    pub id : K
    pub existing : R
    pub incoming : R

  -- `byId[id]`: of rows with one id it holds the last.
  unfoldable pub row_of : K → List R → Option R
  row_of k [] = none
  row_of k (x ∷ xs) = elim (row_of k xs) [
    | none ↦ if id_of x == k then some x else none
    | some later ↦ some later
  ]

  -- The rows of other ids.
  unfoldable pub without : K → List R → List R
  without k xs = select (λ (x : R). not (id_of x == k)) xs

  -- A turn of the loop for a row with this entry of `byId`.
  unfoldable pub merge_row : Option R → R → List R × List Conflict → List R × List Conflict
  unfolding without
  merge_row none e (out, conflicts) = (out ++ (e ∷ []), conflicts)
  merge_row (some x) e (out, conflicts) = if same x e then (out, conflicts) else (
    without (id_of e) out,
    conflicts ++ (record { id = id_of e; existing = x; incoming = e } ∷ []),
  )

  unfoldable pub merge_rows : List R → List R → List R × List Conflict → List R × List Conflict
  unfolding merge_row
  merge_rows current [] state = state
  merge_rows current (e ∷ es) state =
      merge_rows current es (merge_row (row_of (id_of e) current) e state)

  -- The merged rows and the conflicts.
  unfoldable pub merge : List R → List R → List R × List Conflict
  unfolding merge_rows
  merge current incoming = merge_rows current incoming (current, [])
