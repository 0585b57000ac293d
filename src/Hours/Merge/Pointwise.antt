-- ===== src/Hours/Merge/Pointwise.antt =====
-- The merge of `previewImport` of app/hours/hours-core.js against its meaning for one id.
use mathlib.Core.Path.{subst}
use sonsteng_magnum_opus.Prelude.{
  Bool, true, false, not, ◌≡◌, refl, ◌∙◌, Option, none, some, List, [], ◌∷◌, ◌++◌, any, any-append,
  ◌==◌, ==_self, Bool-cases, inl, inr, arith, if◌then◌else◌,
}
use sonsteng_magnum_opus.Hours.Merge.{Conflict, row_of, without, merge_row, merge_rows, merge}
use sonsteng_magnum_opus.Prelude.Eq.{Eq}

module _ {ℓ κ} {R : Type ℓ} {K : Type κ} ⦃keys : Eq K⦄ (id_of : R → K) (same : R → R → Bool) where
  -- No two rows of one id.
  abbrev pub Distinct : List R → Type ℓ
  Distinct [] = Unit
  Distinct (x ∷ xs) = (row_of id_of same (id_of x) xs ≡ none) × Distinct xs

  -- What the merge leaves of an id, from what the two logs have of it.
  abbrev pub merged : Option R → Option R → Option R
  merged o none = o
  merged none (some e) = some e
  merged (some x) (some e) = if same x e then some x else none

  abbrev pub differ : Option R → Option R → Bool
  differ o none = false
  differ none (some e) = false
  differ (some x) (some e) = not (same x e)

  row_of-append :
      (k : K) (xs : List R) (e : R)
      → row_of id_of same k (xs ++ (e ∷ []))
        ≡ (if id_of e == k then some e else row_of id_of same k xs)
  unfolding row_of
  row_of-append k [] e = refl
  row_of-append k (x ∷ xs) e = ground (arith, row_of-append k xs e)

  row_of-without :
      (k j : K) (xs : List R)
      → row_of id_of same k (without id_of same j xs)
        ≡ (if j == k then none else row_of id_of same k xs)
  unfolding row_of without
  row_of-without k j [] = ground arith
  row_of-without k j (x ∷ xs) = ground (
    arith,
    row_of-without k j xs,
    keys.beq_iff (id_of x) j,
    keys.beq_iff (id_of x) k,
    keys.beq_iff j k,
  )

  abbrev pub conflicts_on : K → List (Conflict id_of same) → Bool
  conflicts_on k cs = any (λ (c : Conflict id_of same). c.id == k) cs

  -- A state of the loop that has `o` for the id `k`, and a conflict of it where `b` holds.
  abbrev Shows : K → Option R → Bool → List R × List (Conflict id_of same) → Type ℓ
  Shows k o b s = (row_of id_of same k s.0 ≡ o) × (conflicts_on k s.1 ≡ b)

  merge_row-other :
      (k : K) (o : Option R) (e : R) (s : List R × List (Conflict id_of same))
      → (id_of e == k) ≡ false
      → Shows k (row_of id_of same k s.0) (conflicts_on k s.1) (merge_row id_of same o e s)
  unfolding merge_row
  merge_row-other k none e (out, cs) h = (row_of-append k out e ∙ rw h refl, refl)
  merge_row-other k (some x) e (out, cs) h = elim (Bool-cases (same x e)) [
    | inl equal ↦ rw equal (refl, refl)
    | inr other ↦
        rw other
          (row_of-without k (id_of e) out ∙ rw h refl, any-append _ cs _ ∙ rw h (ground arith))
  ]

  merge_row_self :
      (o : Option R) (e : R) (s : List R × List (Conflict id_of same))
      → row_of id_of same (id_of e) s.0 ≡ o
      → conflicts_on (id_of e) s.1 ≡ false
      → Shows (id_of e) (merged o (some e)) (differ o (some e)) (merge_row id_of same o e s)
  unfolding merge_row
  merge_row_self none e (out, cs) h c =
      (row_of-append (id_of e) out e ∙ rw (==_self (id_of e)) refl, c)
  merge_row_self (some x) e (out, cs) h c = elim (Bool-cases (same x e)) [
    | inl equal ↦ rw equal (h, c)
    | inr other ↦ rw other (
      row_of-without (id_of e) (id_of e) out ∙ rw (==_self (id_of e)) refl,
      any-append _ cs _ ∙ rw (==_self (id_of e)) (ground arith),
    )
  ]

  row_of_tail :
      (k : K) (e : R) (es : List R)
      → (id_of e == k) ≡ false
      → row_of id_of same k (e ∷ es) ≡ row_of id_of same k es
  unfolding row_of
  row_of_tail k e es h = ground (arith, h)

  row_of_head :
      (k : K) (e : R) (es : List R)
      → (id_of e == k) ≡ true
      → row_of id_of same k es ≡ none
      → row_of id_of same k (e ∷ es) ≡ some e
  unfolding row_of
  row_of_head k e es h n = rw (n, h) refl

  absent :
      (k : K) (e : R) (es : List R)
      → row_of id_of same k (e ∷ es) ≡ none
      → (row_of id_of same k es ≡ none) × ((id_of e == k) ≡ false)
  unfolding row_of
  absent k e es h = (ground (arith, h), ground (arith, h))

  merge_rows_skip :
      (k : K) (current es : List R) (s : List R × List (Conflict id_of same))
      → row_of id_of same k es ≡ none
      → Shows k (row_of id_of same k s.0) (conflicts_on k s.1) (merge_rows id_of same current es s)
  unfolding merge_rows
  merge_rows_skip k current [] s h = (refl, refl)
  merge_rows_skip k current (e ∷ es) s h =
      let (gone, other) = absent k e es h in
      let o = row_of id_of same (id_of e) current in
      let (rows, cs) = merge_row-other k o e s other in
      let (rows', cs') = merge_rows_skip k current es (merge_row id_of same o e s) gone in
      (rows' ∙ rows, cs' ∙ cs)

  merge_rows_lem :
      (k : K) (current es : List R) (s : List R × List (Conflict id_of same))
      → Distinct es
      → row_of id_of same k s.0 ≡ row_of id_of same k current
      → conflicts_on k s.1 ≡ false
      → Shows k
          (merged (row_of id_of same k current) (row_of id_of same k es))
          (differ (row_of id_of same k current) (row_of id_of same k es))
          (merge_rows id_of same current es s)
  unfolding merge_rows row_of
  merge_rows_lem k current [] s d h c = (h, c)
  merge_rows_lem k current (e ∷ es) s d h c =
      let o = row_of id_of same (id_of e) current in
      let t = merge_row id_of same o e s in
      elim (Bool-cases (id_of e == k)) [
        | inr other ↦
            let (rows, cs) = merge_row-other k o e s other in
            rw (row_of_tail k e es other) (merge_rows_lem k current es t d.1 (rows ∙ h) (cs ∙ c))
        | inl this ↦
            let is = (keys.beq_iff (id_of e) k).0 this in
            let gone = subst (λ (j : K). row_of id_of same j es ≡ none) is d.0 in
            let (rows, cs) =
              subst
                (λ (j : K).
                  row_of id_of same j s.0 ≡ row_of id_of same j current
                  → conflicts_on j s.1 ≡ false
                  → Shows j (merged (row_of id_of same j current) (some e))
                      (differ (row_of id_of same j current) (some e)) t)
                is (λ h' c'. merge_row_self o e s h' c') h c in
            let (rows', cs') = merge_rows_skip k current es t gone in
            rw (row_of_head k e es this gone) (rows' ∙ rows, cs' ∙ cs)
      ]

  -- Where no two incoming rows have one id, the merge leaves of every id what the two logs agree on: the
  -- row of the only log that has the id, or the common row. An id whose two rows differ has no row left,
  -- and exactly these ids are reported as conflicts.
  pub merge_pointwise :
      (current incoming : List R) (k : K)
      → Distinct incoming
      → (row_of id_of same k (merge id_of same current incoming).0
          ≡ merged (row_of id_of same k current) (row_of id_of same k incoming))
        × (any (λ (c : Conflict id_of same). c.id == k) (merge id_of same current incoming).1
            ≡ differ (row_of id_of same k current) (row_of id_of same k incoming))
  unfolding merge
  merge_pointwise current incoming k d = merge_rows_lem k current incoming (current, []) d refl refl
