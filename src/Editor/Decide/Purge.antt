-- ===== src/Editor/Decide/Purge.antt =====
-- The retention purge of app/worker/src/editor-store-core.js.
use sonsteng_magnum_opus.Prelude.{
  ℕ, ◌+◌, ◌≤◌, ◌*◌, String, string_eq, ◌≡◌, sym, ap, ◌∙◌, Bool, true, false, not, some, [], ◌∷◌,
  length, ◌==◌, arith, inl, inr, ◌⊎◌, Bool-cases,
}
use sonsteng_magnum_opus.Prelude.Table.{find, keep}
use sonsteng_magnum_opus.Editor.Status.{is_terminal}
use sonsteng_magnum_opus.Editor.Rows.{Suggestion, Rows}
use sonsteng_magnum_opus.Editor.Decide.{expired_terminal, purge}

length-keep-le : (p : Suggestion → Bool) (t : Rows) → length (keep p t) ≤ length t
unfolding keep
length-keep-le p [] = omega arith
length-keep-le p ((j, w) ∷ t) = ground (arith, length-keep-le p t)

pub find-keep :
    (p : Suggestion → Bool) (id : String) (r : Suggestion) (t : Rows)
    → find id t ≡ some r
    → p r ≡ true
    → find id (keep p t) ≡ some r
unfolding find keep
find-keep p id r [] e h = e
find-keep p id r ((j, w) ∷ t) e h = ground (arith, find-keep p id r t, string_eq.beq_iff j id)

kept_passes :
    (p : Suggestion → Bool) (id : String) (r : Suggestion) (t : Rows)
    → find id (keep p t) ≡ some r
    → p r ≡ true
unfolding find keep
kept_passes p id r [] e = absurd (ground (arith, e))
kept_passes p id r ((j, w) ∷ t) e = elim (Bool-cases (p w)) [
  | inl passes ↦ elim (Bool-cases (j == id)) [
    | inl same ↦
        let row : some w ≡ some r = ground (arith, e, passes, same) in
        let is : w ≡ r = ground (arith, row) in ap p (sym is) ∙ passes
    | inr other ↦ kept_passes p id r t (ground (arith, e, passes, other))
  ]
  | inr fails ↦ kept_passes p id r t (ground (arith, e, fails))
]

young :
    (now days : ℕ) (r : Suggestion)
    → not (expired_terminal now days r) ≡ true
    → (is_terminal r.status ≡ false) ⊎ (now ≤ r.updated_at + days * 86400000)
unfolding expired_terminal
young now days r h = elim (Bool-cases (is_terminal r.status)) [
  | inl end ↦ inr (ground (arith, h, end))
  | inr live ↦ inl live
]

-- A purge leaves every suggestion that is not terminal, and every terminal one written within the
-- given days; no other one is in the table afterwards. It returns by how many rows the table shrank.
pub purge_exact :
    (now days : ℕ) (t : Rows) (id : String) (r : Suggestion)
    → let (n, t') = purge now days t in
      (n + length t' ≡ length t)
      × (find id t ≡ some r
          → (is_terminal r.status ≡ false) ⊎ (now ≤ r.updated_at + days * 86400000)
          → find id t' ≡ some r)
      × (find id t' ≡ some r
          → (is_terminal r.status ≡ false) ⊎ (now ≤ r.updated_at + days * 86400000))
unfolding purge expired_terminal
purge_exact now days t id r =
    let p = λ (q : Suggestion). not (expired_terminal now days q) in
    (
      omega (arith, length-keep-le p t),
      λ e h. find-keep p id r t e (ground (arith, h)),
      λ e. young now days r (kept_passes p id r t e),
    )
