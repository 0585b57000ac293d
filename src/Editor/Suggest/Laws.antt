-- ===== src/Editor/Suggest/Laws.antt =====
-- What `suggest` of app/worker/src/editor-store-core.js does to the rows, and when it writes at all.
use sonsteng_magnum_opus.Prelude.{
  ℕ, ◌≤◌, ◌<◌, String, ◌≡◌, ◌≢◌, refl, Bool, Option, none, some, string_eq, nat_eq, pair_eq, arith,
  inl, inr, ◌⊎◌, Bool-cases, ltb, leb,
}
use sonsteng_magnum_opus.Prelude.Table.{find, put}
use sonsteng_magnum_opus.Editor.Status.{Status, pending, superseded, accepted}
use sonsteng_magnum_opus.Editor.Rows.{
  Suggestion, Rows, Store, ids_where, count_where, no_extra, transition_all,
}
use sonsteng_magnum_opus.Editor.Rows.Evolution.{
  Evolves, Evolves-refl, Evolves-trans, put-Evolves, transition-Evolves, transition_all-Evolves,
  transition_all-missing, Keeps-no_extra,
}
use sonsteng_magnum_opus.Editor.Suggest.{
  Input, Checked, Ceilings, Outcome, stored, Fingerprint, Latest, fingerprint_of, is_prior,
  supersede_priors, new_row, auto_accept, stored_rows, store_new, suggest_new, suggest_row, taken,
  payload_bytes, is_pending_of, may_supersede, accepts_now, is_pending, daily_count, day_of,
}

supersede_priors-Evolves :
    (now : ℕ) (c : Checked) (i : Input) (direct : Bool) (rows : Rows)
    → Evolves rows (supersede_priors now c i direct rows)
unfolding supersede_priors
supersede_priors-Evolves now c i direct rows =
    let retire = λ (st : Status) (t : Rows).
      transition_all-Evolves now (ids_where (is_prior c i st) t) superseded no_extra t
        Keeps-no_extra in
    let rows' =
      transition_all now (ids_where (is_prior c i pending) rows) superseded no_extra rows in
    let rows'' =
      transition_all now (ids_where (is_prior c i accepted) rows') superseded no_extra rows' in
    elim (Bool-cases (may_supersede i)) [
      | inl may ↦ elim (Bool-cases direct) [
        | inl both ↦
            rw (may, both)
              (Evolves-trans rows rows' rows'' (retire pending rows) (retire accepted rows'))
        | inr one ↦ rw (may, one) (retire pending rows)
      ]
      | inr refused ↦ rw refused (Evolves-refl rows)
    ]

supersede_priors-missing :
    (now : ℕ) (c : Checked) (i : Input) (direct : Bool) (rows : Rows) (id : String)
    → find id rows ≡ none
    → find id (supersede_priors now c i direct rows) ≡ none
unfolding supersede_priors
supersede_priors-missing now c i direct rows id gone =
    let rows' =
      transition_all now (ids_where (is_prior c i pending) rows) superseded no_extra rows in
    let gone' =
      transition_all-missing now (ids_where (is_prior c i pending) rows) id superseded no_extra rows
        gone in
    ground (
      arith,
      gone,
      gone',
      transition_all-missing now (ids_where (is_prior c i accepted) rows') id superseded no_extra
          rows' gone',
    )

auto_accept-Evolves :
    (now : ℕ) (id : String) (i : Input) (direct : Bool) (rows : Rows)
    → Evolves rows (auto_accept now id i direct rows)
unfolding auto_accept
auto_accept-Evolves now id i direct rows = elim (Bool-cases (accepts_now i direct)) [
  | inl granted ↦ rw granted (transition-Evolves now id accepted no_extra rows Keeps-no_extra)
  | inr refused ↦ rw refused (Evolves-refl rows)
]

pub stored_rows-Evolves :
    (fingerprint : Fingerprint) (latest : Latest) (now : ℕ) (c : Checked) (i : Input)
    (direct : Bool) (rows : Rows)
    → find c.id rows ≡ none
    → Evolves rows (stored_rows fingerprint latest now c i direct rows)
unfolding stored_rows
stored_rows-Evolves fingerprint latest now c i direct rows fresh =
    let rows' = supersede_priors now c i direct rows in
    let row = new_row fingerprint latest now c i rows' in
    Evolves-trans rows rows' _ (supersede_priors-Evolves now c i direct rows) (
      Evolves-trans rows' (put c.id row rows') _
        (put-Evolves c.id row rows' (supersede_priors-missing now c i direct rows c.id fresh))
        (auto_accept-Evolves now c.id i direct (put c.id row rows')))

-- An input that no ceiling stops.
pub record WithinCeilings (now : ℕ) (editor : String) (i : Input) (ceil : Ceilings) (s : Store)
    : Type 0 where
  pub bytes : payload_bytes i ≤ ceil.max_bytes
  pub editor_pending : count_where (is_pending_of editor) s.suggestions < ceil.per_editor_pending
  pub pending : count_where is_pending s.suggestions < ceil.global_pending
  pub daily : daily_count (find (editor, day_of now) s.suggest_counts) < ceil.daily_per_editor

abbrev pub Stops : Outcome × Store → Store → Type 0
Stops (answer, s') s = (s' ≡ s) × ((r : Option Suggestion) → answer ≢ stored r)

-- A fresh id is stored within the ceilings, and else nothing is written.
suggest_new-cases :
    (fingerprint : Fingerprint) (latest : Latest) (now : ℕ) (c : Checked) (i : Input)
    (ceil : Ceilings) (direct : Bool) (s : Store)
    → (WithinCeilings now c.editor i ceil s
        × (suggest_new fingerprint latest now c i ceil direct s
            ≡ store_new fingerprint latest now c i direct s))
      ⊎ Stops (suggest_new fingerprint latest now c i ceil direct s) s
unfolding suggest_new
suggest_new-cases fingerprint latest now c i ceil direct s =
    elim (Bool-cases (ltb ceil.max_bytes (payload_bytes i))) [
      | inl a ↦ inr (rw a (refl, λ r. ground arith))
      | inr a ↦
          elim (Bool-cases
            (leb ceil.per_editor_pending (count_where (is_pending_of c.editor) s.suggestions))) [
              | inl b ↦ inr (rw (a, b) (refl, λ r. ground arith))
              | inr b ↦
                  elim (Bool-cases
                    (leb ceil.global_pending (count_where is_pending s.suggestions))) [
                      | inl d ↦ inr (rw (a, b, d) (refl, λ r. ground arith))
                      | inr d ↦
                          elim (Bool-cases (
                            leb ceil.daily_per_editor
                              (daily_count (find (c.editor, day_of now) s.suggest_counts)))) [
                                | inl e ↦ inr (rw (a, b, d, e) (refl, λ r. ground arith))
                                | inr e ↦ inl (
                                  record {
                                    bytes = ground arith;
                                    editor_pending = ground arith;
                                    pending = ground arith;
                                    daily = ground arith;
                                  },
                                  rw (a, b, d, e) refl,
                                )
                              ]
                    ]
            ]
    ]

taken-Stops : (fp : String) (r : Suggestion) (s : Store) → Stops (taken fp r, s) s
unfolding taken
taken-Stops fp r s = (refl, λ q. ground arith)

-- The same for any id.
pub suggest_row-cases :
    (fingerprint : Fingerprint) (latest : Latest) (now : ℕ) (c : Checked) (i : Input)
    (ceil : Ceilings) (direct : Bool) (o : Option Suggestion) (s : Store)
    → ((o ≡ none)
        × WithinCeilings now c.editor i ceil s
        × (suggest_row fingerprint latest now c i ceil direct o s
            ≡ store_new fingerprint latest now c i direct s))
      ⊎ Stops (suggest_row fingerprint latest now c i ceil direct o s) s
unfolding suggest_row
suggest_row-cases fingerprint latest now c i ceil direct (some r) s =
    inr (taken-Stops (fingerprint_of fingerprint c i) r s)
suggest_row-cases fingerprint latest now c i ceil direct none s =
    elim (suggest_new-cases fingerprint latest now c i ceil direct s) [
      | inl (within, e) ↦ inl (refl, within, e)
      | inr stops ↦ inr stops
    ]
