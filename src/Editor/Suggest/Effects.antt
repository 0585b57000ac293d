-- ===== src/Editor/Suggest/Effects.antt =====
-- `suggest` of app/worker/src/editor-store-core.js: refusals, ceilings, what is stored, and replays.
use sonsteng_magnum_opus.Prelude.{
  ℕ, ◌+◌, String, ◌≡◌, ◌≢◌, refl, sym, ◌∙◌, ap, Bool, Option, none, some, ==_self, string_eq,
  nat_eq, pair_eq, if◌then◌else◌, arith, inl, inr, ◌⊎◌, Option-cases,
}
use sonsteng_magnum_opus.Prelude.Value.{nonempty_text}
use sonsteng_magnum_opus.Prelude.Table.{Table, find, put, find-put_self, find-modify}
use sonsteng_magnum_opus.Editor.Status.{pending, accepted, can_transition}
use sonsteng_magnum_opus.Editor.Rows.{
  Suggestion, Rows, Store, no_extra, moved, transition_row, transition,
}
use sonsteng_magnum_opus.Editor.Rows.Evolution.{Evolves, Evolves-refl}
use sonsteng_magnum_opus.Editor.Suggest.{
  Input, Checked, Ceilings, Outcome, replay, id_conflict, stored, Fingerprint, Latest,
  fingerprint_of, supersede_priors, new_row, auto_accept, accepts_now, stored_rows, store_new,
  suggest_row, suggest_checked, suggest, taken, daily_count, count_suggest, next_count, day_of,
}
use sonsteng_magnum_opus.Editor.Suggest.Laws.{
  WithinCeilings, Stops, suggest_row-cases, stored_rows-Evolves,
}

-- The three texts of an input are there.
pub record IsChecked (i : Input) (c : Checked) : Type 0 where
  pub id : nonempty_text i.id ≡ some c.id
  pub editor : nonempty_text i.editor ≡ some c.editor
  pub source_ref : nonempty_text i.source_ref ≡ some c.source_ref

module _ (fingerprint : Fingerprint) (latest : Latest) where
  suggest_lem :
      (now : ℕ) (i : Input) (ceil : Ceilings) (direct : Bool) (s : Store) (c : Checked)
      → IsChecked i c
      → suggest fingerprint latest now i ceil direct s
        ≡ suggest_row fingerprint latest now c i ceil direct (find c.id s.suggestions) s
  unfolding suggest suggest_checked
  suggest_lem now i ceil direct s c k = rw (k.id, k.editor, k.source_ref) refl

  checked-cases :
      (now : ℕ) (i : Input) (ceil : Ceilings) (direct : Bool) (s : Store)
      → ((c : Checked) × IsChecked i c) ⊎ Stops (suggest fingerprint latest now i ceil direct s) s
  unfolding suggest suggest_checked
  checked-cases now i ceil direct s = elim (Option-cases (nonempty_text i.id)) [
    | inl a ↦ inr (rw a (refl, λ r. ground arith))
    | inr (id, a) ↦ elim (Option-cases (nonempty_text i.editor)) [
      | inl b ↦ inr (rw (a, b) (refl, λ r. ground arith))
      | inr (editor, b) ↦ elim (Option-cases (nonempty_text i.source_ref)) [
        | inl d ↦ inr (rw (a, b, d) (refl, λ r. ground arith))
        | inr (source_ref, d) ↦ inl (
          record { id = id; editor = editor; source_ref = source_ref },
          record { id = a; editor = b; source_ref = d },
        )
      ]
    ]
  ]

  -- An input that `suggest` stores.
  pub record IsStored (now : ℕ) (i : Input) (ceil : Ceilings) (direct : Bool) (s : Store)
      (c : Checked) : Type 0 where
    pub checked : IsChecked i c
    pub fresh : find c.id s.suggestions ≡ none
    pub within : WithinCeilings now c.editor i ceil s
    pub result :
        suggest fingerprint latest now i ceil direct s
        ≡ store_new fingerprint latest now c i direct s

  suggest-cases :
      (now : ℕ) (i : Input) (ceil : Ceilings) (direct : Bool) (s : Store)
      → ((c : Checked) × IsStored now i ceil direct s c)
        ⊎ Stops (suggest fingerprint latest now i ceil direct s) s
  suggest-cases now i ceil direct s = elim (checked-cases now i ceil direct s) [
    | inr stops ↦ inr stops
    | inl (c, k) ↦
        let e = suggest_lem now i ceil direct s c k in
        elim (suggest_row-cases fingerprint latest now c i ceil direct (find c.id s.suggestions)
          s) [
            | inl (fresh, within, e') ↦
                inl (c, record { checked = k; fresh = fresh; within = within; result = e ∙ e' })
            | inr stops ↦ inr (rw e stops)
          ]
  ]

  -- A call of `suggest` that does not store a new suggestion changes nothing: neither a row nor the
  -- editor's count of the day.
  pub suggest_refused :
      (now : ℕ) (i : Input) (ceil : Ceilings) (direct : Bool) (s : Store)
      → ((r : Option Suggestion) → (suggest fingerprint latest now i ceil direct s).0 ≢ stored r)
      → (suggest fingerprint latest now i ceil direct s).1 ≡ s
  unfolding store_new
  suggest_refused now i ceil direct s h = elim (suggest-cases now i ceil direct s) [
    | inr (same, _) ↦ same
    | inl (c, k) ↦ absurd (h _ (ap (λ (p : Outcome × Store). p.0) k.result))
  ]

  pub suggest-Evolves :
      (now : ℕ) (i : Input) (ceil : Ceilings) (direct : Bool) (s : Store)
      → Evolves s.suggestions (suggest fingerprint latest now i ceil direct s).1.suggestions
  unfolding store_new
  suggest-Evolves now i ceil direct s = elim (suggest-cases now i ceil direct s) [
    | inr (same, _) ↦ rw same (Evolves-refl s.suggestions)
    | inl (c, k) ↦
        rw k.result (stored_rows-Evolves fingerprint latest now c i direct s.suggestions k.fresh)
  ]

  -- The row that an auto-accept leaves.
  abbrev pub final_row : ℕ → Input → Bool → Suggestion → Suggestion
  final_row now i direct r = if accepts_now i direct then moved now accepted no_extra r else r

  find-auto_accept :
      (now : ℕ) (id : String) (i : Input) (direct : Bool) (row : Suggestion) (t : Rows)
      → find id t ≡ some row
      → row.status ≡ pending
      → find id (auto_accept now id i direct t) ≡ some (final_row now i direct row)
  unfolding auto_accept transition transition_row can_transition
  find-auto_accept now id i direct row t there is =
      ground (arith, is, ==_self id, find-modify (moved now accepted no_extra) id id t)

  find-stored_rows :
      (now : ℕ) (c : Checked) (i : Input) (direct : Bool) (rows : Rows)
      → find c.id (stored_rows fingerprint latest now c i direct rows)
        ≡ some (
            final_row now i direct
              (new_row fingerprint latest now c i (supersede_priors now c i direct rows)))
  unfolding stored_rows new_row
  find-stored_rows now c i direct rows =
      let rows' = supersede_priors now c i direct rows in
      let row = new_row fingerprint latest now c i rows' in
      find-auto_accept now c.id i direct row (put c.id row rows') (find-put_self c.id row rows')
        refl

  -- The facts of the stored row that do not depend on the earlier rows.
  record IsRowOf (now : ℕ) (c : Checked) (i : Input) (direct : Bool) (row : Suggestion)
      : Type 0 where
    editor : row.editor ≡ c.editor
    new_text : row.new_text ≡ i.new_text
    status : row.status ≡ (if accepts_now i direct then accepted else pending)
    client_fp : row.client_fp ≡ some (fingerprint_of fingerprint c i)

  final_row-IsRowOf :
      (now : ℕ) (c : Checked) (i : Input) (direct : Bool) (rows : Rows)
      → IsRowOf now c i direct (final_row now i direct (new_row fingerprint latest now c i rows))
  unfolding new_row
  final_row-IsRowOf now c i direct rows = record {
    editor = ground arith;
    new_text = ground arith;
    status = ground arith;
    client_fp = ground arith;
  }

  next_count_lem : (o : Option ℕ) → next_count o ≡ daily_count o + 1
  next_count_lem none = refl
  next_count_lem (some n) = refl

  find-count_suggest :
      (now : ℕ) (editor : String) (counts : Table (String × ℕ) ℕ)
      → find (editor, day_of now) (count_suggest now editor counts)
        ≡ some (daily_count (find (editor, day_of now) counts) + 1)
  unfolding count_suggest
  find-count_suggest now editor counts =
      let k : String × ℕ = (editor, day_of now) in
      find-put_self k (next_count (find k counts)) counts
      ∙ ap (λ (n : ℕ). some n) (next_count_lem (find k counts))

  stored_inj : {o o' : Option Suggestion} → stored o ≡ stored o' → o ≡ o'
  stored_inj h = ground (arith, h)

  -- A stored suggestion was within the four ceilings and under an id that no row had. It is then the
  -- editor's, with the input's new text, under its id: accepted where it is to be applied directly,
  -- and else pending; and the editor's count of the day is one more, within the daily cap.
  pub suggest_stored :
      (now : ℕ) (i : Input) (ceil : Ceilings) (direct : Bool) (s : Store) (o : Option Suggestion)
      → (suggest fingerprint latest now i ceil direct s).0 ≡ stored o
      → let s' = (suggest fingerprint latest now i ceil direct s).1 in
        (c : Checked) × IsChecked i c
        × (find c.id s.suggestions ≡ none)
        × WithinCeilings now c.editor i ceil s
        × (find (c.editor, day_of now) s'.suggest_counts
            ≡ some (daily_count (find (c.editor, day_of now) s.suggest_counts) + 1))
        × ((row : Suggestion) × (find c.id s'.suggestions ≡ some row)
            × (o ≡ some row)
            × (row.editor ≡ c.editor)
            × (row.new_text ≡ i.new_text)
            × (row.status ≡ (if accepts_now i direct then accepted else pending)))
  unfolding store_new
  suggest_stored now i ceil direct s o h = elim (suggest-cases now i ceil direct s) [
    | inr (_, none_stored) ↦ absurd (none_stored o h)
    | inl (c, k) ↦
        let rows' = supersede_priors now c i direct s.suggestions in
        let row = final_row now i direct (new_row fingerprint latest now c i rows') in
        let is = final_row-IsRowOf now c i direct rows' in
        let there = find-stored_rows now c i direct s.suggestions in
        (
          c,
          k.checked,
          k.fresh,
          k.within,
          rw k.result (find-count_suggest now c.editor s.suggest_counts),
          (
            row,
            rw k.result there,
            stored_inj (sym h ∙ ap (λ (p : Outcome × Store). p.0) k.result) ∙ there,
            is.editor,
            is.new_text,
            is.status,
          ),
        )
  ]

  taken_same : (fp : String) (r : Suggestion) → r.client_fp ≡ some fp → taken fp r ≡ replay r
  unfolding taken
  taken_same fp r e = rw e (rw (==_self fp) refl)

  suggest-taken :
      (now : ℕ) (i : Input) (ceil : Ceilings) (direct : Bool) (s : Store) (c : Checked)
      (r : Suggestion)
      → IsChecked i c
      → find c.id s.suggestions ≡ some r
      → suggest fingerprint latest now i ceil direct s
        ≡ (taken (fingerprint_of fingerprint c i) r, s)
  unfolding suggest_row
  suggest-taken now i ceil direct s c r k there =
      suggest_lem now i ceil direct s c k ∙ rw there refl

  -- An id that a row has is answered with that row and nothing is written, whatever the time, the
  -- ceilings and the mode are: as a replay where the row's payload fingerprint is the input's, or none
  -- is stored, and as a conflict where it differs.
  pub suggest_taken :
      (now : ℕ) (i : Input) (ceil : Ceilings) (direct : Bool) (s : Store) (c : Checked)
      (r : Suggestion)
      → IsChecked i c
      → find c.id s.suggestions ≡ some r
      → let (answer, s') = suggest fingerprint latest now i ceil direct s in
        let fp = fingerprint_of fingerprint c i in
        (s' ≡ s)
        × ((r.client_fp ≡ none) ⊎ (r.client_fp ≡ some fp) → answer ≡ replay r)
        × ((other : String) → r.client_fp ≡ some other → other ≢ fp → answer ≡ id_conflict r)
  unfolding taken
  suggest_taken now i ceil direct s c r k there =
      let fp = fingerprint_of fingerprint c i in
      rw (suggest-taken now i ceil direct s c r k there) (
        refl,
        λ h. ground (arith, ==_self fp),
        λ other e ne. ground (arith, string_eq.beq_iff other fp),
      )

  abbrev fp_of : Option Suggestion → Option String
  fp_of none = none
  fp_of (some r) = r.client_fp

  -- Sending a stored input again, at any time and with any ceilings, is answered with the stored row
  -- and changes nothing.
  pub suggest_twice :
      (now now' : ℕ) (i : Input) (ceil ceil' : Ceilings) (direct direct' : Bool) (s : Store)
      (r : Suggestion)
      → (suggest fingerprint latest now i ceil direct s).0 ≡ stored (some r)
      → let s' = (suggest fingerprint latest now i ceil direct s).1 in
        suggest fingerprint latest now' i ceil' direct' s' ≡ (replay r, s')
  unfolding store_new
  suggest_twice now now' i ceil ceil' direct direct' s r h =
      elim (suggest-cases now i ceil direct s) [
        | inr (_, none_stored) ↦ absurd (none_stored (some r) h)
        | inl (c, k) ↦
            let rows' = supersede_priors now c i direct s.suggestions in
            let there = find-stored_rows now c i direct s.suggestions in
            let is : some r
                ≡ some (final_row now i direct (new_row fingerprint latest now c i rows')) =
              stored_inj (sym h ∙ ap (λ (p : Outcome × Store). p.0) k.result) ∙ there in
            let s' = (store_new fingerprint latest now c i direct s).1 in
            let fp = ap fp_of is ∙ (final_row-IsRowOf now c i direct rows').client_fp in
            rw k.result (
              suggest-taken now' i ceil' direct' s' c r k.checked (there ∙ sym is)
              ∙ rw (taken_same (fingerprint_of fingerprint c i) r fp) refl)
      ]
