-- ===== src/Editor/Batches/Whole.antt =====
-- `claimBatch` of app/worker/src/editor-store-core.js claims groups whole.
use mathlib.Core.Path.{subst}
use sonsteng_magnum_opus.Prelude.{
  ℕ, ◌+◌, String, string_eq, ◌≡◌, refl, sym, ap, ◌∙◌, Bool, true, Option, none, some, List, [], ◌∷◌,
  ◌==◌, arith, inl, inr, ◌⊎◌, Bool-cases, Option-cases, some_inj,
}
use sonsteng_magnum_opus.Prelude.Table.{find}
use sonsteng_magnum_opus.Editor.Rows.{Suggestion, Rows, Store, rows_where}
use sonsteng_magnum_opus.Editor.Suggest.{or_null}
use sonsteng_magnum_opus.Editor.Decide.{in_group}
use sonsteng_magnum_opus.Editor.Batches.{
  claimed, is_in, is_accepted, candidates, add, add_all, sort_row, sort_out, ids_of, all_accepted,
  add_groups, claim_ids, open_batch, claim_batch,
}
use sonsteng_magnum_opus.Editor.Batches.Members.{
  IsRow, first, later, is_in-add, is_in-add_all, where-IsRow, in_rows, row_in, row_accepted,
  candidate-IsRow,
}

abbrev Lone : String → Rows → Type 0
Lone id t = (r : Suggestion) × IsRow id r t × (or_null r.group_id ≡ none)

sort_row_lone :
    (id j : String) (w : Suggestion) (acc : List String × List String)
    → is_in (sort_row j w acc).0 id ≡ true
    → (is_in acc.0 id ≡ true) ⊎ ((j ≡ id) × (or_null w.group_id ≡ none))
unfolding sort_row
sort_row_lone id j w acc h = elim (Bool-cases (is_accepted w)) [
  | inr other ↦ inl (ground (arith, h, other))
  | inl claimable ↦ elim (Option-cases (or_null w.group_id)) [
    | inr (g, grouped) ↦ inl (rw (claimable, grouped) at h)
    | inl lone ↦
        let h' : is_in (add j acc.0) id ≡ true = rw (claimable, lone) at h in
        elim (Bool-cases (j == id)) [
          | inl same ↦ inr ((string_eq.beq_iff j id).0 same, lone)
          | inr differs ↦ inl (ground (arith, h', differs, is_in-add j acc.0 id))
        ]
  ]
]

sort_out-Lone :
    (id : String) (c : Rows) (acc : List String × List String)
    → is_in (sort_out c acc).0 id ≡ true
    → (is_in acc.0 id ≡ true) ⊎ Lone id c
unfolding sort_out
sort_out-Lone id [] acc h = inl h
sort_out-Lone id ((j, w) ∷ c) acc h = elim (sort_out-Lone id c (sort_row j w acc) h) [
  | inr (r, m, lone) ↦ inr (r, later m, lone)
  | inl before ↦ elim (sort_row_lone id j w acc before) [
    | inl h' ↦ inl h'
    | inr (same, lone) ↦ inr (w, rw same first, lone)
  ]
]

add_groups_mono :
    (gs : List String) (t : Rows) (ids : List String) (id : String)
    → is_in ids id ≡ true
    → is_in (add_groups gs t ids) id ≡ true
unfolding add_groups
add_groups_mono [] t ids id h = h
add_groups_mono (g ∷ gs) t ids id h =
    let members = rows_where (in_group g) t in
    elim (Bool-cases (all_accepted members)) [
      | inl whole ↦ rw whole (
          add_groups_mono gs t (add_all (ids_of members) ids) id
            (ground (arith, h, is_in-add_all (ids_of members) ids id)))
      | inr part ↦ rw part (add_groups_mono gs t ids id h)
    ]

-- A claimed id was there before, or is of a group that is claimed whole.
abbrev OfGroup : String → Rows → List String → Type 0
OfGroup id t cs =
    (g : String) × (all_accepted (rows_where (in_group g) t) ≡ true)
    × (is_in (ids_of (rows_where (in_group g) t)) id ≡ true)
    × ((j : String) → is_in (ids_of (rows_where (in_group g) t)) j ≡ true → is_in cs j ≡ true)

group_row :
    (gs : List String) (t : Rows) (ids : List String) (id : String)
    → is_in (add_groups gs t ids) id ≡ true
    → (is_in ids id ≡ true) ⊎ OfGroup id t (add_groups gs t ids)
unfolding add_groups
group_row [] t ids id h = inl h
group_row (g ∷ gs) t ids id h =
    let members = rows_where (in_group g) t in
    elim (Bool-cases (all_accepted members)) [
      | inr part ↦ rw part (group_row gs t ids id (rw part at h))
      | inl whole ↦
          let more = add_all (ids_of members) ids in
          elim (group_row gs t more id (rw whole at h)) [
            | inr group ↦ rw whole (inr group)
            | inl before ↦ elim (Bool-cases (is_in (ids_of members) id)) [
              | inr outside ↦
                  inl (ground (arith, before, outside, is_in-add_all (ids_of members) ids id))
              | inl member ↦ rw whole (
                  inr (
                    g,
                    whole,
                    member,
                    λ j m.
                        add_groups_mono gs t more j
                          (ground (arith, m, is_in-add_all (ids_of members) ids j)),
                  ))
            ]
          ]
    ]

-- An id has one row: the table's primary key.
abbrev pub IsKeyed : Rows → Type 0
IsKeyed t = (id : String) (r : Suggestion) → IsRow id r t → find id t ≡ some r

found-IsRow : (id : String) (r : Suggestion) (t : Rows) → find id t ≡ some r → IsRow id r t
unfolding find
found-IsRow id r [] e = absurd (ground (arith, e))
found-IsRow id r ((j, w) ∷ t) e = elim (Bool-cases (j == id)) [
  | inl same ↦
      let row : some w ≡ some r = sym (rw same refl) ∙ e in
      rw ((string_eq.beq_iff j id).0 same, some_inj row) first
  | inr other ↦ later (found-IsRow id r t (sym (rw other refl) ∙ e))
]

member-IsRow :
    (p : Suggestion → Bool) (id : String) (r : Suggestion) (t : Rows)
    → IsRow id r t
    → p r ≡ true
    → IsRow id r (rows_where p t)
unfolding rows_where
member-IsRow p id r [] m h = elim m [ ]
member-IsRow p id r ((j, w) ∷ t) first h = rw h first
member-IsRow p id r ((j, w) ∷ t) (later m) h = elim (Bool-cases (p w)) [
  | inl kept ↦ rw kept (later (member-IsRow p id r t m h))
  | inr left ↦ rw left (member-IsRow p id r t m h)
]

group_text : (o : Option String) (g : String) → or_null o ≡ some g → o ≡ some g
group_text none g h = absurd (ground (arith, h))
group_text (some String.[]) g h = absurd (ground (arith, h))
group_text (some (String.◌∷◌ c t)) g h = h

same_group : (g h : String) (r : Suggestion) → r.group_id ≡ some g → in_group h r ≡ true → g ≡ h
same_group g h r e m = (string_eq.beq_iff g h).0 (rw e at m)

-- The ids of a claim hold, with a row of a group, the whole group, and every row of it is accepted.
claim_ids_whole :
    (ids : List String) (t : Rows) (id : String) (r : Suggestion) (g : String) (j : String)
    (q : Suggestion)
    → IsKeyed t
    → find id t ≡ some r
    → or_null r.group_id ≡ some g
    → is_in (claim_ids ids t) id ≡ true
    → find j t ≡ some q
    → in_group g q ≡ true
    → (is_accepted q ≡ true) × (is_in (claim_ids ids t) j ≡ true)
unfolding claim_ids
claim_ids_whole ids t id r g j q keyed e grouped h there member =
    let c = candidates ids t in
    let (lone, groups) = sort_out c ([], []) in
    elim (group_row groups t lone id h) [
      | inl alone ↦ elim (sort_out-Lone id c ([], []) alone) [
        | inl nothing ↦ absurd (ground (arith, nothing))
        | inr (w, m, no_group) ↦
            let is : w ≡ r = some_inj (sym (keyed id w (candidate-IsRow ids id w t m)) ∙ e) in
            let clash : none ≡ some g =
              sym no_group ∙ ap (λ (x : Suggestion). or_null x.group_id) is ∙ grouped in
            absurd (ground (arith, clash))
      ]
      | inr (k, whole, inside, all_in) ↦
          let (w, m) = in_rows id (rows_where (in_group k) t) inside in
          let (row, in_k) = where-IsRow (in_group k) id w t m in
          let is : w ≡ r = some_inj (sym (keyed id w row) ∙ e) in
          let same : g ≡ k =
            same_group g k r (group_text r.group_id g grouped) (sym (ap (in_group k) is) ∙ in_k) in
          let of_k : in_group k q ≡ true = sym (ap (λ (x : String). in_group x q) same) ∙ member in
          let mq = member-IsRow (in_group k) j q t (found-IsRow j q t there) of_k in
          (
            row_accepted j q (rows_where (in_group k) t) whole mq,
            all_in j (row_in j q (rows_where (in_group k) t) mq),
          )
    ]

open_batch_ids :
    (now : ℕ) (batch : String) (base_sha : Option String) (lease lease' : ℕ) (ids cs : List String)
    (s : Store)
    → (open_batch now batch base_sha lease ids s).0 ≡ claimed cs lease'
    → ids ≡ cs
unfolding open_batch
open_batch_ids now batch base_sha lease lease' [] cs s h = absurd (ground (arith, h))
open_batch_ids now batch base_sha lease lease' (id ∷ ids) cs s h = ground (arith, h)

claimed_ids :
    (now : ℕ) (batch : String) (base_sha : Option String) (ids cs : List String)
    (lease_ms lease : ℕ) (s : Store)
    → (claim_batch now batch base_sha ids lease_ms s).0 ≡ claimed cs lease
    → claim_ids ids s.suggestions ≡ cs
unfolding claim_batch
claimed_ids now batch base_sha ids cs lease_ms lease s h =
    elim (Option-cases (find batch s.apply_batches)) [
      | inr (b, taken) ↦ absurd (ground (arith, h, taken))
      | inl fresh ↦
          open_batch_ids now batch base_sha (now + lease_ms) lease (claim_ids ids s.suggestions) cs
            s (rw (claim_batch, fresh) at h)
    ]

-- A claim never splits a group: in a table with one row per id, when a claimed row belongs to a group,
-- every row of that group was accepted and is claimed with it.
pub claim_batch_whole :
    (now : ℕ) (batch : String) (base_sha : Option String) (ids cs : List String)
    (lease_ms lease : ℕ) (s : Store) (id : String) (r : Suggestion) (g : String) (j : String)
    (q : Suggestion)
    → IsKeyed s.suggestions
    → (claim_batch now batch base_sha ids lease_ms s).0 ≡ claimed cs lease
    → find id s.suggestions ≡ some r
    → or_null r.group_id ≡ some g
    → is_in cs id ≡ true
    → find j s.suggestions ≡ some q
    → in_group g q ≡ true
    → (is_accepted q ≡ true) × (is_in cs j ≡ true)
claim_batch_whole now batch base_sha ids cs lease_ms lease s id r g j q keyed h e grouped inside
      there member =
    let is = claimed_ids now batch base_sha ids cs lease_ms lease s h in
    subst (λ (l : List String). (is_accepted q ≡ true) × (is_in l j ≡ true)) is
      (claim_ids_whole ids s.suggestions id r g j q keyed e grouped
        (subst (λ (l : List String). is_in l id ≡ true) (sym is) inside) there member)
