-- ===== src/Editor/Requests/Lifecycle.antt =====
-- Any sequence of calls on the revert requests and on the scoped-change requests of
-- app/worker/src/editor-store-core.js.
use sonsteng_magnum_opus.Prelude.{
  ℕ, String, ◌≡◌, refl, sym, ap, ◌∙◌, Bool, true, Option, none, some, List, [], ◌∷◌, ◌==◌,
  string_eq, arith, inl, inr, Bool-cases, some_inj,
}
use sonsteng_magnum_opus.Prelude.Value.{nonempty_text}
use sonsteng_magnum_opus.Prelude.Table.{Table, find, find-put}
use sonsteng_magnum_opus.Editor.Requests.{
  RevertStatus, revert_terminal, Revert, RevertInput, file_row, file_revert_checked,
  file_revert_request, resolve_revert_row, resolve_revert_request,
}

module _ {R : Type 0} where
  pub file_row-keeps :
      (id j : String) (new r : R) (o : Option R) (t : Table String R)
      → find id t ≡ o
      → find j t ≡ some r
      → find j (file_row id new o t) ≡ some r
  unfolding file_row
  file_row-keeps id j new r (some old) t there e = e
  file_row-keeps id j new r none t there e =
      ground (arith, there, e, find-put id j new t, string_eq.beq_iff id j)

pub data RevertCall : Type 0 where
  file_call : RevertInput → RevertCall
  resolve_call : String → Option RevertStatus → Option String → RevertCall

unfoldable pub after_revert : ℕ → RevertCall → Table String Revert → Table String Revert
after_revert now (file_call i) t = (file_revert_request now i t).1
after_revert now (resolve_call id status remark) t =
    (resolve_revert_request now id status remark t).1

unfoldable pub run_reverts : List (ℕ × RevertCall) → Table String Revert → Table String Revert
run_reverts [] t = t
run_reverts ((now, call) ∷ calls) t = run_reverts calls (after_revert now call t)

file_revert_checked-keeps :
    (now : ℕ) (a b c d e : Option String) (ok : Bool) (remark : Option String)
    (t : Table String Revert) (j : String) (r : Revert)
    → find j t ≡ some r
    → find j (file_revert_checked now a b c d e ok remark t).1 ≡ some r
unfolding file_revert_checked
file_revert_checked-keeps now (some a) (some b) (some c) (some d) (some e) ok remark t j r h =
    file_row-keeps a j _ r (find a t) t refl h
file_revert_checked-keeps now none b c d e ok remark t j r h = h
file_revert_checked-keeps now (some a) none c d e ok remark t j r h = h
file_revert_checked-keeps now (some a) (some b) none d e ok remark t j r h = h
file_revert_checked-keeps now (some a) (some b) (some c) none e ok remark t j r h = h
file_revert_checked-keeps now (some a) (some b) (some c) (some d) none ok remark t j r h = h

resolve_revert_row-keeps :
    (now : ℕ) (id : String) (status : RevertStatus) (remark : Option String) (o : Option Revert)
    (t : Table String Revert) (j : String) (r : Revert)
    → find id t ≡ o
    → find j t ≡ some r
    → revert_terminal r.status ≡ true
    → find j (resolve_revert_row now id status remark o t).1 ≡ some r
unfolding resolve_revert_row
resolve_revert_row-keeps now id status remark none t j r there h end = h
resolve_revert_row-keeps now id status remark (some q) t j r there h end =
    elim (Bool-cases (revert_terminal q.status)) [
      | inl over ↦ rw over h
      | inr open_yet ↦ elim (Bool-cases (id == j)) [
        | inl same ↦
            let is = (string_eq.beq_iff id j).0 same in
            let row : some q ≡ some r = sym there ∙ ap (λ (k : String). find k t) is ∙ h in
            let eq = ap (λ (x : Revert). revert_terminal x.status) (some_inj row) in
            absurd (ground (arith, open_yet, eq, end))
        | inr other ↦ rw open_yet (rw (find-put id j) (rw other h))
      ]
    ]

after_revert-keeps :
    (now : ℕ) (call : RevertCall) (t : Table String Revert) (j : String) (r : Revert)
    → find j t ≡ some r
    → revert_terminal r.status ≡ true
    → find j (after_revert now call t) ≡ some r
unfolding after_revert file_revert_request resolve_revert_request
after_revert-keeps now (file_call i) t j r h end =
    file_revert_checked-keeps now (nonempty_text i.id) (nonempty_text i.editor)
      (nonempty_text i.doc) (nonempty_text i.run_first) (nonempty_text i.run_last) i.approved i.note
      t j r h
after_revert-keeps now (resolve_call id none remark) t j r h end = h
after_revert-keeps now (resolve_call id (some status) remark) t j r h end =
    resolve_revert_row-keeps now id status remark (find id t) t j r refl h end

-- A revert request that is done or failed is never changed again, in any of its columns, whatever
-- requests are filed and resolved afterwards.
pub run_reverts-keeps :
    (calls : List (ℕ × RevertCall)) (t : Table String Revert) (id : String) (r : Revert)
    → find id t ≡ some r
    → revert_terminal r.status ≡ true
    → find id (run_reverts calls t) ≡ some r
unfolding run_reverts
run_reverts-keeps [] t id r h end = h
run_reverts-keeps ((now, call) ∷ calls) t id r h end =
    run_reverts-keeps calls (after_revert now call t) id r
      (after_revert-keeps now call t id r h end) end
