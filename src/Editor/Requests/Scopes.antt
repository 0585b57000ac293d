-- ===== src/Editor/Requests/Scopes.antt =====
-- The life of a scoped-change request of app/worker/src/editor-store-core.js under any calls.
use mathlib.Core.Path.{subst}
use sonsteng_magnum_opus.Prelude.{
  ℕ, String, ◌≡◌, refl, sym, ap, ◌∙◌, true, false, Option, none, some, List, [], ◌∷◌, ◌==◌,
  string_eq, arith, inl, inr, Bool-cases, some_inj,
}
use sonsteng_magnum_opus.Prelude.Value.{Value, nonempty_text}
use sonsteng_magnum_opus.Prelude.Table.{Table, find, put, find-put, find-put_self}
use sonsteng_magnum_opus.Editor.Requests.{
  ScopedStatus, requested, drafting, drafted, done, failed, declined, scoped_allowed, Scoped,
  ScopedInput, file_scoped_checked, file_scoped_request, claim_scoped_row, is_requested,
  claim_scoped_request, ScopedChange, changed_scoped, resolve_scoped_row, resolve_scoped_request,
  instruction_of,
}
use sonsteng_magnum_opus.Editor.Requests.Lifecycle.{file_row-keeps}

-- A chain of moves: a claim of a requested one, or an allowed move.
pub data Life (a : ScopedStatus) : ScopedStatus → Type 0 where
  here : Life a a
  claim : Life a requested → Life a drafting
  move : {b c : ScopedStatus} → Life a b → scoped_allowed b c ≡ true → Life a c

Life-trans : {a b c : ScopedStatus} → Life a b → Life b c → Life a c
Life-trans p here = p
Life-trans p (claim q) = claim (Life-trans p q)
Life-trans p (move q h) = move (Life-trans p q) h

-- What a request's row becomes.
pub record Lives (r r' : Scoped) : Type 0 where
  pub status : Life r.status r'.status
  pub editor : r'.editor ≡ r.editor
  pub instruction : r'.instruction ≡ r.instruction
  pub level : r'.level ≡ r.level

abbrev Goes : Table String Scoped → Table String Scoped → Type 0
Goes t t' =
    (id : String) (r : Scoped)
    → find id t ≡ some r
    → (r' : Scoped) × (find id t' ≡ some r') × Lives r r'

Lives-refl : (r : Scoped) → Lives r r
Lives-refl r = record { status = here; editor = refl; instruction = refl; level = refl }

Goes-refl : (t : Table String Scoped) → Goes t t
Goes-refl t id r e = (r, e, Lives-refl r)

put-Goes :
    (id : String) (q q' : Scoped) (t : Table String Scoped)
    → find id t ≡ some q
    → Lives q q'
    → Goes t (put id q' t)
put-Goes id q q' t there l j r e = elim (Bool-cases (id == j)) [
  | inl same ↦
      let is = (string_eq.beq_iff id j).0 same in
      let row : some q ≡ some r = sym there ∙ ap (λ (k : String). find k t) is ∙ e in
      (q', rw (find-put id j) (rw same refl), subst (λ (x : Scoped). Lives x q') (some_inj row) l)
  | inr other ↦ (r, rw (find-put id j) (rw other e), Lives-refl r)
]

file_scoped_checked-Goes :
    (now : ℕ) (a b c d : Option String) (radius : Option Value) (i : ScopedInput)
    (t : Table String Scoped)
    → Goes t (file_scoped_checked now a b c d radius i t).1
unfolding file_scoped_checked
file_scoped_checked-Goes now (some a) (some b) (some c) (some d) (some e) i t j r h =
    (r, file_row-keeps a j _ r (find a t) t refl h, Lives-refl r)
file_scoped_checked-Goes now none b c d e i t j r h = (r, h, Lives-refl r)
file_scoped_checked-Goes now (some a) none c d e i t j r h = (r, h, Lives-refl r)
file_scoped_checked-Goes now (some a) (some b) none d e i t j r h = (r, h, Lives-refl r)
file_scoped_checked-Goes now (some a) (some b) (some c) none e i t j r h = (r, h, Lives-refl r)
file_scoped_checked-Goes now (some a) (some b) (some c) (some d) none i t j r h =
    (r, h, Lives-refl r)

claim_from : (s : ScopedStatus) → is_requested s ≡ true → Life s drafting
claim_from requested h = claim here
claim_from drafting h = absurd (ground (arith, h))
claim_from drafted h = absurd (ground (arith, h))
claim_from done h = absurd (ground (arith, h))
claim_from failed h = absurd (ground (arith, h))
claim_from declined h = absurd (ground (arith, h))

claim_scoped_row-Goes :
    (now : ℕ) (id : String) (o : Option Scoped) (t : Table String Scoped)
    → find id t ≡ o
    → Goes t (claim_scoped_row now id o t).1
unfolding claim_scoped_row
claim_scoped_row-Goes now id none t there = Goes-refl t
claim_scoped_row-Goes now id (some q) t there = elim (Bool-cases (is_requested q.status)) [
  | inr taken ↦ rw taken (Goes-refl t)
  | inl free ↦ rw free (
      put-Goes id q (record q { status = drafting; updated_at = now }) t there
        (record {
          status = claim_from q.status free;
          editor = refl;
          instruction = refl;
          level = refl;
        }))
]

resolve_scoped_row-Goes :
    (now : ℕ) (id : String) (status : Option ScopedStatus) (c : ScopedChange) (o : Option Scoped)
    (t : Table String Scoped)
    → find id t ≡ o
    → Goes t (resolve_scoped_row now id status c o t).1
unfolding resolve_scoped_row
resolve_scoped_row-Goes now id status c none t there = Goes-refl t
resolve_scoped_row-Goes now id none c (some q) t there = Goes-refl t
resolve_scoped_row-Goes now id (some s) c (some q) t there =
    elim (Bool-cases (scoped_allowed q.status s)) [
      | inr illegal ↦ rw illegal (Goes-refl t)
      | inl legal ↦ rw legal (
          put-Goes id q (changed_scoped now s c q) t there
            (record { status = move here legal; editor = refl; instruction = refl; level = refl }))
    ]

pub data ScopedCall : Type 0 where
  file_call : ScopedInput → ScopedCall
  claim_call : String → ScopedCall
  resolve_call : String → ScopedChange → ScopedCall

unfoldable pub after_scoped : ℕ → ScopedCall → Table String Scoped → Table String Scoped
after_scoped now (file_call i) t = (file_scoped_request now i t).1
after_scoped now (claim_call id) t = (claim_scoped_request now id t).1
after_scoped now (resolve_call id c) t = (resolve_scoped_request now id c t).1

unfoldable pub run_scopes : List (ℕ × ScopedCall) → Table String Scoped → Table String Scoped
run_scopes [] t = t
run_scopes ((now, call) ∷ calls) t = run_scopes calls (after_scoped now call t)

after_scoped-Goes :
    (now : ℕ) (call : ScopedCall) (t : Table String Scoped) → Goes t (after_scoped now call t)
unfolding after_scoped file_scoped_request claim_scoped_request resolve_scoped_request
after_scoped-Goes now (file_call i) t =
    file_scoped_checked-Goes now (nonempty_text i.id) (nonempty_text i.editor)
      (nonempty_text i.level) (instruction_of (nonempty_text i.instruction)) i.radius_blocks i t
after_scoped-Goes now (claim_call id) t = claim_scoped_row-Goes now id (find id t) t refl
after_scoped-Goes now (resolve_call id c) t =
    resolve_scoped_row-Goes now id c.status c (find id t) t refl

Lives-trans : {a b c : Scoped} → Lives a b → Lives b c → Lives a c
Lives-trans p q = record {
  status = Life-trans p.status q.status;
  editor = q.editor ∙ p.editor;
  instruction = q.instruction ∙ p.instruction;
  level = q.level ∙ p.level;
}

-- Through any calls that file, claim and resolve scoped requests, a request stays in the table with
-- its editor, level and instruction, and its status moves by a claim from requested to drafting or
-- by an allowed move.
pub run_scopes-Lives :
    (calls : List (ℕ × ScopedCall)) (t : Table String Scoped) (id : String) (r : Scoped)
    → find id t ≡ some r
    → (r' : Scoped) × (find id (run_scopes calls t) ≡ some r') × Lives r r'
unfolding run_scopes
run_scopes-Lives [] t id r e = (r, e, Lives-refl r)
run_scopes-Lives ((now, call) ∷ calls) t id r e =
    let (q, e', l) = after_scoped-Goes now call t id r e in
    let (r', e'', m) = run_scopes-Lives calls (after_scoped now call t) id q e' in
    (r', e'', Lives-trans l m)

claim_row_twice :
    (now now' : ℕ) (id : String) (o : Option Scoped) (t : Table String Scoped)
    → (claim_scoped_row now id o t).0 ≡ true
    → let t' = (claim_scoped_row now id o t).1 in
      claim_scoped_row now' id (find id t') t' ≡ (false, t')
unfolding claim_scoped_row
claim_row_twice now now' id none t h = absurd (ground (arith, h))
claim_row_twice now now' id (some r) t h = elim (Bool-cases (is_requested r.status)) [
  | inr taken ↦ absurd (ground (arith, h, taken))
  | inl free ↦
      rw free (rw (find-put_self id (record r { status = drafting; updated_at = now }) t) refl)
]

-- A request that one caller has claimed cannot be claimed again: the second claim is refused and
-- changes nothing.
pub claim_scoped_twice :
    (now now' : ℕ) (id : String) (t : Table String Scoped)
    → (claim_scoped_request now id t).0 ≡ true
    → let t' = (claim_scoped_request now id t).1 in claim_scoped_request now' id t' ≡ (false, t')
unfolding claim_scoped_request
claim_scoped_twice now now' id t h = claim_row_twice now now' id (find id t) t h
