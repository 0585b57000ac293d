-- ===== src/Assessment/Graded.antt =====
-- `validateMemoScorecard` of app/worker/src/validate.js before `aggregateMemoPanel` of
-- app/worker/src/panel.js: the aggregation of scorecards that were all accepted.
use mathlib.Core.Path.{subst}
use sonsteng_magnum_opus.Prelude.{
  String, ◌≡◌, refl, sym, ap, ◌∙◌, true, some, List, [], ◌∷◌, All, length, string_eq, arith,
}
use sonsteng_magnum_opus.Prelude.Json.{Json, ToText}
use sonsteng_magnum_opus.Prelude.Value.{Value}
use sonsteng_magnum_opus.Prelude.Table.{Table}
use sonsteng_magnum_opus.Panel.Aggregate.{Heading, Entry, Result, aggregate_memo_panel}
use sonsteng_magnum_opus.Panel.Aggregate.Laws.{
  Grades, IsFair, ids_of, heading_ids, aggregate_memo_panel_total, aggregate_memo_panel-IsFair,
}
use sonsteng_magnum_opus.Assessment.Memo.{
  memo_heading_ids, is_member, Scorecard, valid, validate_memo_scorecard,
}
use sonsteng_magnum_opus.Assessment.Memo.Sound.{IsSound, IsComplete, validate_memo_scorecard_sound}

-- An entry whose scorecard was accepted.
abbrev pub IsAccepted : ToText → String → Json → Entry → Type 0
IsAccepted to_text submission instrument e =
    (o : Json) × (card : Scorecard) × (validate_memo_scorecard to_text o (some submission)
        instrument
      ≡ valid card)
    × (e.headings ≡ card.headings)

accepted-IsComplete :
    (to_text : ToText) (submission : String) (instrument : Json) (e : Entry)
    → IsAccepted to_text submission instrument e
    → IsComplete submission e.headings
accepted-IsComplete to_text submission instrument e (o, card, h, same_headings) =
    subst (IsComplete submission) (sym same_headings)
      (validate_memo_scorecard_sound to_text o submission instrument card h)

accepted-Grades :
    (to_text : ToText) (submission : String) (instrument : Json) (id : String) (es : List Entry)
    → is_member memo_heading_ids id ≡ true
    → All (IsAccepted to_text submission instrument) es
    → All (Grades id) es
accepted-Grades to_text submission instrument id [] m a = tt
accepted-Grades to_text submission instrument id (e ∷ es) m a = (
  (accepted-IsComplete to_text submission instrument e a.0).graded id m,
  accepted-Grades to_text submission instrument id es m a.1,
)

all_graded :
    (to_text : ToText) (submission : String) (instrument : Json) (es : List Entry)
    (hs : List Heading)
    → All (IsSound submission) hs
    → All (IsAccepted to_text submission instrument) es
    → All (λ (g : Heading). All (Grades g.heading_id) es) hs
all_graded to_text submission instrument es [] s a = tt
all_graded to_text submission instrument es (g ∷ hs) s a = (
  accepted-Grades to_text submission instrument g.heading_id es s.0.id a,
  all_graded to_text submission instrument es hs s.1 a,
)

length-heading_ids : (hs : List Heading) → length (heading_ids hs) ≡ length hs
length-heading_ids [] = refl
length-heading_ids (h ∷ hs) = omega (arith, length-heading_ids hs)

-- Where the scorecards of all graders were accepted for one submission, their aggregation never fails:
-- it has seven results, and each is fair.
pub accepted_panel :
    (to_text : ToText) (submission : String) (instrument : Json) (first : Entry) (es : List Entry)
    (adjudicated_scores : Table String Value)
    → All (IsAccepted to_text submission instrument) (first ∷ es)
    → (rs : List Result) × (aggregate_memo_panel (first ∷ es) adjudicated_scores ≡ some rs)
      × (length (ids_of rs) ≡ 7)
      × All (IsFair (first ∷ es)) rs
accepted_panel to_text submission instrument first es adjudicated_scores a =
    let complete = accepted-IsComplete to_text submission instrument first a.0 in
    let (rs, there) =
      aggregate_memo_panel_total first es adjudicated_scores
        (all_graded to_text submission instrument (first ∷ es) first.headings complete.sound a) in
    let (fair, ids) = aggregate_memo_panel-IsFair first es adjudicated_scores rs there in
    (rs, there, ap length ids ∙ length-heading_ids first.headings ∙ complete.seven, fair)
