-- ===== src/Assessment/Examples.antt =====
-- Runs of the memo assessment: an instrument with an instructor's thresholds, and a memo of one quotation
-- that every heading rests on.
use sonsteng_magnum_opus.Prelude.{
  String, ◌≡◌, refl, true, some, List, [], ◌∷◌, All, length, string_eq,
}
use sonsteng_magnum_opus.Prelude.Text.{includes}
use sonsteng_magnum_opus.Prelude.Json.{
  Json, undefined, nat, text, arr, obj, Items, nil, cons, end, field, get, elements, ToText,
}
use sonsteng_magnum_opus.Panel.Aggregate.{Entry, Result, aggregate_memo_panel}
use sonsteng_magnum_opus.Panel.Aggregate.Laws.{IsFair, ids_of}
use sonsteng_magnum_opus.Assessment.Config.{
  request_schema_version, instructor, resolved_config, thresholds_of, valid_resolved_config,
  resolve_thresholds, resolve_with, resolve_request, canonical_defaults, valid_instrument,
  default_thresholds, valid_envelope, has_only_keys, valid_threshold_record, is_source_id, is_score,
  score_of, in_order,
}
use sonsteng_magnum_opus.Assessment.Config.Valid.{resolve_thresholds_valid}
use sonsteng_magnum_opus.Assessment.Memo.{
  memo_heading_ids, canonical_headings, Scorecard, valid, validate_memo_scorecard, memo_errors,
  valid_memo_instrument, is_semver, is_sha256, field_errors, key_errors, body_errors,
  headings_errors, heading_errors, evidence_errors, span_errors, seen_ids, missing_errors,
}
use sonsteng_magnum_opus.Assessment.Memo.Sound.{IsComplete, validate_memo_scorecard_sound}
use sonsteng_magnum_opus.Assessment.Graded.{accepted_panel}
use sonsteng_magnum_opus.Assessment.Debrief.{
  redact_debrief_oracle, revealed_missed, unearned, elicited, tier, known_labels, model_trigger,
  given_trigger, label_for,
}
use sonsteng_magnum_opus.Assessment.Debrief.Oracle.{IsRedacted, redact_debrief_oracle_closed}

abbrev no_text : ToText
no_text v = ""

abbrev hash : String
hash = "sha256:0123456789abcdef0123456789abcdef0123456789abcdef0123456789abcdef"

abbrev instrument : Json
instrument = obj (
    field "id" (text "memo-seven-heading-1-7") (
      field "instrument_version" (text "1.0.0") (
        field "content_hash" (text hash) (
          field "content"
            (obj (
              field "thresholds"
                (obj (
                  field "default_competence_score" (nat 4)
                    (field "default_redo_eligible_below" (nat 5) end)))
                end))
            end))))

abbrev of_instructor : Json
of_instructor = obj (
    field "id" (text "law:101")
      (field "competence_score" (nat 3) (field "redo_eligible_below" (nat 6) end)))

abbrev request : Json
request =
    obj
      (field "schema_version" (text request_schema_version) (field "instructor" of_instructor end))

abbrev config : Json
config = resolved_config instructor (thresholds_of of_instructor) instrument

resolve_thresholds_valid_example :
    (valid_resolved_config no_text config instrument ≡ true)
    × (get "source" config ≡ text "instructor")
unfolding resolve_thresholds resolve_with resolve_request canonical_defaults valid_instrument
    default_thresholds valid_envelope has_only_keys valid_threshold_record is_source_id is_score
    score_of in_order
resolve_thresholds_valid_example = resolve_thresholds_valid no_text request instrument config refl

abbrev graded : String → Json
graded id = obj (
    field "heading_id" (text id) (
      field "evidence_spans" (arr (cons (text "duty") nil))
        (field "rationale" (text "clear") (field "score" (nat 5) end))))

abbrev all_graded : List String → Items
all_graded [] = nil
all_graded (id ∷ ids) = cons (graded id) (all_graded ids)

abbrev memo : Json
memo = obj (
    field "schema_version" (text "1.0.0") (
      field "instrument_id" (text "memo-seven-heading-1-7") (
        field "instrument_version" (text "1.0.0") (
          field "instrument_content_hash" (text hash)
            (field "headings" (arr (all_graded memo_heading_ids)) end)))))

abbrev card : Scorecard
card = record {
  instrument_id = text "memo-seven-heading-1-7";
  instrument_version = text "1.0.0";
  instrument_content_hash = text hash;
  headings = canonical_headings (elements (get "headings" memo));
}

memo_accepted : validate_memo_scorecard no_text memo (some "a duty") instrument ≡ valid card
unfolding validate_memo_scorecard memo_errors valid_memo_instrument is_semver is_sha256 field_errors
    key_errors body_errors headings_errors heading_errors evidence_errors span_errors seen_ids
    missing_errors includes
memo_accepted = refl

validate_memo_scorecard_sound_example : IsComplete "a duty" card.headings
validate_memo_scorecard_sound_example =
    validate_memo_scorecard_sound no_text memo "a duty" instrument card memo_accepted

abbrev entry : Entry
entry = record {
  grader = record { provider = "p"; model = "m"; mode = "byok" };
  headings = card.headings;
}

accepted_panel_example :
    (rs : List Result) × (aggregate_memo_panel (entry ∷ entry ∷ []) [] ≡ some rs)
    × (length (ids_of rs) ≡ 7)
    × All (IsFair (entry ∷ entry ∷ [])) rs
accepted_panel_example =
    accepted_panel no_text "a duty" instrument entry (entry ∷ []) []
      ((memo, card, memo_accepted, refl), ((memo, card, memo_accepted, refl), tt))

-- A debrief whose model wrote a secret into a missed topic.
abbrev persona : Json
persona = obj (
    field "disclosure"
      (obj (
        field "rapport_gated"
          (arr (
            cons
              (obj (
                field "fact_ref" (text "m01.fact.001")
                  (field "requires" (arr (cons (text "wellbeing_question") nil)) end)))
              nil))
          (field "revealed_if_asked"
            (arr (cons (obj (field "fact_ref" (text "m01.fact.002") end)) nil)) end)))
      end)

abbrev fact_map : Json
fact_map = obj (field "m01.fact.001" (obj (field "topic_label" (text "family") end)) end)

abbrev leaky : Json
leaky = obj (
    field "axis_a"
      (obj (
        field "facts_elicited" (arr (cons (text "m01.fact.003") nil))
          (field "revealed_if_asked_missed" (arr (cons (text "the secret") nil)) end)))
      end)

redact_debrief_oracle_closed_example :
    IsRedacted
      (get "axis_a" leaky)
      persona
      fact_map
      (get "axis_a" (redact_debrief_oracle leaky persona fact_map))
redact_debrief_oracle_closed_example = redact_debrief_oracle_closed leaky persona fact_map refl refl

redact_test :
    get "revealed_if_asked_missed" (get "axis_a" (redact_debrief_oracle leaky persona fact_map))
    ≡ arr (cons (text "(topic withheld)") nil)
unfolding redact_debrief_oracle revealed_missed unearned elicited tier known_labels model_trigger
    given_trigger label_for
redact_test = refl

-- A topic label that names a method of every object: no trigger is left in the JSON.
abbrev odd_map : Json
odd_map = obj (field "m01.fact.001" (obj (field "topic_label" (text "constructor") end)) end)

redact_inherited_test :
    get "rapport_gated_unearned" (get "axis_a" (redact_debrief_oracle leaky persona odd_map))
    ≡ arr
        (cons (obj (field "topic" (text "constructor") (field "trigger_needed" undefined end))) nil)
unfolding redact_debrief_oracle revealed_missed unearned elicited tier known_labels model_trigger
    given_trigger label_for
redact_inherited_test = refl
