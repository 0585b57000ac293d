-- ===== src/Assessment/Config.antt =====
-- app/worker/src/assessment-config.js: the thresholds of a memo assessment, from the request's
-- instructor or school record or from the instrument.
pub mod Valid
use sonsteng_magnum_opus.Prelude.{
  ℕ, String, Bool, true, false, not, ◌&&◌, ◌||◌, Option, none, some, List, [], ◌∷◌, any, all,
  length, ◌==◌, string_eq, leb, ltb, nat_beq, if◌then◌else◌,
}
use sonsteng_magnum_opus.Prelude.Text.{codes, is_digit, is_lower, is_upper, all_codes}
use sonsteng_magnum_opus.Prelude.Json.{
  Json, Fields, undefined, bool, nat, text, obj, end, field, get, keys, is_object, is_text,
  is_undefined, is_just, same, is_truthy, ToText, as_text, nat_of,
}

abbrev pub request_schema_version : String
request_schema_version = "memo-assessment-threshold-config/v1"

abbrev pub resolution_schema_version : String
resolution_schema_version = "memo-assessment-threshold-resolution/v1"

abbrev pub resolution : String
resolution = "instructor>school>default"

abbrev pub envelope_keys : List String
envelope_keys = "schema_version" ∷ "school" ∷ "instructor" ∷ []

abbrev pub record_keys : List String
record_keys = "id" ∷ "competence_score" ∷ "redo_eligible_below" ∷ []

abbrev pub config_keys : List String
config_keys =
    "schema_version" ∷ "source" ∷ "source_id" ∷ "competence_score" ∷ "redo_eligible_below"
    ∷ "resolution" ∷ "locally_supplied" ∷ "authority_status" ∷ "verified_institutional_authority"
    ∷ "version" ∷ "content_hash" ∷ []

-- `SOURCE_ID`
abbrev pub is_alnum : ℕ → Bool
is_alnum c = is_upper c || is_lower c || is_digit c

abbrev pub is_id_char : ℕ → Bool
is_id_char c = is_alnum c || nat_beq c 58 || nat_beq c 46 || nat_beq c 95 || nat_beq c 45

abbrev pub is_source_codes : List ℕ → Bool
is_source_codes [] = false
is_source_codes (c ∷ cs) = is_alnum c && all_codes is_id_char cs && leb (length cs) 127

unfoldable pub is_source_id : String → Bool
is_source_id s = is_source_codes (codes s)

unfoldable pub has_only_keys : List String → Json → Bool
has_only_keys allowed v = all (λ (k : String). any (λ (a : String). a == k) allowed) (keys v)

-- `validScore`, with the score where it is one.
unfoldable pub score_of : Json → Option ℕ
score_of v = elim (nat_of v) [ none ↦ none | some n ↦ if leb 1 n && leb n 7 then some n else none ]

unfoldable pub is_score : Json → Bool
is_score v = elim (score_of v) [ none ↦ false | some n ↦ true ]

-- `a <= b` of two valid scores.
unfoldable pub in_order : Json → Json → Bool
in_order (nat a) (nat b) = leb a b
in_order _ _ = false

unfoldable pub valid_threshold_record : ToText → Json → Bool
unfolding has_only_keys is_source_id is_score score_of in_order
valid_threshold_record to_text v =
    is_object v
    && has_only_keys record_keys v
    && nat_beq (length (keys v)) (length record_keys)
    && is_source_id (as_text to_text (get "id" v))
    && is_score (get "competence_score" v)
    && is_score (get "redo_eligible_below" v)
    && in_order (get "competence_score" v) (get "redo_eligible_below" v)

-- The id and the two scores of a source.
pub record Thresholds : Type 0 where
  pub id : Json
  pub competence_score : Json
  pub redo_eligible_below : Json

unfoldable pub valid_instrument : Json → Bool
unfolding is_source_id is_score score_of in_order
valid_instrument instrument =
    let thresholds = get "thresholds" (get "content" instrument) in
    is_object thresholds
    && is_score (get "default_competence_score" thresholds)
    && is_score (get "default_redo_eligible_below" thresholds)
    && in_order (get "default_competence_score" thresholds)
        (get "default_redo_eligible_below" thresholds)
    && (elim (get "id" instrument) [ text s ↦ is_source_id s | _ ↦ false ])
    && is_text (get "instrument_version" instrument)
    && is_text (get "content_hash" instrument)

unfoldable pub default_thresholds : Json → Thresholds
default_thresholds instrument =
    let thresholds = get "thresholds" (get "content" instrument) in
    record {
      id = get "id" instrument;
      competence_score = get "default_competence_score" thresholds;
      redo_eligible_below = get "default_redo_eligible_below" thresholds;
    }

unfoldable pub canonical_defaults : Json → Option Thresholds
unfolding valid_instrument default_thresholds
canonical_defaults instrument =
    if valid_instrument instrument then some (default_thresholds instrument) else none

pub data Source : Type 0 where
  default school instructor : Source

abbrev pub source_name : Source → String
source_name default = "default"
source_name school = "school"
source_name instructor = "instructor"

abbrev pub is_local : Source → Bool
is_local default = false
is_local _ = true

abbrev pub authority_status : Bool → String
authority_status locally = if locally then "claimed_locally_supplied" else "canonical_default"

unfoldable pub resolved_config : Source → Thresholds → Json → Json
resolved_config source t instrument = obj (
    field "schema_version" (text resolution_schema_version) (
      field "source" (text (source_name source)) (
        field "source_id" t.id (
          field "competence_score" t.competence_score (
            field "redo_eligible_below" t.redo_eligible_below (
              field "resolution" (text resolution) (
                field "locally_supplied" (bool (is_local source)) (
                  field "authority_status" (text (authority_status (is_local source))) (
                    field "verified_institutional_authority" (bool false) (
                      field "version" (get "instrument_version" instrument)
                        (field "content_hash" (get "content_hash" instrument) end)))))))))))

abbrev pub is_source : Json → Bool
is_source v = is_just "default" v || is_just "school" v || is_just "instructor" v

-- The comparison with the instrument's own thresholds.
unfoldable pub is_default_config : Json → Option Thresholds → Bool
is_default_config config none = false
is_default_config config (some d) =
    same (get "source_id" config) d.id
    && same (get "competence_score" config) d.competence_score
    && same (get "redo_eligible_below" config) d.redo_eligible_below

unfoldable pub valid_resolved_config : ToText → Json → Json → Bool
unfolding has_only_keys is_source_id is_score score_of in_order canonical_defaults is_default_config
valid_resolved_config to_text config instrument =
    let locally = not (is_just "default" (get "source" config)) in
    is_object config
    && has_only_keys config_keys config
    && is_just resolution_schema_version (get "schema_version" config)
    && is_source (get "source" config)
    && is_source_id (as_text to_text (get "source_id" config))
    && is_score (get "competence_score" config)
    && is_score (get "redo_eligible_below" config)
    && in_order (get "competence_score" config) (get "redo_eligible_below" config)
    && is_just resolution (get "resolution" config)
    && same (get "version" config) (get "instrument_version" instrument)
    && same (get "content_hash" config) (get "content_hash" instrument)
    && same (get "verified_institutional_authority" config) (bool false)
    && same (get "locally_supplied" config) (bool locally)
    && is_just (authority_status locally) (get "authority_status" config)
    && (if locally then true else is_default_config config (canonical_defaults instrument))

pub data Resolution : Type 0 where
  server_error request_error : Resolution
  resolved : Json → Resolution

abbrev pub thresholds_of : Json → Thresholds
thresholds_of v = record {
  id = get "id" v;
  competence_score = get "competence_score" v;
  redo_eligible_below = get "redo_eligible_below" v;
}

-- An envelope that is no object, has other keys, another version, no record or a bad one is refused.
unfoldable pub valid_envelope : ToText → Json → Bool
unfolding has_only_keys valid_threshold_record
valid_envelope to_text v =
    is_object v
    && has_only_keys envelope_keys v
    && is_just request_schema_version (get "schema_version" v)
    && not (is_undefined (get "school" v) && is_undefined (get "instructor" v))
    && (is_undefined (get "school" v) || valid_threshold_record to_text (get "school" v))
    && (is_undefined (get "instructor" v) || valid_threshold_record to_text (get "instructor" v))

unfoldable pub resolve_request : ToText → Json → Json → Resolution
unfolding valid_envelope resolved_config
resolve_request to_text request instrument =
    if not (valid_envelope to_text request)
    then request_error
    else if is_truthy (get "instructor" request)
    then resolved (resolved_config instructor (thresholds_of (get "instructor" request)) instrument)
    else resolved (resolved_config school (thresholds_of (get "school" request)) instrument)

unfoldable pub resolve_with : ToText → Json → Json → Option Thresholds → Resolution
unfolding resolve_request resolved_config
resolve_with to_text request instrument none = server_error
resolve_with to_text request instrument (some defaults) =
    if is_undefined request
    then resolved (resolved_config default defaults instrument)
    else resolve_request to_text request instrument

unfoldable pub resolve_thresholds : ToText → Json → Json → Resolution
unfolding resolve_with canonical_defaults
resolve_thresholds to_text request instrument =
    resolve_with to_text request instrument (canonical_defaults instrument)
