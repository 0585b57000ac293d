-- ===== src/Assessment/Memo.antt =====
-- `validateMemoScorecard` of app/worker/src/validate.js: one grader's seven-heading output, checked
-- against the submission and the instrument. An error keeps its place in the scorecard as numbers.
pub mod Sound
use sonsteng_magnum_opus.Prelude.{
  ℕ, suc, ◌+◌, String, Bool, true, false, not, ◌&&◌, ◌||◌, Option, none, some, List, [], ◌∷◌, ◌++◌,
  any, length, ◌==◌, string_eq, leb, ltb, nat_beq, ◌>>=◌, if◌then◌else◌,
}
use sonsteng_magnum_opus.Prelude.Text.{
  codes, is_digit, is_blank, is_empty, includes, Piece, one, many, exactly, literally, whole,
}
use sonsteng_magnum_opus.Prelude.Json.{
  Json, text, nat, arr, get, keys, elements, is_object, is_array, is_just, same, text_of, nat_of,
  ToText, as_text,
}
use sonsteng_magnum_opus.Panel.Aggregate.{Heading}

-- `MEMO_HEADING_IDS`
abbrev pub memo_heading_ids : List String
memo_heading_ids =
    "governing_law" ∷ "strengths_and_weaknesses_both_sides" ∷ "issues" ∷ "suggested_solutions"
    ∷ "theory_and_themes" ∷ "elements_to_prevail" ∷ "liabilities_and_remedies" ∷ []

-- `SEMVER` and `SHA256`
unfoldable pub is_semver : String → Bool
is_semver s = whole (
    many is_digit (codes s) >>= literally "." >>= many is_digit >>= literally "." >>= many is_digit)

abbrev pub is_hex : ℕ → Bool
is_hex c = is_digit c || (leb 97 c && leb c 102)

unfoldable pub is_sha256 : String → Bool
is_sha256 s = whole (literally "sha256:" (codes s) >>= exactly 64 is_hex)

pub data SpanError : Type 0 where
  not_text repeated not_verbatim : SpanError

pub data HeadingError : Type 0 where
  not_object id_invalid score_invalid no_spans rationale_empty : HeadingError
  unexpected id_duplicate : String → HeadingError
  span : ℕ → SpanError → HeadingError

pub data MemoError : Type 0 where
  root_not_object submission_not_text instrument_invalid : MemoError
  schema_version instrument_id instrument_version content_hash headings_count : MemoError
  unexpected heading_missing : String → MemoError
  heading : ℕ → HeadingError → MemoError

-- An error unless the test holds.
abbrev pub check : {E : Type 0} → Bool → E → List E
check true e = []
check false e = e ∷ []

abbrev pub is_member : List String → String → Bool
is_member ids id = any (λ (j : String). j == id) ids

-- An error for each key that is not allowed.
unfoldable pub key_errors : {E : Type 0} → (String → E) → List String → List String → List E
key_errors e allowed [] = []
key_errors e allowed (k ∷ ks) = check (is_member allowed k) (e k) ++ key_errors e allowed ks

abbrev pub span_error : String → List String → Option String → List SpanError
span_error submission seen none = not_text ∷ []
span_error submission seen (some s) =
    if is_empty s
    then not_text ∷ []
    else check (not (is_member seen s)) repeated ++ check (includes submission s) not_verbatim

abbrev pub seen_span : List String → Option String → List String
seen_span seen none = seen
seen_span seen (some s) = s ∷ seen

abbrev pub at_span : ℕ → List SpanError → List HeadingError
at_span j [] = []
at_span j (e ∷ es) = span j e ∷ at_span j es

unfoldable pub span_errors : String → ℕ → List String → List Json → List HeadingError
span_errors submission j seen [] = []
span_errors submission j seen (v ∷ vs) =
    at_span j (span_error submission seen (text_of v))
    ++ span_errors submission (j + 1) (seen_span seen (text_of v)) vs

unfoldable pub evidence_errors : String → Json → List HeadingError
unfolding span_errors
evidence_errors submission v =
    if is_array v && leb 1 (length (elements v))
    then span_errors submission 0 [] (elements v)
    else no_spans ∷ []

abbrev pub heading_keys : List String
heading_keys = "heading_id" ∷ "evidence_spans" ∷ "rationale" ∷ "score" ∷ []

abbrev pub id_errors : List String → Option String → List HeadingError
id_errors seen none = id_invalid ∷ []
id_errors seen (some id) =
    if not (is_member memo_heading_ids id)
    then id_invalid ∷ []
    else check (not (is_member seen id)) (id_duplicate id)

-- The ids seen after a heading.
abbrev pub seen_id : List String → Option String → List String
seen_id seen none = seen
seen_id seen (some id) = if is_member memo_heading_ids id then id ∷ seen else seen

abbrev pub valid_score : Json → Bool
valid_score v = elim (nat_of v) [ none ↦ false | some n ↦ leb 1 n && leb n 7 ]

abbrev pub valid_rationale : Json → Bool
valid_rationale v = elim (text_of v) [ none ↦ false | some s ↦ not (is_blank s) ]

unfoldable pub heading_errors : String → List String → Json → List HeadingError
unfolding key_errors evidence_errors
heading_errors submission seen v =
    if is_object v
    then key_errors HeadingError.unexpected heading_keys (keys v)
      ++ (id_errors seen (text_of (get "heading_id" v))
          ++ (check (valid_score (get "score" v)) score_invalid
              ++ (evidence_errors submission (get "evidence_spans" v)
                  ++ check (valid_rationale (get "rationale" v)) rationale_empty)))
    else not_object ∷ []

abbrev pub at_heading : ℕ → List HeadingError → List MemoError
at_heading i [] = []
at_heading i (e ∷ es) = heading i e ∷ at_heading i es

unfoldable pub headings_errors : String → ℕ → List String → List Json → List MemoError
unfolding heading_errors
headings_errors submission i seen [] = []
headings_errors submission i seen (v ∷ vs) =
    at_heading i (heading_errors submission seen v)
    ++ headings_errors submission (i + 1) (seen_id seen (text_of (get "heading_id" v))) vs

-- `seen` after the loop over the headings.
unfoldable pub seen_ids : List String → List Json → List String
seen_ids seen [] = seen
seen_ids seen (v ∷ vs) = seen_ids (seen_id seen (text_of (get "heading_id" v))) vs

unfoldable pub missing_errors : List String → List String → List MemoError
missing_errors seen [] = []
missing_errors seen (id ∷ ids) =
    check (is_member seen id) (heading_missing id) ++ missing_errors seen ids

abbrev pub root_keys : List String
root_keys =
    "schema_version" ∷ "instrument_id" ∷ "instrument_version" ∷ "instrument_content_hash"
    ∷ "headings" ∷ []

unfoldable pub body_errors : String → Json → List MemoError
unfolding headings_errors seen_ids missing_errors
body_errors submission v =
    if is_array v && nat_beq (length (elements v)) 7
    then headings_errors submission 0 [] (elements v)
      ++ missing_errors (seen_ids [] (elements v)) memo_heading_ids
    else headings_count ∷ missing_errors [] memo_heading_ids

-- The checks of the fields before the headings.
unfoldable pub field_errors : ToText → Json → Json → List MemoError
unfolding key_errors is_semver is_sha256
field_errors to_text o instrument =
    key_errors MemoError.unexpected root_keys (keys o)
    ++ (check (is_just "1.0.0" (get "schema_version" o)) schema_version
        ++ (check (is_just "memo-seven-heading-1-7" (get "instrument_id" o)) instrument_id
            ++ (check
                  (is_semver (as_text to_text (get "instrument_version" o))
                    && same (get "instrument_version" o) (get "instrument_version" instrument))
                  instrument_version
                ++ check
                    (is_sha256 (as_text to_text (get "instrument_content_hash" o))
                      && same (get "instrument_content_hash" o) (get "content_hash" instrument))
                    content_hash)))

unfoldable pub memo_errors : ToText → Json → String → Json → List MemoError
unfolding field_errors body_errors
memo_errors to_text o submission instrument =
    field_errors to_text o instrument ++ body_errors submission (get "headings" o)

unfoldable pub valid_memo_instrument : ToText → Json → Bool
unfolding is_semver is_sha256
valid_memo_instrument to_text instrument =
    is_object instrument
    && is_just "memo-seven-heading-1-7" (get "id" instrument)
    && is_semver (as_text to_text (get "instrument_version" instrument))
    && is_sha256 (as_text to_text (get "content_hash" instrument))

pub record Scorecard : Type 0 where
  pub instrument_id : Json
  pub instrument_version : Json
  pub instrument_content_hash : Json
  pub headings : List Heading

pub data MemoResult : Type 0 where
  invalid : List MemoError → MemoResult
  valid : Scorecard → MemoResult

-- The fields of a heading that passed; the other cases do not arise then.
abbrev pub text_or_empty : Json → String
text_or_empty v = elim (text_of v) [ none ↦ "" | some s ↦ s ]

abbrev pub nat_or_zero : Json → ℕ
nat_or_zero v = elim (nat_of v) [ none ↦ 0 | some n ↦ n ]

abbrev pub texts : List Json → List String
texts [] = []
texts (v ∷ vs) = text_or_empty v ∷ texts vs

abbrev pub canonical_heading : Json → Heading
canonical_heading v = record {
  heading_id = text_or_empty (get "heading_id" v);
  score = nat_or_zero (get "score" v);
  evidence_spans = texts (elements (get "evidence_spans" v));
  rationale = text_or_empty (get "rationale" v);
}

unfoldable pub canonical_headings : List Json → List Heading
canonical_headings [] = []
canonical_headings (v ∷ vs) = canonical_heading v ∷ canonical_headings vs

abbrev pub judged : Json → Json → List MemoError → MemoResult
judged o instrument (e ∷ es) = invalid (e ∷ es)
judged o instrument [] = valid (record {
  instrument_id = get "id" instrument;
  instrument_version = get "instrument_version" instrument;
  instrument_content_hash = get "content_hash" instrument;
  headings = canonical_headings (elements (get "headings" o));
})

-- A submission that is no text is `none`.
unfoldable pub validate_memo_scorecard : ToText → Json → Option String → Json → MemoResult
unfolding memo_errors valid_memo_instrument
validate_memo_scorecard to_text o submission instrument =
    if not (is_object o) then invalid (root_not_object ∷ []) else elim submission [
      | none ↦ invalid (submission_not_text ∷ [])
      | some s ↦
          if valid_memo_instrument to_text instrument
          then judged o instrument (memo_errors to_text o s instrument)
          else invalid (instrument_invalid ∷ [])
    ]
