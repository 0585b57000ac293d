-- ===== src/Assessment/Memo/Sound.antt =====
-- What `validateMemoScorecard` of app/worker/src/validate.js promises of a scorecard that it accepts.
use mathlib.Core.Path.{subst}
use sonsteng_magnum_opus.Prelude.{
  both_true, ℕ, ◌+◌, ◌≤◌, String, ◌≡◌, refl, ◌∙◌, Bool, true, false, not, ◌&&◌, some, List, [], ◌∷◌,
  ◌++◌, All, length, ◌==◌, string_eq, leb, arith, inl, inr, Bool-cases, Option-cases, nat_beq_iff,
  nat_beq, leb→le, ◌⊎◌,
}
use sonsteng_magnum_opus.Prelude.Text.{is_blank, is_empty, includes}
use sonsteng_magnum_opus.Prelude.Json.{
  Json, text, nat, get, keys, elements, is_object, is_array, text_of, ToText,
}
use sonsteng_magnum_opus.Panel.Aggregate.{Heading, heading_of}
use sonsteng_magnum_opus.Assessment.Memo.{
  memo_heading_ids, SpanError, HeadingError, MemoError, check, is_member, key_errors, span_error,
  seen_span, at_span, span_errors, evidence_errors, id_errors, seen_id, valid_score,
  valid_rationale, heading_errors, at_heading, headings_errors, seen_ids, missing_errors,
  body_errors, field_errors, memo_errors, valid_memo_instrument, Scorecard, MemoResult, valid,
  invalid, text_or_empty, nat_or_zero, texts, canonical_heading, canonical_headings, judged,
  validate_memo_scorecard, heading_keys,
}

append_nil : {A : Type 0} (xs ys : List A) → xs ++ ys ≡ [] → (xs ≡ []) × (ys ≡ [])
append_nil [] ys h = (refl, h)
append_nil (x ∷ xs) ys h = absurd (ground (arith, h))

check_nil : {E : Type 0} (b : Bool) (e : E) → check b e ≡ [] → b ≡ true
check_nil true e h = refl
check_nil false e h = absurd (ground (arith, h))

at_span_nil : (j : ℕ) (es : List SpanError) → at_span j es ≡ [] → es ≡ []
at_span_nil j [] h = refl
at_span_nil j (e ∷ es) h = absurd (ground (arith, h))

at_heading_nil : (i : ℕ) (es : List HeadingError) → at_heading i es ≡ [] → es ≡ []
at_heading_nil i [] h = refl
at_heading_nil i (e ∷ es) h = absurd (ground (arith, h))

-- A quotation of the submission.
abbrev pub IsQuote : String → String → Type 0
IsQuote submission s = (is_empty s ≡ false) × (includes submission s ≡ true)

span_error_lem :
    (submission : String) (seen : List String) (v : Json)
    → span_error submission seen (text_of v) ≡ []
    → IsQuote submission (text_or_empty v)
span_error_lem submission seen (text s) h = elim (Bool-cases (is_empty s)) [
  | inl blank ↦ absurd (ground (arith, h, blank))
  | inr full ↦
      let (_, there) =
        append_nil (check (not (is_member seen s)) SpanError.repeated) _ (rw full at h) in
      (full, check_nil (includes submission s) SpanError.not_verbatim there)
]
span_error_lem submission seen _ h = absurd (ground (arith, h))

span_errors_lem :
    (submission : String) (j : ℕ) (seen : List String) (vs : List Json)
    → span_errors submission j seen vs ≡ []
    → All (IsQuote submission) (texts vs)
unfolding span_errors
span_errors_lem submission j seen [] h = tt
span_errors_lem submission j seen (v ∷ vs) h =
    let (here, rest) = append_nil (at_span j _) _ h in
    (
      span_error_lem submission seen v (at_span_nil j _ here),
      span_errors_lem submission (j + 1) (seen_span seen (text_of v)) vs rest,
    )

-- A heading that may be shown.
pub record IsSound (submission : String) (g : Heading) : Type 0 where
  pub id : is_member memo_heading_ids g.heading_id ≡ true
  pub score : (1 ≤ g.score) × (g.score ≤ 7)
  pub evidence : 1 ≤ length g.evidence_spans
  pub quoted : All (IsQuote submission) g.evidence_spans
  pub rationale : is_blank g.rationale ≡ false

length-texts : (vs : List Json) → length (texts vs) ≡ length vs
length-texts [] = refl
length-texts (v ∷ vs) = omega (arith, length-texts vs)

evidence_errors_lem :
    (submission : String) (v : Json)
    → evidence_errors submission v ≡ []
    → (1 ≤ length (texts (elements v))) × All (IsQuote submission) (texts (elements v))
unfolding evidence_errors
evidence_errors_lem submission v h = elim (Bool-cases (is_array v && leb 1 (length (elements v)))) [
  | inr bad ↦ absurd (ground (arith, h, bad))
  | inl fit ↦
      let (_, some_there) = both_true (is_array v) _ fit in
      (
        omega (arith, leb→le 1 (length (elements v)) some_there, length-texts (elements v)),
        span_errors_lem submission 0 [] (elements v) (rw fit at h),
      )
]

valid_score_lem : (v : Json) → valid_score v ≡ true → (1 ≤ nat_or_zero v) × (nat_or_zero v ≤ 7)
valid_score_lem (nat n) h =
    let (low, high) = both_true (leb 1 n) _ h in (leb→le 1 n low, leb→le n 7 high)
valid_score_lem _ h = absurd (ground (arith, h))

valid_rationale_lem : (v : Json) → valid_rationale v ≡ true → is_blank (text_or_empty v) ≡ false
valid_rationale_lem (text s) h = ground (arith, h)
valid_rationale_lem _ h = absurd (ground (arith, h))

id_errors_lem :
    (seen : List String) (v : Json)
    → id_errors seen (text_of v) ≡ []
    → is_member memo_heading_ids (text_or_empty v) ≡ true
id_errors_lem seen (text s) h = elim (Bool-cases (is_member memo_heading_ids s)) [
  | inl known ↦ known
  | inr unknown ↦ absurd (ground (arith, rw unknown at h))
]
id_errors_lem seen _ h = absurd (ground (arith, h))

heading-IsSound :
    (submission : String) (seen : List String) (v : Json)
    → heading_errors submission seen v ≡ []
    → IsSound submission (canonical_heading v)
unfolding heading_errors
heading-IsSound submission seen v h = elim (Bool-cases (is_object v)) [
  | inr bad ↦ absurd (ground (arith, rw bad at h))
  | inl fit ↦
      let (_, h1) =
        append_nil (key_errors HeadingError.unexpected heading_keys (keys v)) _ (rw fit at h) in
      let (ids, h2) = append_nil (id_errors seen (text_of (get "heading_id" v))) _ h1 in
      let (scored, h3) =
        append_nil (check (valid_score (get "score" v)) HeadingError.score_invalid) _ h2 in
      let (evidence, reasons) =
        append_nil (evidence_errors submission (get "evidence_spans" v)) _ h3 in
      let (many, quoted) = evidence_errors_lem submission (get "evidence_spans" v) evidence in
      record {
        id = id_errors_lem seen (get "heading_id" v) ids;
        score = valid_score_lem (get "score" v) (check_nil _ HeadingError.score_invalid scored);
        evidence = many;
        quoted = quoted;
        rationale =
            valid_rationale_lem (get "rationale" v)
              (check_nil _ HeadingError.rationale_empty reasons);
      }
]

headings-IsSound :
    (submission : String) (i : ℕ) (seen : List String) (vs : List Json)
    → headings_errors submission i seen vs ≡ []
    → All (IsSound submission) (canonical_headings vs)
unfolding headings_errors canonical_headings
headings-IsSound submission i seen [] h = tt
headings-IsSound submission i seen (v ∷ vs) h =
    let (here, rest) = append_nil (at_heading i _) _ h in
    (
      heading-IsSound submission seen v (at_heading_nil i _ here),
      headings-IsSound submission (i + 1) (seen_id seen (text_of (get "heading_id" v))) vs rest,
    )

length-canonical_headings : (vs : List Json) → length (canonical_headings vs) ≡ length vs
unfolding canonical_headings
length-canonical_headings [] = refl
length-canonical_headings (v ∷ vs) = omega (arith, length-canonical_headings vs)

abbrev Has : String → List Heading → Type 0
Has id hs = (h : Heading) × (heading_of id hs ≡ some h)

found_later : (id : String) (g : Heading) (hs : List Heading) → Has id hs → Has id (g ∷ hs)
unfolding heading_of
found_later id g hs (h, there) = (h, rw there refl)

found_here :
    (id : String) (g : Heading) (hs : List Heading) → (g.heading_id == id) ≡ true → Has id (g ∷ hs)
unfolding heading_of
found_here id g hs e = elim (Option-cases (heading_of id hs)) [
  | inl none_later ↦ (g, rw (none_later, e) refl)
  | inr (h, there) ↦ (h, rw there refl)
]

-- A heading that was seen after this one was seen before it, or is this one.
seen_id_lem :
    (id : String) (seen : List String) (v : Json)
    → is_member (seen_id seen (text_of v)) id ≡ true
    → (is_member seen id ≡ true) ⊎ ((text_or_empty v == id) ≡ true)
seen_id_lem id seen (text s) h = elim (Bool-cases (is_member memo_heading_ids s)) [
  | inr unknown ↦ inl (rw unknown at h)
  | inl known ↦ elim (Bool-cases (s == id)) [
    | inl this ↦ inr this
    | inr other ↦ inl (rw (known, other) at h)
  ]
]
seen_id_lem id seen _ h = inl h

seen_ids_lem :
    (id : String) (seen : List String) (vs : List Json)
    → is_member (seen_ids seen vs) id ≡ true
    → (is_member seen id ≡ true) ⊎ Has id (canonical_headings vs)
unfolding seen_ids canonical_headings
seen_ids_lem id seen [] h = inl h
seen_ids_lem id seen (v ∷ vs) h =
    elim (seen_ids_lem id (seen_id seen (text_of (get "heading_id" v))) vs h) [
      | inr later ↦ inr (found_later id (canonical_heading v) (canonical_headings vs) later)
      | inl before ↦ elim (seen_id_lem id seen (get "heading_id" v) before) [
        | inl earlier ↦ inl earlier
        | inr this ↦ inr (found_here id (canonical_heading v) (canonical_headings vs) this)
      ]
    ]

missing_lem :
    (id : String) (seen ids : List String)
    → missing_errors seen ids ≡ []
    → is_member ids id ≡ true
    → is_member seen id ≡ true
unfolding missing_errors
missing_lem id seen [] h m = absurd (ground (arith, m))
missing_lem id seen (j ∷ ids) h m =
    let (here, rest) = append_nil (check (is_member seen j) (MemoError.heading_missing j)) _ h in
    elim (Bool-cases (j == id)) [
      | inl this ↦
          subst (λ (k : String). is_member seen k ≡ true) ((string_eq.beq_iff j id).0 this)
            (check_nil _ (MemoError.heading_missing j) here)
      | inr other ↦ missing_lem id seen ids rest (rw other at m)
    ]

-- The seven headings, each there and sound.
pub record IsComplete (submission : String) (hs : List Heading) : Type 0 where
  pub seven : length hs ≡ 7
  pub sound : All (IsSound submission) hs
  pub graded :
      (id : String)
      → is_member memo_heading_ids id ≡ true
      → (h : Heading) × (heading_of id hs ≡ some h)

found : (id : String) (hs : List Heading) → (is_member [] id ≡ true) ⊎ Has id hs → Has id hs
found id hs (inl h) = absurd (ground (arith, h))
found id hs (inr h) = h

body-IsComplete :
    (submission : String) (v : Json)
    → body_errors submission v ≡ []
    → IsComplete submission (canonical_headings (elements v))
unfolding body_errors
body-IsComplete submission v h = elim (Bool-cases (is_array v && nat_beq (length (elements v)) 7)) [
  | inr bad ↦ absurd (ground (arith, h, bad))
  | inl fit ↦
      let (_, count) = both_true (is_array v) _ fit in
      let (sound, there) =
        append_nil (headings_errors submission 0 [] (elements v)) _ (rw fit at h) in
      record {
        seven =
            length-canonical_headings (elements v) ∙ (nat_beq_iff (length (elements v)) 7).0 count;
        sound = headings-IsSound submission 0 [] (elements v) sound;
        graded = λ id m. found id _ (
            seen_ids_lem id [] (elements v)
              (missing_lem id (seen_ids [] (elements v)) memo_heading_ids there m));
      }
]

memo_errors-body :
    (to_text : ToText) (o : Json) (submission : String) (instrument : Json)
    → memo_errors to_text o submission instrument ≡ []
    → body_errors submission (get "headings" o) ≡ []
unfolding memo_errors
memo_errors-body to_text o submission instrument h =
    (append_nil (field_errors to_text o instrument) _ h).1

judged-IsComplete :
    (submission : String) (o instrument : Json) (es : List MemoError) (card : Scorecard)
    → (es ≡ [] → IsComplete submission (canonical_headings (elements (get "headings" o))))
    → judged o instrument es ≡ valid card
    → IsComplete submission card.headings
judged-IsComplete submission o instrument (e ∷ es) card f h = absurd (ground (arith, h))
judged-IsComplete submission o instrument [] card f h =
    subst
      (λ (r : MemoResult). elim r as (λ x. Type 0) [
        | valid c ↦ IsComplete submission c.headings
        | invalid es ↦ Unit
      ])
      h (f refl)

-- A scorecard that is accepted for a submission has exactly seven headings, and among them one for each
-- of the memo's seven ids. Each has such an id, a score from 1 to 7, a rationale that is not blank, and
-- at least one piece of evidence, every piece being a non-empty quotation of the submission.
pub validate_memo_scorecard_sound :
    (to_text : ToText) (o : Json) (submission : String) (instrument : Json) (card : Scorecard)
    → validate_memo_scorecard to_text o (some submission) instrument ≡ valid card
    → IsComplete submission card.headings
unfolding validate_memo_scorecard
validate_memo_scorecard_sound to_text o submission instrument card h =
    elim (Bool-cases (is_object o)) [
      | inr bad ↦ absurd (ground (arith, rw bad at h))
      | inl fit ↦ elim (Bool-cases (valid_memo_instrument to_text instrument)) [
        | inr bad ↦ absurd (ground (arith, rw (fit, bad) at h))
        | inl canonical ↦
            judged-IsComplete submission o instrument (memo_errors to_text o submission instrument)
              card
              (λ e.
                body-IsComplete submission (get "headings" o)
                  (memo_errors-body to_text o submission instrument e))
              (rw (fit, canonical) at h)
      ]
    ]
