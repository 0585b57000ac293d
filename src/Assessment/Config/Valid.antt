-- ===== src/Assessment/Config/Valid.antt =====
-- What `resolveAssessmentThresholdConfig` of app/worker/src/assessment-config.js resolves is a
-- configuration that `validResolvedAssessmentThresholdConfig` accepts.
use mathlib.Core.Path.{subst}
use sonsteng_magnum_opus.Prelude.{
  either, both_true, String, ◌≡◌, refl, Bool, true, false, not, ◌&&◌, some, ==_self, string_eq,
  arith, if◌then◌else◌, inl, inr, Bool-cases,
}
use sonsteng_magnum_opus.Prelude.Json.{
  Json, text, nat, get, same, is_text, is_truthy, is_undefined, ToText, as_text, obj, undefined,
}
use sonsteng_magnum_opus.Assessment.Config.{
  Source, default, school, instructor, is_local, source_name, Thresholds, resolved, is_source_id,
  score_of, is_score, in_order, valid_threshold_record, valid_instrument, default_thresholds,
  canonical_defaults, resolved_config, valid_resolved_config, thresholds_of, valid_envelope,
  resolve_request, resolve_with, resolve_thresholds,
}

record IsFit (to_text : ToText) (t : Thresholds) : Type 0 where
  id : is_source_id (as_text to_text t.id) ≡ true
  competence : is_score t.competence_score ≡ true
  redo : is_score t.redo_eligible_below ≡ true
  order : in_order t.competence_score t.redo_eligible_below ≡ true

record HasVersion (instrument : Json) : Type 0 where
  version : is_text (get "instrument_version" instrument) ≡ true
  hash : is_text (get "content_hash" instrument) ≡ true

record-IsFit :
    (to_text : ToText) (v : Json)
    → valid_threshold_record to_text v ≡ true
    → IsFit to_text (thresholds_of v)
unfolding valid_threshold_record
record-IsFit to_text v h = record {
  id = ground arith;
  competence = ground arith;
  redo = ground arith;
  order = ground arith;
}

same_text : (v : Json) → is_text v ≡ true → same v v ≡ true
same_text (text s) h = ==_self s
same_text _ h = absurd (ground (arith, h))

same_score : (v : Json) → is_score v ≡ true → same v v ≡ true
unfolding is_score score_of
same_score (nat n) h = ground arith
same_score _ h = absurd (ground (arith, h))

resolved_valid :
    (to_text : ToText) (t : Thresholds) (instrument : Json) (source : Source)
    → IsFit to_text t
    → HasVersion instrument
    → (is_local source ≡ false → canonical_defaults instrument ≡ some t)
    → (is_local source ≡ false → is_text t.id ≡ true)
    → valid_resolved_config to_text (resolved_config source t instrument) instrument ≡ true
unfolding valid_resolved_config resolved_config
resolved_valid to_text t instrument default f v d i =
    rw
      (
        f.id,
        f.competence,
        f.redo,
        f.order,
        same_text (get "instrument_version" instrument) v.version,
        same_text (get "content_hash" instrument) v.hash,
        d refl,
        same_text t.id (i refl),
        same_score t.competence_score f.competence,
        same_score t.redo_eligible_below f.redo,
      )
      refl
resolved_valid to_text t instrument school f v d i =
    rw
      (
        f.id,
        f.competence,
        f.redo,
        f.order,
        same_text (get "instrument_version" instrument) v.version,
        same_text (get "content_hash" instrument) v.hash,
      )
      refl
resolved_valid to_text t instrument instructor f v d i =
    rw
      (
        f.id,
        f.competence,
        f.redo,
        f.order,
        same_text (get "instrument_version" instrument) v.version,
        same_text (get "content_hash" instrument) v.hash,
      )
      refl

source_text :
    (to_text : ToText) (v : Json)
    → (elim v as (λ x. Bool) [ text s ↦ is_source_id s | _ ↦ false ]) ≡ true
    → (is_text v ≡ true) × (is_source_id (as_text to_text v) ≡ true)
source_text to_text (text s) h = (refl, h)
source_text to_text _ h = absurd (ground (arith, h))

defaults-IsFit :
    (to_text : ToText) (instrument : Json)
    → valid_instrument instrument ≡ true
    → IsFit to_text (default_thresholds instrument)
      × (is_text (default_thresholds instrument).id ≡ true)
      × HasVersion instrument
unfolding valid_instrument default_thresholds
defaults-IsFit to_text instrument h =
    let (h1, hash) = both_true _ _ h in
    let (h2, version) = both_true _ _ h1 in
    let (h3, id) = both_true _ _ h2 in
    let (h4, order) = both_true _ _ h3 in
    let (h5, redo) = both_true _ _ h4 in
    let (_, competence) = both_true _ _ h5 in
    let (is, source) = source_text to_text (get "id" instrument) id in
    (
      record { id = source; competence = competence; redo = redo; order = order },
      is,
      record { version = version; hash = hash },
    )

-- The source that a request names.
abbrev pub source_of : Json → String
source_of request =
    if is_undefined request
    then "default"
    else if is_undefined (get "instructor" request)
    then "school"
    else "instructor"

record_truthy :
    (to_text : ToText) (v : Json) → valid_threshold_record to_text v ≡ true → is_truthy v ≡ true
unfolding valid_threshold_record
record_truthy to_text (obj fs) h = refl
record_truthy to_text _ h = absurd (ground (arith, h))

undefined_falsy : (v : Json) → is_undefined v ≡ true → is_truthy v ≡ false
undefined_falsy undefined h = refl
undefined_falsy _ h = absurd (ground (arith, h))

-- The records of an envelope that is valid.
record IsChosen (to_text : ToText) (request : Json) : Type 0 where
  school :
      is_undefined (get "school" request) ≡ false
      → valid_threshold_record to_text (get "school" request) ≡ true
  instructor :
      is_undefined (get "instructor" request) ≡ false
      → valid_threshold_record to_text (get "instructor" request) ≡ true
  one : is_undefined (get "instructor" request) ≡ true → is_undefined (get "school" request) ≡ false

not_both : (a b : Bool) → not (a && b) ≡ true → b ≡ true → a ≡ false
not_both true b h e = absurd (ground (arith, h, e))
not_both false b h e = refl

envelope-IsChosen :
    (to_text : ToText) (request : Json)
    → valid_envelope to_text request ≡ true
    → IsChosen to_text request
unfolding valid_envelope
envelope-IsChosen to_text request h =
    let (h1, i) = both_true _ _ h in
    let (h2, s) = both_true _ _ h1 in
    let (_, o) = both_true _ _ h2 in
    record {
      school = either (is_undefined (get "school" request)) _ s;
      instructor = either (is_undefined (get "instructor" request)) _ i;
      one =
          not_both (is_undefined (get "school" request)) (is_undefined (get "instructor" request))
            o;
    }

resolved_inj : {a b : Json} → resolved a ≡ resolved b → a ≡ b
resolved_inj h = ground (arith, h)

abbrev Good : ToText → Json → Json → Json → Type 0
Good to_text request instrument config =
    (valid_resolved_config to_text config instrument ≡ true)
    × (get "source" config ≡ text (source_of request))

good :
    (to_text : ToText) (request instrument : Json) (source : Source) (t : Thresholds)
    → valid_resolved_config to_text (resolved_config source t instrument) instrument ≡ true
    → source_of request ≡ source_name source
    → Good to_text request instrument (resolved_config source t instrument)
unfolding resolved_config
good to_text request instrument source t v e = (v, rw e refl)

request-Good :
    (to_text : ToText) (request instrument config : Json)
    → HasVersion instrument
    → is_undefined request ≡ false
    → resolve_request to_text request instrument ≡ resolved config
    → Good to_text request instrument config
unfolding resolve_request
request-Good to_text request instrument config v given h =
    elim (Bool-cases (valid_envelope to_text request)) [
      | inr bad ↦ absurd (ground (arith, h, bad))
      | inl valid ↦
          let k = envelope-IsChosen to_text request valid in
          let pick =
            λ (source : Source) (r : Json) (w : valid_threshold_record to_text r ≡ true)
                (off : is_local source ≡ true) (e : source_of request ≡ source_name source).
              good to_text request instrument source (thresholds_of r)
                (resolved_valid to_text (thresholds_of r) instrument source
                  (record-IsFit to_text r w) v (λ l. absurd (ground (arith, l, off)))
                  (λ l. absurd (ground (arith, l, off))))
                e in
          elim (Bool-cases (is_undefined (get "instructor" request))) [
            | inr there ↦
                let w = k.instructor there in
                let t = record_truthy to_text (get "instructor" request) w in
                subst (Good to_text request instrument) (resolved_inj (rw (valid, t) at h))
                  (pick instructor (get "instructor" request) w refl (rw (given, there) refl))
            | inl gone ↦
                let w = k.school (k.one gone) in
                let t = undefined_falsy (get "instructor" request) gone in
                subst (Good to_text request instrument) (resolved_inj (rw (valid, t) at h))
                  (pick school (get "school" request) w refl (rw (given, gone) refl))
          ]
    ]

-- What a request or the instrument's own defaults resolve to is a configuration that the panel's check
-- accepts for that instrument: closed, of valid thresholds in order, with the instrument's version and
-- hash and without verified authority. Its source is the instructor's record where the request has one,
-- else the school's, and the instrument where there is no request.
pub resolve_thresholds_valid :
    (to_text : ToText) (request instrument config : Json)
    → resolve_thresholds to_text request instrument ≡ resolved config
    → (valid_resolved_config to_text config instrument ≡ true)
      × (get "source" config ≡ text (source_of request))
unfolding resolve_thresholds canonical_defaults resolve_with
resolve_thresholds_valid to_text request instrument config h =
    elim (Bool-cases (valid_instrument instrument)) [
      | inr bad ↦ absurd (ground (arith, h, bad))
      | inl fit ↦
          let (f, id, v) = defaults-IsFit to_text instrument fit in
          elim (Bool-cases (is_undefined request)) [
            | inr given ↦
                request-Good to_text request instrument config v given (rw (fit, given) at h)
            | inl none_given ↦
                subst (Good to_text request instrument) (resolved_inj (rw (fit, none_given) at h)) (
                  good to_text request instrument default (default_thresholds instrument)
                    (resolved_valid to_text (default_thresholds instrument) instrument default f v
                      (λ _. rw fit refl) (λ _. id))
                    (rw none_given refl))
          ]
    ]
