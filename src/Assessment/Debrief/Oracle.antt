-- ===== src/Assessment/Debrief/Oracle.antt =====
-- What `redactDebriefOracle` of app/worker/src/validate.js shows of the missed facts, whatever the model
-- wrote.
use mathlib.Core.Path.{subst}
use sonsteng_magnum_opus.Prelude.{
  String, ◌≡◌, refl, sym, ap, ◌∙◌, true, false, ◌&&◌, ◌⊎◌, Option, none, some, List, [], ◌∷◌, All,
  All-map, ◌==◌, ==_self, string_eq, arith, Bool-cases, Option-cases, inl, inr, some_inj, if_case,
  if◌then◌else◌,
}
use sonsteng_magnum_opus.Prelude.Json.{
  Json, Fields, end, field, text, undefined, arr, obj, get, get_field, elements, is_object, text_of,
}
use sonsteng_magnum_opus.Assessment.Debrief.{
  has, is_trigger, trigger_of, elicited, label_for, tier, missed, labels_of, known_labels,
  topic_trigger, first_of, given_trigger, is_inherited, inherited_methods, or_inherited,
  model_trigger, first_trigger, Unearned, or_default, unearned_items, revealed_missed, unearned,
  text_array, unearned_array, assign, assign_in, redact_debrief_oracle,
}

abbrev pub refs_of : List (String × Json) → List String
refs_of [] = []
refs_of ((ref, v) ∷ vs) = ref ∷ refs_of vs

-- The label of a fact of the tier that was not elicited.
abbrev pub IsMissed : List String → Json → List String → String → Type 0
IsMissed known fact_map refs topic =
    (ref : String) × (has refs ref ≡ true)
    × (has known ref ≡ false)
    × (topic ≡ label_for fact_map ref)

also_in_more :
    (known : List String) (fact_map : Json) (refs : List String) (r topic : String)
    → IsMissed known fact_map refs topic
    → IsMissed known fact_map (r ∷ refs) topic
also_in_more known fact_map refs r topic (ref, there, new, is) =
    (ref, ground (arith, there), new, is)

labels_missed :
    (known : List String) (fact_map : Json) (vs : List (String × Json))
    → All (IsMissed known fact_map (refs_of vs)) (labels_of fact_map (missed known vs))
labels_missed known fact_map [] = tt
labels_missed known fact_map ((ref, v) ∷ vs) =
    let later =
      All-map (IsMissed known fact_map (refs_of vs)) (IsMissed known fact_map (ref ∷ refs_of vs))
        (labels_of fact_map (missed known vs)) (also_in_more known fact_map (refs_of vs) ref)
        (labels_missed known fact_map vs) in
    elim (Bool-cases (has known ref)) [
      | inl old ↦ rw old later
      | inr new ↦ rw new ((ref, rw (==_self ref) refl, new, refl), later)
    ]

trigger_of_lem : (o : Option String) (t : String) → trigger_of o ≡ some t → is_trigger t ≡ true
trigger_of_lem none t h = absurd (ground (arith, h))
trigger_of_lem (some s) t h = elim (Bool-cases (is_trigger s)) [
  | inl known ↦ subst (λ (u : String). is_trigger u ≡ true) (some_inj (rw known at h)) known
  | inr other ↦ absurd (ground (arith, rw other at h))
]

topic_trigger_lem :
    (known : List String) (label : String) (row : Json) (o : Option String) (t : String)
    → topic_trigger known label row o ≡ some t
    → is_trigger t ≡ true
topic_trigger_lem known label row none t h = absurd (ground (arith, h))
topic_trigger_lem known label row (some topic) t h =
    elim (Bool-cases (has known topic && topic == label)) [
      | inl same_topic ↦ trigger_of_lem (text_of (get "trigger_needed" row)) t (rw same_topic at h)
      | inr other ↦ absurd (ground (arith, rw other at h))
    ]

given_trigger_lem :
    (known : List String) (label : String) (rows : List Json) (t : String)
    → given_trigger known label rows ≡ some t
    → is_trigger t ≡ true
unfolding given_trigger
given_trigger_lem known label [] t h = absurd (ground (arith, h))
given_trigger_lem known label (row ∷ rows) t h =
    elim (Option-cases (given_trigger known label rows)) [
      | inl none_later ↦
          topic_trigger_lem known label row (text_of (get "topic" row)) t (rw none_later at h)
      | inr (s, later) ↦ given_trigger_lem known label rows t (later ∙ rw later at h)
    ]

first_of_lem :
    (o n : Option String) (t : String)
    → ((u : String) → o ≡ some u → is_trigger u ≡ true)
    → ((u : String) → n ≡ some u → is_trigger u ≡ true)
    → first_of o n ≡ some t
    → is_trigger t ≡ true
first_of_lem none n t f g h = g t h
first_of_lem (some s) n t f g h = f t h

first_trigger_lem : (vs : List Json) (t : String) → first_trigger vs ≡ some t → is_trigger t ≡ true
first_trigger_lem [] t h = absurd (ground (arith, h))
first_trigger_lem (v ∷ vs) t h =
    first_of_lem (trigger_of (text_of v)) (first_trigger vs) t (trigger_of_lem (text_of v))
      (first_trigger_lem vs) h

-- One of the known triggers, unless the topic names a property that every object inherits.
abbrev pub IsKnown : String → Json → Type 0
IsKnown topic trigger =
    ((t : String) × (trigger ≡ text t) × (is_trigger t ≡ true)) ⊎ (is_inherited topic ≡ true)

or_default_lem :
    (topic : String) (d : Option String)
    → ((t : String) → d ≡ some t → is_trigger t ≡ true)
    → IsKnown topic (or_default none d)
or_default_lem topic (some s) g = inl (s, refl, g s refl)
or_default_lem topic none g = inl ("follow_up_on_hint", refl, refl)

or_inherited_lem :
    (topic : String) (o d : Option String)
    → ((t : String) → o ≡ some t → is_trigger t ≡ true)
    → ((t : String) → d ≡ some t → is_trigger t ≡ true)
    → (topic == "__proto__") ≡ false
    → IsKnown topic (or_default (or_inherited topic o) d)
or_inherited_lem topic (some s) d f g own = inl (s, refl, f s refl)
or_inherited_lem topic none d f g own =
    if_case (λ (o : Option Json). IsKnown topic (or_default o d)) (has inherited_methods topic)
      (some undefined) none (λ method. inr (rw (own, method) refl)) (λ _. or_default_lem topic d g)

model_trigger_lem :
    (known : List String) (topic : String) (rows : List Json) (d : Option String)
    → ((t : String) → d ≡ some t → is_trigger t ≡ true)
    → IsKnown topic (or_default (model_trigger known topic rows) d)
unfolding model_trigger
model_trigger_lem known topic rows d g =
    if_case (λ (o : Option Json). IsKnown topic (or_default o d)) (topic == "__proto__")
      (some (obj end)) (or_inherited topic (given_trigger known topic rows))
      (λ prototype. inr (rw prototype refl))
      (or_inherited_lem topic (given_trigger known topic rows) d
        (given_trigger_lem known topic rows) g)

abbrev pub IsShown : List String → Json → List String → Unearned → Type 0
IsShown known fact_map refs u =
    IsMissed known fact_map refs u.topic × IsKnown u.topic u.trigger_needed

unearned_missed :
    (labels known : List String) (fact_map : Json) (rows : List Json) (vs : List (String × Json))
    → All
        (IsShown known fact_map (refs_of vs))
        (unearned_items labels fact_map rows (missed known vs))
unearned_missed labels known fact_map rows [] = tt
unearned_missed labels known fact_map rows ((ref, v) ∷ vs) =
    let later =
      All-map (IsShown known fact_map (refs_of vs)) (IsShown known fact_map (ref ∷ refs_of vs))
        (unearned_items labels fact_map rows (missed known vs))
        (λ u s. (also_in_more known fact_map (refs_of vs) ref u.topic s.0, s.1))
        (unearned_missed labels known fact_map rows vs) in
    elim (Bool-cases (has known ref)) [
      | inl old ↦ rw old later
      | inr new ↦ rw new (
        (
          (ref, rw (==_self ref) refl, new, refl),
          model_trigger_lem labels (label_for fact_map ref) rows
              (first_trigger (elements (get "requires" v)))
              (first_trigger_lem (elements (get "requires" v))),
        ),
        later,
      )
    ]

get_field-assign : (k : String) (v : Json) (fs : Fields) → get_field k (assign k v fs) ≡ v
get_field-assign k v end = rw (==_self k) refl
get_field-assign k v (field j w fs) = elim (Bool-cases (j == k)) [
  | inl this ↦ rw (this, this) refl
  | inr other ↦ rw (other, other) (get_field-assign k v fs)
]

get_field-assign_other :
    (k j : String) (v : Json) (fs : Fields)
    → (j == k) ≡ false
    → get_field k (assign j v fs) ≡ get_field k fs
get_field-assign_other k j v end ne = rw ne refl
get_field-assign_other k j v (field i w fs) ne = elim (Bool-cases (i == j)) [
  | inl this ↦
      let ik : (i == k) ≡ false =
        subst (λ (x : String). (x == k) ≡ false) (sym ((string_eq.beq_iff i j).0 this)) ne in
      rw (this, ik) refl
  | inr other ↦
      rw other (ap (λ (x : Json). if i == k then w else x) (get_field-assign_other k j v fs ne))
]

get-assign_in : (k : String) (v o : Json) → is_object o ≡ true → get k (assign_in k v o) ≡ v
get-assign_in k v (obj fs) h = get_field-assign k v fs
get-assign_in k v _ h = absurd (ground (arith, h))

get-assign_in_other :
    (k j : String) (v o : Json)
    → is_object o ≡ true
    → (j == k) ≡ false
    → get k (assign_in j v o) ≡ get k o
get-assign_in_other k j v (obj fs) h ne = get_field-assign_other k j v fs ne
get-assign_in_other k j v _ h ne = absurd (ground (arith, h))

assign_in_object :
    (k : String) (v o : Json) → is_object o ≡ true → is_object (assign_in k v o) ≡ true
assign_in_object k v (obj fs) h = refl
assign_in_object k v _ h = absurd (ground (arith, h))

-- A scorecard that shows the labels of missed facts only.
pub record IsRedacted (a persona fact_map after : Json) : Type 0 where
  pub topics : List String
  pub revealed : get "revealed_if_asked_missed" after ≡ arr (text_array topics)
  pub missed_topics :
      All (IsMissed (elicited a) fact_map (refs_of (tier "revealed_if_asked" persona))) topics
  pub rows : List Unearned
  pub gated : get "rapport_gated_unearned" after ≡ arr (unearned_array rows)
  pub missed_rows :
      All (IsShown (elicited a) fact_map (refs_of (tier "rapport_gated" persona))) rows

redacted :
    (a persona fact_map u r : Json)
    → is_object a ≡ true
    → u ≡ arr (unearned_array (unearned a persona fact_map))
    → r ≡ arr (text_array (revealed_missed a persona fact_map))
    → IsRedacted a persona fact_map
        (assign_in "rapport_gated_unearned" u (assign_in "revealed_if_asked_missed" r a))
unfolding revealed_missed unearned
redacted a persona fact_map u r h eu er =
    let inner = assign_in "revealed_if_asked_missed" r a in
    let is = assign_in_object "revealed_if_asked_missed" r a h in
    record {
      topics = revealed_missed a persona fact_map;
      revealed =
          get-assign_in_other "revealed_if_asked_missed" "rapport_gated_unearned" u inner is refl
          ∙ get-assign_in "revealed_if_asked_missed" r a h
          ∙ er;
      missed_topics = labels_missed (elicited a) fact_map (tier "revealed_if_asked" persona);
      rows = unearned a persona fact_map;
      gated = get-assign_in "rapport_gated_unearned" u inner is ∙ eu;
      missed_rows =
          unearned_missed (known_labels persona fact_map) (elicited a) fact_map
            (elements (get "rapport_gated_unearned" a)) (tier "rapport_gated" persona);
    }

-- Whatever the model wrote into the two lists of missed facts of an `axis_a`, the scorecard that is sent
-- has in their places lists where every topic is the server's label of a fact that the persona keeps in
-- that tier and that was not elicited, and every trigger is one of the eight known ones, unless its topic
-- is the name of a property that every JavaScript object inherits.
pub redact_debrief_oracle_closed :
    (o persona fact_map : Json)
    → is_object o ≡ true
    → is_object (get "axis_a" o) ≡ true
    → IsRedacted
        (get "axis_a" o)
        persona
        fact_map
        (get "axis_a" (redact_debrief_oracle o persona fact_map))
unfolding redact_debrief_oracle
redact_debrief_oracle_closed o persona fact_map h ha =
    rw (h, ha)
      (subst (IsRedacted (get "axis_a" o) persona fact_map) (sym (get-assign_in "axis_a" _ o h))
        (redacted (get "axis_a" o) persona fact_map _ _ ha refl refl))
