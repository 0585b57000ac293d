-- ===== src/Assessment/Debrief.antt =====
-- `redactDebriefOracle` of app/worker/src/validate.js: the missed items of a debrief scorecard, rebuilt from
-- the persona's disclosure tiers. A function has no JSON and is written `undefined`.
pub mod Oracle
use sonsteng_magnum_opus.Prelude.{
  String, Bool, true, false, not, ◌&&◌, ◌||◌, Option, none, some, List, [], ◌∷◌, ◌++◌, any, ◌==◌,
  string_eq, if◌then◌else◌,
}
use sonsteng_magnum_opus.Prelude.Text.{is_empty}
use sonsteng_magnum_opus.Prelude.Json.{
  Json, undefined, Items, nil, cons, Fields, end, field, text, arr, obj, get, elements, is_object,
  text_of,
}

-- `TRIGGERS`
abbrev pub triggers : List String
triggers =
    "open_ended_invitation" ∷ "wellbeing_question" ∷ "acknowledged_emotion"
    ∷ "no_interruption_streak" ∷ "confidentiality_reassurance" ∷ "nonjudgmental_response"
    ∷ "follow_up_on_hint" ∷ "explained_process" ∷ []

abbrev pub has : List String → String → Bool
has ss s = any (λ (t : String). t == s) ss

abbrev pub is_trigger : String → Bool
is_trigger s = has triggers s

abbrev pub trigger_of : Option String → Option String
trigger_of none = none
trigger_of (some s) = if is_trigger s then some s else none

-- `facts_elicited.filter(isStr)`
abbrev pub text_items : List Json → List String
text_items [] = []
text_items (v ∷ vs) =
    let rest = text_items vs in elim (text_of v) [ none ↦ rest | some s ↦ s ∷ rest ]

unfoldable pub elicited : Json → List String
elicited a = text_items (elements (get "facts_elicited" a))

abbrev pub label_or_withheld : Option String → String
label_or_withheld none = "(topic withheld)"
label_or_withheld (some s) = if is_empty s then "(topic withheld)" else s

-- `labelFor`
unfoldable pub label_for : Json → String → String
label_for fact_map ref = label_or_withheld (text_of (get "topic_label" (get ref fact_map)))

-- The items of a tier with a fact, and the fact.
abbrev pub with_fact : List Json → List (String × Json)
with_fact [] = []
with_fact (v ∷ vs) =
    let rest = with_fact vs in
    elim (text_of (get "fact_ref" v)) [ none ↦ rest | some ref ↦ (ref, v) ∷ rest ]

unfoldable pub tier : String → Json → List (String × Json)
tier name persona = with_fact (elements (get name (get "disclosure" persona)))

-- The items of facts that were not elicited.
abbrev pub missed : List String → List (String × Json) → List (String × Json)
missed known [] = []
missed known ((ref, v) ∷ vs) =
    let rest = missed known vs in if has known ref then rest else (ref, v) ∷ rest

abbrev pub labels_of : Json → List (String × Json) → List String
labels_of fact_map [] = []
labels_of fact_map ((ref, v) ∷ vs) = label_for fact_map ref ∷ labels_of fact_map vs

-- `knownLabels`
unfoldable pub known_labels : Json → Json → List String
unfolding tier label_for
known_labels persona fact_map =
    labels_of fact_map (tier "rapport_gated" persona)
    ++ (labels_of fact_map (tier "revealed_if_asked" persona)
        ++ (labels_of fact_map (tier "volunteered" persona)
            ++ (labels_of fact_map (tier "concealed" persona)
                ++ labels_of fact_map (tier "unknown" persona))))

-- The trigger that one row of the model gives a label.
abbrev pub topic_trigger : List String → String → Json → Option String → Option String
topic_trigger known label row none = none
topic_trigger known label row (some topic) =
    if has known topic && topic == label
    then trigger_of (text_of (get "trigger_needed" row))
    else none

abbrev pub row_trigger : List String → String → Json → Option String
row_trigger known label row = topic_trigger known label row (text_of (get "topic" row))

-- The last row that gives a label a trigger.
unfoldable pub given_trigger : List String → String → List Json → Option String
given_trigger known label [] = none
given_trigger known label (row ∷ rows) = elim (given_trigger known label rows) [
  | none ↦ row_trigger known label row
  | some later ↦ some later
]

-- The methods that every object inherits.
abbrev pub inherited_methods : List String
inherited_methods =
    "constructor" ∷ "hasOwnProperty" ∷ "isPrototypeOf" ∷ "propertyIsEnumerable" ∷ "toLocaleString"
    ∷ "toString" ∷ "valueOf" ∷ "__defineGetter__" ∷ "__defineSetter__" ∷ "__lookupGetter__"
    ∷ "__lookupSetter__" ∷ []

abbrev pub is_inherited : String → Bool
is_inherited label = label == "__proto__" || has inherited_methods label

abbrev pub or_inherited : String → Option String → Option Json
or_inherited label (some trigger) = some (text trigger)
or_inherited label none = if has inherited_methods label then some undefined else none

-- `modelTrigByLabel[label]`. Nothing is assigned to the key `__proto__`, whose value is the prototype.
unfoldable pub model_trigger : List String → String → List Json → Option Json
unfolding given_trigger
model_trigger known label rows =
    if label == "__proto__"
    then some (obj end)
    else or_inherited label (given_trigger known label rows)

abbrev pub first_of : Option String → Option String → Option String
first_of (some s) next = some s
first_of none next = next

-- `it.requires.find((t) => TRIGGERS.has(t))`
abbrev pub first_trigger : List Json → Option String
first_trigger [] = none
first_trigger (v ∷ vs) = first_of (trigger_of (text_of v)) (first_trigger vs)

pub record Unearned : Type 0 where
  pub topic : String
  pub trigger_needed : Json

abbrev pub or_default : Option Json → Option String → Json
or_default (some v) derived = v
or_default none (some s) = text s
or_default none none = text "follow_up_on_hint"

abbrev pub unearned_of : List String → Json → List Json → String × Json → Unearned
unearned_of known fact_map rows (ref, item) =
    let label = label_for fact_map ref in
    record {
      topic = label;
      trigger_needed =
          or_default (model_trigger known label rows)
            (first_trigger (elements (get "requires" item)));
    }

abbrev pub unearned_items : List String → Json → List Json → List (String × Json) → List Unearned
unearned_items known fact_map rows [] = []
unearned_items known fact_map rows (v ∷ vs) =
    unearned_of known fact_map rows v ∷ unearned_items known fact_map rows vs

-- The two rebuilt lists, from `axis_a`.
unfoldable pub revealed_missed : Json → Json → Json → List String
unfolding elicited tier label_for
revealed_missed a persona fact_map =
    labels_of fact_map (missed (elicited a) (tier "revealed_if_asked" persona))

unfoldable pub unearned : Json → Json → Json → List Unearned
unfolding elicited tier known_labels model_trigger label_for
unearned a persona fact_map =
    unearned_items (known_labels persona fact_map) fact_map
      (elements (get "rapport_gated_unearned" a))
      (missed (elicited a) (tier "rapport_gated" persona))

abbrev pub text_array : List String → Items
text_array [] = nil
text_array (s ∷ ss) = cons (text s) (text_array ss)

abbrev pub unearned_array : List Unearned → Items
unearned_array [] = nil
unearned_array (u ∷ us) =
    cons (obj (field "topic" (text u.topic) (field "trigger_needed" u.trigger_needed end)))
      (unearned_array us)

-- The assignment of a property.
abbrev pub assign : String → Json → Fields → Fields
assign k v end = field k v end
assign k v (field j w fs) = if j == k then field j v fs else field j w (assign k v fs)

abbrev pub assign_in : String → Json → Json → Json
assign_in k v (obj fs) = obj (assign k v fs)
assign_in k v other = other

unfoldable pub redact_debrief_oracle : Json → Json → Json → Json
unfolding revealed_missed unearned
redact_debrief_oracle o persona fact_map =
    let a = get "axis_a" o in
    if is_object o && is_object a
    then assign_in "axis_a"
        (assign_in "rapport_gated_unearned" (arr (unearned_array (unearned a persona fact_map))) (
          assign_in "revealed_if_asked_missed"
            (arr (text_array (revealed_missed a persona fact_map))) a))
        o
    else o
