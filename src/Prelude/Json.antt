-- ===== src/Prelude/Json.antt =====
-- Parsed JSON, and `undefined` for a property that is not there.
use sonsteng_magnum_opus.Prelude.Tests.{ltb, nat_beq, if◌then◌else◌}
use sonsteng_magnum_opus.Prelude.Eq.{◌==◌, string_eq}
use sonsteng_magnum_opus.Prelude.Text.{is_empty}
use Prim.Native.Nat.{ℕ}
use Prim.Native.String.{String}
use mathlib.Core.Bool.{Bool, true, false, not}
use mathlib.Core.Option.{Option, none, some}
use mathlib.Core.List.{List, [], ◌∷◌}

-- Numbers are exact: `negative n` is -(n + 1), and `fraction text` is a number that is no integer, by
-- the text that JavaScript gives it.
mutual
  pub data Json : Type 0 where
    undefined null : Json
    bool : Bool → Json
    nat negative : ℕ → Json
    fraction : String → Json
    text : String → Json
    arr : Items → Json
    obj : Fields → Json

  pub data Items : Type 0 where
    nil : Items
    cons : Json → Items → Items

  pub data Fields : Type 0 where
    end : Fields
    field : String → Json → Fields → Fields

abbrev pub get_field : String → Fields → Json
get_field k end = undefined
get_field k (field j v fs) = if j == k then v else get_field k fs

-- `value?.k`: a value that is no object has none of the properties that are read here.
abbrev pub get : String → Json → Json
get k (obj fs) = get_field k fs
get k _ = undefined

abbrev pub elements_of : Items → List Json
elements_of nil = []
elements_of (cons v vs) = v ∷ elements_of vs

-- The elements of an array, and none of anything else.
abbrev pub elements : Json → List Json
elements (arr vs) = elements_of vs
elements _ = []

abbrev pub keys_of : Fields → List String
keys_of end = []
keys_of (field k v fs) = k ∷ keys_of fs

-- `Object.keys(value)`
abbrev pub keys : Json → List String
keys (obj fs) = keys_of fs
keys _ = []

-- An object that is neither null nor an array.
abbrev pub is_object : Json → Bool
is_object (obj fs) = true
is_object _ = false

abbrev pub is_array : Json → Bool
is_array (arr vs) = true
is_array _ = false

abbrev pub is_text : Json → Bool
is_text (text s) = true
is_text _ = false

abbrev pub is_undefined : Json → Bool
is_undefined undefined = true
is_undefined _ = false

-- `typeof v === "string" ? v : …`
abbrev pub text_of : Json → Option String
text_of (text s) = some s
text_of _ = none

-- `Number.isInteger(v) && v >= 0 ? v : …`
abbrev pub nat_of : Json → Option ℕ
nat_of (nat n) = some n
nat_of _ = none

-- `v === "s"`
abbrev pub is_just : String → Json → Bool
is_just s (text t) = t == s
is_just s _ = false

-- `a === b`; two objects that are read apart are not the same object.
abbrev pub same : Json → Json → Bool
same undefined undefined = true
same null null = true
same (bool true) (bool b) = b
same (bool false) (bool b) = not b
same (nat m) (nat n) = nat_beq m n
same (negative m) (negative n) = nat_beq m n
same (fraction s) (fraction t) = s == t
same (text s) (text t) = s == t
same _ _ = false

abbrev pub is_truthy : Json → Bool
is_truthy undefined = false
is_truthy null = false
is_truthy (bool b) = b
is_truthy (nat n) = ltb 0 n
is_truthy (text s) = not (is_empty s)
is_truthy _ = true

-- JavaScript's `String(v)` of a value that is no text.
abbrev pub ToText : Type 0
ToText = Json → String

-- `String(v || "")`, which is what `regex.test(v || "")` reads.
abbrev pub as_text : ToText → Json → String
as_text to_text undefined = ""
as_text to_text null = ""
as_text to_text (bool false) = ""
as_text to_text (text s) = s
as_text to_text (nat n) = if ltb 0 n then to_text (nat n) else ""
as_text to_text v = to_text v
