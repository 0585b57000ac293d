-- ===== src/Prelude/Value.antt =====
-- A JavaScript value as an argument check sees it: its type, and for a number whether it is an
-- integer. Numbers are exact; `negative n` is -(n + 1), and `fraction` is any other number (NaN and
-- the infinities included).
use Prim.Native.Nat.{ℕ, suc, ◌^◌, ◌-◌}
use Prim.Native.String.{String}
use mathlib.Core.Bool.{Bool}
use mathlib.Core.Option.{Option, none, some}

pub data Value : Type 0 where
  undefined null object fraction : Value
  bool : Bool → Value
  nat negative : ℕ → Value
  text : String → Value

-- `typeof v === "string" && v`
abbrev pub nonempty_text : Value → Option String
nonempty_text (text (String.◌∷◌ c s)) = some (String.◌∷◌ c s)
nonempty_text _ = none

-- `Number.isInteger(v) && v >= 1`
abbrev pub positive : Value → Option ℕ
positive (nat (suc n)) = some (suc n)
positive _ = none

-- `Number.isInteger(v) && v >= 0`
abbrev pub natural : Value → Option ℕ
natural (nat n) = some n
natural _ = none

-- `Number.MAX_SAFE_INTEGER`
abbrev pub max_safe_integer : ℕ
max_safe_integer = 2 ^ 53 - 1
