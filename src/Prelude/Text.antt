-- ===== src/Prelude/Text.antt =====
-- JavaScript texts: white space and `trim`, `length`, `includes`, `split(",")`, and the pieces that
-- the sources' regular expressions are made of.
use sonsteng_magnum_opus.Prelude.Tests.{leb, nat_beq, ◌>>=◌, if◌then◌else◌}
use sonsteng_magnum_opus.Prelude.Eq.{string_eq}
use Prim.Native.Nat.{ℕ, zero, suc, ◌+◌}
use Prim.Native.Char.{code, Char}
use Prim.Native.String.{String}
use mathlib.Core.Bool.{Bool, true, false, ◌&&◌, ◌||◌}
use mathlib.Core.Option.{Option, none, some}
use mathlib.Core.List.{List, [], ◌∷◌}

-- The white space that `trim` removes.
abbrev pub is_space : ℕ → Bool
is_space c =
    (leb 9 c && leb c 13)
    || nat_beq c 32
    || nat_beq c 160
    || nat_beq c 5760
    || (leb 8192 c && leb c 8202)
    || nat_beq c 8232
    || nat_beq c 8233
    || nat_beq c 8239
    || nat_beq c 8287
    || nat_beq c 12288
    || nat_beq c 65279

-- `!text.trim()`
abbrev pub is_blank : String → Bool
is_blank String.[] = true
is_blank (String.◌∷◌ c s) = is_space (code c) && is_blank s

abbrev pub is_empty : String → Bool
is_empty String.[] = true
is_empty (String.◌∷◌ c s) = false

abbrev pub trim_start : String → String
trim_start String.[] = ""
trim_start (String.◌∷◌ c s) =
    let rest = trim_start s in if is_space (code c) then rest else String.◌∷◌ c s

abbrev pub trim_end : String → String
trim_end String.[] = ""
trim_end (String.◌∷◌ c s) =
    let rest = trim_end s in if is_empty rest && is_space (code c) then "" else String.◌∷◌ c rest

-- `text.trim()`
abbrev pub trim : String → String
trim s = trim_end (trim_start s)

-- `text.length`: a character behind the basic plane is two code units.
abbrev pub js_length : String → ℕ
js_length String.[] = 0
js_length (String.◌∷◌ c s) = (if leb 65536 (code c) then 2 else 1) + js_length s

abbrev pub starts_with : String → String → Bool
starts_with String.[] s = true
starts_with (String.◌∷◌ c p) String.[] = false
starts_with (String.◌∷◌ c p) (String.◌∷◌ d s) = nat_beq (code c) (code d) && starts_with p s

-- `text.includes(part)`
unfoldable pub includes : String → String → Bool
includes String.[] part = starts_with part ""
includes (String.◌∷◌ c s) part = starts_with part (String.◌∷◌ c s) || includes s part

-- `text.split(",")`
abbrev pub add_char : Char → List String → List String
add_char c [] = (String.◌∷◌ c "") ∷ []
add_char c (w ∷ ws) = (String.◌∷◌ c w) ∷ ws

abbrev pub split_commas : String → List String
split_commas String.[] = "" ∷ []
split_commas (String.◌∷◌ c s) =
    let rest = split_commas s in if nat_beq (code c) 44 then "" ∷ rest else add_char c rest

-- `split(",").map(trim).filter(Boolean)`
abbrev pub trimmed : List String → List String
trimmed [] = []
trimmed (w ∷ ws) = let rest = trimmed ws in if is_empty (trim w) then rest else trim w ∷ rest

abbrev pub comma_list : String → List String
comma_list s = trimmed (split_commas s)

-- Code points, as the regular expressions read them. A piece reads a prefix.
abbrev pub codes : String → List ℕ
codes String.[] = []
codes (String.◌∷◌ c s) = code c ∷ codes s

abbrev pub is_digit : ℕ → Bool
is_digit c = leb 48 c && leb c 57

abbrev pub is_lower : ℕ → Bool
is_lower c = leb 97 c && leb c 122

abbrev pub is_upper : ℕ → Bool
is_upper c = leb 65 c && leb c 90

abbrev pub Piece : Type 0
Piece = List ℕ → Option (List ℕ)

-- One character of a class.
abbrev pub one : (ℕ → Bool) → Piece
one p [] = none
one p (c ∷ s) = if p c then some s else none

abbrev pub many_from : (ℕ → Bool) → List ℕ → List ℕ
many_from p [] = []
many_from p (c ∷ s) = let rest = many_from p s in if p c then rest else c ∷ s

-- As many as there are, and at least one: what follows is of no character of the class.
abbrev pub many : (ℕ → Bool) → Piece
many p s = one p s >>= λ rest. some (many_from p rest)

abbrev pub exactly : ℕ → (ℕ → Bool) → Piece
exactly zero p s = some s
exactly (suc n) p s = one p s >>= exactly n p

abbrev pub literally : String → Piece
literally String.[] s = some s
literally (String.◌∷◌ c w) s = one (λ d. nat_beq d (code c)) s >>= literally w

-- `^…$`
abbrev pub whole : Option (List ℕ) → Bool
whole (some []) = true
whole _ = false

abbrev pub all_codes : (ℕ → Bool) → List ℕ → Bool
all_codes p [] = true
all_codes p (c ∷ s) = p c && all_codes p s
