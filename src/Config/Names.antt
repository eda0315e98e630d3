-- ===== src/Config/Names.antt =====
-- src/config.rs: `name` and `from_name`, the parseable identifiers of the presets.
use Prim.Native.String.{String, ◌++◌}
use text.Mathlib.Text.{◌==◌ as str_eq}
use text.Mathlib.TextEquality.{eq_iff}
use poulpy_pir.Prelude.{
  ℕ, zero, suc, ◌/◌, ◌%◌, ◌≡◌, refl, List, [], ◌∷◌, Option, none, some, Bool, true, false, ltb,
  ◌==◌, arith, All, All-every, if◌then◌else◌,
}
use poulpy_pir.Config.Presets.{DefaultScheme, interpolation, recursion, DefaultPirParameters32B}
use poulpy_pir.Config.Table.{all}
use poulpy_pir.Config.Grid.{same_preset, same_preset→eq}

digit_text : ℕ → String
digit_text d =
    if d == 0
    then "0"
    else if d == 1
    then "1"
    else if d == 2
    then "2"
    else if d == 3
    then "3"
    else if d == 4
    then "4"
    else if d == 5
    then "5"
    else if d == 6
    then "6"
    else if d == 7
    then "7"
    else if d == 8
    then "8"
    else "9"

-- `{n}` of `format!`. A number has at most as many digits as its value and one.
decimal_loop : ℕ → ℕ → String
decimal_loop zero n = digit_text n
decimal_loop (suc fuel) n =
    let front = decimal_loop fuel (n / 10) in
    if ltb n 10 then digit_text n else front ++ digit_text (n % 10)

decimal : ℕ → String
decimal n = decimal_loop n n

scheme_text : DefaultScheme → String
scheme_text interpolation = "InsPIRe-"
scheme_text (recursion gamma0) = "InsPIRe2-g" ++ decimal gamma0 ++ "-"

unfoldable pub name : DefaultPirParameters32B → String
unfolding scheme_text decimal decimal_loop digit_text
name v = scheme_text v.scheme ++ decimal v.db_gib ++ "GiB-c" ++ decimal v.cols

-- `iter().find(|v| v.name() == name)`.
find_named : String → List DefaultPirParameters32B → Option DefaultPirParameters32B
find_named wanted [] = none
find_named wanted (v ∷ vs) =
    let rest = find_named wanted vs in if str_eq (name v) wanted then some v else rest

unfoldable pub from_name : String → Option DefaultPirParameters32B
unfolding find_named
from_name wanted = find_named wanted all

is_some_of : Option DefaultPirParameters32B → DefaultPirParameters32B → Bool
is_some_of none v = false
is_some_of (some w) v = same_preset w v

is_some_of→eq :
    (o : Option DefaultPirParameters32B) (v : DefaultPirParameters32B)
    → is_some_of o v ≡ true
    → o ≡ some v
unfolding is_some_of
is_some_of→eq none v h = cc
is_some_of→eq (some w) v h = cc (same_preset→eq w v h)

-- Every preset of the table comes back from its name.
pub from_name-name : All (λ v. from_name (name v) ≡ some v) all
unfolding from_name name is_some_of same_preset
from_name-name =
    All-every _ (λ v. is_some_of (from_name (name v)) v)
      (λ v h. is_some_of→eq (from_name (name v)) v h) all refl

find_named_sound :
    (wanted : String) (vs : List DefaultPirParameters32B) (v : DefaultPirParameters32B)
    → find_named wanted vs ≡ some v
    → name v ≡ wanted
unfolding find_named
find_named_sound wanted [] v found = cc
find_named_sound wanted (w ∷ vs) v found =
    ground (arith, eq_iff (name w) wanted, find_named_sound wanted vs v)

-- A text that parses is the name of the preset that it parses to.
pub from_name_sound :
    (wanted : String) {v : DefaultPirParameters32B} → from_name wanted ≡ some v → name v ≡ wanted
unfolding from_name
from_name_sound wanted {v} found = find_named_sound wanted all v found

-- Every preset of the table comes back from its name, and a text that parses is the name of the preset
-- that it parses to.
pub from_name_lem :
    All (λ v. from_name (name v) ≡ some v) all
    × ((wanted : String) (v : DefaultPirParameters32B)
        → from_name wanted ≡ some v
        → name v ≡ wanted)
from_name_lem = (from_name-name, λ wanted v found. from_name_sound wanted found)
