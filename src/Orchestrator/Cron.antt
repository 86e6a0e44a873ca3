-- ===== src/Orchestrator/Cron.antt =====
-- Cron expressions of five fields (services/orchestrator/src/cron.ts). A text is the list of its
-- characters' codes. Numbers are doubles: whole ones that do not fit into 53 bits are rounded.
pub mod Rounds
pub mod Fields
use Prim.Native.Char.{code}
use Prim.Native.String
use nexus_infra.Prelude.{
  ℕ, zero, suc, ◌+◌, ◌-◌, ◌*◌, ◌/◌, ◌%◌, ◌^◌, String, Bool, true, false, not, ◌&&◌, ◌||◌, Option,
  none, some, List, [], ◌∷◌, ◌++◌, if◌then◌else◌, leb, ltb, ◌==◌, any, is_empty,
}
use nexus_infra.Prelude.Text.{is_space, trim}

abbrev pub codes : String → List ℕ
codes String.[] = []
codes (String.◌∷◌ c s) = code c ∷ codes s

-- `text.split(separator)`, from the piece in front of the first separator.
abbrev pub put_first : ℕ → List (List ℕ) → List (List ℕ)
put_first c [] = (c ∷ []) ∷ []
put_first c (piece ∷ pieces) = (c ∷ piece) ∷ pieces

unfoldable pub split : (ℕ → Bool) → List ℕ → List (List ℕ)
split is_separator [] = [] ∷ []
split is_separator (c ∷ cs) =
    let rest = split is_separator cs in if is_separator c then [] ∷ rest else put_first c rest

unfoldable pub drop_empty : List (List ℕ) → List (List ℕ)
drop_empty [] = []
drop_empty (piece ∷ pieces) =
    let rest = drop_empty pieces in if is_empty piece then rest else piece ∷ rest

-- `expr.trim().split(/\s+/)`; the empty text has one empty field, here none, and neither is five.
unfoldable pub cron_fields : String → List (List ℕ)
cron_fields expr = drop_empty (split is_space (codes (trim expr)))

-- The digits that a text begins with, after the value of those before.
unfoldable pub digits_from : ℕ → List ℕ → ℕ
digits_from value [] = value
digits_from value (c ∷ cs) =
    let rest = digits_from (10 * value + (c - 48)) cs in
    if leb 48 c && leb c 57 then rest else value

-- From here on doubles cannot tell neighbours apart.
abbrev pub first_inexact : ℕ
first_inexact = 9007199254740992

-- What neighbouring doubles differ by at a number: a power of 2, at most 2 ^ 971.
unfoldable pub unit_of : ℕ → ℕ → ℕ → ℕ
unit_of zero unit n = unit
unit_of (suc fuel) unit n = elim (ltb n (unit * first_inexact)) [
  | true ↦ unit
  | false ↦ unit_of fuel (2 * unit) n
]

-- The nearer multiple of the unit, of two that are as near the even one.
unfoldable pub rounded : ℕ → ℕ → ℕ
rounded zero n = n
rounded (suc u) n =
    let q = n / suc u in
    let r = 2 * (n % suc u) in
    if ltb (suc u) r || (r == suc u && q % 2 == 1) then suc q * suc u else q * suc u

-- A whole number as a double.
unfoldable pub double : ℕ → ℕ
double n = rounded (unit_of 971 1 n) n

-- `Number.isFinite`
unfoldable pub is_finite : ℕ → Bool
is_finite n = ltb n (2 ^ 1024)

unfoldable pub finite : ℕ → Option ℕ
finite n = if is_finite n then some n else none

-- `parseInt(text, 10)`, where `none` is NaN, Infinity or below zero.
unfoldable pub parse_digits : List ℕ → Option ℕ
parse_digits [] = none
parse_digits (c ∷ cs) =
    if leb 48 c && leb c 57 then finite (double (digits_from (c - 48) cs)) else none

unfoldable pub parse_int : List ℕ → Option ℕ
parse_int [] = none
parse_int (c ∷ cs) = if c == 43 then parse_digits cs else parse_digits (c ∷ cs)

-- `part.split(separator)`: its first and, if there is one, its second piece.
unfoldable pub first_piece : List (List ℕ) → List ℕ
first_piece [] = []
first_piece (a ∷ pieces) = a

unfoldable pub second_piece : List (List ℕ) → Option (List ℕ)
second_piece [] = none
second_piece (a ∷ []) = none
second_piece (a ∷ b ∷ pieces) = some b

unfoldable pub step_of : Option (List ℕ) → Option ℕ
step_of none = some 1
step_of (some text) =
    if is_empty text
    then some 1
    else elim (parse_int text) [ none ↦ none | some step ↦ if ltb step 1 then none else some step ]

unfoldable pub is_star : List ℕ → Bool
is_star [] = false
is_star (c ∷ []) = c == 42
is_star (c ∷ d ∷ cs) = false

unfoldable pub bounds_of : List (List ℕ) → Option (ℕ × ℕ)
bounds_of pieces = elim (parse_int (first_piece pieces)) [
  | none ↦ none
  | some lo ↦ elim (second_piece pieces) [
    | none ↦ some (lo, lo)
    | some b ↦ elim (parse_int b) [ none ↦ none | some hi ↦ some (lo, hi) ]
  ]
]

unfoldable pub range_of : ℕ → ℕ → List ℕ → Option (ℕ × ℕ)
range_of min max text =
    if is_star text || is_empty text then some (min, max) else bounds_of (split (λ c. c == 45) text)

-- `for (let v = lo; v <= hi; v += step) if (v >= min && v <= max) out.add(v)`, with fuel. Where
-- rounding keeps `v` in its place the loop of the source does not end; here it ends with the fuel.
unfoldable pub values_from : ℕ → ℕ → ℕ → ℕ → ℕ → ℕ → List ℕ
values_from zero v hi step min max = []
values_from (suc fuel) v hi step min max =
    let rest = values_from fuel (double (v + step)) hi step min max in
    if leb v hi then (if leb min v && leb v max then v ∷ rest else rest) else []

unfoldable pub part_values : ℕ → ℕ → List ℕ → List ℕ
part_values min max part =
    let pieces = split (λ c. c == 47) part in
    elim (step_of (second_piece pieces)) [
      | none ↦ []
      | some step ↦ elim (range_of min max (first_piece pieces)) [
        | none ↦ []
        | some (lo, hi) ↦ values_from (suc hi - lo) lo hi step min max
      ]
    ]

unfoldable pub parts_values : ℕ → ℕ → List (List ℕ) → List ℕ
parts_values min max [] = []
parts_values min max (part ∷ parts) = part_values min max part ++ parts_values min max parts

-- The values of a field's set, with repetitions.
unfoldable pub parse_field : List ℕ → ℕ → ℕ → List ℕ
parse_field field min max = parts_values min max (split (λ c. c == 44) field)

-- What a Date gives in UTC: its `month` is from 1, its `weekday` from Sunday, 0.
pub record UtcDate : Type 0 where
  pub minute : ℕ
  pub hour : ℕ
  pub day : ℕ
  pub month : ℕ
  pub weekday : ℕ

abbrev pub holds : ℕ → List ℕ → Bool
holds v values = any (λ x. x == v) values

unfoldable pub day_matches : List ℕ → List ℕ → UtcDate → Bool
day_matches dom_field dow_field date =
    let doms = parse_field dom_field 1 31 in
    let dows = parse_field dow_field 0 7 in
    let dom_match = holds date.day doms in
    let dow_match = holds date.weekday dows || (date.weekday == 0 && holds 7 dows) in
    if not (is_star dom_field) && not (is_star dow_field)
    then dom_match || dow_match
    else dom_match && dow_match

unfoldable pub fields_match : List (List ℕ) → UtcDate → Bool
fields_match (m ∷ h ∷ dom ∷ mon ∷ dow ∷ []) date =
    holds date.minute (parse_field m 0 59)
    && holds date.hour (parse_field h 0 23)
    && holds date.month (parse_field mon 1 12)
    && day_matches dom dow date
fields_match fields date = false

unfoldable pub cron_matches : String → UtcDate → Bool
cron_matches expr date = fields_match (cron_fields expr) date

unfoldable pub fields_valid : List (List ℕ) → Bool
fields_valid (m ∷ h ∷ dom ∷ mon ∷ dow ∷ []) =
    not (is_empty (parse_field m 0 59))
    && not (is_empty (parse_field h 0 23))
    && not (is_empty (parse_field dom 1 31))
    && not (is_empty (parse_field mon 1 12))
    && not (is_empty (parse_field dow 0 7))
fields_valid fields = false

unfoldable pub is_valid_cron : String → Bool
is_valid_cron expr = fields_valid (cron_fields expr)
