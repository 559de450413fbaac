-- ===== src/Reportd/Durations.antt =====
-- `parseLooseDuration` and `parseNowExpression` of src/internal/reportd/parse.go.
use timesync_analyzer.Common.{
  ℕ, [], ◌∷◌, ◌++◌, Bool, true, false, Option, none, some, if◌then◌else◌, ◌==◌, drop, nat_beq,
}
use timesync_analyzer.Common.Float.{Float64, FloatOps}
use timesync_analyzer.Common.Int.{ℤ, pos, ◌+ℤ◌, sub64}
use timesync_analyzer.Common.Text.{Text, text, text_eq, is_empty, trim_space, to_lower, has_prefix}
use timesync_analyzer.Reportd.Groups.{Parsed, ok, err}

-- `strconv.ParseFloat` and `time.ParseDuration`, and the operations on float64.
pub record DurationLib : Type 0 where
  pub ops : FloatOps
  pub parse_float : Text → Parsed Float64
  pub parse_duration : Text → Parsed ℤ

-- A text without its last character, and that character.
unfoldable pub split_last : Text → Option (Text × ℕ)
split_last [] = none
split_last (c ∷ s) = elim (split_last s) [
  | none ↦ some ([], c)
  | some (front, last) ↦ some (c ∷ front, last)
]

-- The multiplier of a unit, in nanoseconds.
unfoldable pub unit_of : ℕ → Option ℤ
unit_of c =
    if nat_beq c b'd'
    then some (pos 86_400_000_000_000)
    else if nat_beq c b'w'
    then some (pos 604_800_000_000_000)
    else none

module _ (lib : DurationLib) where
  -- `time.Duration(x * float64(unit))`
  abbrev pub scaled : ℤ → Parsed Float64 → Parsed ℤ
  scaled unit (ok x) = ok (lib.ops.to_int64 (lib.ops.mul x (lib.ops.of_int64 unit)))
  scaled unit (err e) = err e

  -- From the `switch` on; the error's `%q` is written without its quotes.
  unfoldable pub parse_days_or_weeks : Text → Parsed ℤ
  parse_days_or_weeks value = elim (split_last (to_lower value)) [
    | none ↦ err (text "invalid duration " ++ value)
    | some (number, c) ↦ elim (unit_of c) [
      | none ↦ err (text "invalid duration " ++ value)
      | some unit ↦ scaled unit (lib.parse_float (trim_space number))
    ]
  ]

  unfoldable pub parse_trimmed_duration : Text → Parsed ℤ
  parse_trimmed_duration value = elim (lib.parse_float value) [
    | ok seconds ↦ scaled (pos 1_000_000_000) (ok seconds)
    | err e ↦ elim (lib.parse_duration value) [
      | ok parsed ↦ ok parsed
      | err e' ↦ parse_days_or_weeks value
    ]
  ]

  unfoldable pub parse_loose_duration : Text → Parsed ℤ
  parse_loose_duration value =
      let trimmed = trim_space value in
      if is_empty trimmed then err (text "duration is empty") else parse_trimmed_duration trimmed

  abbrev pub shift : ℤ → Bool → Parsed ℤ → Parsed (Option ℤ)
  shift now true (ok d) = ok (some (now +ℤ sub64 (pos 0) d))
  shift now false (ok d) = ok (some (now +ℤ d))
  shift now back (err e) = err e

  -- `ok none` is the answer that the text is no such expression.
  unfoldable pub parse_now_expression : Text → ℤ → Parsed (Option ℤ)
  parse_now_expression text_value now =
      let value = trim_space (to_lower text_value) in
      if value == text "now"
      then ok (some now)
      else if has_prefix value (text "now-")
      then shift now true (parse_loose_duration (drop 4 value))
      else if has_prefix value (text "now+")
      then shift now false (parse_loose_duration (drop 4 value))
      else ok none
