-- ===== src/Reportd/Http/Strconv.antt =====
-- `strconv.ParseInt`, `strconv.Atoi` and `strconv.ParseBool`, as src/internal/reportd/handlers.go and
-- src/internal/reportd/parse.go use them.
use timesync_analyzer.Common.{
  ℕ, ◌+◌, ◌*◌, ◌-◌, ◌^◌, [], ◌∷◌, Bool, true, false, ◌&&◌, ◌||◌, Option, none, some, if◌then◌else◌,
  ◌==◌, ltb, leb, nat_beq,
}
use timesync_analyzer.Common.Int.{ℤ, pos, negsuc}
use timesync_analyzer.Common.Text.{Text, text, text_eq}
use timesync_analyzer.Reportd.Groups.{Parsed, ok, err}

-- The digits of `strconv.ParseInt` in base 10.
unfoldable pub parse_digits : ℕ → Text → Option ℕ
parse_digits n [] = some n
parse_digits n (c ∷ s) =
    let rest = parse_digits (10 * n + (c - 48)) s in if leb 48 c && leb c 57 then rest else none

-- A sign and at least one digit, in the range of int64.
abbrev pub in_range : Bool → Option ℕ → Parsed ℤ
in_range minus none = err (text "invalid syntax")
in_range false (some n) = if ltb n (2 ^ 63) then ok (pos n) else err (text "value out of range")
in_range true (some n) =
    if leb n (2 ^ 63)
    then ok (if nat_beq n 0 then pos 0 else negsuc (n - 1))
    else err (text "value out of range")

abbrev pub parse_unsigned : Bool → Text → Parsed ℤ
unfolding parse_digits
parse_unsigned minus [] = err (text "invalid syntax")
parse_unsigned minus (c ∷ s) = in_range minus (parse_digits 0 (c ∷ s))

-- `strconv.ParseInt` to 64 bits, and `strconv.Atoi` where an int has as many.
unfoldable pub parse_int : Text → Parsed ℤ
parse_int [] = err (text "invalid syntax")
parse_int (c ∷ s) =
    if nat_beq c b'-'
    then parse_unsigned true s
    else if nat_beq c b'+'
    then parse_unsigned false s
    else parse_unsigned false (c ∷ s)

-- `strconv.ParseBool`
unfoldable pub parse_bool : Text → Parsed Bool
parse_bool s =
    if s == text "1"
      || s == text "t"
      || s == text "T"
      || s == text "TRUE"
      || s == text "true"
      || s == text "True"
    then ok true
    else if s == text "0"
        || s == text "f"
        || s == text "F"
        || s == text "FALSE"
        || s == text "false"
        || s == text "False"
    then ok false
    else err (text "invalid syntax")
