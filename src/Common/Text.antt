-- ===== src/Common/Text.antt =====
-- Go strings as lists of code points, with what the program uses of the package `strings`.
use Prim.Native.Char.{code}
use Prim.Native.Nat.{ℕ, ◌+◌}
use Prim.Native.String.{String}
use mathlib.Core.Bool.{Bool, true, false, ◌&&◌, ◌||◌}
use mathlib.Core.List.{List, [], ◌∷◌, map}
use mathlib.Core.Logic.{◌↔◌}
use mathlib.Core.Path.{◌≡◌, refl}
use native.Mathlib.Omega.{arith}
use timesync_analyzer.Common.Tests.{Eq, nat_beq, leb, if◌then◌else◌}

abbrev pub Text : Type 0
Text = List ℕ

abbrev pub text : String → Text
text String.[] = []
text (String.◌∷◌ c s) = code c ∷ text s

abbrev pub text_beq : Text → Text → Bool
text_beq [] [] = true
text_beq [] (b ∷ t) = false
text_beq (a ∷ s) [] = false
text_beq (a ∷ s) (b ∷ t) = nat_beq a b && text_beq s t

text_beq-eq : (s t : Text) → text_beq s t ≡ true → s ≡ t
text_beq-eq [] [] h = refl
text_beq-eq [] (b ∷ t) h = cc
text_beq-eq (a ∷ s) [] h = cc
text_beq-eq (a ∷ s) (b ∷ t) h = ground (arith, text_beq-eq s t)

text_beq_refl : (s : Text) → text_beq s s ≡ true
text_beq_refl [] = refl
text_beq_refl (a ∷ s) = ground (arith, text_beq_refl s)

pub text_beq_iff : (s t : Text) → (text_beq s t ≡ true) ↔ (s ≡ t)
text_beq_iff s t = (text_beq-eq s t, λ e. rw e (text_beq_refl t))

instance abbrev pub text_eq : Eq Text
text_eq = record { beq = text_beq; beq_iff = text_beq_iff }

abbrev pub is_empty {ℓ} : {A : Type ℓ} → List A → Bool
is_empty [] = true
is_empty (c ∷ s) = false

-- `unicode.IsSpace`
pub is_space : ℕ → Bool
is_space c =
    (leb 9 c && leb c 13)
    || nat_beq c 0x20
    || nat_beq c 0x85
    || nat_beq c 0xA0
    || nat_beq c 0x1680
    || (leb 0x2000 c && leb c 0x200A)
    || nat_beq c 0x2028
    || nat_beq c 0x2029
    || nat_beq c 0x202F
    || nat_beq c 0x205F
    || nat_beq c 0x3000

pub trim_left : Text → Text
unfolding is_space
trim_left [] = []
trim_left (c ∷ s) = if is_space c then trim_left s else c ∷ s

pub trim_right : Text → Text
unfolding is_space
trim_right [] = []
trim_right (c ∷ s) = let rest = trim_right s in if is_empty rest && is_space c then [] else c ∷ rest

-- `strings.TrimSpace`
unfoldable pub trim_space : Text → Text
unfolding trim_left trim_right
trim_space s = trim_right (trim_left s)

-- `unicode.ToLower` on the runes whose lower case is in ASCII; U+212A and U+0130 are the two outside
-- it. Any other rune is kept: no name that the program compares with has one.
pub lower : ℕ → ℕ
lower c =
    if leb b'A' c && leb c b'Z'
    then c + 32
    else if nat_beq c 0x212A
    then b'k'
    else if nat_beq c 0x130
    then b'i'
    else c

unfoldable pub to_lower : Text → Text
unfolding lower
to_lower = map lower

unfoldable pub has_prefix : Text → Text → Bool
has_prefix s [] = true
has_prefix [] (p ∷ ps) = false
has_prefix (c ∷ s) (p ∷ ps) = nat_beq c p && has_prefix s ps

unfoldable pub contains : Text → Text → Bool
unfolding has_prefix
contains [] t = has_prefix [] t
contains (c ∷ s) t = has_prefix (c ∷ s) t || contains s t

-- `strings.Split` at one character: the first part, and the parts after it.
unfoldable pub split_at : ℕ → Text → Text × List Text
split_at sep [] = ([], [])
split_at sep (c ∷ s) =
    let (part, parts) = split_at sep s in
    if nat_beq c sep then ([], part ∷ parts) else (c ∷ part, parts)

unfoldable pub split : ℕ → Text → List Text
unfolding split_at
split sep s = let (part, parts) = split_at sep s in part ∷ parts

-- The two sides of `strings.Trim` with one character.
unfoldable pub trim_left_of : ℕ → Text → Text
trim_left_of sep [] = []
trim_left_of sep (c ∷ s) = if nat_beq c sep then trim_left_of sep s else c ∷ s

unfoldable pub trim_right_of : ℕ → Text → Text
trim_right_of sep [] = []
trim_right_of sep (c ∷ s) =
    let rest = trim_right_of sep s in if is_empty rest && nat_beq c sep then [] else c ∷ rest

unfoldable pub trim_of : ℕ → Text → Text
unfolding trim_left_of trim_right_of
trim_of sep s = trim_right_of sep (trim_left_of sep s)
