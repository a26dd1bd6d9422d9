-- ===== src/Prelude/Text.antt =====
-- What the source uses of Go's `strings`, on the code points of a text.
-- Results are only compared with ASCII words, and so the lower-case forms that matter are those
-- of A to Z and of the two other letters whose lower-case form is ASCII, U+0130 and U+212A.
use Prim.Native.Nat.{ℕ, ◌+◌, ◌-◌, ◌*◌, ◌^◌, Ordering}
use Prim.Native.Char.{code}
use Prim.Native.String.{String, compare}
use mathlib.Core.Bool.{Bool, true, false, ◌&&◌, ◌||◌}
use mathlib.Core.List.{List, [], ◌∷◌, map, reverse}
use mathlib.Core.Option.{Option, none, some}
use fuzoj.Prelude.Int.{ℤ, pos, negsuc}
use fuzoj.Prelude.Tests.{if◌then◌else◌, leb, ltb, ◌==◌}

abbrev pub codes : String → List ℕ
codes String.[] = []
codes (String.◌∷◌ c s) = code c ∷ codes s

-- unicode.IsSpace
unfoldable pub is_space : ℕ → Bool
is_space c =
    (leb 9 c && leb c 13)
    || c == 32
    || c == 0x85
    || c == 0xA0
    || c == 0x1680
    || (leb 0x2000 c && leb c 0x200A)
    || c == 0x2028
    || c == 0x2029
    || c == 0x202F
    || c == 0x205F
    || c == 0x3000

unfoldable pub drop_spaces : List ℕ → List ℕ
unfolding is_space
drop_spaces [] = []
drop_spaces (c ∷ cs) = let rest = drop_spaces cs in if is_space c then rest else c ∷ cs

-- strings.TrimSpace
unfoldable pub trim_space : List ℕ → List ℕ
unfolding drop_spaces
trim_space cs = reverse (drop_spaces (reverse (drop_spaces cs)))

unfoldable pub lower : ℕ → ℕ
lower c =
    if leb 65 c && leb c 90
    then c + 32
    else if c == 0x130
    then 105
    else if c == 0x212A
    then 107
    else c

-- strings.ToLower
unfoldable pub to_lower : List ℕ → List ℕ
unfolding lower
to_lower cs = map lower cs

abbrev pub codes_eq : List ℕ → List ℕ → Bool
codes_eq [] [] = true
codes_eq [] (d ∷ ds) = false
codes_eq (c ∷ cs) [] = false
codes_eq (c ∷ cs) (d ∷ ds) = c == d && codes_eq cs ds

-- A word of the source's `switch` against `strings.ToLower(strings.TrimSpace(s))`.
unfoldable pub is_word : String → String → Bool
unfolding trim_space to_lower
is_word s word = codes_eq (to_lower (trim_space (codes s))) (codes word)

-- strings.TrimSpace(s) == ""
unfoldable pub is_blank : String → Bool
unfolding trim_space
is_blank s = codes_eq (trim_space (codes s)) []

-- The decimal digits of a text from a value on; nothing else may stand in it.
unfoldable pub parse_digits : ℕ → List ℕ → Option ℕ
parse_digits acc [] = some acc
parse_digits acc (c ∷ cs) =
    let rest = parse_digits (acc * 10 + (c - 48)) cs in if leb 48 c && leb c 57 then rest else none

unfoldable pub parse_natural : List ℕ → Option ℕ
parse_natural [] = none
parse_natural (c ∷ cs) = parse_digits 0 (c ∷ cs)

-- A magnitude below the bound, with its sign.
unfoldable pub signed : Bool → Option ℕ → Option ℤ
signed minus none = none
signed true (some n) =
    if leb n (2 ^ 63) then some (if n == 0 then pos 0 else negsuc (n - 1)) else none
signed false (some n) = if ltb n (2 ^ 63) then some (pos n) else none

unfoldable pub parse_signed : List ℕ → Option ℤ
unfolding signed parse_natural parse_digits
parse_signed [] = none
parse_signed (c ∷ cs) =
    if c == 45
    then signed true (parse_natural cs)
    else if c == 43
    then signed false (parse_natural cs)
    else signed false (parse_natural (c ∷ cs))

-- strconv.ParseInt(s, 10, 64)
unfoldable pub parse_int64 : String → Option ℤ
unfolding parse_signed
parse_int64 s = parse_signed (codes s)

-- s < t on texts
abbrev pub str_lt : String → String → Bool
str_lt s t = elim (compare s t) [ Ordering.lt ↦ true | _ ↦ false ]
