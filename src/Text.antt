-- ===== src/Text.antt =====
-- What the hub does with texts through Python's standard library: `str.strip`, `str(int)`,
-- `int(str)`. `int` reads ASCII digits; other decimal digits of Unicode count as an error here.
pub mod Split
use Prim.Native.Char.{Char, code}
use ampla.Shared.{
  ℕ, zero, suc, ◌+◌, ◌-◌, ◌*◌, ◌/◌, ◌%◌, String, Bool, true, false, not, ◌&&◌, ◌||◌, Option, none,
  some, if◌then◌else◌, nat_eq, ltb, leb, ℤ, pos, negsuc,
}

-- `str.isspace` of one character
abbrev pub is_space : ℕ → Bool
is_space c =
    leb 9 c && leb c 13
    || leb 28 c && leb c 32
    || nat_eq c 133
    || nat_eq c 160
    || nat_eq c 5760
    || leb 8192 c && leb c 8202
    || nat_eq c 8232
    || nat_eq c 8233
    || nat_eq c 8239
    || nat_eq c 8287
    || nat_eq c 12288

unfoldable pub lstrip : String → String
lstrip String.[] = String.[]
lstrip (String.◌∷◌ c s) = if is_space (code c) then lstrip s else String.◌∷◌ c s

cons_unless_blank : Char → String → String
cons_unless_blank c String.[] = if is_space (code c) then String.[] else String.◌∷◌ c String.[]
cons_unless_blank c (String.◌∷◌ d s) = String.◌∷◌ c (String.◌∷◌ d s)

unfoldable pub rstrip : String → String
unfolding cons_unless_blank
rstrip String.[] = String.[]
rstrip (String.◌∷◌ c s) = cons_unless_blank c (rstrip s)

unfoldable pub strip : String → String
unfolding lstrip rstrip
strip s = rstrip (lstrip s)

-- `not s`
abbrev pub is_empty : String → Bool
is_empty String.[] = true
is_empty (String.◌∷◌ c s) = false

digit_char : ℕ → Char
digit_char zero = "0"
digit_char (suc zero) = "1"
digit_char (suc (suc zero)) = "2"
digit_char (suc (suc (suc zero))) = "3"
digit_char (suc (suc (suc (suc zero)))) = "4"
digit_char (suc (suc (suc (suc (suc zero))))) = "5"
digit_char (suc (suc (suc (suc (suc (suc zero)))))) = "6"
digit_char (suc (suc (suc (suc (suc (suc (suc zero))))))) = "7"
digit_char (suc (suc (suc (suc (suc (suc (suc (suc zero)))))))) = "8"
digit_char _ = "9"

digits_before : ℕ → ℕ → String → String
unfolding digit_char
digits_before zero n out = out
digits_before (suc fuel) n out =
    let out' = String.◌∷◌ (digit_char (n % 10)) out in
    let more = digits_before fuel (n / 10) out' in if ltb n 10 then out' else more

-- `str(n)`; `n + 1` rounds are enough, since each divides by ten
unfoldable pub show : ℕ → String
unfolding digits_before
show n = digits_before (suc n) n String.[]

unfoldable pub show_int : ℤ → String
unfolding show
show_int (pos n) = show n
show_int (negsuc n) = String.◌∷◌ "-" (show (suc n))

abbrev is_digit : ℕ → Bool
is_digit c = leb b'0' c && leb c b'9'

-- The digits of a literal after at least one digit, where one `_` may stand between two digits;
-- `gap` says that the last character was such a `_`.
digits_value : Bool → ℕ → String → Option ℕ
digits_value true n String.[] = none
digits_value false n String.[] = some n
digits_value gap n (String.◌∷◌ c s) =
    let more = digits_value false (n * 10 + (code c - b'0')) s in
    let skip = digits_value true n s in
    if is_digit (code c) then more else if nat_eq (code c) b'_' && not gap then skip else none

unsigned_value : String → Option ℕ
unfolding digits_value
unsigned_value String.[] = none
unsigned_value (String.◌∷◌ c s) =
    if is_digit (code c) then digits_value false (code c - b'0') s else none

abbrev negate : ℕ → ℤ
negate zero = pos 0
negate (suc n) = negsuc n

abbrev with_sign : (ℕ → ℤ) → Option ℕ → Option ℤ
with_sign f none = none
with_sign f (some n) = some (f n)

abbrev signed_value : String → Option ℤ
signed_value String.[] = none
signed_value (String.◌∷◌ c s) =
    if nat_eq (code c) b'-'
    then with_sign negate (unsigned_value s)
    else if nat_eq (code c) b'+'
    then with_sign pos (unsigned_value s)
    else with_sign pos (unsigned_value (String.◌∷◌ c s))

-- `int(s)`, where None stands for ValueError
unfoldable pub parse_int : String → Option ℤ
unfolding strip unsigned_value
parse_int s = signed_value (strip s)
