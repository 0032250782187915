-- ===== src/Utils.antt =====
-- internal/utils/time_utils.go: `ParseStringTime`. A duration is an int64, here the number below
-- 2 ^ 64 with its bits. Lowering a letter outside ASCII gives no "s", "m", "h" or "d" and no digit,
-- so bytes from 128 on are left as they are.
pub mod Times
mod Tests
use life_stream_go_mqtt_brok.Prelude.{
  List, ℕ, ◌∷◌, Option, Bool, ◌*◌, some, if◌then◌else◌, none, ◌+◌, ◌%◌, leb, ◌==◌, ◌-◌, ◌^◌, ◌&&◌,
  [], true, false,
}

abbrev pub lower : ℕ → ℕ
lower c = if leb b'A' c && leb c b'Z' then c + 32 else c

-- `strings.ToLower`
unfoldable pub to_lower : List ℕ → List ℕ
to_lower [] = []
to_lower (c ∷ s) = lower c ∷ to_lower s

-- `strings.Cut`: what stands before the first `c`, if there is one.
unfoldable pub cut : ℕ → List ℕ → Option (List ℕ)
cut c [] = none
cut c (b ∷ s) =
    let rest = cut c s in
    if b == c then some [] else elim rest [ none ↦ none | some before ↦ some (b ∷ before) ]

unfoldable pub scan_digits : List ℕ → ℕ → Option ℕ
scan_digits [] n = some n
scan_digits (c ∷ s) n =
    let rest = scan_digits s (n * 10 + (c - b'0')) in
    if leb b'0' c && leb c b'9' then rest else none

abbrev pub at_most : ℕ → Option ℕ → Option ℕ
at_most most none = none
at_most most (some n) = if leb n most then some n else none

-- Digits, one at least, whose number is at most `most`.
abbrev pub unsigned : ℕ → List ℕ → Option ℕ
unsigned most [] = none
unsigned most (c ∷ s) = at_most most (scan_digits (c ∷ s) 0)

abbrev pub with_sign : Bool → Option ℕ → Option (Bool × ℕ)
with_sign minus none = none
with_sign minus (some n) = some (minus, n)

-- `strconv.Atoi`: the sign, of which `true` is a minus, and the number without it.
unfoldable pub atoi : List ℕ → Option (Bool × ℕ)
atoi [] = none
atoi (c ∷ s) =
    if c == b'-'
    then with_sign true (unsigned (2 ^ 63) s)
    else if c == b'+'
    then with_sign false (unsigned (2 ^ 63 - 1) s)
    else with_sign false (unsigned (2 ^ 63 - 1) (c ∷ s))

-- A product of int64
abbrev pub int64_times : ℕ → Bool × ℕ → ℕ
int64_times unit (false, n) = (n * unit) % 2 ^ 64
int64_times unit (true, n) = (2 ^ 64 - (n * unit) % 2 ^ 64) % 2 ^ 64

abbrev pub second_ns : ℕ
second_ns = 1000000000

abbrev pub minute_ns : ℕ
minute_ns = 60 * second_ns

abbrev pub hour_ns : ℕ
hour_ns = 60 * minute_ns

-- A number that `Atoi` refuses is 0.
abbrev pub duration_of : ℕ → Option (Bool × ℕ) → ℕ
duration_of unit none = 0
duration_of unit (some x) = int64_times unit x

abbrev pub counted : ℕ → List ℕ → ℕ
counted unit number = duration_of unit (atoi number)

-- An hour, and then the product with 24.
abbrev pub counted_days : List ℕ → ℕ
counted_days number = (counted hour_ns number * 24) % 2 ^ 64

-- What a unit counts, where it stands in the text.
abbrev pub if_cut : Option (List ℕ) → (List ℕ → ℕ) → ℕ → ℕ
if_cut (some number) count other = count number
if_cut none count other = other

abbrev pub parse_lower : List ℕ → ℕ
parse_lower s = if_cut (cut b's' s) (counted second_ns) (
    if_cut (cut b'm' s) (counted minute_ns)
      (if_cut (cut b'h' s) (counted hour_ns) (if_cut (cut b'd' s) counted_days 0)))

unfoldable pub parse_string_time : List ℕ → ℕ
parse_string_time text = parse_lower (to_lower text)
