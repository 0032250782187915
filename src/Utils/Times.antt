-- ===== src/Utils/Times.antt =====
-- What `ParseStringTime` makes of a decimal number with a unit.
use native.Mathlib.Nat.{pow-suc, add-mul, mul_assoc, mul_comm}
use life_stream_go_mqtt_brok.Utils.{
  scan_digits, to_lower, cut, second_ns, minute_ns, hour_ns, unsigned, atoi, parse_string_time,
  lower, at_most, with_sign, parse_lower,
}
use life_stream_go_mqtt_brok.Prelude.{
  ℕ, List, ◌≤◌, ◌∷◌, All, Option, ◌<◌, ◌-◌, ◌≡◌, if◌then◌else◌, ◌++◌, ◌≢◌, ◌*◌, some, ◌==◌,
  lt→not_leb, [], ◌^◌, arith, ==_refl, none, length, refl, ne→not_==, ◌+◌, ap, le→leb, ◌∙◌, sym,
  ◌%◌, false, ◌⊎◌, if_true, inl, inr,
}

abbrev pub IsDigit : ℕ → Type 0
IsDigit c = (b'0' ≤ c) × (c ≤ b'9')

-- The number that digits write, each at its place.
unfoldable pub decimal : List ℕ → ℕ
decimal [] = 0
decimal (c ∷ s) = (c - b'0') * 10 ^ length s + decimal s

place : (n k p d : ℕ) {q : ℕ} → q ≡ p * 10 → (n * 10 + k) * p + d ≡ n * q + (k * p + d)
place n k p d e =
    omega
      (arith, add-mul (n * 10) k p, mul_assoc n 10 p, ap (λ (t : ℕ). n * t) (mul_comm 10 p ∙ sym e))

scan_digits-decimal :
    (ds : List ℕ) (n : ℕ)
    → All IsDigit ds
    → scan_digits ds n ≡ some (n * 10 ^ length ds + decimal ds)
unfolding scan_digits decimal
scan_digits-decimal [] n digits = ap some (omega arith)
scan_digits-decimal (c ∷ s) n ((low, high), digits) =
    rw (le→leb b'0' c low, le→leb c b'9' high)
      (scan_digits-decimal s (n * 10 + (c - b'0')) digits
        ∙ ap some (place n (c - b'0') (10 ^ length s) (decimal s) (pow-suc 10 (length s))))

-- The letters that name a unit, in lower case, and the unit.
unfoldable pub unit_of : ℕ → Option ℕ
unit_of c =
    if c == b's'
    then some second_ns
    else if c == b'm'
    then some minute_ns
    else if c == b'h'
    then some hour_ns
    else if c == b'd'
    then some (24 * hour_ns)
    else none

to_lower-digits : (ds s : List ℕ) → All IsDigit ds → to_lower (ds ++ s) ≡ ds ++ to_lower s
unfolding to_lower
to_lower-digits [] s digits = refl
to_lower-digits (d ∷ ds) s ((low, high), digits) =
    rw (lt→not_leb b'A' d (omega arith), to_lower-digits ds s digits) refl

cut-found : (c : ℕ) (ds s : List ℕ) → b'9' < c → All IsDigit ds → cut c (ds ++ c ∷ s) ≡ some ds
unfolding cut
cut-found c [] s letter digits = rw (==_refl c) refl
cut-found c (d ∷ ds) s letter ((low, high), digits) =
    rw (ne→not_== d c (λ e. omega (arith, e)), cut-found c ds s letter digits) refl

cut-missing :
    (c b : ℕ) (ds : List ℕ) → b'9' < c → b ≢ c → All IsDigit ds → cut c (ds ++ b ∷ []) ≡ none
unfolding cut
cut-missing c b [] letter other digits = rw (ne→not_== b c other) refl
cut-missing c b (d ∷ ds) letter other ((low, high), digits) =
    rw (ne→not_== d c (λ e. omega (arith, e)), cut-missing c b ds letter other digits) refl

unsigned-decimal :
    (most d : ℕ) (ds : List ℕ)
    → All IsDigit (d ∷ ds)
    → decimal (d ∷ ds) ≤ most
    → unsigned most (d ∷ ds) ≡ some (decimal (d ∷ ds))
unsigned-decimal most d ds digits fits =
    ap (at_most most) (scan_digits-decimal (d ∷ ds) 0 digits ∙ ap some (omega arith))
    ∙ if_true _ (le→leb (decimal (d ∷ ds)) most fits)

atoi-decimal :
    (ds : List ℕ)
    → All IsDigit ds
    → 0 < length ds
    → decimal ds < 2 ^ 63
    → atoi ds ≡ some (false, decimal ds)
unfolding atoi
atoi-decimal [] digits some_digit fits = absurd (omega arith)
atoi-decimal (d ∷ ds) ((low, high), digits) some_digit fits =
    rw (ne→not_== d b'-' (λ e. omega (arith, e)), ne→not_== d b'+' (λ e. omega (arith, e)))
      (ap (with_sign false)
        (unsigned-decimal (2 ^ 63 - 1) d ds ((low, high), digits) (omega arith)))

days : (n : ℕ) → (((n * hour_ns) % 2 ^ 64) * 24) % 2 ^ 64 ≡ (n * (24 * hour_ns)) % 2 ^ 64
days n = omega arith

unit_cases :
    (c unit : ℕ)
    → unit_of c ≡ some unit
    → ((c ≡ b's') × (unit ≡ second_ns))
      ⊎ (((c ≡ b'm') × (unit ≡ minute_ns))
          ⊎ (((c ≡ b'h') × (unit ≡ hour_ns)) ⊎ ((c ≡ b'd') × (unit ≡ 24 * hour_ns))))
unfolding unit_of
unit_cases c unit e = ground arith

-- What the text counts when the number stands before the letter.
parse_lower-decimal :
    (ds : List ℕ) (c unit : ℕ)
    → All IsDigit ds
    → atoi ds ≡ some (false, decimal ds)
    → unit_of c ≡ some unit
    → parse_lower (ds ++ c ∷ []) ≡ (decimal ds * unit) % 2 ^ 64
parse_lower-decimal ds c unit digits number named = elim (unit_cases c unit named) [
  | inl s ↦ rw (s.0, s.1, cut-found b's' ds [] (omega arith) digits, number) refl
  | inr (inl m) ↦
      rw
        (
          m.0,
          m.1,
          cut-missing b's' b'm' ds (omega arith) (omega arith) digits,
          cut-found b'm' ds [] (omega arith) digits,
          number,
        )
        refl
  | inr (inr (inl h)) ↦
      rw
        (
          h.0,
          h.1,
          cut-missing b's' b'h' ds (omega arith) (omega arith) digits,
          cut-missing b'm' b'h' ds (omega arith) (omega arith) digits,
          cut-found b'h' ds [] (omega arith) digits,
          number,
        )
        refl
  | inr (inr (inr d)) ↦
      rw
        (
          d.0,
          d.1,
          cut-missing b's' b'd' ds (omega arith) (omega arith) digits,
          cut-missing b'm' b'd' ds (omega arith) (omega arith) digits,
          cut-missing b'h' b'd' ds (omega arith) (omega arith) digits,
          cut-found b'd' ds [] (omega arith) digits,
          number,
        )
        (days (decimal ds))
]

-- A decimal number below 2 ^ 63 with a unit behind it, "s", "m", "h" or "d" or the capital letter,
-- gives that many units in nanoseconds, as int64 keeps the product: seconds, minutes, hours, days.
pub parse_string_time-decimal :
    (ds : List ℕ) (c unit : ℕ)
    → All IsDigit ds
    → 0 < length ds
    → decimal ds < 2 ^ 63
    → unit_of (lower c) ≡ some unit
    → parse_string_time (ds ++ c ∷ []) ≡ (decimal ds * unit) % 2 ^ 64
unfolding parse_string_time to_lower
parse_string_time-decimal ds c unit digits some_digit fits named =
    ap parse_lower (to_lower-digits ds (c ∷ []) digits)
    ∙ parse_lower-decimal ds (lower c) unit digits (atoi-decimal ds digits some_digit fits) named

cut-none : (b : ℕ) (s : List ℕ) → All (λ c. c ≢ b) s → cut b s ≡ none
unfolding cut
cut-none b [] other = refl
cut-none b (c ∷ s) (other, others) = rw (ne→not_== c b other, cut-none b s others) refl

-- The letter `b` of a unit is not in a text without units.
without :
    (b unit : ℕ) (text : List ℕ)
    → unit_of b ≡ some unit
    → All (λ c. unit_of (lower c) ≡ none) text
    → All (λ c. c ≢ b) (to_lower text)
unfolding to_lower
without b unit [] named free = tt
without b unit (c ∷ text) named (other, others) =
    (λ same. absurd (cc (ap unit_of same, other, named)), without b unit text named others)

-- A text in which no letter of a unit stands, small or capital, is an error, and the duration 0.
pub parse_string_time-without :
    (text : List ℕ) → All (λ c. unit_of (lower c) ≡ none) text → parse_string_time text ≡ 0
unfolding parse_string_time unit_of
parse_string_time-without text free =
    rw
      (
        cut-none b's' _ (without b's' _ text refl free),
        cut-none b'm' _ (without b'm' _ text refl free),
        cut-none b'h' _ (without b'h' _ text refl free),
        cut-none b'd' _ (without b'd' _ text refl free),
      )
      refl
