-- ===== src/Utils/Tests.antt =====
-- `ParseStringTime` on concrete texts.
use life_stream_go_mqtt_brok.Prelude.{◌∷◌, [], ◌++◌, ◌≡◌, ◌*◌, refl, ◌^◌, ◌%◌, ◌-◌, arith}
use life_stream_go_mqtt_brok.Utils.{
  parse_string_time, to_lower, cut, atoi, scan_digits, minute_ns, hour_ns,
}
use life_stream_go_mqtt_brok.Utils.Times.{decimal, unit_of, parse_string_time-decimal}

parse_string_time-decimal_example :
    parse_string_time ((b'1' ∷ b'5' ∷ []) ++ b'M' ∷ []) ≡ (15 * minute_ns) % 2 ^ 64
unfolding decimal unit_of
parse_string_time-decimal_example =
    parse_string_time-decimal (b'1' ∷ b'5' ∷ []) b'M' minute_ns
      ((omega arith, omega arith), ((omega arith, omega arith), tt)) (omega arith) (omega arith)
      refl

-- The first letter is looked for as "s" before "m": 5 milliseconds are an error.
milliseconds : parse_string_time (b'5' ∷ b'm' ∷ b's' ∷ []) ≡ 0
unfolding parse_string_time to_lower cut atoi scan_digits
milliseconds = refl

minus_two_days : parse_string_time (b'-' ∷ b'2' ∷ b'd' ∷ []) ≡ 2 ^ 64 - 2 * 24 * hour_ns
unfolding parse_string_time to_lower cut atoi scan_digits
minus_two_days = refl
