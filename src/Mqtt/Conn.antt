-- ===== src/Mqtt/Conn.antt =====
-- The reading side of a connection, as internal/mqtt/mqtt_utils.go uses it: the bytes that still
-- arrive, and what every read answers once they are used up (the peer closed, a deadline passed, …).
use life_stream_go_mqtt_brok.Prelude.{
  ℕ, ◌≡◌, refl, List, [], ◌∷◌, ◌++◌, arith, length, length-append, take, drop, take-append,
  drop-append, leb, ◌==◌, if◌then◌else◌,
}
use life_stream_go_mqtt_brok.Prelude.Result.{Result, ok, err}
use life_stream_go_mqtt_brok.Errors.{Error, eof, unexpected_eof}

pub record Conn : Type 0 where
  pub incoming : List ℕ
  pub closing : Error

-- `ReadByte`: one `Read` into a buffer of one byte.
unfoldable pub read_byte : Conn → Result Error (ℕ × Conn)
read_byte c = read_from c.incoming c
  where
    read_from : List ℕ → Conn → Result Error (ℕ × Conn)
    read_from [] c = err c.closing
    read_from (b ∷ rest) c = ok (b, record c { incoming = rest })

-- `io.ReadFull` calls an end of the stream unexpected where some bytes had come.
abbrev cut_short : Error → Error
cut_short eof = unexpected_eof
cut_short e = e

-- `io.ReadFull` into a buffer of `n` bytes
unfoldable pub read_full : ℕ → Conn → Result Error (List ℕ × Conn)
read_full n c =
    if leb n (length c.incoming)
    then ok (take n c.incoming, record c { incoming = drop n c.incoming })
    else if length c.incoming == 0
    then err c.closing
    else err (cut_short c.closing)

pub read_full-append :
    (xs rest : List ℕ) (e : Error)
    → read_full (length xs) (record { incoming = xs ++ rest; closing = e })
      ≡ ok (xs, record { incoming = rest; closing = e })
unfolding read_full
read_full-append xs rest e = ground (
  arith,
  length-append xs rest,
  take-append xs rest (length xs) refl,
  drop-append xs rest (length xs) refl,
)
