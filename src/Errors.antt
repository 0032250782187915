-- ===== src/Errors.antt =====
-- The errors that the packages mqtt, packet, database and connection return, one constructor for
-- each message. A constructor with an `Error` is a message that quotes the error of a call.
use Prim.Native.Nat.{ℕ}
use mathlib.Core.List.{List}

pub data Error : Type 0 where
  -- what reads of a connection return
  eof unexpected_eof timeout net_closed : Error
  -- internal/mqtt
  remaining_length_exceeds : Error
  invalid_flags : ℕ → ℕ → Error
  -- internal/packet/packet_utils.go
  invalid_context_length invalid_reading_length insufficient_length_bytes : Error
  payload_exceeds_buffer : ℕ → ℕ → Error
  -- internal/packet: PUBLISH
  retry_without_qos qos_must_not_be_three : Error
  reading_topic_name reading_packet_id reading_payload : Error → Error
  -- internal/packet: SUBSCRIBE and UNSUBSCRIBE
  reading_topic_filter reading_qos : Error → Error
  -- internal/packet: CONNECT
  unable_to_check_protocol : Error
  incorrect_protocol : List ℕ → Error
  insufficient_version_bytes : Error
  reading_protocol_version : Error → Error
  protocol_version_mismatch insufficient_flag_bytes : Error
  reading_connect_flag : Error → Error
  flags_without_will unable_to_read_keep_alive : Error
  client_id : Error → Error
  client_id_is_empty : Error
  will_topic will_content username password : Error → Error
  unable_to_save_session : Error
  -- internal/database
  hash_must_be_last : List ℕ → Error
