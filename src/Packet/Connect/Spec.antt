-- ===== src/Packet/Connect/Spec.antt =====
-- `ParseConnectPacket` as a function of the bytes of the body.
use life_stream_go_mqtt_brok.Packet.Reader.Refines.{
  check_remaining_length-is_more, read_packet_byte-Agrees, read_uint16-Agrees,
  read_packet_payload-Agrees, At-start,
}
use life_stream_go_mqtt_brok.Packet.Reader.{FieldPayload, read_packet_byte, read_uint16}
use life_stream_go_mqtt_brok.Packet.Reader.Spec.{
  At, Agrees, field_of, uint16_of, byte_of, Agrees-then, Agrees-ok, Agrees-map_err, Agrees-bind,
}
use life_stream_go_mqtt_brok.Prelude.Result.{Result, err, ◌>>=◌, map_err, ok}
use life_stream_go_mqtt_brok.Errors.{
  Error, insufficient_flag_bytes, insufficient_version_bytes, unable_to_check_protocol, client_id,
  reading_connect_flag, reading_protocol_version, flags_without_will, unable_to_read_keep_alive,
  protocol_version_mismatch, incorrect_protocol, client_id_is_empty, will_topic, will_content,
  username, password,
}
use life_stream_go_mqtt_brok.Mqtt.Frame.{Payload, check_remaining_length, FixedHeader}
use life_stream_go_mqtt_brok.Packet.Connect.{
  ConnectPacketFlag, ConnectFailure, ConnectPacketPayloads, silent, connect_flag, answered,
  unacceptable_protocol, protocol_name, no_field, identifier_rejected, read_connect_header,
  read_field_if, parse_connect_packet,
}
use life_stream_go_mqtt_brok.Prelude.{
  ℕ, List, Bool, not, ◌&&◌, ◌∷◌, ◌||◌, if◌then◌else◌, ◌==◌, true, [], false, bytes_eq, refl, ◌≡◌,
  length,
}

abbrev pub ConnectHeader : Type 0
ConnectHeader = record { flag : ConnectPacketFlag; keep_alive : ℕ }

-- The flags are refused where they speak of a will message that is not there.
abbrev pub lacks_will : ConnectPacketFlag → Bool
lacks_will flag = not flag.will_message_flag && (flag.remain_flag || not (flag.qos_level == 0))

unfoldable pub flags_of : List ℕ → Result ConnectFailure (ConnectHeader × List ℕ)
flags_of [] = err (silent insufficient_flag_bytes)
flags_of (b ∷ s) = if lacks_will (connect_flag b) then err (silent flags_without_will) else do
  (keep_alive, s') ← map_err (λ _. silent unable_to_read_keep_alive) (uint16_of s)
  ok (record { flag = connect_flag b; keep_alive = keep_alive }, s')

unfoldable pub version_of : List ℕ → Result ConnectFailure (ConnectHeader × List ℕ)
version_of [] = err (silent insufficient_version_bytes)
version_of (v ∷ s) =
    if not (v == 0x04)
    then err (answered unacceptable_protocol protocol_version_mismatch)
    else flags_of s

unfoldable pub header_of : ℕ → List ℕ → Result ConnectFailure (ConnectHeader × List ℕ)
header_of n s = do
  (protocol, s1) ← map_err (λ _. silent unable_to_check_protocol) (field_of n s)
  if not (bytes_eq protocol.payload protocol_name)
      then err (silent (incorrect_protocol protocol.payload))
      else version_of s1

unfoldable pub field_if :
    ℕ → Bool → (Error → Error) → List ℕ → Result ConnectFailure (FieldPayload × List ℕ)
field_if n flag in_field s =
    if flag then map_err (λ e. silent (in_field e)) (field_of n s) else ok (no_field, s)

unfoldable pub connect_of : ℕ → List ℕ → Result ConnectFailure ConnectPacketPayloads
connect_of n s = do
  (header, s1) ← header_of n s
  (client, s2) ← map_err (λ e. silent (client_id e)) (field_of n s1)
  if client.payload_length == 0 then err (answered identifier_rejected client_id_is_empty) else do
    (topic, s3) ← field_if n header.flag.will_message_flag will_topic s2
    (content, s4) ← field_if n header.flag.will_message_flag will_content s3
    (user, s5) ← field_if n header.flag.username_flag username s4
    (pass, s6) ← field_if n header.flag.password_flag password s5
    ok (record {
      connect_flag = header.flag;
      client_identifier = client;
      username_payload = user;
      password_payload = pass;
      will_message_topic = topic;
      will_message_content = content;
      keep_alive = header.keep_alive;
    })

-- The part of the header behind the protocol name, in two steps.
abbrev read_flags : Payload → Result ConnectFailure (ConnectHeader × Payload)
read_flags p2 = if not (check_remaining_length p2) then err (silent insufficient_flag_bytes) else do
  (b, p3) ← map_err (λ e. silent (reading_connect_flag e)) (read_packet_byte p2)
  if lacks_will (connect_flag b) then err (silent flags_without_will) else do
    (keep_alive, p4) ← map_err (λ _. silent unable_to_read_keep_alive) (read_uint16 p3)
    ok (record { flag = connect_flag b; keep_alive = keep_alive }, p4)

abbrev read_version : Payload → Result ConnectFailure (ConnectHeader × Payload)
read_version p1 =
    if not (check_remaining_length p1) then err (silent insufficient_version_bytes) else do
      (version, p2) ← map_err (λ e. silent (reading_protocol_version e)) (read_packet_byte p1)
      if not (version == 0x04)
          then err (answered unacceptable_protocol protocol_version_mismatch)
          else read_flags p2

-- A branch on a test that both runs make.
Agrees-if :
    {E A : Type 0} (n : ℕ) (b : Bool) (e : E) (m : Result E (A × List ℕ))
    (r : Result E (A × Payload))
    → Agrees n m r
    → Agrees n (if b then err e else m) (if b then err e else r)
Agrees-if n true e m r h = refl
Agrees-if n false e m r h = h

-- A byte that is there is read.
byte_step :
    {E A : Type 0} (n b : ℕ) (w : Error → E) (p : Payload) (s : List ℕ) (m : Result E (A × List ℕ))
    (g : ℕ × Payload → Result E (A × Payload))
    → At n p (b ∷ s)
    → ((p' : Payload) → At n p' s → Agrees n m (g (b, p')))
    → Agrees n m (map_err w (read_packet_byte p) >>= g)
unfolding byte_of
byte_step n b w p s m g a k =
    let (p', e, a') =
      Agrees-ok n b s (read_packet_byte p) (read_packet_byte-Agrees n p (b ∷ s) a) in
    rw e (k p' a')

read_flags-Agrees :
    (n : ℕ) (p : Payload) (s : List ℕ) → At n p s → Agrees n (flags_of s) (read_flags p)
unfolding flags_of
read_flags-Agrees n p [] a = rw (check_remaining_length-is_more n p [] a) refl
read_flags-Agrees n p (b ∷ s) a = rw (check_remaining_length-is_more n p (b ∷ s) a) (
    byte_step n b (λ e. silent (reading_connect_flag e)) p s _ _ a
      λ p' a'. Agrees-if n (lacks_will (connect_flag b)) (silent flags_without_will) _ _ (
        Agrees-then n _ _ _ _
          (Agrees-map_err n (λ _. silent unable_to_read_keep_alive) _ _
            (read_uint16-Agrees n p' s a'))
          (λ k s' p'' a''. (refl, a''))))

read_version-Agrees :
    (n : ℕ) (p : Payload) (s : List ℕ) → At n p s → Agrees n (version_of s) (read_version p)
unfolding version_of
read_version-Agrees n p [] a = rw (check_remaining_length-is_more n p [] a) refl
read_version-Agrees n p (v ∷ s) a = rw (check_remaining_length-is_more n p (v ∷ s) a) (
    byte_step n v (λ e. silent (reading_protocol_version e)) p s _ _ a
      λ p' a'.
        Agrees-if n (not (v == 0x04)) (answered unacceptable_protocol protocol_version_mismatch) _ _
          (read_flags-Agrees n p' s a'))

read_connect_header-Agrees :
    (n : ℕ) (p : Payload) (s : List ℕ) → At n p s → Agrees n (header_of n s) (read_connect_header p)
unfolding header_of read_connect_header
read_connect_header-Agrees n p s a =
    Agrees-then n _ _ _ _
      (Agrees-map_err n (λ _. silent unable_to_check_protocol) _ _
        (read_packet_payload-Agrees n p s a))
      λ protocol s1 p1 a1.
        Agrees-if n (not (bytes_eq protocol.payload protocol_name))
          (silent (incorrect_protocol protocol.payload)) _ _ (read_version-Agrees n p1 s1 a1)

read_field_if-Agrees :
    (n : ℕ) (flag : Bool) (w : Error → Error) (p : Payload) (s : List ℕ)
    → At n p s
    → Agrees n (field_if n flag w s) (read_field_if flag w p)
unfolding field_if read_field_if
read_field_if-Agrees n true w p s a =
    Agrees-map_err n (λ e. silent (w e)) _ _ (read_packet_payload-Agrees n p s a)
read_field_if-Agrees n false w p s a = (refl, a)

same_if :
    {E A : Type 0} (b : Bool) (e : E) (m r : Result E A)
    → r ≡ m
    → (if b then err e else r) ≡ (if b then err e else m)
same_if true e m r h = refl
same_if false e m r h = h

-- On a payload of which nothing is read yet, `ParseConnectPacket` is its specification: it returns
-- the same packet, or the same error with the same response, and never panics.
pub parse_connect_packet-connect_of :
    (h : FixedHeader) (p : Payload)
    → p.context_len ≡ length p.context
    → p.current_ptr ≡ 0
    → parse_connect_packet (record { header = h; payload = p })
      ≡ connect_of (length p.context) p.context
unfolding parse_connect_packet connect_of
parse_connect_packet-connect_of h p len start =
    let n = length p.context in
    let optional = λ (flag : Bool) (w : Error → Error) (p : Payload) (s : List ℕ) (a : At n p s).
      read_field_if-Agrees n flag w p s a in
    Agrees-bind n _ _ _ _ (read_connect_header-Agrees n p p.context (At-start p len start))
      λ header s1 p1 a1.
        Agrees-bind n _ _ _ _
          (Agrees-map_err n (λ e. silent (client_id e)) _ _ (read_packet_payload-Agrees n p1 s1 a1))
          λ client s2 p2 a2.
            same_if (client.payload_length == 0) (answered identifier_rejected client_id_is_empty) _
              _
              (Agrees-bind n _ _ _ _ (optional header.flag.will_message_flag will_topic p2 s2 a2)
                λ topic s3 p3 a3.
                  Agrees-bind n _ _ _ _
                    (optional header.flag.will_message_flag will_content p3 s3 a3)
                    λ content s4 p4 a4.
                      Agrees-bind n _ _ _ _ (optional header.flag.username_flag username p4 s4 a4)
                        λ user s5 p5 a5.
                          Agrees-bind n _ _ _ _
                            (optional header.flag.password_flag password p5 s5 a5)
                            λ pass s6 p6 a6. refl)
