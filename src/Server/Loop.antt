-- ===== src/Server/Loop.antt =====
-- internal/server/connection_handler.go: `handlePacket`, the loop over the packets after the first,
-- and `handleConnection`. A handler whose first packet was no CONNECT has a nil session here.
use life_stream_go_mqtt_brok.Handlers.Subscribe.{
  handle_subscribe_packet, handle_un_subscribe_packet, handle_disconnect_packet,
}
use life_stream_go_mqtt_brok.Mqtt.PacketType.{
  connect, publish, subscribe, unsubscribe, pingreq, disconnect,
}
use life_stream_go_mqtt_brok.Database.Types.{Subscription}
use life_stream_go_mqtt_brok.Packet.Subscribe.{
  SubscribePacketPayloads, new_un_sub_ack_packet, success_qos0, parse_subscribe_packet,
  parse_un_subscribe_packet,
}
use life_stream_go_mqtt_brok.Mqtt.Conn.{Conn}
use life_stream_go_mqtt_brok.Mqtt.Frame.{Packet, read_packet}
use life_stream_go_mqtt_brok.Handlers.Publish.{Hub, handle_publish_packet, handle_qos0_publish}
use life_stream_go_mqtt_brok.Errors.{Error}
use life_stream_go_mqtt_brok.Packet.Publish.{PublishPacketPayloads, parse_publish_packet}
use life_stream_go_mqtt_brok.Server.{
  ConnectionHandler, send_on, handle_first_packet, second, new_ping_resp_packet,
}
use life_stream_go_mqtt_brok.Prelude.Result.{Result, stuck, ◌>>=◌, ok, err, panic}
use life_stream_go_mqtt_brok.Prelude.{
  ℕ, Option, List, if◌then◌else◌, Bool, ◌==◌, length, some, ◌+◌, suc, true, false, ◌*◌, none, ◌∷◌,
  zero, [],
}
use life_stream_go_mqtt_brok.Connection.{NetServices, remove_connection}
use life_stream_go_mqtt_brok.Database.Tree.{TopicServices}
use life_stream_go_mqtt_brok.Database.Services.{Services}

-- `HandlePublishPacket` with a nil session: only QoS 1 and 2 look into it.
module _ (sv : Services) (tv : TopicServices) (nv : NetServices) where
  abbrev pub published :
      (ℕ → ℕ) → PublishPacketPayloads → Option ℕ → Hub sv tv nv → Result Error (Bool × Hub sv tv nv)
  published pick payload (some ref) h = do
    (answer, h') ← handle_publish_packet sv tv nv pick payload ref h
    ok (true, h')
  published pick payload none h =
      let qos = payload.packet_flag.qos in
      if qos == 0
      then (do
        h' ← handle_qos0_publish sv tv nv pick payload.topic_name.payload payload h
        ok (true, h'))
      else if qos == 1
      then panic
      else if qos == 2
      then panic
      else ok (true, h)

  -- The Booleans say whether the loop goes on.
  abbrev pub on_publish :
      (ℕ → ℕ)
      → Option ℕ
      → Result Error PublishPacketPayloads
      → Hub sv tv nv
      → Result Error (Bool × Hub sv tv nv)
  on_publish pick session (ok payload) h = elim payload.payload [
    | none ↦ ok (true, h)
    | some content ↦ published pick payload session h
  ]
  on_publish pick session (err e) h = ok (false, h)
  on_publish pick session panic h = panic
  on_publish pick session stuck h = stuck

  -- An acknowledgement that cannot be sent ends the loop.
  abbrev pub if_sent : Result Error Unit × Hub sv tv nv → Result Error (Bool × Hub sv tv nv)
  if_sent (ok u, h) = ok (true, h)
  if_sent (err e, h) = ok (false, h)
  if_sent (panic, h) = panic
  if_sent (stuck, h) = stuck

  abbrev pub on_subscribe :
      ℕ
      → Option ℕ
      → Result Error SubscribePacketPayloads
      → Hub sv tv nv
      → Result Error (Bool × Hub sv tv nv)
  on_subscribe c (some ref) (ok payload) h =
      let (answer, b) = handle_subscribe_packet sv tv payload ref h.broker in
      if_sent (send_on sv tv nv c answer (record h { broker = b }))
  on_subscribe c none (ok payload) h = panic
  on_subscribe c session (err e) h = ok (false, h)
  on_subscribe c session panic h = panic
  on_subscribe c session stuck h = stuck

  -- A nil session is looked into for the first topic filter.
  abbrev pub without_session :
      ℕ → ℕ → List Subscription → Hub sv tv nv → Result Error (Bool × Hub sv tv nv)
  without_session c id [] h = if_sent (send_on sv tv nv c (new_un_sub_ack_packet id success_qos0) h)
  without_session c id (s ∷ ss) h = panic

  abbrev pub on_unsubscribe :
      ℕ
      → Option ℕ
      → Result Error SubscribePacketPayloads
      → Hub sv tv nv
      → Result Error (Bool × Hub sv tv nv)
  on_unsubscribe c (some ref) (ok payload) h =
      let (answer, b) = handle_un_subscribe_packet sv tv payload ref h.broker in
      if_sent (send_on sv tv nv c answer (record h { broker = b }))
  on_unsubscribe c none (ok payload) h = without_session c payload.packet_id payload.subscriptions h
  on_unsubscribe c session (err e) h = ok (false, h)
  on_unsubscribe c session panic h = panic
  on_unsubscribe c session stuck h = stuck

  -- `HandlePingReq`: an error is only logged.
  abbrev pub handle_ping_req : Result Error Unit × Hub sv tv nv → Result Error (Bool × Hub sv tv nv)
  handle_ping_req (ok u, h) = ok (true, h)
  handle_ping_req (err e, h) = ok (true, h)
  handle_ping_req (panic, h) = panic
  handle_ping_req (stuck, h) = stuck

  abbrev pub on_disconnect : Option ℕ → Hub sv tv nv → Result Error (Bool × Hub sv tv nv)
  on_disconnect (some ref) h =
      ok (false, record h { broker = handle_disconnect_packet sv tv ref h.broker })
  on_disconnect none h = panic

  -- One packet.
  unfoldable pub on_packet :
      (ℕ → ℕ) → ConnectionHandler → Packet → Hub sv tv nv → Result Error (Bool × Hub sv tv nv)
  on_packet pick c packet h =
      let t = packet.header.packet_type in
      let session = c.client_session in
      if t == connect
      then ok (false, h)
      else if t == publish
      then on_publish pick session (parse_publish_packet packet) h
      else if t == subscribe
      then on_subscribe c.conn session (parse_subscribe_packet packet) h
      else if t == unsubscribe
      then on_unsubscribe c.conn session (parse_un_subscribe_packet packet) h
      else if t == pingreq
      then handle_ping_req (send_on sv tv nv c.conn new_ping_resp_packet h)
      else if t == disconnect
      then on_disconnect session h
      else ok (false, h)

  abbrev pub with_read_deadline : ConnectionHandler → ConnectionHandler
  with_read_deadline c =
      if c.keep_alive == 0 then c else record c { deadline = some (c.keep_alive + 10 * second) }

  -- One round: what the read returned, and the loop that the handler may go on with.
  abbrev pub next_packet :
      (ℕ → ℕ)
      → (ConnectionHandler → Conn → Hub sv tv nv → Result Error (ConnectionHandler × Hub sv tv nv))
      → ConnectionHandler
      → Result Error (Packet × Conn)
      → Hub sv tv nv
      → Result Error (ConnectionHandler × Hub sv tv nv)
  next_packet pick loop c (ok (packet, conn)) h = do
    let c' = record (with_read_deadline c) { deadline = none }
    (more, h') ← on_packet pick c' packet h
    let rest = loop c' conn h'
    if more then rest else ok (c', h')
  next_packet pick loop c (err e) h = ok (with_read_deadline c, h)
  next_packet pick loop c panic h = panic
  next_packet pick loop c stuck h = stuck

  -- `handlePacket`. A packet takes two bytes at least, so the number of the bytes that arrive is
  -- enough fuel. `picks` has the choices among released packet IDs for each packet.
  unfoldable pub packet_loop :
      ℕ
      → (ℕ → ℕ → ℕ)
      → ConnectionHandler
      → Conn
      → Hub sv tv nv
      → Result Error (ConnectionHandler × Hub sv tv nv)
  packet_loop zero picks c conn h = stuck
  packet_loop (suc fuel) picks c conn h =
      next_packet (picks fuel) (packet_loop fuel picks) c (read_packet conn) h

  unfoldable pub handle_packet :
      (ℕ → ℕ → ℕ)
      → ConnectionHandler
      → Conn
      → Hub sv tv nv
      → Result Error (ConnectionHandler × Hub sv tv nv)
  handle_packet picks c conn h = packet_loop (length conn.incoming + 1) picks c conn h

  -- The deferred function: it takes the client out of the table, and dereferences the session.
  abbrev pub finished : ConnectionHandler × Hub sv tv nv → Result Error (Hub sv tv nv)
  finished (c, h) = elim c.client_session [
    | some ref ↦
        ok (record h {
          manager = remove_connection nv (h.broker.store.heap ref).client_id h.manager;
        })
    | none ↦ panic
  ]

  unfoldable pub handle_connection :
      (ℕ → ℕ → ℕ) → ConnectionHandler → Conn → Hub sv tv nv → Result Error (Hub sv tv nv)
  handle_connection picks c conn h = do
    f ← handle_first_packet sv tv nv c conn h
    end ← elim f.failure [
      | some e ↦ ok (f.handler, f.hub)
      | none ↦ handle_packet picks f.handler f.rest f.hub
    ]
    finished end
