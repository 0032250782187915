-- ===== src/Server.antt =====
-- internal/server/connection_handler.go: the life of one connection, and internal/packet/ping.go.
-- A panic of one handler ends the whole program, as no function recovers, so it has no state.
use life_stream_go_mqtt_brok.Mqtt.PacketType.{connect}
use life_stream_go_mqtt_brok.Handlers.Connect.{handler_connect_packet}
use life_stream_go_mqtt_brok.Mqtt.Frame.{Packet, read_packet}
use life_stream_go_mqtt_brok.Packet.Connect.{
  ConnectFailure, ConnectPacketPayloads, parse_connect_packet,
}
use life_stream_go_mqtt_brok.Database.Store.{Store}
use life_stream_go_mqtt_brok.Prelude.Result.{Result, ok, err, panic, stuck}
use life_stream_go_mqtt_brok.Mqtt.Conn.{Conn}
use life_stream_go_mqtt_brok.Errors.{Error, unable_to_save_session}
use life_stream_go_mqtt_brok.Handlers.Publish.{Hub}
use life_stream_go_mqtt_brok.Connection.{NetServices, send, add_connection}
use life_stream_go_mqtt_brok.Database.Tree.{TopicServices}
use life_stream_go_mqtt_brok.Database.Services.{Services}
use life_stream_go_mqtt_brok.Prelude.{
  ℕ, List, Option, ◌∷◌, [], some, ◌*◌, none, if◌then◌else◌, ◌==◌,
}
pub mod Loop
pub mod Keeps
pub mod Packets
pub mod Serving
pub mod First
pub mod Rounds
pub mod Lifecycle
pub mod Pings
pub mod Acks
pub mod Accept
pub mod Slots
mod Tests

abbrev pub second : ℕ
second = 1000000000

-- `deadline` is the time that the last `SetReadDeadline` gave to the next reads, in nanoseconds.
pub record ConnectionHandler : Type 0 where
  pub conn : ℕ
  pub conn_id : List ℕ
  pub keep_alive : ℕ
  pub client_session : Option ℕ
  pub deadline : Option ℕ

unfoldable pub new_ping_resp_packet : List ℕ
new_ping_resp_packet = 0xD0 ∷ 0x00 ∷ []

module _ (sv : Services) (tv : TopicServices) (nv : NetServices) where
  abbrev pub send_on : ℕ → List ℕ → Hub sv tv nv → Result Error Unit × Hub sv tv nv
  send_on c bytes h =
      let (r, net) = send nv c bytes h.manager.net in
      (r, record h { manager = record h.manager { net = net } })

  -- What `handleFirstPacket` leaves: its error, the handler, the connection and the broker.
  pub record FirstPacket : Type 0 where
    pub failure : Option Error
    pub handler : ConnectionHandler
    pub rest : Conn
    pub hub : Hub sv tv nv

  -- An error of `Send` is the error of the handler; without one it goes on.
  abbrev pub unless_failed :
      ConnectionHandler
      → Conn
      → Result Error Unit × Hub sv tv nv
      → (Hub sv tv nv → FirstPacket)
      → Result Error FirstPacket
  unless_failed c rest (ok u, h) k = ok (k h)
  unless_failed c rest (err e, h) k =
      ok (record { failure = some e; handler = c; rest = rest; hub = h })
  unless_failed c rest (panic, h) k = panic
  unless_failed c rest (stuck, h) k = stuck

  -- The end of `handleFirstPacket`, once the answer is sent.
  abbrev pub registered : ℕ → ConnectionHandler → Conn → Option ℕ → Hub sv tv nv → FirstPacket
  registered keep c rest none h = record {
    failure = some unable_to_save_session;
    handler = c;
    rest = rest;
    hub = h;
  }
  registered keep c rest (some ref) h = record {
    failure = none;
    handler = record c {
      keep_alive = keep * second;
      deadline = if keep * second == 0 then none else c.deadline;
    };
    rest = rest;
    hub = record h {
      manager =
          add_connection nv (h.broker.store.heap ref).client_id
            (record { conn = c.conn; conn_id = c.conn_id }) h.manager;
    };
  }

  abbrev pub accepted_client :
      ℕ
      → ConnectionHandler
      → Conn
      → (List ℕ × Option ℕ) × Store sv
      → Hub sv tv nv
      → Result Error FirstPacket
  accepted_client keep c rest ((answer, session), store) h =
      let c' = record c { client_session = session } in
      unless_failed c' rest
        (send_on c.conn answer (record h { broker = record h.broker { store = store } }))
        (registered keep c' rest session)

  abbrev pub refusal_sent :
      Option (List ℕ) → ConnectionHandler → Conn → Error → Hub sv tv nv → Result Error FirstPacket
  refusal_sent none c rest e h = ok (record { failure = some e; handler = c; rest = rest; hub = h })
  refusal_sent (some answer) c rest e h =
      unless_failed c rest (send_on c.conn answer h)
        λ h'. record { failure = some e; handler = c; rest = rest; hub = h' }

  abbrev pub connecting :
      ConnectionHandler
      → Conn
      → Result ConnectFailure ConnectPacketPayloads
      → Hub sv tv nv
      → Result Error FirstPacket
  connecting c rest (ok payloads) h =
      accepted_client payloads.keep_alive c rest (handler_connect_packet sv payloads h.broker.store)
        h
  connecting c rest (err failure) h = refusal_sent failure.response c rest failure.cause h
  connecting c rest panic h = panic
  connecting c rest stuck h = stuck

  -- A first packet of another type ends the handler with the error of the read, which is none.
  abbrev pub first_read :
      ConnectionHandler
      → Conn
      → Result Error (Packet × Conn)
      → Hub sv tv nv
      → Result Error FirstPacket
  first_read c conn (ok (packet, rest)) h =
      if packet.header.packet_type == connect
      then connecting c rest (parse_connect_packet packet) h
      else ok (record { failure = none; handler = c; rest = rest; hub = h })
  first_read c conn (err e) h = ok (record { failure = some e; handler = c; rest = conn; hub = h })
  first_read c conn panic h = panic
  first_read c conn stuck h = stuck

  unfoldable pub handle_first_packet :
      ConnectionHandler → Conn → Hub sv tv nv → Result Error FirstPacket
  handle_first_packet c conn h =
      first_read (record c { deadline = some (60 * second) }) conn (read_packet conn) h
