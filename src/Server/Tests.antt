-- ===== src/Server/Tests.antt =====
-- One connection on concrete bytes: a CONNECT with the client identifier "c", a PINGREQ, a
-- DISCONNECT. And a full server.
use life_stream_go_mqtt_brok.Mqtt.PacketType.{subscribe}
use life_stream_go_mqtt_brok.Mqtt.Frame.Read.{packet}
use life_stream_go_mqtt_brok.Handlers.Subscribe.{handle_subscribe_packet}
use life_stream_go_mqtt_brok.Server.Acks.{Acknowledged, on_packet-subscribe}
use life_stream_go_mqtt_brok.Packet.Subscribe.{
  SubscribePacketPayloads, success_qos0, failure, new_sub_ack_packet,
}
use life_stream_go_mqtt_brok.Packet.Subscribe.RoundTrip.{Request, granted, subscribe_body}
use life_stream_go_mqtt_brok.Server.Lifecycle.{Left, handle_connection-Left}
use life_stream_go_mqtt_brok.Database.PacketId.{new_packet_id_manager}
use life_stream_go_mqtt_brok.Server.Loop.{packet_loop, handle_connection, handle_packet, on_packet}
use life_stream_go_mqtt_brok.Errors.{eof}
use life_stream_go_mqtt_brok.Connection.Tests.{logs, logs-NetLaws}
use life_stream_go_mqtt_brok.Database.Tree.Tests.{topic_lists, empty_tree}
use life_stream_go_mqtt_brok.Server.Slots.{
  Bounded, server_run-Bounded, waiting-Starts, AtOnce, AfterRelease, AfterReturn,
}
use life_stream_go_mqtt_brok.Server.Rounds.{Served, packet_loop-Served}
use life_stream_go_mqtt_brok.Database.Tests.{maps, store, session}
use life_stream_go_mqtt_brok.Server.Pings.{Answered, pongs, pings, handle_packet-pings}
use life_stream_go_mqtt_brok.Prelude.Result.{Returns, Holds, ok}
use life_stream_go_mqtt_brok.Server.First.{Registered, handle_first_packet-Registered}
use life_stream_go_mqtt_brok.Prelude.{
  AllBytes, List, ◌∷◌, some, [], none, ◌≡◌, if◌then◌else◌, arith, refl, ◌==◌, map, ℕ, ◌⊎◌,
}
use life_stream_go_mqtt_brok.Mqtt.Conn.{Conn}
use life_stream_go_mqtt_brok.Server.{ConnectionHandler, FirstPacket, handle_first_packet}
use life_stream_go_mqtt_brok.Handlers.Publish.{Hub}
use life_stream_go_mqtt_brok.Server.Accept.{start, AcceptLoop, server_run, return_of}

abbrev hub : Hub maps topic_lists logs
hub = record {
  broker = record { store = store session; tree = empty_tree };
  ids = new_packet_id_manager;
  manager = record { connections = []; net = λ c. [] };
}

abbrev handler : ConnectionHandler
handler = record {
  conn = 3;
  conn_id = 0x31 ∷ [];
  keep_alive = 60;
  client_session = none;
  deadline = none;
}

abbrev arriving : Conn
arriving = record {
  incoming =
      0x10 ∷ 13 ∷ 0 ∷ 4 ∷ 0x4D ∷ 0x51 ∷ 0x54 ∷ 0x54 ∷ 4 ∷ 2 ∷ 0 ∷ 60 ∷ 0 ∷ 1 ∷ 0x63 ∷ 0xC0 ∷ 0
      ∷ 0xE0 ∷ 0 ∷ [];
  closing = eof;
}

arriving-AllBytes : AllBytes arriving.incoming
arriving-AllBytes = omega arith

handle_first_packet-Registered_example :
    Registered maps topic_lists logs logs-NetLaws handler hub
      (handle_first_packet maps topic_lists logs handler arriving hub)
handle_first_packet-Registered_example =
    handle_first_packet-Registered maps topic_lists logs logs-NetLaws handler arriving hub refl
      arriving-AllBytes

handle_connection-Left_example :
    (f : FirstPacket maps topic_lists logs) × (handle_first_packet maps topic_lists logs handler
        arriving hub
      ≡ ok f)
    × Left maps topic_lists logs logs-NetLaws hub f f.handler.client_session
        (handle_connection maps topic_lists logs (λ n m. 0) handler arriving hub)
handle_connection-Left_example =
    handle_connection-Left maps topic_lists logs logs-NetLaws (λ n m. 0) handler arriving hub refl
      arriving-AllBytes

packet_loop-Served_example :
    Returns
      (Served maps topic_lists logs logs-NetLaws handler hub)
      (packet_loop maps topic_lists logs 20 (λ n m. 0) handler arriving hub)
packet_loop-Served_example =
    packet_loop-Served maps topic_lists logs logs-NetLaws 20 (λ n m. 0) handler arriving hub
      arriving-AllBytes (omega arith)

handle_packet-pings_example :
    Answered maps topic_lists logs logs-NetLaws
      (λ c xs net. refl)
      hub
      (λ d. if d == 3 then pongs 2 else [])
      (handle_packet maps topic_lists logs
        (λ n m. 0)
        handler
        (record { incoming = pings 2; closing = eof })
        hub)
handle_packet-pings_example =
    handle_packet-pings maps topic_lists logs logs-NetLaws (λ c xs net. refl) 2 (λ n m. 0) handler
      eof hub

abbrev one_waits : AcceptLoop
one_waits = record { waiting = some 2; slots = 2; handling = 1 ∷ []; returned = 1 }

server_run-Bounded_example : Holds Bounded (server_run (start ∷ return_of 1 ∷ []) one_waits)
server_run-Bounded_example =
    server_run-Bounded (start ∷ return_of 1 ∷ []) one_waits (refl, omega arith)

waiting-Starts_example : AtOnce 2 one_waits ⊎ (AfterRelease 2 one_waits ⊎ AfterReturn 2 one_waits)
waiting-Starts_example = waiting-Starts 2 one_waits (refl, omega arith) refl

-- The same handler once the client has a session.
abbrev known : ConnectionHandler
known = record handler { client_session = some 0 }

abbrev two_filters : List Request
two_filters = (0x61 ∷ [], 1) ∷ (0x23 ∷ [], 2) ∷ []

on_packet-subscribe_example :
    (let payload : SubscribePacketPayloads = record {
      packet_id = 7;
      subscriptions = map granted two_filters;
    } in
      (code : ℕ) × ((code ≡ success_qos0) ⊎ (code ≡ failure))
      × Acknowledged maps topic_lists logs logs-NetLaws
          (λ c xs net. refl)
          known
          hub
          (new_sub_ack_packet 7 code)
          (handle_subscribe_packet maps topic_lists payload 0 hub.broker).1
          (on_packet maps topic_lists logs
            (λ n. 0)
            known
            (packet subscribe 2 (subscribe_body 7 two_filters))
            hub))
on_packet-subscribe_example =
    on_packet-subscribe maps topic_lists logs logs-NetLaws (λ c xs net. refl) (λ n. 0) known 0 hub 7
      two_filters refl (omega arith) (omega arith, (omega arith, tt))
