-- ===== src/Server/First.antt =====
-- `handleFirstPacket`: the client that it lets in, and what it answers.
use life_stream_go_mqtt_brok.Packet.Connect.Total.{parse_connect_packet_total}
use life_stream_go_mqtt_brok.Mqtt.PacketType.{connect}
use life_stream_go_mqtt_brok.Prelude.Maps.{lookup-insert}
use life_stream_go_mqtt_brok.Mqtt.Frame.Read.{ReadFrom, read_packet-ReadFrom}
use life_stream_go_mqtt_brok.Connection.Send.{Wrote, send-Wrote}
use life_stream_go_mqtt_brok.Mqtt.Frame.{Packet, read_packet}
use life_stream_go_mqtt_brok.Errors.{Error}
use life_stream_go_mqtt_brok.Prelude.Result.{Result, ok, err, Yields, panic, stuck, Yields-weaken}
use life_stream_go_mqtt_brok.Database.Session.{new_session_data}
use life_stream_go_mqtt_brok.Mqtt.Conn.{Conn}
use life_stream_go_mqtt_brok.Handlers.Publish.{Hub}
use life_stream_go_mqtt_brok.Server.{
  ConnectionHandler, handle_first_packet, FirstPacket, accepted_client, refusal_sent, second,
  unless_failed, connecting, registered, first_read,
}
use life_stream_go_mqtt_brok.Database.Store.{Store, save_session, delete_session, get_session}
use life_stream_go_mqtt_brok.Connection.{NetServices, NetLaws, add_connection, get_connection, send}
use life_stream_go_mqtt_brok.Packet.Connect.{
  ConnectPacketPayloads, new_connect_ack_packet, accepted, ConnectFailure, server_unavailable,
  parse_connect_packet,
}
use life_stream_go_mqtt_brok.Database.Tree.{TopicServices}
use life_stream_go_mqtt_brok.Handlers.Connect.{
  handler_connect_packet, created, resumed, allocated_session,
}
use life_stream_go_mqtt_brok.Prelude.{
  List, ℕ, Option, Bool, some, Bool-cases, ◌≡◌, none, inl, refl, true, AllBytes, if◌then◌else◌, ◌*◌,
  false, inr, bytes_eq, ◌++◌, ◌==◌, ◌∙◌, ap,
}
use life_stream_go_mqtt_brok.Database.Services.{Services}

module _ (sv : Services) where
  -- The answer of `HandlerConnectPacket` says whether there is a session.
  abbrev Answered : (List ℕ × Option ℕ) × Store sv → Type 0
  Answered ((answer, some ref), st) = answer ≡ new_connect_ack_packet true accepted
  Answered ((answer, none), st) = answer ≡ new_connect_ack_packet false server_unavailable

  created-Answered :
      (id : List ℕ) (clean : Bool) (st : Store sv) → Answered (created sv id clean st)
  created-Answered id clean st =
      let (ref, st') =
        allocated_session sv (record (new_session_data id) { temp_session = clean }) st in
      elim (Bool-cases (save_session sv ref st').0) [
        | inl done ↦ rw done refl
        | inr failed ↦ rw failed refl
      ]

  resumed-Answered :
      (id : List ℕ) (clean : Bool) (r : Option ℕ × Store sv) → Answered (resumed sv id clean r)
  resumed-Answered id clean (some ref, st) = refl
  resumed-Answered id clean (none, st) = created-Answered id clean st

  handler_connect_packet-Answered :
      (payloads : ConnectPacketPayloads) (st : Store sv)
      → Answered (handler_connect_packet sv payloads st)
  unfolding handler_connect_packet
  handler_connect_packet-Answered payloads st =
      let id = payloads.client_identifier.payload in
      elim (Bool-cases payloads.connect_flag.clean_session) [
        | inl clean ↦ rw clean (created-Answered id true (delete_session sv id st).1)
        | inr kept ↦ rw kept (resumed-Answered id false (get_session sv id st))
      ]

module _ (sv : Services) (tv : TopicServices) (nv : NetServices) (l : NetLaws nv) where
  open l use {written}

  -- What `handleFirstPacket` did, by its error and the session that it left.
  abbrev pub Outcome :
      ConnectionHandler → Hub sv tv nv → FirstPacket sv tv nv → Option Error → Option ℕ → Type 0
  Outcome c h f none (some ref) =
      ((client : List ℕ)
        → get_connection nv client f.hub.manager ≡ (
            if bytes_eq (f.hub.broker.store.heap ref).client_id client
            then some (record { conn = c.conn; conn_id = c.conn_id })
            else get_connection nv client h.manager))
      × (written f.hub.manager.net c.conn
          ≡ written h.manager.net c.conn ++ new_connect_ack_packet true accepted)
  Outcome c h f none none = f.hub ≡ h
  Outcome c h f (some e) session = f.hub.manager.connections ≡ h.manager.connections

  abbrev pub Registered :
      ConnectionHandler → Hub sv tv nv → Result Error (FirstPacket sv tv nv) → Type 0
  Registered c h (ok f) =
      Outcome c h f f.failure f.handler.client_session × AllBytes f.rest.incoming
  Registered c h (err e) = ⊥
  Registered c h panic = ⊥
  Registered c h stuck = ⊥

  accepted_client-Registered :
      (keep : ℕ) (c : ConnectionHandler) (rest : Conn) (h : Hub sv tv nv)
      (a : (List ℕ × Option ℕ) × Store sv)
      → c.client_session ≡ none
      → AllBytes rest.incoming
      → Answered sv a
      → Registered c h (accepted_client sv tv nv keep c rest a h)
  unfolding add_connection get_connection
  accepted_client-Registered keep c rest h ((answer, session), store) nil bytes a =
      of session a (send nv c.conn answer h.manager.net)
        (send-Wrote nv l c.conn answer h.manager.net)
    where
      of :
          (session : Option ℕ)
          → Answered sv ((answer, session), store)
          → (r : Result Error Unit × nv.Net) → Wrote nv l c.conn answer h.manager.net r
          → (let c' = record c { client_session = session } in
              Registered c h (
                unless_failed sv tv nv c' rest
                  (
                    r.0,
                    record h {
                      broker = record h.broker { store = store };
                      manager = record h.manager { net = r.1 };
                    },
                  )
                  (registered sv tv nv keep c' rest session)))
      of (some ref) a (ok u, net) w = (
        (
          λ client. lookup-insert (store.heap ref).client_id client _ h.manager.connections,
          w ∙ ap (λ (ys : List ℕ). written h.manager.net c.conn ++ ys) a,
        ),
        bytes,
      )
      of none a (ok u, net) w = (refl, bytes)
      of session a (err e, net) w = (refl, bytes)
      of session a (panic, net) w = absurd w
      of session a (stuck, net) w = absurd w

  refusal_sent-Registered :
      (answer : Option (List ℕ)) (c : ConnectionHandler) (rest : Conn) (e : Error)
      (h : Hub sv tv nv)
      → AllBytes rest.incoming
      → Registered c h (refusal_sent sv tv nv answer c rest e h)
  refusal_sent-Registered none c rest e h bytes = (refl, bytes)
  refusal_sent-Registered (some answer) c rest e h bytes =
      of (send nv c.conn answer h.manager.net) (send-Wrote nv l c.conn answer h.manager.net)
    where
      of :
          (r : Result Error Unit × nv.Net)
          → Wrote nv l c.conn answer h.manager.net r
          → Registered c h (
              unless_failed sv tv nv c rest
                (r.0, record h { manager = record h.manager { net = r.1 } })
                λ h'. record { failure = some e; handler = c; rest = rest; hub = h' })
      of (ok u, net) w = (refl, bytes)
      of (err e', net) w = (refl, bytes)
      of (panic, net) w = absurd w
      of (stuck, net) w = absurd w

  connecting-Registered :
      (c : ConnectionHandler) (rest : Conn) (h : Hub sv tv nv)
      (r : Result ConnectFailure ConnectPacketPayloads)
      → c.client_session ≡ none
      → AllBytes rest.incoming
      → Yields (λ _. Unit) r
      → Registered c h (connecting sv tv nv c rest r h)
  connecting-Registered c rest h (ok payloads) nil bytes y =
      accepted_client-Registered payloads.keep_alive c rest h
        (handler_connect_packet sv payloads h.broker.store) nil bytes
        (handler_connect_packet-Answered sv payloads h.broker.store)
  connecting-Registered c rest h (err failure) nil bytes y =
      refusal_sent-Registered failure.response c rest failure.cause h bytes
  connecting-Registered c rest h panic nil bytes y = absurd y
  connecting-Registered c rest h stuck nil bytes y = absurd y

  first_read-Registered :
      (c : ConnectionHandler) (conn : Conn) (h : Hub sv tv nv) (r : Result Error (Packet × Conn))
      → c.client_session ≡ none
      → AllBytes conn.incoming
      → Yields (ReadFrom conn) r
      → Registered c h (first_read sv tv nv c conn r h)
  first_read-Registered c conn h (ok (packet, rest)) nil bytes (f, end, left, less) =
      elim (Bool-cases (packet.header.packet_type == connect)) [
        | inl is_connect ↦ rw is_connect (
            connecting-Registered c rest h (parse_connect_packet packet) nil left
              (Yields-weaken _ _ _ (parse_connect_packet_total packet f) λ x y. tt))
        | inr not_connect ↦ rw (not_connect, nil) (refl, left)
      ]
  first_read-Registered c conn h (err e) nil bytes y = (refl, bytes)
  first_read-Registered c conn h panic nil bytes y = absurd y
  first_read-Registered c conn h stuck nil bytes y = absurd y

  -- On every connection whose handler has no session yet `handleFirstPacket` returns. Without an
  -- error and with a session, the client of the session is in the table with this connection, the
  -- rest of the table is as before, and the connection was given the CONNACK that accepts. Without
  -- an error and without a session nothing was changed. With an error the table is as before.
  pub handle_first_packet-Registered :
      (c : ConnectionHandler) (conn : Conn) (h : Hub sv tv nv)
      → c.client_session ≡ none
      → AllBytes conn.incoming
      → Registered c h (handle_first_packet sv tv nv c conn h)
  unfolding handle_first_packet
  handle_first_packet-Registered c conn h nil bytes =
      first_read-Registered (record c { deadline = some (60 * second) }) conn h (read_packet conn)
        nil bytes (read_packet-ReadFrom conn bytes)
