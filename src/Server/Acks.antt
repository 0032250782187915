-- ===== src/Server/Acks.antt =====
-- SUBSCRIBE and UNSUBSCRIBE packets are acknowledged.
use life_stream_go_mqtt_brok.Mqtt.PacketType.{subscribe, unsubscribe}
use life_stream_go_mqtt_brok.Mqtt.Frame.Read.{packet}
use life_stream_go_mqtt_brok.Handlers.Subscribe.{
  handle_subscribe_packet, handle_un_subscribe_packet, add_all,
}
use life_stream_go_mqtt_brok.Connection.Send.{send-reliable}
use life_stream_go_mqtt_brok.Errors.{Error}
use life_stream_go_mqtt_brok.Server.Loop.{if_sent, on_subscribe, on_unsubscribe, on_packet}
use life_stream_go_mqtt_brok.Prelude.Result.{Result, ok, err, panic, stuck}
use life_stream_go_mqtt_brok.Packet.Subscribe.RoundTrip.{
  Request, Fits, granted, subscribe_body, parse_subscribe_packet-subscribe_body, named,
  un_subscribe_body, parse_un_subscribe_packet-un_subscribe_body,
}
use life_stream_go_mqtt_brok.Packet.Subscribe.{
  SubscribePacketPayloads, success_qos0, failure, new_sub_ack_packet, parse_subscribe_packet,
  new_un_sub_ack_packet, parse_un_subscribe_packet,
}
use life_stream_go_mqtt_brok.Handlers.{Broker, session_save}
use life_stream_go_mqtt_brok.Handlers.Publish.{Hub}
use life_stream_go_mqtt_brok.Server.{ConnectionHandler, send_on}
use life_stream_go_mqtt_brok.Prelude.{
  ℕ, List, ◌≡◌, none, Option, Bool, some, true, ◌++◌, if◌then◌else◌, ◌==◌, [], refl, ◌<◌, All, map,
  ◌⊎◌, inl, length, inr, false,
}
use life_stream_go_mqtt_brok.Connection.{NetServices, NetLaws}
use life_stream_go_mqtt_brok.Database.Tree.{TopicServices}
use life_stream_go_mqtt_brok.Database.Services.{Services}

module _ (sv : Services) (tv : TopicServices) (nv : NetServices) (l : NetLaws nv)
    (reliable : (c : ℕ) (xs : List ℕ) (net : nv.Net) → (nv.write c xs net).0.1 ≡ none) where
  open l use {written}

  -- The loop goes on, the connection got one answer, and the broker is this one.
  abbrev pub Acknowledged :
      ConnectionHandler
      → Hub sv tv nv
      → List ℕ
      → Broker sv tv
      → Result Error (Bool × Hub sv tv nv)
      → Type 0
  Acknowledged c h answer b (ok (more, h')) =
      (more ≡ true)
      × (h'.broker ≡ b)
      × ((d : ℕ)
          → written h'.manager.net d
            ≡ written h.manager.net d ++ (if d == c.conn then answer else []))
  Acknowledged c h answer b (err e) = ⊥
  Acknowledged c h answer b panic = ⊥
  Acknowledged c h answer b stuck = ⊥

  if_sent-Acknowledged :
      (c : ConnectionHandler) (h : Hub sv tv nv) (answer : List ℕ) (b : Broker sv tv)
      → Acknowledged c h answer b
          (if_sent sv tv nv (send_on sv tv nv c.conn answer (record h { broker = b })))
  if_sent-Acknowledged c h answer b =
      let (net', sent, log) = send-reliable nv l reliable c.conn answer h.manager.net in
      rw sent (refl, refl, log)

  on_subscribe-Acknowledged :
      (c : ConnectionHandler) (ref : ℕ) (session : Option ℕ) (h : Hub sv tv nv)
      (payload : SubscribePacketPayloads) (r : Result Error SubscribePacketPayloads)
      → session ≡ some ref
      → r ≡ ok payload
      → (let (answer, b) = handle_subscribe_packet sv tv payload ref h.broker in
          Acknowledged c h answer b (on_subscribe sv tv nv c.conn session r h))
  on_subscribe-Acknowledged c ref session h payload r is_ref parsed =
      let (answer, b) = handle_subscribe_packet sv tv payload ref h.broker in
      rw (is_ref, parsed) (if_sent-Acknowledged c h answer b)

  on_unsubscribe-Acknowledged :
      (c : ConnectionHandler) (ref : ℕ) (session : Option ℕ) (h : Hub sv tv nv)
      (payload : SubscribePacketPayloads) (r : Result Error SubscribePacketPayloads)
      → session ≡ some ref
      → r ≡ ok payload
      → (let (answer, b) = handle_un_subscribe_packet sv tv payload ref h.broker in
          Acknowledged c h answer b (on_unsubscribe sv tv nv c.conn session r h))
  on_unsubscribe-Acknowledged c ref session h payload r is_ref parsed =
      let (answer, b) = handle_un_subscribe_packet sv tv payload ref h.broker in
      rw (is_ref, parsed) (if_sent-Acknowledged c h answer b)

  -- A client with a session that sends a SUBSCRIBE, laid out as the protocol says, is sent the SUBACK
  -- with its packet ID on a network whose writes do not fail, with one return code, of success or of
  -- failure, however many topic filters it has. The loop goes on with the broker that
  -- `HandleSubscribePacket` left, and no other connection is written to.
  pub on_packet-subscribe :
      (pick : ℕ → ℕ) (c : ConnectionHandler) (ref : ℕ) (h : Hub sv tv nv) (id : ℕ)
      (rs : List Request)
      → c.client_session ≡ some ref
      → id < 65536
      → All Fits rs
      → (let payload : SubscribePacketPayloads = record {
        packet_id = id;
        subscriptions = map granted rs;
      } in
          (code : ℕ) × ((code ≡ success_qos0) ⊎ (code ≡ failure))
          × Acknowledged c h
              (new_sub_ack_packet id code)
              (handle_subscribe_packet sv tv payload ref h.broker).1
              (on_packet sv tv nv pick c (packet subscribe 2 (subscribe_body id rs)) h))
  unfolding on_packet handle_subscribe_packet
  on_packet-subscribe pick c ref h id rs is_ref small fits =
      let payload : SubscribePacketPayloads = record {
        packet_id = id;
        subscriptions = map granted rs;
      } in
      let p = packet subscribe 2 (subscribe_body id rs) in
      let parsed = parse_subscribe_packet-subscribe_body p.header id rs small fits in
      let answered =
        on_subscribe-Acknowledged c ref c.client_session h payload (parse_subscribe_packet p) is_ref
          parsed in
      let done = (session_save sv tv ref (add_all sv tv ref payload.subscriptions h.broker)).0 in
      (if done then success_qos0 else failure, one_code done, answered)
    where
      one_code :
          (done : Bool)
          → ((if done then success_qos0 else failure) ≡ success_qos0)
            ⊎ ((if done then success_qos0 else failure) ≡ failure)
      one_code true = inl refl
      one_code false = inr refl

  -- The same for an UNSUBSCRIBE, whose UNSUBACK has the return code 0.
  pub on_packet-unsubscribe :
      (pick : ℕ → ℕ) (c : ConnectionHandler) (ref : ℕ) (h : Hub sv tv nv) (id : ℕ)
      (ts : List (List ℕ))
      → c.client_session ≡ some ref
      → id < 65536
      → All (λ (t : List ℕ). length t < 65536) ts
      → (let payload : SubscribePacketPayloads = record {
        packet_id = id;
        subscriptions = map named ts;
      } in
          Acknowledged c h
            (new_un_sub_ack_packet id success_qos0)
            (handle_un_subscribe_packet sv tv payload ref h.broker).1
            (on_packet sv tv nv pick c (packet unsubscribe 2 (un_subscribe_body id ts)) h))
  unfolding on_packet handle_un_subscribe_packet
  on_packet-unsubscribe pick c ref h id ts is_ref small fits =
      let payload : SubscribePacketPayloads = record {
        packet_id = id;
        subscriptions = map named ts;
      } in
      let p = packet unsubscribe 2 (un_subscribe_body id ts) in
      on_unsubscribe-Acknowledged c ref c.client_session h payload (parse_un_subscribe_packet p)
        is_ref (parse_un_subscribe_packet-un_subscribe_body p.header id ts small fits)
