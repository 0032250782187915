-- ===== src/Server/Serving.antt =====
-- What the loop over the packets after the first leaves as it is, and that it ends.
use life_stream_go_mqtt_brok.Packet.Subscribe.Total.{
  parse_subscribe_packet_total, parse_un_subscribe_packet_total,
}
use life_stream_go_mqtt_brok.Packet.Publish.Total.{parse_publish_packet_total}
use life_stream_go_mqtt_brok.Database.Types.{Subscription}
use life_stream_go_mqtt_brok.Handlers.Subscribe.{
  handle_subscribe_packet, handle_un_subscribe_packet,
}
use life_stream_go_mqtt_brok.Mqtt.PacketType.{
  connect, publish, subscribe, unsubscribe, pingreq, disconnect,
}
use life_stream_go_mqtt_brok.Connection.Send.{Wrote, send-Wrote}
use life_stream_go_mqtt_brok.Server.Keeps.{
  handle_disconnect_packet-SameIds, handle_subscribe_packet-SameIds,
  handle_un_subscribe_packet-SameIds,
}
use life_stream_go_mqtt_brok.Mqtt.Frame.Read.{IsFramed}
use life_stream_go_mqtt_brok.Packet.Subscribe.{
  SubscribePacketPayloads, new_un_sub_ack_packet, success_qos0, parse_subscribe_packet,
  parse_un_subscribe_packet,
}
use life_stream_go_mqtt_brok.Mqtt.Frame.{Packet}
use life_stream_go_mqtt_brok.Errors.{Error}
use life_stream_go_mqtt_brok.Server.{ConnectionHandler, send_on, new_ping_resp_packet}
use life_stream_go_mqtt_brok.Prelude.Result.{
  stuck, Result, Returns, Yields, Returns-bind, ok, err, panic, Yields-weaken,
}
use life_stream_go_mqtt_brok.Packet.Publish.{PublishPacketPayloads, parse_publish_packet}
use life_stream_go_mqtt_brok.Server.Packets.{
  Kept, handle_publish_packet-Kept, handle_qos0_publish-Kept,
}
use life_stream_go_mqtt_brok.Server.Loop.{
  on_packet, published, if_sent, on_disconnect, on_publish, handle_ping_req, on_subscribe,
  on_unsubscribe, without_session,
}
use life_stream_go_mqtt_brok.Prelude.{
  ℕ, Option, Bool, List, some, if◌then◌else◌, true, ◌==◌, none, false, Bool-cases, inl, inr, ◌∷◌,
  [], refl,
}
use life_stream_go_mqtt_brok.Handlers.Publish.{Hub, handle_publish_packet}
use life_stream_go_mqtt_brok.Connection.{NetServices, NetLaws, send}
use life_stream_go_mqtt_brok.Database.Tree.{TopicServices}
use life_stream_go_mqtt_brok.Database.Services.{Services}

module _ (sv : Services) (tv : TopicServices) (nv : NetServices) (l : NetLaws nv) where
  abbrev Going : Hub sv tv nv → Bool × Hub sv tv nv → Type 0
  Going h r = Kept sv tv nv l h r.1

  published-Kept :
      (pick : ℕ → ℕ) (payload : PublishPacketPayloads) (session : Option ℕ) (h : Hub sv tv nv)
      → Returns (Going h) (published sv tv nv pick payload session h)
  published-Kept pick payload (some ref) h =
      Returns-bind (λ (r : Option (List ℕ) × Hub sv tv nv). Kept sv tv nv l h r.1) (Going h)
        (handle_publish_packet sv tv nv pick payload ref h) _
        (handle_publish_packet-Kept sv tv nv l pick payload ref h) λ r k. k
  published-Kept pick payload none h = elim (Bool-cases (payload.packet_flag.qos == 0)) [
    | inl qos0 ↦ rw qos0 (
        Returns-bind (Kept sv tv nv l h) (Going h) _ _
          (handle_qos0_publish-Kept sv tv nv l pick payload.topic_name.payload payload h) λ h' k. k)
    | inr not0 ↦ rw not0 (elim (Bool-cases (payload.packet_flag.qos == 1)) [
      | inl qos1 ↦ rw qos1 tt
      | inr not1 ↦ rw not1 (elim (Bool-cases (payload.packet_flag.qos == 2)) [
        | inl qos2 ↦ rw qos2 tt
        | inr not2 ↦ rw not2 (refl, λ r. refl)
      ])
    ])
  ]

  on_publish-Kept :
      (pick : ℕ → ℕ) (session : Option ℕ) (h : Hub sv tv nv)
      (r : Result Error PublishPacketPayloads)
      → Yields (λ _. Unit) r
      → Returns (Going h) (on_publish sv tv nv pick session r h)
  on_publish-Kept pick session h (ok payload) y = with_content payload.payload
    where
      with_content :
          (o : Option (List ℕ))
          → Returns (Going h) (elim o [
            | none ↦ ok (true, h)
            | some content ↦ published sv tv nv pick payload session h
          ])
      with_content none = (refl, λ r. refl)
      with_content (some content) = published-Kept pick payload session h
  on_publish-Kept pick session h (err e) y = (refl, λ r. refl)
  on_publish-Kept pick session h panic y = absurd y
  on_publish-Kept pick session h stuck y = absurd y

  if_sent-Kept :
      (c : ℕ) (bytes : List ℕ) (h h1 : Hub sv tv nv)
      → Kept sv tv nv l h h1
      → Returns (Going h) (if_sent sv tv nv (send_on sv tv nv c bytes h1))
        × Returns (Going h) (handle_ping_req sv tv nv (send_on sv tv nv c bytes h1))
  if_sent-Kept c bytes h h1 k =
      of (send nv c bytes h1.manager.net) (send-Wrote nv l c bytes h1.manager.net)
    where
      of :
          (r : Result Error Unit × nv.Net)
          → Wrote nv l c bytes h1.manager.net r
          → (let s : Result Error Unit × Hub sv tv nv =
                (r.0, record h1 { manager = record h1.manager { net = r.1 } }) in
              Returns (Going h) (if_sent sv tv nv s)
              × Returns (Going h) (handle_ping_req sv tv nv s))
      of (ok u, net) w = (k, k)
      of (err e, net) w = (k, k)
      of (panic, net) w = absurd w
      of (stuck, net) w = absurd w

  on_subscribe-Kept :
      (c : ℕ) (session : Option ℕ) (h : Hub sv tv nv) (r : Result Error SubscribePacketPayloads)
      → Yields (λ _. Unit) r
      → Returns (Going h) (on_subscribe sv tv nv c session r h)
  on_subscribe-Kept c (some ref) h (ok payload) y =
      (if_sent-Kept c (handle_subscribe_packet sv tv payload ref h.broker).0 h
        (record h { broker = (handle_subscribe_packet sv tv payload ref h.broker).1 })
        (refl, handle_subscribe_packet-SameIds sv tv payload ref h.broker)).0
  on_subscribe-Kept c none h (ok payload) y = tt
  on_subscribe-Kept c session h (err e) y = (refl, λ r. refl)
  on_subscribe-Kept c session h panic y = absurd y
  on_subscribe-Kept c session h stuck y = absurd y

  on_unsubscribe-Kept :
      (c : ℕ) (session : Option ℕ) (h : Hub sv tv nv) (r : Result Error SubscribePacketPayloads)
      → Yields (λ _. Unit) r
      → Returns (Going h) (on_unsubscribe sv tv nv c session r h)
  on_unsubscribe-Kept c (some ref) h (ok payload) y =
      (if_sent-Kept c (handle_un_subscribe_packet sv tv payload ref h.broker).0 h
        (record h { broker = (handle_un_subscribe_packet sv tv payload ref h.broker).1 })
        (refl, handle_un_subscribe_packet-SameIds sv tv payload ref h.broker)).0
  on_unsubscribe-Kept c none h (ok payload) y = nil payload.subscriptions
    where
      nil :
          (ss : List Subscription)
          → Returns (Going h) (without_session sv tv nv c payload.packet_id ss h)
      nil [] =
          (if_sent-Kept c (new_un_sub_ack_packet payload.packet_id success_qos0) h h
            (refl, λ r. refl)).0
      nil (s ∷ ss) = tt
  on_unsubscribe-Kept c session h (err e) y = (refl, λ r. refl)
  on_unsubscribe-Kept c session h panic y = absurd y
  on_unsubscribe-Kept c session h stuck y = absurd y

  on_disconnect-Kept :
      (session : Option ℕ) (h : Hub sv tv nv) → Returns (Going h) (on_disconnect sv tv nv session h)
  on_disconnect-Kept (some ref) h = (refl, handle_disconnect_packet-SameIds sv tv ref h.broker)
  on_disconnect-Kept none h = tt

  either :
      (b : Bool) (P : Result Error (Bool × Hub sv tv nv) → Type 0)
      (x y : Result Error (Bool × Hub sv tv nv))
      → P x
      → P y
      → P (if b then x else y)
  either true P x y p q = p
  either false P x y p q = q

  -- On a framed packet the handler returns, or panics, and with what it returns the table of
  -- connections and the client identifiers of the sessions are as before.
  pub on_packet-Kept :
      (pick : ℕ → ℕ) (c : ConnectionHandler) (packet : Packet) (h : Hub sv tv nv)
      → IsFramed packet
      → Returns
          (λ (r : Bool × Hub sv tv nv). Kept sv tv nv l h r.1)
          (on_packet sv tv nv pick c packet h)
  unfolding on_packet
  on_packet-Kept pick c packet h f =
      let P = Returns (Going h) in
      let session = c.client_session in
      let t = packet.header.packet_type in
      let same : Kept sv tv nv l h h = (refl, λ r. refl) in
      either (t == connect) P _ _ same (
        either (t == publish) P _ _
          (on_publish-Kept pick session h (parse_publish_packet packet)
            (Yields-weaken _ _ _ (parse_publish_packet_total packet f) λ x y. tt))
          (either (t == subscribe) P _ _
            (on_subscribe-Kept c.conn session h (parse_subscribe_packet packet)
              (Yields-weaken _ _ _ (parse_subscribe_packet_total packet f) λ x y. tt))
            (either (t == unsubscribe) P _ _
              (on_unsubscribe-Kept c.conn session h (parse_un_subscribe_packet packet)
                (parse_un_subscribe_packet_total packet f))
              (either (t == pingreq) P _ _ (if_sent-Kept c.conn new_ping_resp_packet h h same).1
                (either (t == disconnect) P _ _ (on_disconnect-Kept session h) same)))))
