-- ===== src/Handlers/Publish.antt =====
-- internal/packet/publish.go: `HandlePublishPacket` and the handlers for each QoS.
use life_stream_go_mqtt_brok.Mqtt.Frame.{to_uint16}
use life_stream_go_mqtt_brok.Database.Tree.Match.{match_topic}
use life_stream_go_mqtt_brok.Database.Session.{SessionData}
use life_stream_go_mqtt_brok.Handlers.{Broker, session_save, set_session}
use life_stream_go_mqtt_brok.Database.Types.{Subscription}
use life_stream_go_mqtt_brok.Packet.Publish.{
  PublishPacketPayloads, new_publish_packet, new_pub_ack_packet, new_pub_rec_packet,
}
use life_stream_go_mqtt_brok.Database.Tree.{TopicServices, Tree}
use life_stream_go_mqtt_brok.Database.PacketId.{PacketIdManager, next_id}
use life_stream_go_mqtt_brok.Errors.{Error}
use life_stream_go_mqtt_brok.Prelude.Maps.{Map}
use life_stream_go_mqtt_brok.Database.Services.{Services}
use life_stream_go_mqtt_brok.Connection.{NetServices, ConnectionManager, send_message}
use life_stream_go_mqtt_brok.Prelude.Result.{Result, ok, err, panic, ◌>>=◌, stuck}
use life_stream_go_mqtt_brok.Prelude.{
  ℕ, List, Bool, Option, ◌∷◌, if◌then◌else◌, ◌==◌, false, ◌&&◌, true, [], length, ltb, none, some,
}
pub mod Delivery

-- `session.PendingPublish[id] = topic`
unfoldable pub set_pending : ℕ → List ℕ → Map ℕ (List ℕ) → Map ℕ (List ℕ)
set_pending id topic [] = (id, topic) ∷ []
set_pending id topic ((j, t) ∷ m) =
    if j == id then (id, topic) ∷ m else (j, t) ∷ set_pending id topic m

-- The message as one subscriber gets it.
abbrev pub relayed : List ℕ → Option (List ℕ) → ℕ → ℕ → PublishPacketPayloads
relayed topic content qos id = record {
  packet_flag = record { retry_flag = false; qos = qos; retain = false };
  topic_name = record { payload_length = length topic; payload = topic };
  packet_id = id;
  payload = content;
}

-- An error of `SendMessage` is only logged.
abbrev pub tolerated : Result Error Unit → Result Error Unit
tolerated (ok u) = ok tt
tolerated (err e) = ok tt
tolerated panic = panic
tolerated stuck = stuck

-- The ID of a message to a subscriber: a new one for QoS 1 and 2, where `allocates` says that the
-- handler takes one at all; `pick` chooses among released IDs.
abbrev pub id_for : Bool → ℕ → ℕ → PacketIdManager → ℕ × PacketIdManager
id_for allocates pick qos ids = if allocates && ltb 0 qos then next_id pick ids else (0, ids)

module _ (nv : NetServices) where
  -- The loop over the matching subscriptions. `pick` has a choice for each.
  unfoldable pub deliver :
      Bool
      → (ℕ → ℕ)
      → List ℕ
      → Option (List ℕ)
      → List Subscription
      → PacketIdManager × ConnectionManager nv
      → Result Error (PacketIdManager × ConnectionManager nv)
  deliver allocates pick topic content [] h = ok h
  deliver allocates pick topic content (sub ∷ subs) h = do
    let (id, ids) = id_for allocates (pick (length subs)) sub.qos_level h.0
    let (sent, cm) =
        send_message nv sub.client_id (new_publish_packet (relayed topic content sub.qos_level id))
          h.1
    done ← tolerated sent
    deliver allocates pick topic content subs (ids, cm)

module _ (sv : Services) (tv : TopicServices) (nv : NetServices) where
  pub record Hub : Type 0 where
    pub broker : Broker sv tv
    pub ids : PacketIdManager
    pub manager : ConnectionManager nv

  -- The matching and the delivery. An error of the matching is only logged.
  abbrev pub matched :
      Bool
      → (ℕ → ℕ)
      → List ℕ
      → Option (List ℕ)
      → Hub
      → Result Error (List Subscription × Tree tv)
      → Result Error Hub
  matched allocates pick topic content h (ok (subs, tree)) = do
    (ids, manager) ← deliver nv allocates pick topic content subs (h.ids, h.manager)
    ok (record { broker = record h.broker { tree = tree }; ids = ids; manager = manager })
  matched allocates pick topic content h (err e) = ok h
  matched allocates pick topic content h panic = panic
  matched allocates pick topic content h stuck = stuck

  unfoldable pub handle_qos0_publish :
      (ℕ → ℕ) → List ℕ → PublishPacketPayloads → Hub → Result Error Hub
  handle_qos0_publish pick topic payload h =
      matched false pick topic payload.payload h (match_topic tv topic h.broker.tree)

  -- The message becomes pending in the session of the publisher, which is saved.
  abbrev pub remembered_by : ℕ → List ℕ → PublishPacketPayloads → Hub → Hub
  remembered_by ref topic payload h =
      let x = h.broker.store.heap ref in
      let x' : SessionData = record x {
        pending_publish = set_pending (to_uint16 payload.packet_id) topic x.pending_publish;
      } in
      record h { broker = (session_save sv tv ref (set_session sv tv ref x' h.broker)).1 }

  unfoldable pub handle_qos1_publish :
      (ℕ → ℕ) → List ℕ → PublishPacketPayloads → ℕ → Hub → Result Error Hub
  handle_qos1_publish pick topic payload ref h =
      let h' = remembered_by ref topic payload h in
      matched true pick topic payload.payload h' (match_topic tv topic h'.broker.tree)

  unfoldable pub handle_qos2_publish :
      (ℕ → ℕ) → List ℕ → PublishPacketPayloads → ℕ → Hub → Result Error Hub
  handle_qos2_publish pick topic payload ref h =
      let h' = remembered_by ref topic payload h in
      matched true pick topic payload.payload h' (match_topic tv topic h'.broker.tree)

  unfoldable pub handle_publish_packet :
      (ℕ → ℕ) → PublishPacketPayloads → ℕ → Hub → Result Error (Option (List ℕ) × Hub)
  handle_publish_packet pick payload ref h =
      let topic = payload.topic_name.payload in
      let qos = payload.packet_flag.qos in
      if qos == 0
      then (do h' ← handle_qos0_publish pick topic payload h; ok (none, h'))
      else if qos == 1
      then (do
        h' ← handle_qos1_publish pick topic payload ref h
        ok (some (new_pub_ack_packet payload.packet_id), h'))
      else if qos == 2
      then (do
        h' ← handle_qos2_publish pick topic payload ref h
        ok (some (new_pub_rec_packet payload.packet_id), h'))
      else ok (none, h)
