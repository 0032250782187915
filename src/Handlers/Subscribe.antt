-- ===== src/Handlers/Subscribe.antt =====
-- internal/packet: `HandleSubscribePacket`, `HandleUnSubscribePacket`, `HandleDisconnectPacket`.
use life_stream_go_mqtt_brok.Database.Store.{delete_session, save_session}
use life_stream_go_mqtt_brok.Handlers.{
  Broker, add_subscription, remove_subscription, remove_all_subscriptions, session_save,
}
use life_stream_go_mqtt_brok.Packet.Subscribe.{
  SubscribePacketPayloads, new_un_sub_ack_packet, success_qos0, new_sub_ack_packet, failure,
}
use life_stream_go_mqtt_brok.Prelude.Maps.{Map, insert, delete}
use life_stream_go_mqtt_brok.Database.Tree.{TopicServices}
use life_stream_go_mqtt_brok.Database.Types.{Subscription}
use life_stream_go_mqtt_brok.Database.Services.{Services}
use life_stream_go_mqtt_brok.Prelude.{List, ℕ, ◌∷◌, [], if◌then◌else◌}
pub mod Session

-- The map of a session after subscriptions are added to it, and after they are removed.
unfoldable pub subscribed : List Subscription → Map (List ℕ) ℕ → Map (List ℕ) ℕ
subscribed [] m = m
subscribed (s ∷ ss) m = subscribed ss (insert s.topic_name s.qos_level m)

unfoldable pub unsubscribed : List Subscription → Map (List ℕ) ℕ → Map (List ℕ) ℕ
unsubscribed [] m = m
unsubscribed (s ∷ ss) m = unsubscribed ss (delete s.topic_name m)

module _ (sv : Services) (tv : TopicServices) where
  unfoldable pub add_all : ℕ → List Subscription → Broker sv tv → Broker sv tv
  add_all ref [] b = b
  add_all ref (s ∷ ss) b = add_all ref ss (add_subscription sv tv ref s b)

  unfoldable pub remove_each : ℕ → List Subscription → Broker sv tv → Broker sv tv
  remove_each ref [] b = b
  remove_each ref (s ∷ ss) b = remove_each ref ss (remove_subscription sv tv ref s b)

  unfoldable pub handle_subscribe_packet :
      SubscribePacketPayloads → ℕ → Broker sv tv → List ℕ × Broker sv tv
  handle_subscribe_packet payload ref b =
      let (done, b') = session_save sv tv ref (add_all ref payload.subscriptions b) in
      (new_sub_ack_packet payload.packet_id (if done then success_qos0 else failure), b')

  unfoldable pub handle_un_subscribe_packet :
      SubscribePacketPayloads → ℕ → Broker sv tv → List ℕ × Broker sv tv
  handle_un_subscribe_packet payload ref b = (
    new_un_sub_ack_packet payload.packet_id success_qos0,
    remove_each ref payload.subscriptions b,
  )

  unfoldable pub handle_disconnect_packet : ℕ → Broker sv tv → Broker sv tv
  handle_disconnect_packet ref b =
      let x = b.store.heap ref in
      let b' = remove_all_subscriptions sv tv ref b in
      if x.temp_session
      then record b' { store = (delete_session sv x.client_id b'.store).1 }
      else record b { store = (save_session sv ref b.store).1 }
