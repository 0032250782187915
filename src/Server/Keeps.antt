-- ===== src/Server/Keeps.antt =====
-- What the handlers of the packets after the first leave as it is: the table of connections, and
-- the client identifiers of the sessions.
use life_stream_go_mqtt_brok.Packet.Subscribe.{SubscribePacketPayloads}
use life_stream_go_mqtt_brok.Handlers.Subscribe.Session.{
  Changed, save_session-heap, remove_each-Changed, add_all-Changed,
}
use life_stream_go_mqtt_brok.Handlers.Subscribe.{
  handle_subscribe_packet, handle_un_subscribe_packet, handle_disconnect_packet, add_all,
  remove_each,
}
use life_stream_go_mqtt_brok.Handlers.{
  Broker, remove_entries, remove_all_subscriptions, set_session,
}
use life_stream_go_mqtt_brok.Database.Session.{SessionData}
use life_stream_go_mqtt_brok.Database.Store.{Store, delete_session, delete_from}
use life_stream_go_mqtt_brok.Database.Services.{Services}
use life_stream_go_mqtt_brok.Connection.Send.{Wrote, send-Wrote}
use life_stream_go_mqtt_brok.Errors.{Error}
use life_stream_go_mqtt_brok.Packet.Publish.{new_publish_packet}
use life_stream_go_mqtt_brok.Prelude.Maps.{lookup, Map}
use life_stream_go_mqtt_brok.Database.PacketId.{PacketIdManager}
use life_stream_go_mqtt_brok.Prelude.Result.{
  Returns, Result, Returns-bind, ok, err, panic, stuck, Returns-weaken,
}
use life_stream_go_mqtt_brok.Database.Types.{Subscription}
use life_stream_go_mqtt_brok.Handlers.Publish.{deliver, tolerated, id_for, relayed}
use life_stream_go_mqtt_brok.Prelude.{
  List, ℕ, Option, Bool, ◌∷◌, some, ◌≡◌, [], none, Bool-cases, length, inl, inr, refl, ◌∙◌,
  bytes_eq, true, ◌==◌, arith, ap, if◌then◌else◌, if_true, sym,
}
use life_stream_go_mqtt_brok.Connection.{
  NetServices, NetLaws, send_message, get_connection, ConnectionManager, Connection, sent_to, send,
}
use life_stream_go_mqtt_brok.Database.Tree.{TopicServices}

-- The delivery and the sends.
module _ (nv : NetServices) (l : NetLaws nv) where
  send_message-Concludes :
      (client bytes : List ℕ) (cm : ConnectionManager nv)
      → (let (sent, cm') = send_message nv client bytes cm in
          Returns (λ _. Unit) (tolerated sent) × (cm'.connections ≡ cm.connections))
  unfolding send_message get_connection
  send_message-Concludes client bytes cm = to (lookup client cm.connections)
    where
      to :
          (o : Option Connection)
          → (let (sent, cm') = sent_to nv o bytes cm in
              Returns (λ _. Unit) (tolerated sent) × (cm'.connections ≡ cm.connections))
      to (some conn) =
          (fine (send nv conn.conn bytes cm.net) (send-Wrote nv l conn.conn bytes cm.net), refl)
        where
          fine :
              (r : Result Error Unit × nv.Net)
              → Wrote nv l conn.conn bytes cm.net r
              → Returns (λ _. Unit) (tolerated r.0)
          fine (ok u, net) w = tt
          fine (err e, net) w = tt
          fine (panic, net) w = absurd w
          fine (stuck, net) w = absurd w
      to none = (tt, refl)

  pub deliver-keeps :
      (allocates : Bool) (pick : ℕ → ℕ) (topic : List ℕ) (content : Option (List ℕ))
      (subs : List Subscription) (h : PacketIdManager × ConnectionManager nv)
      → Returns
          (λ (h' : PacketIdManager × ConnectionManager nv). h'.1.connections ≡ h.1.connections)
          (deliver nv allocates pick topic content subs h)
  unfolding deliver
  deliver-keeps allocates pick topic content [] h = refl
  deliver-keeps allocates pick topic content (sub ∷ subs) h =
      let (id, ids) = id_for allocates (pick (length subs)) sub.qos_level h.0 in
      let packet = new_publish_packet (relayed topic content sub.qos_level id) in
      let (sent, cm) = send_message nv sub.client_id packet h.1 in
      let (fine, same) = send_message-Concludes sub.client_id packet h.1 in
      Returns-bind (λ _. Unit) _ (tolerated sent) _ fine
        λ u v.
          Returns-weaken _ _ (deliver nv allocates pick topic content subs (ids, cm))
            (deliver-keeps allocates pick topic content subs (ids, cm)) λ h' e. e ∙ same

same_number : (m n : ℕ) → (m == n) ≡ true → m ≡ n
same_number m n e = ground arith

-- The sessions keep their client identifiers.
module _ (sv : Services) where
  abbrev pub SameIds : (ℕ → SessionData) → (ℕ → SessionData) → Type 0
  SameIds x x' = (r : ℕ) → (x' r).client_id ≡ (x r).client_id

  delete_session-heap : (id : List ℕ) (st : Store sv) → (delete_session sv id st).1.heap ≡ st.heap
  unfolding delete_session
  delete_session-heap id st = from (lookup id st.sessions)
    where
      from : (o : Option ℕ) → (delete_from sv id o st).1.heap ≡ st.heap
      from (some r) = refl
      from none = elim (Bool-cases (bytes_eq id [])) [
        | inl empty ↦ rw empty refl
        | inr named ↦ rw named refl
      ]

module _ (sv : Services) (tv : TopicServices) where
  Changed-SameIds :
      (ref : ℕ) (m : Map (List ℕ) ℕ) (b b' : Broker sv tv)
      → Changed sv tv ref m b b'
      → SameIds sv b.store.heap b'.store.heap
  Changed-SameIds ref m b b' (here, there) r = elim (Bool-cases (r == ref)) [
    | inl same ↦ rw (same_number r ref same, here) refl
    | inr other ↦ ap (λ (x : SessionData). x.client_id) (there r other)
  ]

  pub set_session-SameIds :
      (ref : ℕ) (x : SessionData) (b : Broker sv tv)
      → x.client_id ≡ (b.store.heap ref).client_id
      → SameIds sv b.store.heap (set_session sv tv ref x b).store.heap
  set_session-SameIds ref x b same r = elim (Bool-cases (r == ref)) [
    | inl here ↦ if_true_id r here
    | inr there ↦ rw there refl
  ]
    where
      if_true_id :
          (r : ℕ)
          → (r == ref) ≡ true
          → (if r == ref then x else b.store.heap r).client_id ≡ (b.store.heap r).client_id
      if_true_id r here =
          ap (λ (y : SessionData). y.client_id) (if_true _ here)
          ∙ same
          ∙ ap (λ (q : ℕ). (b.store.heap q).client_id) (sym (same_number r ref here))

  remove_entries-store :
      (client : List ℕ) (m : Map (List ℕ) ℕ) (b : Broker sv tv)
      → (remove_entries sv tv client m b).store ≡ b.store
  unfolding remove_entries
  remove_entries-store client [] b = refl
  remove_entries-store client ((topic, qos) ∷ m) b = remove_entries-store client m _

  pub handle_subscribe_packet-SameIds :
      (payload : SubscribePacketPayloads) (ref : ℕ) (b : Broker sv tv)
      → SameIds sv b.store.heap (handle_subscribe_packet sv tv payload ref b).1.store.heap
  unfolding handle_subscribe_packet
  handle_subscribe_packet-SameIds payload ref b r =
      let b' = add_all sv tv ref payload.subscriptions b in
      ap (λ (x : ℕ → SessionData). (x r).client_id) (save_session-heap sv tv ref b'.store)
      ∙ Changed-SameIds ref _ b b' (add_all-Changed sv tv ref payload.subscriptions b) r

  pub handle_un_subscribe_packet-SameIds :
      (payload : SubscribePacketPayloads) (ref : ℕ) (b : Broker sv tv)
      → SameIds sv b.store.heap (handle_un_subscribe_packet sv tv payload ref b).1.store.heap
  unfolding handle_un_subscribe_packet
  handle_un_subscribe_packet-SameIds payload ref b =
      Changed-SameIds ref _ b (remove_each sv tv ref payload.subscriptions b)
        (remove_each-Changed sv tv ref payload.subscriptions b)

  pub handle_disconnect_packet-SameIds :
      (ref : ℕ) (b : Broker sv tv)
      → SameIds sv b.store.heap (handle_disconnect_packet sv tv ref b).store.heap
  unfolding handle_disconnect_packet remove_all_subscriptions
  handle_disconnect_packet-SameIds ref b r = elim (Bool-cases (b.store.heap ref).temp_session) [
    | inl temp ↦ rw temp (
        ap (λ (x : ℕ → SessionData). (x r).client_id) (delete_session-heap sv _ _)
        ∙ ap (λ (st : Store sv). (st.heap r).client_id)
            (remove_entries-store (b.store.heap ref).client_id (b.store.heap ref).subscriptions b))
    | inr kept ↦
        rw kept
          (ap (λ (x : ℕ → SessionData). (x r).client_id) (save_session-heap sv tv ref b.store))
  ]
