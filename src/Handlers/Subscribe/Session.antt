-- ===== src/Handlers/Subscribe/Session.antt =====
-- What the handlers of SUBSCRIBE and UNSUBSCRIBE do to the session.
use life_stream_go_mqtt_brok.Packet.Subscribe.{SubscribePacketPayloads}
use life_stream_go_mqtt_brok.Database.Session.{SessionData}
use life_stream_go_mqtt_brok.Handlers.{Broker, add_subscription, remove_subscription}
use life_stream_go_mqtt_brok.Database.Store.{save_session, Store, replaced}
use life_stream_go_mqtt_brok.Prelude.Maps.{
  Map, lookup, insert, delete, lookup-insert, lookup-delete,
}
use life_stream_go_mqtt_brok.Database.Types.{Subscription}
use life_stream_go_mqtt_brok.Database.Tree.{TopicServices}
use life_stream_go_mqtt_brok.Database.Services.{Services}
use life_stream_go_mqtt_brok.Handlers.Subscribe.{
  subscribed, unsubscribed, add_all, remove_each, handle_subscribe_packet,
  handle_un_subscribe_packet,
}
use life_stream_go_mqtt_brok.Prelude.{
  List, ℕ, Option, ◌∷◌, Bool, if◌then◌else◌, ◌≡◌, false, [], bytes_eq, none, ◌==◌, some, ◌∙◌, ◌||◌,
  arith, refl, ap, Bool-cases, if_true, true, inl, ==_refl, inr, if_false,
}

-- The QoS of a topic filter after the requests `ss`: the last one for it counts.
abbrev pub requested : List ℕ → Option ℕ → List Subscription → Option ℕ
requested topic before [] = before
requested topic before (s ∷ ss) =
    requested topic (if bytes_eq s.topic_name topic then some s.qos_level else before) ss

lookup-subscribed :
    (topic : List ℕ) (ss : List Subscription) (m : Map (List ℕ) ℕ)
    → lookup topic (subscribed ss m) ≡ requested topic (lookup topic m) ss
unfolding subscribed
lookup-subscribed topic [] m = refl
lookup-subscribed topic (s ∷ ss) m =
    lookup-subscribed topic ss (insert s.topic_name s.qos_level m)
    ∙ ap (λ (o : Option ℕ). requested topic o ss) (lookup-insert s.topic_name topic s.qos_level m)

-- Whether one of the requests is for the topic filter.
abbrev pub mentions : List ℕ → List Subscription → Bool
mentions topic [] = false
mentions topic (s ∷ ss) = bytes_eq s.topic_name topic || mentions topic ss

lookup-unsubscribed :
    (topic : List ℕ) (ss : List Subscription) (m : Map (List ℕ) ℕ)
    → lookup topic (unsubscribed ss m) ≡ (if mentions topic ss then none else lookup topic m)
unfolding unsubscribed
lookup-unsubscribed topic [] m = refl
lookup-unsubscribed topic (s ∷ ss) m = ground (
  arith,
  lookup-unsubscribed topic ss (delete s.topic_name m),
  lookup-delete s.topic_name topic m,
)

module _ (sv : Services) (tv : TopicServices) where
  -- The sessions of `b'` are those of `b` but for the one at `ref`, which has the subscriptions `m`.
  abbrev pub Changed : ℕ → Map (List ℕ) ℕ → Broker sv tv → Broker sv tv → Type 0
  Changed ref m b b' =
      (b'.store.heap ref ≡ record (b.store.heap ref) { subscriptions = m })
      × ((r : ℕ) → (r == ref) ≡ false → b'.store.heap r ≡ b.store.heap r)

  Changed-then :
      (ref : ℕ) (f : Map (List ℕ) ℕ → Map (List ℕ) ℕ) (m : Map (List ℕ) ℕ) (b b1 b2 : Broker sv tv)
      → Changed ref m b b1
      → Changed ref (f (b1.store.heap ref).subscriptions) b1 b2
      → Changed ref (f m) b b2
  Changed-then ref f m b b1 b2 h h2 = (
    h2.0 ∙ ap (λ (x : SessionData). record x { subscriptions = f x.subscriptions }) h.0,
    λ r other. h2.1 r other ∙ h.1 r other,
  )

  add_subscription-Changed :
      (ref : ℕ) (s : Subscription) (b : Broker sv tv)
      → Changed ref
          (insert s.topic_name s.qos_level (b.store.heap ref).subscriptions)
          b
          (add_subscription sv tv ref s b)
  unfolding add_subscription
  add_subscription-Changed ref s b = (if_true _ (==_refl ref), λ r other. if_false _ other)

  remove_subscription-Changed :
      (ref : ℕ) (s : Subscription) (b : Broker sv tv)
      → Changed ref
          (delete s.topic_name (b.store.heap ref).subscriptions)
          b
          (remove_subscription sv tv ref s b)
  unfolding remove_subscription
  remove_subscription-Changed ref s b = (if_true _ (==_refl ref), λ r other. if_false _ other)

  pub add_all-Changed :
      (ref : ℕ) (ss : List Subscription) (b : Broker sv tv)
      → Changed ref (subscribed ss (b.store.heap ref).subscriptions) b (add_all sv tv ref ss b)
  unfolding add_all subscribed
  add_all-Changed ref [] b = (refl, λ r other. refl)
  add_all-Changed ref (s ∷ ss) b =
      let b1 = add_subscription sv tv ref s b in
      Changed-then ref (subscribed ss) _ b b1 (add_all sv tv ref ss b1)
        (add_subscription-Changed ref s b) (add_all-Changed ref ss b1)

  pub remove_each-Changed :
      (ref : ℕ) (ss : List Subscription) (b : Broker sv tv)
      → Changed ref
          (unsubscribed ss (b.store.heap ref).subscriptions)
          b
          (remove_each sv tv ref ss b)
  unfolding remove_each unsubscribed
  remove_each-Changed ref [] b = (refl, λ r other. refl)
  remove_each-Changed ref (s ∷ ss) b =
      let b1 = remove_subscription sv tv ref s b in
      Changed-then ref (unsubscribed ss) _ b b1 (remove_each sv tv ref ss b1)
        (remove_subscription-Changed ref s b) (remove_each-Changed ref ss b1)

  replaced-heap :
      (id : List ℕ) (ref : ℕ) (a : Bool × sv.Documents) (st : Store sv)
      → (replaced sv id ref a st).1.heap ≡ st.heap
  replaced-heap id ref (false, d) st = refl
  replaced-heap id ref (true, d) st = refl

  -- A save changes no session object.
  pub save_session-heap : (ref : ℕ) (st : Store sv) → (save_session sv ref st).1.heap ≡ st.heap
  unfolding save_session
  save_session-heap ref st = elim (Bool-cases (st.heap ref).temp_session) [
    | inl temporary ↦ ap (λ (r : Bool × Store sv). r.1.heap) (if_true _ temporary)
    | inr stored ↦
        ap (λ (r : Bool × Store sv). r.1.heap) (if_false _ stored)
        ∙ elim (Bool-cases (bytes_eq (st.heap ref).client_id [])) [
          | inl empty ↦ ap (λ (r : Bool × Store sv). r.1.heap) (if_true _ empty)
          | inr named ↦
              ap (λ (r : Bool × Store sv). r.1.heap) (if_false _ named)
              ∙ replaced-heap (st.heap ref).client_id ref
                  (sv.replace_one (st.heap ref).client_id (st.heap ref) st.documents) _
        ]
  ]

  -- After `HandleSubscribePacket` the session has, for each topic filter, the QoS of the last
  -- request for it, or what it had where there is none; no other session is changed.
  pub handle_subscribe_packet-requested :
      (payload : SubscribePacketPayloads) (ref : ℕ) (b : Broker sv tv)
      → (let b' = (handle_subscribe_packet sv tv payload ref b).1 in
          ((topic : List ℕ)
            → lookup topic (b'.store.heap ref).subscriptions
              ≡ requested topic
                  (lookup topic (b.store.heap ref).subscriptions)
                  payload.subscriptions)
          × ((r : ℕ) → (r == ref) ≡ false → b'.store.heap r ≡ b.store.heap r))
  unfolding handle_subscribe_packet
  handle_subscribe_packet-requested payload ref b =
      let b1 = add_all sv tv ref payload.subscriptions b in
      let saved = save_session-heap ref b1.store in
      let changed = add_all-Changed ref payload.subscriptions b in
      (
        λ topic.
            ap (λ (h : ℕ → SessionData). lookup topic (h ref).subscriptions) saved
            ∙ ap (λ (x : SessionData). lookup topic x.subscriptions) changed.0
            ∙ lookup-subscribed topic payload.subscriptions (b.store.heap ref).subscriptions,
        λ r other. ap (λ (h : ℕ → SessionData). h r) saved ∙ changed.1 r other,
      )

  -- After `HandleUnSubscribePacket` the session has lost the topic filters of the packet and kept
  -- all others; no other session is changed.
  pub handle_un_subscribe_packet-lost :
      (payload : SubscribePacketPayloads) (ref : ℕ) (b : Broker sv tv)
      → (let b' = (handle_un_subscribe_packet sv tv payload ref b).1 in
          ((topic : List ℕ)
            → lookup topic (b'.store.heap ref).subscriptions ≡ (
                if mentions topic payload.subscriptions
                then none
                else lookup topic (b.store.heap ref).subscriptions))
          × ((r : ℕ) → (r == ref) ≡ false → b'.store.heap r ≡ b.store.heap r))
  unfolding handle_un_subscribe_packet
  handle_un_subscribe_packet-lost payload ref b =
      let changed = remove_each-Changed ref payload.subscriptions b in
      (
        λ topic.
            ap (λ (x : SessionData). lookup topic x.subscriptions) changed.0
            ∙ lookup-unsubscribed topic payload.subscriptions (b.store.heap ref).subscriptions,
        changed.1,
      )
