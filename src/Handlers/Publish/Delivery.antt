-- ===== src/Handlers/Publish/Delivery.antt =====
-- What the network gets of a PUBLISH.
use life_stream_go_mqtt_brok.Connection.Send.{send-reliable}
use life_stream_go_mqtt_brok.Packet.Publish.{new_publish_packet}
use life_stream_go_mqtt_brok.Errors.{Error}
use life_stream_go_mqtt_brok.Prelude.Result.{Result, ok, err, panic, stuck}
use life_stream_go_mqtt_brok.Handlers.Publish.{id_for, relayed}
use life_stream_go_mqtt_brok.Database.PacketId.{PacketIdManager}
use life_stream_go_mqtt_brok.Database.Types.{Subscription}
use life_stream_go_mqtt_brok.Prelude.Maps.{Map, lookup}
use life_stream_go_mqtt_brok.Connection.{
  NetServices, NetLaws, Connection, ConnectionManager, sent_to,
}
use life_stream_go_mqtt_brok.Prelude.{
  ℕ, Bool, Option, List, ◌≡◌, some, none, if◌then◌else◌, ◌==◌, ◌∷◌, [], length, ◌++◌, sym,
  append-nil, ap, refl,
}

-- The part of connection `d` in a packet for the connection `o`.
abbrev pub share : ℕ → Option Connection → List ℕ → List ℕ
share d (some conn) packet = if d == conn.conn then packet else []
share d none packet = []

-- The packets that go to connection `d`, in order, for subscriptions whose clients have the
-- connections `cs`.
unfoldable pub parcels :
    Bool
    → (ℕ → ℕ)
    → List ℕ
    → Option (List ℕ)
    → ℕ
    → Map (List ℕ) Connection
    → List Subscription
    → PacketIdManager
    → List ℕ
parcels allocates pick topic content d cs [] ids = []
parcels allocates pick topic content d cs (sub ∷ subs) ids =
    let (id, ids') = id_for allocates (pick (length subs)) sub.qos_level ids in
    share d (lookup sub.client_id cs) (new_publish_packet (relayed topic content sub.qos_level id))
    ++ parcels allocates pick topic content d cs subs ids'

module _ (nv : NetServices) (l : NetLaws nv)
    (reliable : (c : ℕ) (xs : List ℕ) (net : nv.Net) → (nv.write c xs net).0.1 ≡ none) where
  open l use {written}

  pub sent_to-share :
      (o : Option Connection) (xs : List ℕ) (cm : ConnectionManager nv)
      → (net' : nv.Net) × (sent_to nv o xs cm ≡ (ok tt, record cm { net = net' }))
        × ((d : ℕ) → written net' d ≡ written cm.net d ++ share d o xs)
  sent_to-share (some conn) xs cm =
      let (net', sent, log) = send-reliable nv l reliable conn.conn xs cm.net in
      (net', ap (λ (r : Result Error Unit × nv.Net). (r.0, record cm { net = r.1 })) sent, log)
  sent_to-share none xs cm = (cm.net, refl, λ d. sym (append-nil (written cm.net d)))

  -- What the delivery of `packets` leaves: the same connections, and a longer log of each.
  abbrev pub Delivered :
      (ℕ → List ℕ)
      → ConnectionManager nv
      → Result Error (PacketIdManager × ConnectionManager nv)
      → Type 0
  Delivered packets cm (ok (ids, cm')) =
      (cm'.connections ≡ cm.connections)
      × ((d : ℕ) → written cm'.net d ≡ written cm.net d ++ packets d)
  Delivered packets cm (err e) = ⊥
  Delivered packets cm panic = ⊥
  Delivered packets cm stuck = ⊥
