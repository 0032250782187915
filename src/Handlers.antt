-- ===== src/Handlers.antt =====
-- The state that the handlers of the packets share: the session store and the tree of topic
-- filters. `SessionData` methods of internal/database/session_data.go that change both.
use life_stream_go_mqtt_brok.Database.Tree.Insert.{insert_subscription, delete_subscription}
use life_stream_go_mqtt_brok.Prelude.Maps.{Map, insert, delete}
use life_stream_go_mqtt_brok.Database.Types.{Subscription}
use life_stream_go_mqtt_brok.Database.Session.{SessionData}
use life_stream_go_mqtt_brok.Prelude.{ℕ, List, Bool, if◌then◌else◌, ◌∷◌, ◌==◌, []}
use life_stream_go_mqtt_brok.Database.Store.{Store, save_session}
use life_stream_go_mqtt_brok.Database.Tree.{TopicServices, Tree}
use life_stream_go_mqtt_brok.Database.Services.{Services}
pub mod Subscribe
pub mod Connect
pub mod Publish
mod Tests

module _ (sv : Services) (tv : TopicServices) where
  pub record Broker : Type 0 where
    pub store : Store sv
    pub tree : Tree tv

  -- A session object is changed in place.
  abbrev pub set_session : ℕ → SessionData → Broker → Broker
  set_session ref x b = record b {
    store = record b.store { heap = λ r. if r == ref then x else b.store.heap r };
  }

  -- `session.Save()`
  abbrev pub session_save : ℕ → Broker → Bool × Broker
  session_save ref b =
      let (done, st) = save_session sv ref b.store in (done, record b { store = st })

  -- An insertion that fails is only logged.
  unfoldable pub add_subscription : ℕ → Subscription → Broker → Broker
  add_subscription ref s b =
      let x = b.store.heap ref in
      set_session ref (record x { subscriptions = insert s.topic_name s.qos_level x.subscriptions })
        (record b {
          tree = (insert_subscription tv (record s { client_id = x.client_id }) b.tree).1;
        })

  unfoldable pub remove_subscription : ℕ → Subscription → Broker → Broker
  remove_subscription ref s b =
      let x = b.store.heap ref in
      set_session ref (record x { subscriptions = delete s.topic_name x.subscriptions })
        (record b {
          tree = (delete_subscription tv (record s { client_id = x.client_id }) b.tree).1;
        })

  -- The entries of the map in the order of the list: `range` gives them in any order.
  unfoldable pub remove_entries : List ℕ → Map (List ℕ) ℕ → Broker → Broker
  remove_entries client [] b = b
  remove_entries client ((topic, qos) ∷ m) b =
      let s : Subscription = record { client_id = client; topic_name = topic; qos_level = qos } in
      remove_entries client m (record b { tree = (delete_subscription tv s b.tree).1 })

  unfoldable pub remove_all_subscriptions : ℕ → Broker → Broker
  remove_all_subscriptions ref b =
      remove_entries (b.store.heap ref).client_id (b.store.heap ref).subscriptions b
