-- ===== src/Database/Tree.antt =====
-- internal/database/subscription_tree.go: the tree of topic filters. A node stands in a collection,
-- and copies of it in the cache, under its path or its ID. A node that the code changes it saves at
-- once, which takes the one object that could show the change out of the cache; so a node is a value
-- here, and no topic is spelled like the string of a document's ID.
use life_stream_go_mqtt_brok.Prelude.Maps.{Map}
use life_stream_go_mqtt_brok.Database.Types.{Subscription}
use life_stream_go_mqtt_brok.Prelude.{
  ℕ, List, Option, Bool, ◌∷◌, [], bytes_eq, false, if◌then◌else◌, some, ◌&&◌, ◌||◌, none,
}
pub mod Levels
pub mod Match
pub mod Insert
pub mod Tests
mod PathTests

pub record TopicTreeNode : Type 0 where
  pub id : ℕ
  pub path : List ℕ
  pub level : List ℕ
  pub children : Map (List ℕ) ℕ
  pub wildcard_plus : ℕ
  pub wildcard_hash : List Subscription
  pub terminals : List Subscription

-- What the tree calls outside the repository: the collection, the cache, and the IDs of documents,
-- of which 0 is the zero ID. A query returns no node on any error.
pub record TopicServices : Type 1 where
  pub Nodes : Type 0
  pub find_path : List ℕ → Nodes → Option TopicTreeNode × Nodes
  pub find_id : ℕ → Nodes → Option TopicTreeNode × Nodes
  pub replace_node : TopicTreeNode → Nodes → Bool × Nodes
  pub TopicCache : Type 0
  pub topic_get : List ℕ → TopicCache → Option TopicTreeNode × TopicCache
  pub topic_add : List ℕ → TopicTreeNode → TopicCache → TopicCache
  pub topic_remove : List ℕ → TopicCache → TopicCache
  pub Ids : Type 0
  pub new_object_id : Ids → ℕ × Ids
  pub id_string : ℕ → List ℕ

-- `equal`: the same client and the same filter, whatever the QoS.
unfoldable pub equal : Subscription → Subscription → Bool
equal sc s = bytes_eq s.client_id sc.client_id && bytes_eq s.topic_name sc.topic_name

-- `slices.ContainsFunc` and `slices.DeleteFunc` with `subscription.equal`
unfoldable pub contains_equal : Subscription → List Subscription → Bool
contains_equal sc [] = false
contains_equal sc (s ∷ ss) = equal sc s || contains_equal sc ss

unfoldable pub delete_equal : Subscription → List Subscription → List Subscription
delete_equal sc [] = []
delete_equal sc (s ∷ ss) = let rest = delete_equal sc ss in if equal sc s then rest else s ∷ rest

module _ (sv : TopicServices) where
  pub record Tree : Type 0 where
    pub topic_cache : sv.TopicCache
    pub nodes : sv.Nodes
    pub ids : sv.Ids

  -- A node that the collection returned goes into the cache under the key of the query.
  abbrev pub remembered :
      List ℕ → Option TopicTreeNode × sv.Nodes → Tree → Option TopicTreeNode × Tree
  remembered key (some n, d) t =
      (some n, record t { topic_cache = sv.topic_add key n t.topic_cache; nodes = d })
  remembered key (none, d) t = (none, record t { nodes = d })

  abbrev pub path_cached :
      List ℕ → Option TopicTreeNode × sv.TopicCache → Tree → Option TopicTreeNode × Tree
  path_cached path (some n, c) t = (some n, record t { topic_cache = c })
  path_cached path (none, c) t =
      remembered path (sv.find_path path t.nodes) (record t { topic_cache = c })

  unfoldable pub get_node_by_path : List ℕ → Tree → Option TopicTreeNode × Tree
  get_node_by_path path t = path_cached path (sv.topic_get path t.topic_cache) t

  abbrev id_cached : ℕ → Option TopicTreeNode × sv.TopicCache → Tree → Option TopicTreeNode × Tree
  id_cached id (some n, c) t = (some n, record t { topic_cache = c })
  id_cached id (none, c) t =
      remembered (sv.id_string id) (sv.find_id id t.nodes) (record t { topic_cache = c })

  unfoldable pub get_node_by_id : ℕ → Tree → Option TopicTreeNode × Tree
  get_node_by_id id t = id_cached id (sv.topic_get (sv.id_string id) t.topic_cache) t

  -- A save that fails is only logged.
  unfoldable pub save : TopicTreeNode → Tree → Tree
  save n t = record t {
    topic_cache = sv.topic_remove n.path t.topic_cache;
    nodes = (sv.replace_node n t.nodes).1;
  }

  unfoldable pub create_node : List ℕ → List ℕ → Tree → TopicTreeNode × Tree
  create_node path level t =
      let (id, ids) = sv.new_object_id t.ids in
      let n : TopicTreeNode = record {
        id = id;
        path = path;
        level = level;
        children = [];
        wildcard_plus = 0;
        wildcard_hash = [];
        terminals = [];
      } in
      (n, save n (record t { ids = ids }))

  abbrev or_created : List ℕ → List ℕ → Option TopicTreeNode × Tree → TopicTreeNode × Tree
  or_created path level (some n, t) = (n, t)
  or_created path level (none, t) = create_node path level t

  unfoldable pub get_or_create_node : List ℕ → List ℕ → Tree → TopicTreeNode × Tree
  get_or_create_node path level t = or_created path level (get_node_by_path path t)
