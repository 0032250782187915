-- ===== src/Database/Tree/PathTests.antt =====
-- A client that subscribes to "a" in an empty tree. The collection is a map from paths here, and
-- nothing is cached.
use life_stream_go_mqtt_brok.Database.Tree.Match.{match_topic}
use life_stream_go_mqtt_brok.Database.Tree.Levels.{split, join}
use life_stream_go_mqtt_brok.Database.Tree.Insert.{
  insert_subscription, insert_loop, link, add_terminal,
}
use life_stream_go_mqtt_brok.Prelude.{
  [], ◌∷◌, List, ℕ, ◌∙◌, none, if_true, true, bytes_eq_refl, bytes_eq, ◌+◌, refl,
}
use life_stream_go_mqtt_brok.Prelude.Maps.{Map, lookup, lookup-insert, insert}
use life_stream_go_mqtt_brok.Database.Types.{Subscription}
use life_stream_go_mqtt_brok.Database.Tree.Match.Inserted.{
  TopicLaws, Finds, insert_subscription-match_topic,
}
use life_stream_go_mqtt_brok.Database.Tree.{
  TopicServices, Tree, TopicTreeNode, get_or_create_node, create_node, get_node_by_path, save,
  contains_equal,
}

abbrev by_path : TopicServices
by_path = record {
  Nodes = Map (List ℕ) TopicTreeNode;
  find_path = λ path ns. (lookup path ns, ns);
  find_id = λ id ns. (none, ns);
  replace_node = λ n ns. (true, insert n.path n ns);
  TopicCache = Unit;
  topic_get = λ k c. (none, c);
  topic_add = λ k n c. c;
  topic_remove = λ k c. c;
  Ids = ℕ;
  new_object_id = λ n. (n, n + 1);
  id_string = λ id. id ∷ [];
}

by_path-TopicLaws : TopicLaws by_path
by_path-TopicLaws = record {
  kept = λ ns k. lookup k ns;
  find_kept = λ k d n e. e;
  replace_kept = λ n d e. lookup-insert n.path n.path n d ∙ if_true _ (bytes_eq_refl n.path);
  removed = λ k c. refl;
}

abbrev no_nodes : Tree by_path
no_nodes = record { topic_cache = tt; nodes = []; ids = 1 }

abbrev to_a : Subscription
to_a = record { client_id = 0x63 ∷ []; topic_name = 0x61 ∷ []; qos_level = 2 }

abbrev node_a : TopicTreeNode
node_a = record {
  id = 1;
  path = 0x61 ∷ [];
  level = 0x61 ∷ [];
  children = [];
  wildcard_plus = 0;
  wildcard_hash = [];
  terminals = to_a ∷ [];
}

insert_subscription-match_topic_example :
    Finds by_path by_path-TopicLaws to_a
      (match_topic by_path (0x61 ∷ []) (insert_subscription by_path to_a no_nodes).1)
unfolding get_or_create_node create_node get_node_by_path save lookup insert bytes_eq contains_equal
    insert_subscription insert_loop link add_terminal split join
insert_subscription-match_topic_example =
    insert_subscription-match_topic by_path by_path-TopicLaws to_a no_nodes node_a (refl, tt) refl
      refl refl refl
