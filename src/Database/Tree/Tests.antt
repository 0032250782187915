-- ===== src/Database/Tree/Tests.antt =====
-- The tree of topic filters on concrete topics. The collection is a list here, and the cache empty.
use life_stream_go_mqtt_brok.Prelude.Maps.{lookup, insert}
use life_stream_go_mqtt_brok.Database.Tree.Match.{match_topic, match_loop, visit, terminals_of}
use life_stream_go_mqtt_brok.Database.Tree.Insert.Kept.{Removed, delete_subscription-Removed}
use life_stream_go_mqtt_brok.Database.Tree.Insert.Outcome.{
  refusal, hash_inside, insert_subscription-refusal,
}
use life_stream_go_mqtt_brok.Prelude.Result.{◌>>=◌, ok}
use life_stream_go_mqtt_brok.Database.Tree.Levels.{split, join}
use life_stream_go_mqtt_brok.Database.Tree.Insert.{
  insert_subscription, add_terminal, contains_hash, delete_subscription, insert_loop, link,
}
use life_stream_go_mqtt_brok.Database.Types.{Subscription}
use life_stream_go_mqtt_brok.Database.Tree.{
  TopicTreeNode, TopicServices, Tree, get_node_by_path, save, get_node_by_id, get_or_create_node,
  create_node, contains_equal, equal,
}
use life_stream_go_mqtt_brok.Prelude.{
  List, ℕ, Option, ◌∷◌, true, [], ◌≡◌, bytes_eq, none, if◌then◌else◌, some, ◌==◌, ◌+◌, refl,
}

unfoldable pub with_path : List ℕ → List TopicTreeNode → Option TopicTreeNode
with_path path [] = none
with_path path (n ∷ ns) = if bytes_eq n.path path then some n else with_path path ns

unfoldable pub with_id : ℕ → List TopicTreeNode → Option TopicTreeNode
with_id id [] = none
with_id id (n ∷ ns) = if n.id == id then some n else with_id id ns

unfoldable pub put : TopicTreeNode → List TopicTreeNode → List TopicTreeNode
put n [] = n ∷ []
put n (m ∷ ms) = if m.id == n.id then n ∷ ms else m ∷ put n ms

abbrev pub topic_lists : TopicServices
topic_lists = record {
  Nodes = List TopicTreeNode;
  find_path = λ path ns. (with_path path ns, ns);
  find_id = λ id ns. (with_id id ns, ns);
  replace_node = λ n ns. (true, put n ns);
  TopicCache = Unit;
  topic_get = λ k c. (none, c);
  topic_add = λ k n c. c;
  topic_remove = λ k c. c;
  Ids = ℕ;
  new_object_id = λ n. (n, n + 1);
  id_string = λ id. id ∷ [];
}

abbrev pub empty_tree : Tree topic_lists
empty_tree = record { topic_cache = tt; nodes = []; ids = 1 }

-- A client that subscribes to "a/b".
abbrev to_b : Subscription
to_b = record { client_id = 0x63 ∷ []; topic_name = 0x61 ∷ 0x2F ∷ 0x62 ∷ []; qos_level = 2 }

-- The same client with the filter "a/#/b", which is refused, and with "a/+".
abbrev refused : Subscription
refused = record to_b { topic_name = 0x61 ∷ 0x2F ∷ 0x23 ∷ 0x2F ∷ 0x62 ∷ [] }

abbrev to_any : Subscription
to_any = record to_b { topic_name = 0x61 ∷ 0x2F ∷ 0x2B ∷ [] }

abbrev planted : Tree topic_lists
planted =
    (insert_subscription topic_lists to_any (insert_subscription topic_lists to_b empty_tree).1).1

insert_subscription-refusal_example :
    (insert_subscription topic_lists refused empty_tree).0
    ≡ refusal refused (hash_inside (split refused.topic_name))
insert_subscription-refusal_example = insert_subscription-refusal topic_lists refused empty_tree

abbrev pub leaf : TopicTreeNode
leaf = record {
  id = 7;
  path = 0x61 ∷ 0x2F ∷ 0x62 ∷ [];
  level = 0x62 ∷ [];
  children = [];
  wildcard_plus = 0;
  wildcard_hash = [];
  terminals = to_b ∷ [];
}

abbrev leaf_tree : Tree topic_lists
leaf_tree = record { topic_cache = tt; nodes = leaf ∷ []; ids = 8 }

delete_subscription-Removed_example :
    (n : TopicTreeNode) × (delete_subscription topic_lists to_b leaf_tree
      ≡ (true, save topic_lists n leaf_tree))
    × Removed topic_lists to_b (contains_hash (split to_b.topic_name)) leaf n
unfolding get_node_by_path with_path bytes_eq split contains_hash
delete_subscription-Removed_example =
    delete_subscription-Removed topic_lists to_b leaf_tree leaf_tree leaf refl

-- Both subscriptions match "a/b".
planted_match :
    (do (subs, t) ← match_topic topic_lists (0x61 ∷ 0x2F ∷ 0x62 ∷ []) planted; ok subs)
    ≡ ok (to_b ∷ to_any ∷ [])
unfolding match_topic match_loop visit terminals_of insert_subscription insert_loop link
    add_terminal get_node_by_path get_node_by_id get_or_create_node create_node save with_path
    with_id put split join lookup insert bytes_eq contains_equal equal
planted_match = refl
