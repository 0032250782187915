-- ===== src/Database/Tree/Match/Inserted.antt =====
-- A subscription that was inserted is matched, for a topic of one level.
use life_stream_go_mqtt_brok.Database.Tree.Levels.{join, split, NoSlash, split-single}
use life_stream_go_mqtt_brok.Errors.{Error}
use life_stream_go_mqtt_brok.Prelude.Result.{Result, ok, err, panic, stuck}
use life_stream_go_mqtt_brok.Database.Tree.Match.{terminals_of, found_only, match_topic, match_loop}
use life_stream_go_mqtt_brok.Database.Tree.Insert.{
  insert_subscription, insert_loop, link, add_terminal, plus_level,
}
use life_stream_go_mqtt_brok.Database.Types.{Subscription}
use life_stream_go_mqtt_brok.Prelude.{
  Bool, List, ◌≡◌, ℕ, ◌++◌, true, Option, some, ◌||◌, ◌∷◌, none, arith, [], refl, ◌∙◌,
  bytes_eq_refl, false, ap, sym,
}
use life_stream_go_mqtt_brok.Database.Tree.{
  TopicServices, contains_equal, equal, get_node_by_path, TopicTreeNode, save, Tree, remembered,
  path_cached, get_or_create_node,
}

-- What the collection keeps under a path. A query that returns a node returns the one kept there, a
-- replacement without an error keeps the node, and a path that was removed from the cache is not in
-- it.
pub record TopicLaws (sv : TopicServices) : Type 1 where
  pub kept : sv.Nodes → List ℕ → Option TopicTreeNode
  pub find_kept :
      (k : List ℕ) (d : sv.Nodes) (n : TopicTreeNode)
      → (sv.find_path k d).0 ≡ some n
      → kept d k ≡ some n
  pub replace_kept :
      (n : TopicTreeNode) (d : sv.Nodes)
      → (sv.replace_node n d).0 ≡ true
      → kept (sv.replace_node n d).1 n.path ≡ some n
  pub removed : (k : List ℕ) (c : sv.TopicCache) → (sv.topic_get k (sv.topic_remove k c)).0 ≡ none

contains_equal-append :
    (sub : Subscription) (xs ys : List Subscription)
    → contains_equal sub (xs ++ ys) ≡ (contains_equal sub xs || contains_equal sub ys)
unfolding contains_equal
contains_equal-append sub [] ys = refl
contains_equal-append sub (x ∷ xs) ys = ground (arith, contains_equal-append sub xs ys)

or_true : (a b : Bool) → b ≡ true → (a || b) ≡ true
or_true a b h = ground arith

contains_last :
    (sub : Subscription) (xs : List Subscription) → contains_equal sub (xs ++ sub ∷ []) ≡ true
unfolding contains_equal equal
contains_last sub xs =
    contains_equal-append sub xs (sub ∷ [])
    ∙ or_true (contains_equal sub xs) _
        (rw (bytes_eq_refl sub.client_id, bytes_eq_refl sub.topic_name) refl)

module _ (sv : TopicServices) (l : TopicLaws sv) where
  open l use {kept}

  -- The node as the insertion leaves it.
  abbrev pub with_terminal : Subscription → TopicTreeNode → TopicTreeNode
  with_terminal sub n = record n { terminals = n.terminals ++ sub ∷ [] }

  inserted :
      (sub : Subscription) (t : Tree sv)
      → split sub.topic_name ≡ sub.topic_name ∷ []
      → (let (node, t1) = get_or_create_node sv sub.topic_name sub.topic_name t in
          contains_equal sub node.terminals ≡ false
          → insert_subscription sv sub t ≡ (none, save sv (with_terminal sub node) t1))
  unfolding insert_subscription insert_loop link add_terminal join
  inserted sub t one fresh = rw one (rw fresh refl)

  -- What is read under a path right after the node there was saved.
  found_saved :
      (n m : TopicTreeNode) (t : Tree sv)
      → (sv.replace_node n t.nodes).0 ≡ true
      → (get_node_by_path sv n.path (save sv n t)).0 ≡ some m
      → m ≡ n
  unfolding get_node_by_path save
  found_saved n m t done read =
      from (sv.topic_get n.path (sv.topic_remove n.path t.topic_cache))
        (l.removed n.path t.topic_cache) read
    where
      d : sv.Nodes
      d = (sv.replace_node n t.nodes).1

      same : kept d n.path ≡ some m → m ≡ n
      same e = cc (e, l.replace_kept n t.nodes done)

      queried :
          (r : Option TopicTreeNode × sv.Nodes) (u : Tree sv)
          → (r.0 ≡ some m → kept d n.path ≡ some m)
          → (remembered sv n.path r u).0 ≡ some m
          → m ≡ n
      queried (some k, d') u law e = same (law e)
      queried (none, d') u law e = absurd (cc e)

      from :
          (r : Option TopicTreeNode × sv.TopicCache)
          → r.0 ≡ none
          → (path_cached sv n.path r (save sv n t)).0 ≡ some m
          → m ≡ n
      from (some k, c) none_cached e = absurd (cc none_cached)
      from (none, c) none_cached e =
          queried (sv.find_path n.path d) _ (λ found. l.find_kept n.path d m found) e

  -- The match found the subscription.
  abbrev pub Finds : Subscription → Result Error (List Subscription × Tree sv) → Type 0
  Finds sub (ok (subs, t)) = contains_equal sub subs ≡ true
  Finds sub (err e) = ⊥
  Finds sub panic = ⊥
  Finds sub stuck = ⊥

  both_terminals :
      (sub : Subscription) (plus root : Option TopicTreeNode) (n : TopicTreeNode) (t : Tree sv)
      → root ≡ some n
      → contains_equal sub n.terminals ≡ true
      → Finds sub (terminals_of sv (found_only sv plus ++ found_only sv root) [] t)
  unfolding terminals_of
  both_terminals sub plus none n t e h = absurd (cc e)
  both_terminals sub none (some k) n t e h = cc (e, h)
  both_terminals sub (some p) (some k) n t e h =
      contains_equal-append sub p.terminals k.terminals
      ∙ or_true (contains_equal sub p.terminals) _ (cc (e, h))

  contains_found :
      (sub : Subscription) (n m : TopicTreeNode)
      → m ≡ with_terminal sub n
      → contains_equal sub m.terminals ≡ true
  contains_found sub n m e =
      ap (λ (k : TopicTreeNode). contains_equal sub k.terminals) e ∙ contains_last sub n.terminals

  match_one_level :
      (sub : Subscription) (topic : List ℕ) (m : TopicTreeNode) (t : Tree sv)
      → split topic ≡ topic ∷ []
      → (get_node_by_path sv topic t).0 ≡ some m
      → contains_equal sub m.terminals ≡ true
      → Finds sub (match_topic sv topic t)
  unfolding match_topic match_loop
  match_one_level sub topic m t one read holds =
      let (root, t1) = get_node_by_path sv topic t in
      let (plus, t2) = get_node_by_path sv plus_level t1 in
      rw one (both_terminals sub plus root m t2 read holds)

  -- A client subscribes to a filter of one level, to which it had no subscription. Then MatchTopic
  -- finds its subscription for the topic that is spelled like the filter, if the node that the code
  -- found or made for it has that path, the save of that node is no error, and the query for the
  -- path, which follows as the save took it out of the cache, returns a node.
  pub insert_subscription-match_topic :
      (sub : Subscription) (t : Tree sv) (m : TopicTreeNode)
      → NoSlash sub.topic_name
      → (get_or_create_node sv sub.topic_name sub.topic_name t).0.path ≡ sub.topic_name
      → contains_equal sub (get_or_create_node sv sub.topic_name sub.topic_name t).0.terminals
        ≡ false
      → (sv.replace_node
          (with_terminal sub (get_or_create_node sv sub.topic_name sub.topic_name t).0)
          (get_or_create_node sv sub.topic_name sub.topic_name t).1.nodes).0
        ≡ true
      → (get_node_by_path sv sub.topic_name (insert_subscription sv sub t).1).0 ≡ some m
      → Finds sub (match_topic sv sub.topic_name (insert_subscription sv sub t).1)
  insert_subscription-match_topic sub t m one path fresh done read =
      let (node, t1) = get_or_create_node sv sub.topic_name sub.topic_name t in
      let single = split-single sub.topic_name one in
      let after : (insert_subscription sv sub t).1 ≡ save sv (with_terminal sub node) t1 =
        ap (λ (r : Option Error × Tree sv). r.1) (inserted sub t single fresh) in
      match_one_level sub sub.topic_name m (insert_subscription sv sub t).1 single read (
        contains_found sub node m (
          found_saved (with_terminal sub node) m t1 done (
            ap (λ (p : List ℕ). (get_node_by_path sv p (save sv (with_terminal sub node) t1)).0)
              path
            ∙ ap (λ (u : Tree sv). (get_node_by_path sv sub.topic_name u).0) (sym after)
            ∙ read)))
