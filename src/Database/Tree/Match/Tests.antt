-- ===== src/Database/Tree/Match/Tests.antt =====
-- `MatchTopic` on a tree of two nodes, "a" and "a/b".
use life_stream_go_mqtt_brok.Database.Tree.Match.Descent.{Coherent}
use life_stream_go_mqtt_brok.Database.Tree.Levels.{split}
use life_stream_go_mqtt_brok.Prelude.Maps.{lookup}
use life_stream_go_mqtt_brok.Database.Tree.Tests.{with_path, topic_lists, leaf, with_id}
use life_stream_go_mqtt_brok.Database.Tree.Match.Agreement.{Matched, roots, match_topic-Matched}
use life_stream_go_mqtt_brok.Prelude.{
  List, ◌∷◌, ◌≡◌, ℕ, [], ◌⊎◌, some, inl, bytes_eq, inr, Bool, ap, ◌==◌, if◌then◌else◌, sym, true,
  refl, none, ◌∙◌, false, Option,
}
use life_stream_go_mqtt_brok.Database.Tree.Match.{match_topic}
use life_stream_go_mqtt_brok.Database.Tree.{
  TopicTreeNode, Tree, get_node_by_path, get_node_by_id, remembered,
}

abbrev top : TopicTreeNode
top = record {
  id = 6;
  path = 0x61 ∷ [];
  level = 0x61 ∷ [];
  children = (0x62 ∷ [], 7) ∷ [];
  wildcard_plus = 0;
  wildcard_hash = [];
  terminals = [];
}

abbrev two_nodes : List TopicTreeNode
two_nodes = top ∷ leaf ∷ []

abbrev two : Tree topic_lists
two = record { topic_cache = tt; nodes = two_nodes; ids = 8 }

abbrev OneOfTwo : TopicTreeNode → Type 0
OneOfTwo n = (n ≡ top) ⊎ (n ≡ leaf)

either :
    (b c : Bool) (n : TopicTreeNode)
    → (if b then some top else if c then some leaf else none) ≡ some n
    → OneOfTwo n
either true c n h = inl (cc h)
either false true n h = inr (cc h)
either false false n h = absurd (cc h)

root_one : (path : List ℕ) (n : TopicTreeNode) → with_path path two_nodes ≡ some n → OneOfTwo n
unfolding with_path
root_one path n h = either (bytes_eq top.path path) (bytes_eq leaf.path path) n h

only_seven : (b : Bool) (id : ℕ) → (if b then some 7 else none) ≡ some id → id ≡ 7
only_seven true id h = cc h
only_seven false id h = absurd (cc h)

child_seven :
    (n : TopicTreeNode) (level : List ℕ) (id : ℕ)
    → OneOfTwo n
    → lookup level n.children ≡ some id
    → id ≡ 7
unfolding lookup
child_seven n level id (inl is_top) h =
    only_seven (bytes_eq (0x62 ∷ []) level) id
      (ap (λ (m : TopicTreeNode). lookup level m.children) (sym is_top) ∙ h)
child_seven n level id (inr is_leaf) h =
    absurd (cc (ap (λ (m : TopicTreeNode). lookup level m.children) (sym is_leaf) ∙ h))

no_plus : (n : TopicTreeNode) → OneOfTwo n → (n.wildcard_plus == 0) ≡ true
no_plus n (inl is_top) = ap (λ (m : TopicTreeNode). m.wildcard_plus == 0) is_top
no_plus n (inr is_leaf) = ap (λ (m : TopicTreeNode). m.wildcard_plus == 0) is_leaf

seven : (id : ℕ) (ns : List TopicTreeNode) → id ≡ 7 → ns ≡ two_nodes → with_id id ns ≡ some leaf
unfolding with_id
seven id ns e f = rw (e, f) refl

remembered_lem :
    (key : List ℕ) (o : Option TopicTreeNode) (d : List TopicTreeNode) (t : Tree topic_lists)
    → ((remembered topic_lists key (o, d) t).0 ≡ o)
      × ((remembered topic_lists key (o, d) t).1.nodes ≡ d)
remembered_lem key (some n) d t = (refl, refl)
remembered_lem key none d t = (refl, refl)

two_coherent : Coherent topic_lists
unfolding get_node_by_path get_node_by_id
two_coherent = record {
  IsView = λ t. t.nodes ≡ two_nodes;
  node_of = λ id. leaf;
  root_of = λ path. with_path path two_nodes;
  IsNode = OneOfTwo;
  reads_path = λ path t view.
      let r = remembered_lem path (with_path path t.nodes) t.nodes t in
      (r.0 ∙ ap (λ (ns : List TopicTreeNode). with_path path ns) view, r.1 ∙ view);
  root_is_node = root_one;
  reads_child = λ n level id t good e view.
      let r = remembered_lem (id ∷ []) (with_id id t.nodes) t.nodes t in
      (r.0 ∙ seven id t.nodes (child_seven n level id good e) view, r.1 ∙ view, inr refl);
  reads_plus = λ n t good there view. absurd (cc (no_plus n good, there));
}

match_topic-Matched_example :
    Matched topic_lists two_coherent
      ((0x62 ∷ []) ∷ [])
      (roots topic_lists two_coherent (0x61 ∷ []))
      []
      (match_topic topic_lists (0x61 ∷ 0x2F ∷ 0x62 ∷ []) two)
unfolding split two_coherent
match_topic-Matched_example =
    match_topic-Matched topic_lists two_coherent (0x61 ∷ 0x2F ∷ 0x62 ∷ []) (0x61 ∷ [])
      ((0x62 ∷ []) ∷ []) two refl refl
