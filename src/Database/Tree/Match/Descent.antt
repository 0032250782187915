-- ===== src/Database/Tree/Match/Descent.antt =====
-- What a tree of topic filters holds for a topic, by descent from a node, and when the code can read
-- every link of the tree.
use life_stream_go_mqtt_brok.Prelude.Maps.{lookup}
use life_stream_go_mqtt_brok.Database.Tree.{
  TopicServices, TopicTreeNode, Tree, get_node_by_path, get_node_by_id,
}
use life_stream_go_mqtt_brok.Database.Types.{Subscription}
use life_stream_go_mqtt_brok.Prelude.{
  ℕ, Bool, Option, List, some, if◌then◌else◌, ◌∷◌, ◌++◌, [], ◌==◌, ◌+◌, ◌≡◌, none, arith, false,
}

-- What a node holds for the levels below it.
abbrev pub under_child :
    (ℕ → TopicTreeNode) → Option ℕ → (TopicTreeNode → List Subscription) → List Subscription
under_child node_of (some id) below = below (node_of id)
under_child node_of none below = []

abbrev pub under_plus :
    (ℕ → TopicTreeNode) → ℕ → (TopicTreeNode → List Subscription) → List Subscription
under_plus node_of plus below = if plus == 0 then [] else below (node_of plus)

unfoldable pub subscriptions_of :
    (ℕ → TopicTreeNode) → List (List ℕ) → TopicTreeNode → List Subscription
subscriptions_of node_of [] n = n.terminals
subscriptions_of node_of (level ∷ levels) n =
    let below = subscriptions_of node_of levels in
    n.wildcard_hash
    ++ (under_child node_of (lookup level n.children) below
        ++ under_plus node_of n.wildcard_plus below)

-- How many subscriptions pass a test.
unfoldable pub count_of : (Subscription → Bool) → List Subscription → ℕ
count_of test [] = 0
count_of test (s ∷ ss) = (if test s then 1 else 0) + count_of test ss

pub count_of-append :
    (test : Subscription → Bool) (xs ys : List Subscription)
    → count_of test (xs ++ ys) ≡ count_of test xs + count_of test ys
unfolding count_of
count_of-append test [] ys = omega arith
count_of-append test (x ∷ xs) ys = omega (arith, count_of-append test xs ys)

-- The nodes that the code may reach, and that each of their links can be read.
pub record Coherent (sv : TopicServices) : Type 1 where
  pub IsView : Tree sv → Type 0
  pub node_of : ℕ → TopicTreeNode
  pub root_of : List ℕ → Option TopicTreeNode
  pub IsNode : TopicTreeNode → Type 0
  pub reads_path :
      (path : List ℕ) (t : Tree sv)
      → IsView t
      → ((get_node_by_path sv path t).0 ≡ root_of path) × IsView (get_node_by_path sv path t).1
  pub root_is_node : (path : List ℕ) (n : TopicTreeNode) → root_of path ≡ some n → IsNode n
  pub reads_child :
      (n : TopicTreeNode) (level : List ℕ) (id : ℕ) (t : Tree sv)
      → IsNode n
      → lookup level n.children ≡ some id
      → IsView t
      → ((get_node_by_id sv id t).0 ≡ some (node_of id))
        × IsView (get_node_by_id sv id t).1
        × IsNode (node_of id)
  pub reads_plus :
      (n : TopicTreeNode) (t : Tree sv)
      → IsNode n
      → (n.wildcard_plus == 0) ≡ false
      → IsView t
      → ((get_node_by_id sv n.wildcard_plus t).0 ≡ some (node_of n.wildcard_plus))
        × IsView (get_node_by_id sv n.wildcard_plus t).1
        × IsNode (node_of n.wildcard_plus)
