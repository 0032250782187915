-- ===== src/Database/Tree/Insert.antt =====
-- `InsertSubscription` and `DeleteSubscription`.
use life_stream_go_mqtt_brok.Prelude.Maps.{insert, lookup}
use life_stream_go_mqtt_brok.Database.Tree.Levels.{split, join}
use life_stream_go_mqtt_brok.Errors.{Error, hash_must_be_last}
use life_stream_go_mqtt_brok.Database.Types.{Subscription}
use life_stream_go_mqtt_brok.Database.Tree.{
  TopicServices, TopicTreeNode, Tree, save, get_node_by_path, get_or_create_node, delete_equal,
  contains_equal,
}
use life_stream_go_mqtt_brok.Prelude.{
  List, ℕ, ◌∷◌, Bool, Option, [], false, true, some, if◌then◌else◌, bytes_eq, ◌&&◌, none, ◌||◌,
  ◌++◌, not,
}
pub mod Outcome
pub mod Kept

abbrev pub plus_level : List ℕ
plus_level = b'+' ∷ []

abbrev pub hash_level : List ℕ
hash_level = b'#' ∷ []

-- What one round of the loop does with the parent: go on, or return with the subscription attached
-- to it, or with the error on a '#' that is not last.
pub data Linked : Type 0 where
  go_on attached misplaced : Linked

-- `slices.Contains(levels, "#")`
unfoldable pub contains_hash : List (List ℕ) → Bool
contains_hash [] = false
contains_hash (l ∷ ls) = bytes_eq l hash_level || contains_hash ls

-- `levels[:len(levels)-1]`
unfoldable pub without_last : List (List ℕ) → List (List ℕ)
without_last [] = []
without_last (l ∷ []) = []
without_last (l ∷ (k ∷ ls)) = l ∷ without_last (k ∷ ls)

-- No level follows.
abbrev pub is_last : List (List ℕ) → Bool
is_last [] = true
is_last (l ∷ ls) = false

module _ (sv : TopicServices) where
  abbrev child_linked : List ℕ → ℕ → TopicTreeNode → Option ℕ → Tree sv → Linked × Tree sv
  child_linked level id parent (some old) t = (go_on, t)
  child_linked level id parent none t =
      (go_on, save sv (record parent { children = insert level id parent.children }) t)

  -- The parent learns of the node at `level`, behind which the levels `rest` come.
  unfoldable pub link :
      Subscription
      → Option TopicTreeNode
      → List ℕ
      → List (List ℕ)
      → TopicTreeNode
      → Tree sv
      → Linked × Tree sv
  link sub none level rest node t = (go_on, t)
  link sub (some parent) level rest node t =
      if bytes_eq level plus_level
      then (go_on, save sv (record parent { wildcard_plus = node.id }) t)
      else if bytes_eq level hash_level
      then if is_last rest
        then (
          attached,
          save sv (record parent { wildcard_hash = parent.wildcard_hash ++ sub ∷ [] }) t,
        )
        else (misplaced, t)
      else child_linked level node.id parent (lookup level parent.children) t

  -- At the last level the subscription goes to the terminals of the node, once.
  unfoldable pub add_terminal :
      Subscription → List (List ℕ) → TopicTreeNode → Tree sv → TopicTreeNode × Tree sv
  add_terminal sub rest node t =
      let node' : TopicTreeNode = record node { terminals = node.terminals ++ sub ∷ [] } in
      if is_last rest && not (contains_equal sub node.terminals)
      then (node', save sv node' t)
      else (node, t)

  -- The loop, with the parent of the last round, the levels behind and the levels to come.
  unfoldable pub insert_loop :
      Subscription
      → Option TopicTreeNode
      → List (List ℕ)
      → List (List ℕ)
      → Tree sv
      → Option Error × Tree sv
  insert_loop sub parent done [] t = (none, t)
  insert_loop sub parent done (level ∷ rest) t =
      let (node, t1) = get_or_create_node sv (join (done ++ level ∷ [])) level t in
      let (linked, t2) = link sub parent level rest node t1 in
      let (node', t3) = add_terminal sub rest node t2 in
      let onward = insert_loop sub (some node') (done ++ level ∷ []) rest t3 in
      elim linked [
        | go_on ↦ onward
        | attached ↦ (none, t2)
        | misplaced ↦ (some (hash_must_be_last sub.topic_name), t2)
      ]

  unfoldable pub insert_subscription : Subscription → Tree sv → Option Error × Tree sv
  insert_subscription sub t = insert_loop sub none [] (split sub.topic_name) t

  abbrev hash_deleted : Subscription → Option TopicTreeNode × Tree sv → Bool × Tree sv
  hash_deleted sub (some node, t) =
      (true, save sv (record node { wildcard_hash = delete_equal sub node.wildcard_hash }) t)
  hash_deleted sub (none, t) = (false, t)

  abbrev terminal_deleted : Subscription → Option TopicTreeNode × Tree sv → Bool × Tree sv
  terminal_deleted sub (some node, t) =
      (true, save sv (record node { terminals = delete_equal sub node.terminals }) t)
  terminal_deleted sub (none, t) = (false, t)

  unfoldable pub delete_subscription : Subscription → Tree sv → Bool × Tree sv
  delete_subscription sub t =
      let levels = split sub.topic_name in
      if contains_hash levels
      then hash_deleted sub (get_node_by_path sv (join (without_last levels)) t)
      else terminal_deleted sub (get_node_by_path sv sub.topic_name t)
