-- ===== src/Database/Tree/Match.antt =====
-- `MatchTopic`. A child or "+" node that cannot be read is a nil pointer in the queue, and the code
-- panics where it next looks at it.
pub mod Descent
pub mod Ends
pub mod Inserted
pub mod Visits
pub mod Agreement
mod Tests
use life_stream_go_mqtt_brok.Database.Tree.Insert.{plus_level}
use life_stream_go_mqtt_brok.Prelude.Maps.{lookup}
use life_stream_go_mqtt_brok.Database.Tree.Levels.{split}
use life_stream_go_mqtt_brok.Errors.{Error}
use life_stream_go_mqtt_brok.Prelude.Result.{Result, ok, ◌>>=◌, panic}
use life_stream_go_mqtt_brok.Database.Types.{Subscription}
use life_stream_go_mqtt_brok.Prelude.{
  Option, ℕ, List, some, if◌then◌else◌, Bool, ◌==◌, true, ◌∷◌, ◌++◌, false, [], none,
}
use life_stream_go_mqtt_brok.Database.Tree.{
  TopicServices, TopicTreeNode, Tree, get_node_by_id, get_node_by_path,
}

module _ (sv : TopicServices) where
  -- The queue of the next level, after the child of `node` under `level`.
  abbrev pub with_child :
      Option ℕ → List (Option TopicTreeNode) → Tree sv → List (Option TopicTreeNode) × Tree sv
  with_child (some id) next t = let (n, t') = get_node_by_id sv id t in (next ++ n ∷ [], t')
  with_child none next t = (next, t)

  abbrev pub with_plus :
      ℕ → List (Option TopicTreeNode) → Tree sv → List (Option TopicTreeNode) × Tree sv
  with_plus plus next t =
      if plus == 0
      then (next, t)
      else let (n, t') = get_node_by_id sv plus t in (next ++ n ∷ [], t')

  -- The nodes of one level: the queue of the next one, and the results.
  unfoldable pub visit :
      List ℕ
      → List (Option TopicTreeNode)
      → List (Option TopicTreeNode)
      → List Subscription
      → Tree sv
      → Result Error ((List (Option TopicTreeNode) × List Subscription) × Tree sv)
  visit level [] next results t = ok ((next, results), t)
  visit level (none ∷ queue) next results t = panic
  visit level (some node ∷ queue) next results t =
      let (next1, t1) = with_child (lookup level node.children) next t in
      let (next2, t2) = with_plus node.wildcard_plus next1 t1 in
      visit level queue next2 (results ++ node.wildcard_hash) t2

  unfoldable pub terminals_of :
      List (Option TopicTreeNode)
      → List Subscription
      → Tree sv
      → Result Error (List Subscription × Tree sv)
  terminals_of [] results t = ok (results, t)
  terminals_of (none ∷ queue) results t = panic
  terminals_of (some node ∷ queue) results t = terminals_of queue (results ++ node.terminals) t

  abbrev pub is_empty : List (Option TopicTreeNode) → Bool
  is_empty [] = true
  is_empty (n ∷ ns) = false

  -- The loop over the levels after the first, which stops early on an empty queue.
  unfoldable pub match_loop :
      List (List ℕ)
      → List (Option TopicTreeNode)
      → List Subscription
      → Tree sv
      → Result Error (List Subscription × Tree sv)
  match_loop [] queue results t = terminals_of queue results t
  match_loop (level ∷ levels) queue results t = do
    ((next, results'), t') ← visit level queue [] results t
    let rest = match_loop levels next results' t'
    if is_empty next then terminals_of next results' t' else rest

  abbrev pub found_only : Option TopicTreeNode → List (Option TopicTreeNode)
  found_only (some n) = some n ∷ []
  found_only none = []

  abbrev pub match_levels : List (List ℕ) → Tree sv → Result Error (List Subscription × Tree sv)
  match_levels [] t = panic
  match_levels (first ∷ levels) t =
      let (root, t1) = get_node_by_path sv first t in
      let (plus, t2) = get_node_by_path sv plus_level t1 in
      match_loop levels (found_only plus ++ found_only root) [] t2

  unfoldable pub match_topic : List ℕ → Tree sv → Result Error (List Subscription × Tree sv)
  match_topic topic t = match_levels (split topic) t
