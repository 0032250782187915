-- ===== src/Database/Tree/Match/Ends.antt =====
-- `MatchTopic` ends, on every tree.
use life_stream_go_mqtt_brok.Prelude.Maps.{lookup}
use life_stream_go_mqtt_brok.Database.Tree.Insert.{plus_level}
use life_stream_go_mqtt_brok.Database.Tree.Levels.{split}
use life_stream_go_mqtt_brok.Prelude.Result.{Concludes, Concludes-bind}
use life_stream_go_mqtt_brok.Database.Types.{Subscription}
use life_stream_go_mqtt_brok.Prelude.{
  List, ℕ, Option, ◌∷◌, some, ◌++◌, [], none, Bool-cases, inl, inr,
}
use life_stream_go_mqtt_brok.Database.Tree.Match.{
  visit, terminals_of, match_loop, match_topic, match_levels, with_child, found_only, with_plus,
  is_empty,
}
use life_stream_go_mqtt_brok.Database.Tree.{TopicServices, TopicTreeNode, Tree, get_node_by_path}

module _ (tv : TopicServices) where
  visit-Concludes :
      (level : List ℕ) (queue next : List (Option TopicTreeNode)) (results : List Subscription)
      (t : Tree tv)
      → Concludes (λ _. Unit) (visit tv level queue next results t)
  unfolding visit
  visit-Concludes level [] next results t = tt
  visit-Concludes level (none ∷ queue) next results t = tt
  visit-Concludes level (some node ∷ queue) next results t =
      let (next1, t1) = with_child tv (lookup level node.children) next t in
      let (next2, t2) = with_plus tv node.wildcard_plus next1 t1 in
      visit-Concludes level queue next2 (results ++ node.wildcard_hash) t2

  terminals_of-Concludes :
      (queue : List (Option TopicTreeNode)) (results : List Subscription) (t : Tree tv)
      → Concludes (λ _. Unit) (terminals_of tv queue results t)
  unfolding terminals_of
  terminals_of-Concludes [] results t = tt
  terminals_of-Concludes (none ∷ queue) results t = tt
  terminals_of-Concludes (some node ∷ queue) results t =
      terminals_of-Concludes queue (results ++ node.terminals) t

  match_loop-Concludes :
      (levels : List (List ℕ)) (queue : List (Option TopicTreeNode)) (results : List Subscription)
      (t : Tree tv)
      → Concludes (λ _. Unit) (match_loop tv levels queue results t)
  unfolding match_loop
  match_loop-Concludes [] queue results t = terminals_of-Concludes queue results t
  match_loop-Concludes (level ∷ levels) queue results t =
      Concludes-bind (λ _. Unit) (λ _. Unit) (visit tv level queue [] results t) _
        (visit-Concludes level queue [] results t)
        λ ((next, results'), t') u. elim (Bool-cases (is_empty tv next)) [
          | inl empty ↦ rw empty (terminals_of-Concludes next results' t')
          | inr more ↦ rw more (match_loop-Concludes levels next results' t')
        ]

  match_levels-Concludes :
      (levels : List (List ℕ)) (t : Tree tv) → Concludes (λ _. Unit) (match_levels tv levels t)
  match_levels-Concludes [] t = tt
  match_levels-Concludes (first ∷ levels) t =
      let (root, t1) = get_node_by_path tv first t in
      let (plus, t2) = get_node_by_path tv plus_level t1 in
      match_loop-Concludes levels (found_only tv plus ++ found_only tv root) [] t2

  pub match_topic-Concludes :
      (topic : List ℕ) (t : Tree tv) → Concludes (λ _. Unit) (match_topic tv topic t)
  unfolding match_topic
  match_topic-Concludes topic t = match_levels-Concludes (split topic) t
