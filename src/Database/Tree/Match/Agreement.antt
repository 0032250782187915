-- ===== src/Database/Tree/Match/Agreement.antt =====
-- `MatchTopic` returns what the description of the tree below its roots says.
use life_stream_go_mqtt_brok.Database.Tree.Match.Descent.{
  Coherent, count_of, subscriptions_of, count_of-append,
}
use life_stream_go_mqtt_brok.Errors.{Error}
use life_stream_go_mqtt_brok.Database.Tree.Levels.{split}
use life_stream_go_mqtt_brok.Prelude.Result.{Result, ok}
use life_stream_go_mqtt_brok.Database.Types.{Subscription}
use life_stream_go_mqtt_brok.Database.Tree.Insert.{plus_level}
use life_stream_go_mqtt_brok.Database.Tree.Match.{
  terminals_of, match_loop, match_topic, found_only, is_empty,
}
use life_stream_go_mqtt_brok.Database.Tree.Match.Visits.{some_all, total, visit-Visited}
use life_stream_go_mqtt_brok.Database.Tree.{TopicServices, TopicTreeNode, Tree, get_node_by_path}
use life_stream_go_mqtt_brok.Prelude.{
  Option, List, ◌≡◌, some, ℕ, ◌∷◌, ◌++◌, All, [], if◌then◌else◌, none, arith, refl, Bool, ◌+◌,
  All-append,
}

-- The nodes that `MatchTopic` begins with.
abbrev pub as_list : Option TopicTreeNode → List TopicTreeNode
as_list (some n) = n ∷ []
as_list none = []

module _ (sv : TopicServices) (v : Coherent sv) where
  open v use {IsView, node_of, IsNode, root_of}

  abbrev pub roots : List ℕ → List TopicTreeNode
  roots first = as_list (root_of plus_level) ++ as_list (root_of first)

  -- A run returns subscriptions whose count is, for every test, `before` and what the nodes `qs`
  -- hold for `levels`.
  pub record Matched (levels : List (List ℕ)) (qs : List TopicTreeNode) (before : List Subscription)
      (r : Result Error (List Subscription × Tree sv)) : Type 0 where
    pub found : List Subscription
    pub after : Tree sv
    pub done : r ≡ ok (found, after)
    pub sums :
        (test : Subscription → Bool)
        → count_of test found ≡ count_of test before + total sv v test levels qs

  terminals_of-Matched :
      (qs : List TopicTreeNode) (results : List Subscription) (t : Tree sv)
      → Matched [] qs results (terminals_of sv (some_all sv v qs) results t)
  unfolding terminals_of some_all total subscriptions_of
  terminals_of-Matched [] results t = record {
    found = results;
    after = t;
    done = refl;
    sums = λ test. omega arith;
  }
  terminals_of-Matched (n ∷ qs) results t =
      let rest = terminals_of-Matched qs (results ++ n.terminals) t in
      record {
        found = rest.found;
        after = rest.after;
        done = rest.done;
        sums = λ test. omega (arith, rest.sums test, count_of-append test results n.terminals);
      }

  -- The loop may stop early: without nodes there is nothing more to find.
  onward :
      (levels : List (List ℕ)) (ms : List TopicTreeNode) (found : List Subscription) (t : Tree sv)
      → Matched levels ms found (match_loop sv levels (some_all sv v ms) found t)
      → Matched levels ms found (
          if is_empty sv (some_all sv v ms)
          then terminals_of sv (some_all sv v ms) found t
          else match_loop sv levels (some_all sv v ms) found t)
  unfolding some_all total terminals_of
  onward levels [] found t rest = record {
    found = found;
    after = t;
    done = refl;
    sums = λ test. omega arith;
  }
  onward levels (m ∷ ms) found t rest = rest

  match_loop-Matched :
      (levels : List (List ℕ)) (qs : List TopicTreeNode) (results : List Subscription) (t : Tree sv)
      → All IsNode qs
      → IsView t
      → Matched levels qs results (match_loop sv levels (some_all sv v qs) results t)
  unfolding match_loop
  match_loop-Matched [] qs results t good view = terminals_of-Matched qs results t
  match_loop-Matched (level ∷ levels) qs results t good view =
      let x = visit-Visited sv v level qs [] results t good view in
      let rest =
        onward levels x.ms x.found x.after
          (match_loop-Matched levels x.ms x.found x.after x.all_nodes x.view) in
      rw x.done (record {
        found = rest.found;
        after = rest.after;
        done = rest.done;
        sums = λ test. omega (arith, rest.sums test, x.sums test levels);
      })

  found_only-as_list :
      (plus root : Option TopicTreeNode)
      → found_only sv plus ++ found_only sv root ≡ some_all sv v (as_list plus ++ as_list root)
  unfolding some_all
  found_only-as_list (some n) (some m) = refl
  found_only-as_list (some n) none = refl
  found_only-as_list none (some m) = refl
  found_only-as_list none none = refl

  as_list-IsNode :
      (o : Option TopicTreeNode)
      → ((n : TopicTreeNode) → o ≡ some n → IsNode n)
      → All IsNode (as_list o)
  as_list-IsNode (some n) h = (h n refl, tt)
  as_list-IsNode none h = tt

  -- On a tree in which every link of a node can be read, `MatchTopic` does not panic and returns
  -- what the nodes of the first level and of "+" hold for the other levels: for every test, as many
  -- subscriptions pass it. A node holds its "#" subscriptions and what its child for the next level
  -- and its "+" child hold for the levels after that, and for no further level its terminals.
  pub match_topic-Matched :
      (topic first : List ℕ) (levels : List (List ℕ)) (t : Tree sv)
      → split topic ≡ first ∷ levels
      → IsView t
      → Matched levels (roots first) [] (match_topic sv topic t)
  unfolding match_topic
  match_topic-Matched topic first levels t e view =
      let a = v.reads_path first t view in
      let t1 = (get_node_by_path sv first t).1 in
      let b = v.reads_path plus_level t1 a.1 in
      rw (e, a.0, b.0, found_only-as_list (root_of plus_level) (root_of first))
        (match_loop-Matched levels (roots first) [] (get_node_by_path sv plus_level t1).1
          (All-append IsNode (as_list (root_of plus_level)) (as_list (root_of first))
            (as_list-IsNode (root_of plus_level) (λ n h. v.root_is_node plus_level n h))
            (as_list-IsNode (root_of first) (λ n h. v.root_is_node first n h)))
          b.1)
