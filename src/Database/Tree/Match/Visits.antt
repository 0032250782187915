-- ===== src/Database/Tree/Match/Visits.antt =====
-- The rounds of `MatchTopic`, which goes through the tree level by level, against the descent.
use life_stream_go_mqtt_brok.Database.Tree.Match.Descent.{
  Coherent, subscriptions_of, count_of, count_of-append, under_child, under_plus,
}
use life_stream_go_mqtt_brok.Errors.{Error}
use life_stream_go_mqtt_brok.Prelude.Result.{Result, ok}
use life_stream_go_mqtt_brok.Database.Tree.Match.{with_plus, with_child, visit}
use life_stream_go_mqtt_brok.Prelude.Maps.{lookup}
use life_stream_go_mqtt_brok.Database.Tree.{TopicServices, TopicTreeNode, Tree}
use life_stream_go_mqtt_brok.Database.Types.{Subscription}
use life_stream_go_mqtt_brok.Prelude.{
  ℕ, Bool, List, Option, ◌∷◌, ◌++◌, some, ◌==◌, ◌+◌, ◌≡◌, [], arith, All, Bool-cases, none, refl,
  sym, inl, append-nil, ap, inr, append_assoc, ◌∙◌, All-append,
}

module _ (sv : TopicServices) (v : Coherent sv) where
  open v use {IsView, node_of, IsNode}

  abbrev subs : List (List ℕ) → TopicTreeNode → List Subscription
  subs = subscriptions_of node_of

  unfoldable pub total : (Subscription → Bool) → List (List ℕ) → List TopicTreeNode → ℕ
  total test levels [] = 0
  total test levels (n ∷ ns) = count_of test (subs levels n) + total test levels ns

  total-append :
      (test : Subscription → Bool) (levels : List (List ℕ)) (ns ms : List TopicTreeNode)
      → total test levels (ns ++ ms) ≡ total test levels ns + total test levels ms
  unfolding total
  total-append test levels [] ms = omega arith
  total-append test levels (n ∷ ns) ms = omega (arith, total-append test levels ns ms)

  unfoldable pub some_all : List TopicTreeNode → List (Option TopicTreeNode)
  some_all [] = []
  some_all (n ∷ ns) = some n ∷ some_all ns

  -- The queue after a step that found the nodes `ms`.
  record Queued (next : List (Option TopicTreeNode)) (f : List (List ℕ) → List Subscription)
      (r : List (Option TopicTreeNode) × Tree sv) : Type 0 where
    ms : List TopicTreeNode
    queue : r.0 ≡ next ++ some_all ms
    view : IsView r.1
    all_nodes : All IsNode ms
    sums :
        (test : Subscription → Bool) (levels : List (List ℕ))
        → total test levels ms ≡ count_of test (f levels)

  with_child-Queued :
      (n : TopicTreeNode) (level : List ℕ) (o : Option ℕ) (next : List (Option TopicTreeNode))
      (t : Tree sv)
      → IsNode n
      → lookup level n.children ≡ o
      → IsView t
      → Queued next (λ levels. under_child node_of o (subs levels)) (with_child sv o next t)
  unfolding total some_all count_of
  with_child-Queued n level none next t good e view = record {
    ms = [];
    queue = sym (append-nil next);
    view = view;
    all_nodes = tt;
    sums = λ test levels. refl;
  }
  with_child-Queued n level (some id) next t good e view =
      let read = v.reads_child n level id t good e view in
      record {
        ms = node_of id ∷ [];
        queue = ap (λ (m : Option TopicTreeNode). next ++ m ∷ []) read.0;
        view = read.1;
        all_nodes = (read.2, tt);
        sums = λ test levels. omega arith;
      }

  with_plus-Queued :
      (n : TopicTreeNode) (next : List (Option TopicTreeNode)) (t : Tree sv)
      → IsNode n
      → IsView t
      → Queued next
          (λ levels. under_plus node_of n.wildcard_plus (subs levels))
          (with_plus sv n.wildcard_plus next t)
  unfolding total some_all count_of
  with_plus-Queued n next t good view = elim (Bool-cases (n.wildcard_plus == 0)) [
    | inl absent ↦ rw absent (record {
      ms = [];
      queue = sym (append-nil next);
      view = view;
      all_nodes = tt;
      sums = λ test levels. refl;
    })
    | inr there ↦
        let read = v.reads_plus n t good there view in
        rw there (record {
          ms = node_of n.wildcard_plus ∷ [];
          queue = ap (λ (m : Option TopicTreeNode). next ++ m ∷ []) read.0;
          view = read.1;
          all_nodes = (read.2, tt);
          sums = λ test levels. omega arith;
        })
  ]

  some_all-append : (ns ms : List TopicTreeNode) → some_all (ns ++ ms) ≡ some_all ns ++ some_all ms
  unfolding some_all
  some_all-append [] ms = refl
  some_all-append (n ∷ ns) ms =
      ap (λ (l : List (Option TopicTreeNode)). some n ∷ l) (some_all-append ns ms)

  three_queues :
      (next next1 next2 : List (Option TopicTreeNode)) (a b c : List TopicTreeNode)
      → next1 ≡ next ++ some_all a
      → next2 ≡ next1 ++ some_all b
      → next2 ++ some_all c ≡ next ++ some_all (a ++ (b ++ c))
  three_queues next next1 next2 a b c e1 e2 =
      rw (e2, e1, some_all-append a (b ++ c), some_all-append b c)
        (append_assoc (next ++ some_all a) (some_all b) (some_all c)
          ∙ append_assoc next (some_all a) (some_all b ++ some_all c))

  -- What the visit of the nodes `qs` of one level returns.
  pub record Visited (level : List ℕ) (qs : List TopicTreeNode) (next : List (Option TopicTreeNode))
      (results : List Subscription)
      (r : Result Error ((List (Option TopicTreeNode) × List Subscription) × Tree sv))
      : Type 0 where
    pub ms : List TopicTreeNode
    pub found : List Subscription
    pub after : Tree sv
    pub done : r ≡ ok ((next ++ some_all ms, found), after)
    pub view : IsView after
    pub all_nodes : All IsNode ms
    pub sums :
        (test : Subscription → Bool) (levels : List (List ℕ))
        → count_of test found + total test levels ms
          ≡ count_of test results + total test (level ∷ levels) qs

  node_count :
      (test : Subscription → Bool) (level : List ℕ) (levels : List (List ℕ)) (n : TopicTreeNode)
      → count_of test (subs (level ∷ levels) n)
        ≡ count_of test n.wildcard_hash
          + (count_of test (under_child node_of (lookup level n.children) (subs levels))
              + count_of test (under_plus node_of n.wildcard_plus (subs levels)))
  unfolding subscriptions_of
  node_count test level levels n =
      let child = under_child node_of (lookup level n.children) (subs levels) in
      let plus = under_plus node_of n.wildcard_plus (subs levels) in
      omega (
        arith,
        count_of-append test n.wildcard_hash (child ++ plus),
        count_of-append test child plus,
      )

  pub visit-Visited :
      (level : List ℕ) (qs : List TopicTreeNode) (next : List (Option TopicTreeNode))
      (results : List Subscription) (t : Tree sv)
      → All IsNode qs
      → IsView t
      → Visited level qs next results (visit sv level (some_all qs) next results t)
  unfolding visit total some_all
  visit-Visited level [] next results t good view = record {
    ms = [];
    found = results;
    after = t;
    done = ap (λ (l : List (Option TopicTreeNode)). ok ((l, results), t)) (sym (append-nil next));
    view = view;
    all_nodes = tt;
    sums = λ test levels. refl;
  }
  visit-Visited level (n ∷ qs) next results t good view =
      let o = lookup level n.children in
      let r1 = with_child sv o next t in
      let c = with_child-Queued n level o next t good.0 refl view in
      let r2 = with_plus sv n.wildcard_plus r1.0 r1.1 in
      let p = with_plus-Queued n r1.0 r1.1 good.0 c.view in
      let ih = visit-Visited level qs r2.0 (results ++ n.wildcard_hash) r2.1 good.1 p.view in
      record {
        ms = c.ms ++ (p.ms ++ ih.ms);
        found = ih.found;
        after = ih.after;
        done =
            ih.done
            ∙ ap (λ (l : List (Option TopicTreeNode)). ok ((l, ih.found), ih.after))
                (three_queues next r1.0 r2.0 c.ms p.ms ih.ms c.queue p.queue);
        view = ih.view;
        all_nodes =
            All-append IsNode c.ms (p.ms ++ ih.ms) c.all_nodes
              (All-append IsNode p.ms ih.ms p.all_nodes ih.all_nodes);
        sums = λ test levels. omega (
          arith,
          ih.sums test levels,
          c.sums test levels,
          p.sums test levels,
          total-append test levels c.ms (p.ms ++ ih.ms),
          total-append test levels p.ms ih.ms,
          count_of-append test results n.wildcard_hash,
          node_count test level levels n,
        );
      }
