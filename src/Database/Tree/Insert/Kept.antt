-- ===== src/Database/Tree/Insert/Kept.antt =====
-- Which subscriptions of a node `InsertSubscription` and `DeleteSubscription` add and take away.
use life_stream_go_mqtt_brok.Database.Tree.Insert.{
  delete_subscription, add_terminal, contains_hash, without_last, hash_deleted, terminal_deleted,
}
use life_stream_go_mqtt_brok.Database.Tree.Levels.{split, join}
use life_stream_go_mqtt_brok.Prelude.{
  ◌≡◌, List, true, ◌&&◌, bytes_eq_refl, not, refl, ◌∷◌, [], arith, bytes_eq_iff, ◌++◌, Bool, ℕ,
  ◌||◌, false, if◌then◌else◌, Bool-cases, some, inl, inr,
}
use life_stream_go_mqtt_brok.Database.Types.{Subscription}
use life_stream_go_mqtt_brok.Database.Tree.{
  equal, contains_equal, delete_equal, TopicServices, TopicTreeNode, Tree, get_node_by_path, save,
}

equal_refl : (s : Subscription) → equal s s ≡ true
unfolding equal
equal_refl s = rw (bytes_eq_refl s.client_id, bytes_eq_refl s.topic_name) refl

-- Two subscriptions that equal a third equal each other.
equal_cong : (sc other s : Subscription) → equal sc s ≡ true → equal other s ≡ equal sc other
unfolding equal
equal_cong sc other s h = ground (
  arith,
  bytes_eq_iff s.client_id other.client_id,
  bytes_eq_iff s.topic_name other.topic_name,
  bytes_eq_iff other.client_id sc.client_id,
  bytes_eq_iff other.topic_name sc.topic_name,
  bytes_eq_iff s.client_id sc.client_id,
  bytes_eq_iff s.topic_name sc.topic_name,
)

equal_trans :
    (sc other s : Subscription) → equal other s ≡ true → equal sc other ≡ true → equal sc s ≡ true
unfolding equal
equal_trans sc other s h1 h2 = ground (
  arith,
  bytes_eq_iff s.client_id other.client_id,
  bytes_eq_iff s.topic_name other.topic_name,
  bytes_eq_iff other.client_id sc.client_id,
  bytes_eq_iff other.topic_name sc.topic_name,
  bytes_eq_iff s.client_id sc.client_id,
  bytes_eq_iff s.topic_name sc.topic_name,
)

contains_equal-delete_equal :
    (sc other : Subscription) (ss : List Subscription)
    → contains_equal other (delete_equal sc ss) ≡ (contains_equal other ss && not (equal sc other))
unfolding contains_equal delete_equal
contains_equal-delete_equal sc other [] = refl
contains_equal-delete_equal sc other (s ∷ ss) =
    ground (
      arith,
      contains_equal-delete_equal sc other ss,
      equal_cong sc other s,
      equal_trans sc other s,
    )

contains_equal-append :
    (sc s : Subscription) (ss : List Subscription)
    → contains_equal sc (ss ++ s ∷ []) ≡ (contains_equal sc ss || equal sc s)
unfolding contains_equal
contains_equal-append sc s [] = ground arith
contains_equal-append sc s (r ∷ ss) = ground (arith, contains_equal-append sc s ss)

-- The subscriptions of a node that a filter with "#", or without, is among.
abbrev pub held_by : Bool → TopicTreeNode → List Subscription
held_by true node = node.wildcard_hash
held_by false node = node.terminals

-- The path of that node.
abbrev pub home : Subscription → List ℕ
home sub =
    let levels = split sub.topic_name in
    if contains_hash levels then join (without_last levels) else sub.topic_name

module _ (sv : TopicServices) where
  -- The node `n` is saved in place of `node`, without the subscription and with all others.
  abbrev pub Removed : Subscription → Bool → TopicTreeNode → TopicTreeNode → Type 0
  Removed sub hash node n =
      (n.id ≡ node.id)
      × (held_by (not hash) n ≡ held_by (not hash) node)
      × ((other : Subscription)
          → contains_equal other (held_by hash n)
            ≡ (contains_equal other (held_by hash node) && not (equal sub other)))

  deleted-Removed :
      (sub : Subscription) (hash : Bool) (path : List ℕ) (t t' : Tree sv) (node : TopicTreeNode)
      → get_node_by_path sv (if hash then path else sub.topic_name) t ≡ (some node, t')
      → (n : TopicTreeNode) × ((if hash
            then hash_deleted sv sub (get_node_by_path sv path t)
            else terminal_deleted sv sub (get_node_by_path sv sub.topic_name t))
          ≡ (true, save sv n t'))
        × Removed sub hash node n
  deleted-Removed sub true path t t' node read = (
    record node { wildcard_hash = delete_equal sub node.wildcard_hash },
    rw read refl,
    (refl, refl, λ other. contains_equal-delete_equal sub other node.wildcard_hash),
  )
  deleted-Removed sub false path t t' node read = (
    record node { terminals = delete_equal sub node.terminals },
    rw read refl,
    (refl, refl, λ other. contains_equal-delete_equal sub other node.terminals),
  )

  -- When the node of the filter can be read, `DeleteSubscription` succeeds, and it saves that node
  -- with every subscription it had but those of the client to the filter.
  pub delete_subscription-Removed :
      (sub : Subscription) (t t' : Tree sv) (node : TopicTreeNode)
      → get_node_by_path sv (home sub) t ≡ (some node, t')
      → (n : TopicTreeNode) × (delete_subscription sv sub t ≡ (true, save sv n t'))
        × Removed sub (contains_hash (split sub.topic_name)) node n
  unfolding delete_subscription
  delete_subscription-Removed sub t t' node read =
      deleted-Removed sub (contains_hash (split sub.topic_name))
        (join (without_last (split sub.topic_name))) t t' node read

  -- A subscription that a node has is not added again, whatever its QoS.
  pub add_terminal_once :
      (sub : Subscription) (node : TopicTreeNode) (t t' : Tree sv)
      → add_terminal sv sub [] (add_terminal sv sub [] node t).0 t'
        ≡ ((add_terminal sv sub [] node t).0, t')
  unfolding add_terminal
  add_terminal_once sub node t t' = elim (Bool-cases (contains_equal sub node.terminals)) [
    | inl there ↦ rw there (rw there refl)
    | inr absent ↦ rw absent (rw added refl)
  ]
    where
      added : contains_equal sub (node.terminals ++ sub ∷ []) ≡ true
      added = ground (arith, contains_equal-append sub sub node.terminals, equal_refl sub)
