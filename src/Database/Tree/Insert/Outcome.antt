-- ===== src/Database/Tree/Insert/Outcome.antt =====
-- When `InsertSubscription` refuses a topic filter.
use life_stream_go_mqtt_brok.Prelude.Maps.{lookup}
use life_stream_go_mqtt_brok.Database.Tree.Levels.{join, split}
use life_stream_go_mqtt_brok.Errors.{Error, hash_must_be_last}
use life_stream_go_mqtt_brok.Database.Tree.Insert.{
  link, insert_loop, hash_level, Linked, contains_hash, is_last, without_last, plus_level, attached,
  misplaced, go_on, child_linked, insert_subscription, add_terminal,
}
use life_stream_go_mqtt_brok.Database.Tree.{
  TopicServices, TopicTreeNode, Tree, save, get_or_create_node,
}
use life_stream_go_mqtt_brok.Database.Types.{Subscription}
use life_stream_go_mqtt_brok.Prelude.{
  List, bytes_eq, ℕ, Bool, false, Option, ◌∷◌, ◌≡◌, if◌then◌else◌, some, true, [], none,
  bytes_eq_sound, Bool-cases, refl, ◌++◌, inl, inr, ◌∙◌, ap,
}

-- Some level between the first and the last is "#".
abbrev pub hash_inside : List (List ℕ) → Bool
hash_inside [] = false
hash_inside (first ∷ rest) = contains_hash (without_last rest)

abbrev pub refusal : Subscription → Bool → Option Error
refusal sub b = if b then some (hash_must_be_last sub.topic_name) else none

not_hash : (l : List ℕ) → bytes_eq l plus_level ≡ true → bytes_eq l hash_level ≡ false
unfolding bytes_eq
not_hash l h = rw (bytes_eq_sound l plus_level h) refl

module _ (sv : TopicServices) where
  -- What a round says, by the level and by what follows.
  abbrev says : List ℕ → List (List ℕ) → Linked
  says level rest =
      if bytes_eq level hash_level then (if is_last rest then attached else misplaced) else go_on

  child-goes_on :
      (level : List ℕ) (id : ℕ) (parent : TopicTreeNode) (old : Option ℕ) (t : Tree sv)
      → (child_linked sv level id parent old t).0 ≡ go_on
  child-goes_on level id parent (some old) t = refl
  child-goes_on level id parent none t = refl

  link_other :
      (sub : Subscription) (parent : TopicTreeNode) (level : List ℕ) (rest : List (List ℕ))
      (node : TopicTreeNode) (t : Tree sv)
      → (if bytes_eq level hash_level
          then if is_last rest
            then (
              attached,
              save sv (record parent { wildcard_hash = parent.wildcard_hash ++ sub ∷ [] }) t,
            )
            else (misplaced, t)
          else child_linked sv level node.id parent (lookup level parent.children) t).0
        ≡ says level rest
  link_other sub parent level rest node t = elim (Bool-cases (bytes_eq level hash_level)) [
    | inl hash ↦
        rw hash
          (elim (Bool-cases (is_last rest)) [ inl last ↦ rw last refl | inr more ↦ rw more refl ])
    | inr child ↦ rw child (child-goes_on level node.id parent (lookup level parent.children) t)
  ]

  link-says :
      (sub : Subscription) (parent : TopicTreeNode) (level : List ℕ) (rest : List (List ℕ))
      (node : TopicTreeNode) (t : Tree sv)
      → (link sv sub (some parent) level rest node t).0 ≡ says level rest
  unfolding link
  link-says sub parent level rest node t = elim (Bool-cases (bytes_eq level plus_level)) [
    | inl plus ↦ rw (plus, not_hash level plus) refl
    | inr other ↦ rw other (link_other sub parent level rest node t)
  ]

  -- The rest of the loop after a round, by what the round said.
  abbrev went_on : Subscription → Linked → Option Error → Option Error
  went_on sub linked onward = elim linked [
    | go_on ↦ onward
    | attached ↦ none
    | misplaced ↦ some (hash_must_be_last sub.topic_name)
  ]

  went_on_lem :
      (sub : Subscription) (level : List ℕ) (rest : List (List ℕ)) (onward : Option Error)
      → onward ≡ refusal sub (contains_hash (without_last rest))
      → went_on sub (says level rest) onward
        ≡ refusal sub (contains_hash (without_last (level ∷ rest)))
  unfolding contains_hash without_last
  went_on_lem sub level [] onward h = elim (Bool-cases (bytes_eq level hash_level)) [
    | inl hash ↦ rw hash refl
    | inr child ↦ rw child h
  ]
  went_on_lem sub level (k ∷ rest) onward h = elim (Bool-cases (bytes_eq level hash_level)) [
    | inl hash ↦ rw hash refl
    | inr child ↦ rw child h
  ]

  abbrev settled : Subscription → Linked × Tree sv → Option Error × Tree sv → Option Error × Tree sv
  settled sub r onward = elim r.0 [
    | go_on ↦ onward
    | attached ↦ (none, r.1)
    | misplaced ↦ (some (hash_must_be_last sub.topic_name), r.1)
  ]

  round :
      (sub : Subscription) (r : Linked × Tree sv) (onward : Option Error × Tree sv)
      → (settled sub r onward).0 ≡ went_on sub r.0 onward.0
  round sub (go_on, t) onward = refl
  round sub (attached, t) onward = refl
  round sub (misplaced, t) onward = refl

  insert_loop-refusal :
      (sub : Subscription) (parent : TopicTreeNode) (done : List (List ℕ)) (levels : List (List ℕ))
      (t : Tree sv)
      → (insert_loop sv sub (some parent) done levels t).0
        ≡ refusal sub (contains_hash (without_last levels))
  unfolding insert_loop contains_hash without_last
  insert_loop-refusal sub parent done [] t = refl
  insert_loop-refusal sub parent done (level ∷ rest) t =
      let (node, t1) = get_or_create_node sv (join (done ++ level ∷ [])) level t in
      let linked = link sv sub (some parent) level rest node t1 in
      let (node', t3) = add_terminal sv sub rest node linked.1 in
      round sub linked (insert_loop sv sub (some node') (done ++ level ∷ []) rest t3)
      ∙ (ap
            (λ (l : Linked).
              went_on sub l (insert_loop sv sub (some node') (done ++ level ∷ []) rest t3).0)
            (link-says sub parent level rest node t1)
          ∙ went_on_lem sub level rest
              (insert_loop sv sub (some node') (done ++ level ∷ []) rest t3).0
              (insert_loop-refusal sub node' (done ++ level ∷ []) rest t3))

  -- `InsertSubscription` returns an error exactly on a topic filter that has "#" as a level which
  -- is neither its first nor its last, whatever the collection and the cache do.
  pub insert_subscription-refusal :
      (sub : Subscription) (t : Tree sv)
      → (insert_subscription sv sub t).0 ≡ refusal sub (hash_inside (split sub.topic_name))
  unfolding insert_subscription
  insert_subscription-refusal sub t = first (split sub.topic_name)
    where
      first :
          (levels : List (List ℕ))
          → (insert_loop sv sub none [] levels t).0 ≡ refusal sub (hash_inside levels)
      first [] = unfold insert_loop in refl
      first (level ∷ rest) =
          unfold insert_loop link in insert_loop-refusal sub _ (level ∷ []) rest _
