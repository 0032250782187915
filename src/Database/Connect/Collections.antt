-- ===== src/Database/Connect/Collections.antt =====
-- After a connection without an error the collections of the broker are there.
use life_stream_go_mqtt_brok.Config.{Config, ConfigError}
use life_stream_go_mqtt_brok.Database.Types.{
  session_collection_name, subscription_collection_name, collections_list,
}
use life_stream_go_mqtt_brok.Prelude.{
  List, ℕ, Bool, Option, ◌≡◌, All, some, true, ◌∷◌, bytes_eq, ◌∙◌, ◌||◌, none, false, [], refl,
  arith, Bool-cases, bytes_eq_refl, inl, inr,
}
use life_stream_go_mqtt_brok.Database.Connect.{
  Driver, ConnectError, contains_name, or_fail, index_all, dropping, Index, session_indexes,
  subscription_indexes, indexing, create_missing, creating, with_listed, after_creation,
  connect_database, after_ping, client_options, connecting, database_url,
}

-- `exists` is that a collection is there. A list that is returned without an error is the list of
-- all collections, a creation without an error makes one, and the calls that are not about
-- collections leave them.
pub record DriverLaws (dr : Driver) : Type 1 where
  pub exists : dr.World → List ℕ → Bool
  pub listed :
      (db : List ℕ) (w : dr.World) (names : List (List ℕ)) (n : List ℕ)
      → (dr.list_collections db w).0 ≡ some names
      → exists (dr.list_collections db w).1 n ≡ contains_name n names
  pub created :
      (n m : List ℕ) (w : dr.World)
      → (dr.create_collection n w).0 ≡ true
      → exists (dr.create_collection n w).1 m ≡ (bytes_eq n m || exists w m)
  pub dropped : (n m : List ℕ) (w : dr.World) → exists (dr.drop_indexes n w).1 m ≡ exists w m
  pub indexed :
      (n m : List ℕ) (is : List Index) (w : dr.World)
      → exists (dr.create_indexes n is w).1 m ≡ exists w m
  pub called_back : (m : List ℕ) (w : dr.World) → exists (dr.callback w) m ≡ exists w m

module _ (dr : Driver) (l : DriverLaws dr) where
  open l use {exists}

  -- With no error, these collections are there.
  abbrev pub Ready : List (List ℕ) → Option ConnectError × dr.World → Type 0
  Ready ns (some e, w) = Unit
  Ready ns (none, w) = All (λ n. exists w n ≡ true) ns

  or_fail-Ready :
      (ns : List (List ℕ)) (e : ConnectError) (r : Bool × dr.World)
      (next : dr.World → Option ConnectError × dr.World)
      → (r.0 ≡ true → Ready ns (next r.1))
      → Ready ns (or_fail dr e r next)
  or_fail-Ready ns e (false, w) next h = tt
  or_fail-Ready ns e (true, w) next h = h refl

  moved :
      (ns : List (List ℕ)) (w w' : dr.World)
      → ((n : List ℕ) → exists w' n ≡ exists w n)
      → All (λ n. exists w n ≡ true) ns
      → All (λ n. exists w' n ≡ true) ns
  moved [] w w' same h = tt
  moved (n ∷ ns) w w' same (here, rest) = (same n ∙ here, moved ns w w' same rest)

  index_all-Ready :
      (ns : List (List ℕ)) (w : dr.World)
      → All (λ n. exists w n ≡ true) ns
      → Ready ns (index_all dr w)
  index_all-Ready ns w h =
      or_fail-Ready ns dropping (dr.drop_indexes session_collection_name w) _ λ d1.
        let w1 = (dr.drop_indexes session_collection_name w).1 in
        or_fail-Ready ns dropping (dr.drop_indexes subscription_collection_name w1) _ λ d2.
          let w2 = (dr.drop_indexes subscription_collection_name w1).1 in
          let w3 = (dr.create_indexes session_collection_name session_indexes w2).1 in
          let r = dr.create_indexes subscription_collection_name subscription_indexes w3 in
          or_fail-Ready ns indexing r _ λ d3.
            moved ns w (dr.callback r.1)
              (λ n.
                l.called_back n r.1
                ∙ l.indexed subscription_collection_name n subscription_indexes w3
                ∙ l.indexed session_collection_name n session_indexes w2
                ∙ l.dropped subscription_collection_name n w1
                ∙ l.dropped session_collection_name n w)
              h

  -- With no error, what was there is there.
  abbrev Grown : dr.World → Option ConnectError × dr.World → Type 0
  Grown w (some e, w') = Unit
  Grown w (none, w') = (n : List ℕ) → exists w n ≡ true → exists w' n ≡ true

  one_more :
      (n : List ℕ) (ns : List (List ℕ)) (w : dr.World) (r : Option ConnectError × dr.World)
      → exists w n ≡ true
      → Grown w r
      → Ready ns r
      → Ready (n ∷ ns) r
  one_more n ns w (some e, w') here grown rest = tt
  one_more n ns w (none, w') here grown rest = (grown n here, rest)

  Grown-trans :
      (w w1 : dr.World) (r : Option ConnectError × dr.World)
      → ((n : List ℕ) → exists w n ≡ true → exists w1 n ≡ true)
      → Grown w1 r
      → Grown w r
  Grown-trans w w1 (some e, w') first second = tt
  Grown-trans w w1 (none, w') first second = λ n h. second n (first n h)

  or_true : (a b : Bool) → b ≡ true → (a || b) ≡ true
  or_true a b h = ground arith

  true_or : (a b : Bool) → a ≡ true → (a || b) ≡ true
  true_or a b h = ground arith

  Present : List (List ℕ) → dr.World → Type 0
  Present names w = (n : List ℕ) → contains_name n names ≡ true → exists w n ≡ true

  -- One collection is created, and the loop goes on.
  made :
      (c : List ℕ) (names ns : List (List ℕ)) (w : dr.World) (r : Bool × dr.World)
      → (r.0 ≡ true → (m : List ℕ) → exists r.1 m ≡ (bytes_eq c m || exists w m))
      → ((w1 : dr.World)
          → ((n : List ℕ) → exists w n ≡ true → exists w1 n ≡ true)
          → Ready ns (create_missing dr names ns w1) × Grown w1 (create_missing dr names ns w1))
      → (let out = or_fail dr (creating c) r (create_missing dr names ns) in
          Ready (c ∷ ns) out × Grown w out)
  made c names ns w (false, w1) done again = (tt, tt)
  made c names ns w (true, w1) done again =
      let more : (n : List ℕ) → exists w n ≡ true → exists w1 n ≡ true =
        λ n h. done refl n ∙ or_true (bytes_eq c n) (exists w n) h in
      let (ready, grown) = again w1 more in
      (
        one_more c ns w1 (create_missing dr names ns w1)
            (done refl c ∙ true_or (bytes_eq c c) (exists w c) (bytes_eq_refl c)) grown ready,
        Grown-trans w w1 (create_missing dr names ns w1) more grown,
      )

  create_missing-Ready :
      (names ns : List (List ℕ)) (w : dr.World)
      → Present names w
      → Ready ns (create_missing dr names ns w) × Grown w (create_missing dr names ns w)
  unfolding create_missing Present
  create_missing-Ready names [] w there = (tt, λ n h. h)
  create_missing-Ready names (c ∷ ns) w there = elim (Bool-cases (contains_name c names)) [
    | inl known ↦
        let (ready, grown) = create_missing-Ready names ns w there in
        rw known (one_more c ns w (create_missing dr names ns w) (there c known) grown ready, grown)
    | inr unknown ↦ rw unknown (
        made c names ns w (dr.create_collection c w) (λ done m. l.created c m w done)
          (λ w1 more. create_missing-Ready names ns w1 λ n h. more n (there n h)))
  ]

  after_creation-Ready :
      (ns : List (List ℕ)) (r : Option ConnectError × dr.World)
      → Ready ns r
      → Ready ns (after_creation dr r)
  after_creation-Ready ns (some e, w) ready = tt
  after_creation-Ready ns (none, w) ready = index_all-Ready ns w ready

  with_listed-Ready :
      (r : Option (List (List ℕ)) × dr.World)
      → ((names : List (List ℕ)) (n : List ℕ)
          → r.0 ≡ some names
          → exists r.1 n ≡ contains_name n names)
      → Ready collections_list (with_listed dr r)
  unfolding Present
  with_listed-Ready (none, w) all = tt
  with_listed-Ready (some names, w) all =
      after_creation-Ready collections_list (create_missing dr names collections_list w)
        (create_missing-Ready names collections_list w λ n h. all names n refl ∙ h).0

  after_ping-Ready : (c : Config) (r : Bool × dr.World) → Ready collections_list (after_ping dr c r)
  after_ping-Ready c (false, w) = tt
  after_ping-Ready c (true, w) =
      with_listed-Ready (dr.list_collections c.database.database w)
        λ names n e. l.listed c.database.database w names n e

  -- When `ConnectDatabase` returns without an error, the three collections of the broker are there:
  -- those that the database did not list were created, and none was lost.
  pub connect_database-Ready :
      (c : Config) (e : Option ConfigError) (timeout : ℕ) (w : dr.World)
      → (let (timeout', failure, w') = connect_database dr c e timeout w in
          Ready collections_list (failure, w'))
  unfolding connect_database
  connect_database-Ready c (some e) timeout w = tt
  connect_database-Ready c none timeout w =
      let options = client_options (database_url dr c.database) c in
      or_fail-Ready collections_list connecting (dr.connect options w) _
        λ done. after_ping-Ready c (dr.ping (dr.connect options w).1)
