-- ===== src/Database/Store/Recall.antt =====
-- What `GetSession` returns after `SaveSession`.
use life_stream_go_mqtt_brok.Prelude.Maps.{lookup, Map, insert, delete, lookup-insert}
use life_stream_go_mqtt_brok.Database.Store.{
  get_session, Store, decoded, from_cache, replaced, save_session,
}
use life_stream_go_mqtt_brok.Database.Session.{SessionData}
use life_stream_go_mqtt_brok.Database.Services.{Services, Found, Laws, failed, found, no_documents}
use life_stream_go_mqtt_brok.Prelude.{
  ℕ, ◌≡◌, List, Option, ap, Bool, some, bytes_eq, [], none, false, ==_refl, sym, refl, ◌∙◌, true,
  if◌then◌else◌, bytes_eq_refl, if_false, if_true,
}

module _ (sv : Services) where
  -- The object that a read returned has the contents `x`; or there is none, and the collection failed.
  abbrev pub Recalls : Found → SessionData → Option ℕ × Store sv → Type 0
  Recalls f x (some r, st) = st.heap r ≡ x
  Recalls f x (none, st) = f ≡ failed

  pub answer_of : {f : Found × sv.Documents} {y : Found} {d : sv.Documents} → f ≡ (y, d) → f.0 ≡ y
  answer_of e = ap (λ (r : Found × sv.Documents). r.0) e

module _ (sv : Services) (l : Laws sv) where
  open l use {stored, held}

  -- The read comes to the collection.
  decoded-Recalls :
      (id : List ℕ) (x : SessionData) (f : Found × sv.Documents) (st : Store sv)
      → stored st.documents id ≡ some x
      → sv.find_one id st.documents ≡ f
      → Recalls sv f.0 x (decoded sv id f st)
  decoded-Recalls id x (found y, d) st kept e =
      rw (==_refl st.next_ref) (cc (l.find_found id st.documents y (answer_of sv e), kept))
  decoded-Recalls id x (no_documents, d) st kept e =
      absurd (cc (l.find_missing id st.documents (answer_of sv e), kept))
  decoded-Recalls id x (failed, d) st kept e = refl

  -- The read asks the cache first, which holds the object or nothing.
  cached-Recalls :
      (id : List ℕ) (ref : ℕ) (c : Option ℕ × sv.Cache) (st : Store sv)
      → bytes_eq id [] ≡ false
      → stored st.documents id ≡ some (st.heap ref)
      → ((r : ℕ) → c.0 ≡ some r → r ≡ ref)
      → Recalls sv (sv.find_one id st.documents).0 (st.heap ref) (from_cache sv id c st)
  cached-Recalls id ref (some r, c) st named kept only = ap st.heap (only r refl)
  cached-Recalls id ref (none, c) st named kept only = rw named (
      decoded-Recalls id (st.heap ref) (sv.find_one id st.documents)
        (record st { session_cache = c }) kept refl)

  -- The store after a save that the collection took.
  replaced-Recalls :
      (id : List ℕ) (ref : ℕ) (a : Bool × sv.Documents) (st : Store sv)
      → bytes_eq id [] ≡ false
      → lookup id st.sessions ≡ none
      → sv.replace_one id (st.heap ref) st.documents ≡ a
      → (replaced sv id ref a st).0 ≡ true
      → Recalls sv
          (sv.find_one id (replaced sv id ref a st).1.documents).0
          (st.heap ref)
          (get_session sv id (replaced sv id ref a st).1)
  unfolding get_session
  replaced-Recalls id ref (false, d) st named absent e done = absurd (cc done)
  replaced-Recalls id ref (true, d) st named absent e done =
      let st' = (replaced sv id ref (true, d) st).1 in
      rw absent (cached-Recalls id ref (sv.cache_get id st'.session_cache) st' named kept only)
    where
      taken : (sv.replace_one id (st.heap ref) st.documents).0 ≡ true
      taken = ap (λ (r : Bool × sv.Documents). r.0) e

      here : stored (sv.replace_one id (st.heap ref) st.documents).1 id ≡ some (st.heap ref)
      here =
          l.replace_done id id (st.heap ref) st.documents taken
          ∙ ap (λ b. if b then some (st.heap ref) else stored st.documents id) (bytes_eq_refl id)

      kept : stored d id ≡ some (st.heap ref)
      kept = ap (λ (r : Bool × sv.Documents). stored r.1 id) (sym e) ∙ here

      added : (r : ℕ) → held (sv.cache_add id ref st.session_cache) id ≡ some r → some ref ≡ some r
      added r h =
          ap (λ b. if b then some ref else held st.session_cache id) (sym (bytes_eq_refl id))
          ∙ l.add_held id id ref r st.session_cache h

      only : (r : ℕ) → (sv.cache_get id (sv.cache_add id ref st.session_cache)).0 ≡ some r → r ≡ ref
      only r h = cc (added r (l.get_held id (sv.cache_add id ref st.session_cache) r h))

  -- The save of a session that is not temporary goes to the collection.
  save_session-replaced :
      (ref : ℕ) (st : Store sv)
      → (st.heap ref).temp_session ≡ false
      → bytes_eq (st.heap ref).client_id [] ≡ false
      → save_session sv ref st
        ≡ replaced sv
            (st.heap ref).client_id
            ref
            (sv.replace_one (st.heap ref).client_id (st.heap ref) st.documents)
            (record st { session_cache = sv.cache_remove (st.heap ref).client_id st.session_cache })
  unfolding save_session
  save_session-replaced ref st kept named = if_false _ kept ∙ if_false _ named

  -- A session that `SaveSession` stored is what `GetSession` returns for its client ID, from the
  -- cache or as a new object with the same contents, when the session is not temporary, its client
  -- ID is not empty and no temporary session has that ID; it returns none only where the query to
  -- the collection fails.
  pub save_session-get_session :
      (ref : ℕ) (st : Store sv)
      → (st.heap ref).temp_session ≡ false
      → bytes_eq (st.heap ref).client_id [] ≡ false
      → lookup (st.heap ref).client_id st.sessions ≡ none
      → (save_session sv ref st).0 ≡ true
      → Recalls sv
          (sv.find_one (st.heap ref).client_id (save_session sv ref st).1.documents).0
          (st.heap ref)
          (get_session sv (st.heap ref).client_id (save_session sv ref st).1)
  save_session-get_session ref st kept named absent = rw (save_session-replaced ref st kept named) (
      replaced-Recalls (st.heap ref).client_id ref
        (sv.replace_one (st.heap ref).client_id (st.heap ref) st.documents)
        (record st { session_cache = sv.cache_remove (st.heap ref).client_id st.session_cache })
        named absent refl)

module _ (sv : Services) where
  pub get_session-held :
      (id : List ℕ) (r : ℕ) (st : Store sv)
      → lookup id st.sessions ≡ some r
      → get_session sv id st ≡ (some r, st)
  unfolding get_session
  get_session-held id r st h = rw h refl

  pub inserted : (id : List ℕ) (r : ℕ) (m : Map (List ℕ) ℕ) → lookup id (insert id r m) ≡ some r
  inserted id r m = lookup-insert id id r m ∙ if_true _ (bytes_eq_refl id)

  save_session-kept :
      (ref : ℕ) (st : Store sv)
      → (st.heap ref).temp_session ≡ true
      → save_session sv ref st ≡ (
        true,
        record st {
          sessions =
              insert (st.heap ref).client_id ref (delete (st.heap ref).client_id st.sessions);
        },
      )
  unfolding save_session
  save_session-kept ref st temporary = if_true _ temporary

  -- `SaveSession` of a temporary session touches neither the collection nor the cache, and
  -- `GetSession` returns that very object.
  pub save_session-temporary :
      (ref : ℕ) (st : Store sv)
      → (st.heap ref).temp_session ≡ true
      → get_session sv (st.heap ref).client_id (save_session sv ref st).1
          ≡ (some ref, (save_session sv ref st).1)
        × ((save_session sv ref st).1.documents ≡ st.documents
            × (save_session sv ref st).1.session_cache ≡ st.session_cache)
  save_session-temporary ref st temporary = rw (save_session-kept ref st temporary) (
    get_session-held (st.heap ref).client_id ref _
        (inserted (st.heap ref).client_id ref (delete (st.heap ref).client_id st.sessions)),
    (refl, refl),
  )
