-- ===== src/Database/Store.antt =====
-- internal/database/database_store.go: the session store. Sessions are shared objects: the map of
-- temporary sessions and the cache hold references into a heap, the collection holds copies.
use life_stream_go_mqtt_brok.Prelude.Maps.{Map, lookup, insert, delete}
use life_stream_go_mqtt_brok.Database.Session.{SessionData}
use life_stream_go_mqtt_brok.Database.Services.{Services, Found, found, no_documents, failed}
use life_stream_go_mqtt_brok.Prelude.{
  ℕ, List, Bool, Option, if◌then◌else◌, bytes_eq, some, false, true, ◌==◌, [], none, ◌+◌,
}
pub mod Recall
pub mod Forget

module _ (sv : Services) where
  -- `DBStore`, with the heap of session objects and the first reference that is free.
  pub record Store : Type 0 where
    pub heap : ℕ → SessionData
    pub next_ref : ℕ
    pub sessions : Map (List ℕ) ℕ
    pub session_cache : sv.Cache
    pub documents : sv.Documents

  -- A session that is decoded from a document is a new object, and goes into the cache.
  abbrev decoded : List ℕ → Found × sv.Documents → Store → Option ℕ × Store
  decoded id (found x, d) st = (
    some st.next_ref,
    record st {
      heap = λ r. if r == st.next_ref then x else st.heap r;
      next_ref = st.next_ref + 1;
      session_cache = sv.cache_add id st.next_ref st.session_cache;
      documents = d;
    },
  )
  decoded id (no_documents, d) st = (none, record st { documents = d })
  decoded id (failed, d) st = (none, record st { documents = d })

  abbrev from_documents : List ℕ → Store → Option ℕ × Store
  from_documents id st =
      if bytes_eq id [] then (none, st) else decoded id (sv.find_one id st.documents) st

  abbrev from_cache : List ℕ → Option ℕ × sv.Cache → Store → Option ℕ × Store
  from_cache id (some r, c) st = (some r, record st { session_cache = c })
  from_cache id (none, c) st = from_documents id (record st { session_cache = c })

  abbrev from_memory : List ℕ → Option ℕ → Store → Option ℕ × Store
  from_memory id (some r) st = (some r, st)
  from_memory id none st = from_cache id (sv.cache_get id st.session_cache) st

  -- `GetSession`: the temporary sessions first, then the cache, then the collection.
  unfoldable pub get_session : List ℕ → Store → Option ℕ × Store
  get_session id st = from_memory id (lookup id st.sessions) st

  abbrev pub replaced : List ℕ → ℕ → Bool × sv.Documents → Store → Bool × Store
  replaced id ref (false, d) st = (false, record st { documents = d })
  replaced id ref (true, d) st =
      (true, record st { session_cache = sv.cache_add id ref st.session_cache; documents = d })

  -- `SaveSession` of the object at `ref`
  unfoldable pub save_session : ℕ → Store → Bool × Store
  save_session ref st =
      let x = st.heap ref in
      let st' = record st { session_cache = sv.cache_remove x.client_id st.session_cache } in
      if x.temp_session
      then (true, record st { sessions = insert x.client_id ref (delete x.client_id st.sessions) })
      else if bytes_eq x.client_id []
      then (false, st')
      else replaced x.client_id ref (sv.replace_one x.client_id x st.documents) st'

  abbrev deleted : Bool × sv.Documents → Store → Bool × Store
  deleted (done, d) st = (done, record st { documents = d })

  abbrev delete_stored : List ℕ → Store → Bool × Store
  delete_stored id st =
      let st' = record st { session_cache = sv.cache_remove id st.session_cache } in
      if bytes_eq id [] then (false, st') else deleted (sv.delete_one id st.documents) st'

  abbrev pub delete_from : List ℕ → Option ℕ → Store → Bool × Store
  delete_from id (some r) st = (true, record st { sessions = delete id st.sessions })
  delete_from id none st = delete_stored id st

  -- `DeleteSession`
  unfoldable pub delete_session : List ℕ → Store → Bool × Store
  delete_session id st = delete_from id (lookup id st.sessions) st
