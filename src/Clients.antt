-- ===== src/Clients.antt =====
-- bill/clients.go: the cached look-up of a client. The LRU cache, its expiry and `singleflight` are
-- libraries: what each `Get` finds is an argument, and what is added is returned.
pub mod Coherence
use redesigned_disco.Prelude.{String, Bool, Option, none, some, List, [], ◌∷◌, if◌then◌else◌, ◌==◌}
use redesigned_disco.Errs.{Result, ok, err}
use redesigned_disco.Store.{Db, Client, DbError, no_rows, connection}

-- What `clientCache.Get` finds: nothing, a nil entry (an id known to be unknown), or a client.
pub data Cached : Type 0 where
  miss : Cached
  hit_nil : Cached
  hit : Client → Cached

-- `clientCache.Add(id, c)`; `none` is the nil entry.
pub record CacheWrite : Type 0 where
  pub id : String
  pub client : Option Client

pub data ClientError : Type 0 where
  client_not_found : ClientError  -- ErrClientNotFound
  load_failed : DbError → ClientError

-- The `interface{}` that the flight returns: a nil interface, or a `*Client`, which may be nil.
pub data Flight : Type 0 where
  nil_interface : Flight
  boxed : Option Client → Flight

abbrev pub find_client : String → List Client → Option Client
find_client id [] = none
find_client id (c ∷ cs) = if c.id == id then some c else find_client id cs

abbrev pub client_row : Option Client → Result DbError Client
client_row none = err no_rows
client_row (some c) = ok c

-- `loadClientFromDB`, on a connection that answers or not.
unfoldable pub load_client_from_db : {D : Type 0} → Bool → String → Db D → Result DbError Client
load_client_from_db answers id db =
    if answers then client_row (find_client id db.clients) else err connection

-- After the flight's own look at the cache: the load, and what it adds.
abbrev pub loaded : String → Result DbError Client → Result ClientError Flight × List CacheWrite
loaded id (err no_rows) = (err client_not_found, record { id = id; client = none } ∷ [])
loaded id (err e) = (err (load_failed e), [])
loaded id (ok c) = (ok (boxed (some c)), record { id = id; client = some c } ∷ [])

-- The function that `clientLoadGroup.Do` runs.
abbrev pub flight :
    String → Cached → Result DbError Client → Result ClientError Flight × List CacheWrite
flight id (hit c) load = (ok (boxed (some c)), [])
flight id hit_nil load = (ok (boxed none), [])
flight id miss load = loaded id load

-- What `lookupClient` makes of the flight's value and error; `ok none` is `(nil, nil)`.
abbrev pub landed : Result ClientError Flight → Result ClientError (Option Client)
landed (err e) = err e
landed (ok nil_interface) = err client_not_found
landed (ok (boxed c)) = ok c

unfoldable pub lookup_client :
    String
    → Cached
    → Cached
    → Result DbError Client
    → Result ClientError (Option Client) × List CacheWrite
lookup_client id (hit c) second load = (ok (some c), [])
lookup_client id hit_nil second load = (err client_not_found, [])
lookup_client id miss second load = let (r, writes) = flight id second load in (landed r, writes)

-- What `clientCache.Get` finds for each id.
abbrev pub ClientCache : Type 0
ClientCache = String → Cached

-- `invalidateClient`
unfoldable pub invalidate_client : String → ClientCache → ClientCache
invalidate_client id cache k = if k == id then miss else cache k
