-- ===== src/Store/Redis.antt =====
-- `redisStore`: the map under a key prefix of a Redis database. The Redis client and the JSON text of a
-- list of ids are parameters.
use Prim.Native.String.{[], ◌∷◌}
use caddy_k8s.Base.{String, ◌<>◌, Option, none, some, List, [], ◌∷◌, ◌>>=◌}
use caddy_k8s.Dict.{Dict, insert}
use caddy_k8s.Store.Interface.{RouteStore}

-- The client's calls: an error text or success for a write, `none` for an error of a read; and
-- `json.Marshal` and `json.Unmarshal` of a list of texts.
pub record RedisClient : Type 1 where
  pub Db : Type 0
  pub set : String → String → Db → Option String × Db
  pub del : String → Db → Option String × Db
  pub keys : String → Db → Option (List String)
  pub get : String → Db → Option String
  pub close : Db → Option String × Db
  pub marshal : List String → String
  pub unmarshal : String → Option (List String)

-- `k[prefixLen:]`
unfoldable pub drop_prefix : String → String → String
drop_prefix [] s = s
drop_prefix (c ∷ p) [] = ""
drop_prefix (c ∷ p) (d ∷ s) = drop_prefix p s

unfoldable pub key_prefix : String → String
key_prefix ingress_class = "k8s_ingress:" <> (ingress_class <> ":")

module _ (client : RedisClient) (prefix : String) where
  open client use {Db, marshal, unmarshal}

  unfoldable pub redis_save : String → List String → Db → Option String × Db
  redis_save key ids db = client.set (prefix <> key) (marshal ids) db

  unfoldable pub redis_remove : String → Db → Option String × Db
  redis_remove key db = client.del (prefix <> key) db

  abbrev pub entry_of : String → Option (List String) → Dict (List String) → Dict (List String)
  entry_of k none out = out
  entry_of k (some ids) out = insert (drop_prefix prefix k) ids out

  -- The loop over the keys: one whose value cannot be read is left out.
  unfoldable pub read_keys : List String → Db → Dict (List String) → Dict (List String)
  read_keys [] db out = out
  read_keys (k ∷ ks) db out = read_keys ks db (entry_of k (client.get k db >>= unmarshal) out)

  abbrev all_entries : Option (List String) → Db → Option (Dict (List String))
  all_entries none db = none
  all_entries (some ks) db = some (read_keys ks db [])

  unfoldable pub redis_load_all : Db → Option (Dict (List String)) × Db
  redis_load_all db = (all_entries (client.keys (prefix <> "*") db) db, db)

  abbrev redis_close : Db → Option String × Db
  redis_close db = client.close db

  abbrev pub redis_store : RouteStore
  redis_store = record {
    State = Db;
    save = redis_save;
    remove = redis_remove;
    load_all = redis_load_all;
    close = redis_close;
  }
