-- ===== src/Tests/Redis.antt =====
-- The Redis store over a small client that keeps the keys under one prefix.
use Prim.Native.String.{[], ◌∷◌, char_at}
use caddy_k8s.Base.{
  Char, code, String, ◌<>◌, ◌≡◌, refl, ap, Option, pos, none, some, List, [], ◌∷◌, map, arith,
  if◌then◌else◌, nat_eq,
}
use caddy_k8s.Dict.{Dict, lookup, insert, erase, lookup-insert, lookup-erase}
use caddy_k8s.Hosts.{elem}
use mathlib.Core.Path.{subst}
use mathlib.Core.Option.{some-injective}
use caddy_k8s.Caddyfile.Options.{RedisConfig}
use caddy_k8s.Store.Choice.{choose_store, choose_store-IsFaithful}
use caddy_k8s.Store.Interface.{IsFaithful}
use caddy_k8s.Store.Redis.{RedisClient, drop_prefix, key_prefix}
use caddy_k8s.Store.RedisLaws.{IsRedis, drop_prefix-append, is_some}

abbrev pub encode_onto : String → String → String
encode_onto [] t = char_at ";" 0 ∷ t
encode_onto (c ∷ s) t = char_at "x" 0 ∷ (c ∷ encode_onto s t)

-- A text of a list, each character marked and each element ended.
abbrev pub encode : List String → String
encode [] = ""
encode (s ∷ ss) = encode_onto s (encode ss)

abbrev pub push_char : Char → List String → List String
push_char c [] = (c ∷ "") ∷ []
push_char c (s ∷ ss) = (c ∷ s) ∷ ss

abbrev pub decode : String → List String
decode [] = []
decode (m ∷ []) = if nat_eq (code m) b';' then "" ∷ [] else []
decode (m ∷ (c ∷ t)) =
    let next = decode (c ∷ t) in
    let skipped = decode t in if nat_eq (code m) b';' then "" ∷ next else push_char c skipped

decode-end : (t : String) → decode (char_at ";" 0 ∷ t) ≡ "" ∷ decode t
decode-end [] = refl
decode-end (c ∷ t) = refl

decode-encode_onto : (s t : String) → decode (encode_onto s t) ≡ s ∷ decode t
decode-encode_onto [] t = decode-end t
decode-encode_onto (c ∷ s) t = rw (decode-encode_onto s t) refl

pub decode-encode : (ss : List String) → decode (encode ss) ≡ ss
decode-encode [] = refl
decode-encode (s ∷ ss) = rw (decode-encode_onto s (encode ss), decode-encode ss) refl

abbrev client : String → RedisClient
client prefix = record {
  Db = Dict String;
  set = λ k v db. (none, insert (drop_prefix prefix k) v db);
  del = λ k db. (none, erase (drop_prefix prefix k) db);
  keys = λ pattern db. some (map (λ r. prefix <> r) (map (λ (k, v). k) db));
  get = λ k db. lookup (drop_prefix prefix k) db;
  close = λ db. (none, db);
  marshal = encode;
  unmarshal = λ s. some (decode s);
}

elem-keys : (j : String) (db : Dict String) → elem j (map (λ (k, v). k) db) ≡ is_some (lookup j db)
unfolding lookup
elem-keys j [] = refl
elem-keys j ((k, v) ∷ db) = ground (arith, elem-keys j db)

redis : (prefix : String) → IsRedis (client prefix) prefix
redis prefix = record {
  value = λ db k. lookup (drop_prefix prefix k) db;
  set_succeeds = λ k v db. refl;
  value-set = λ k v j db.
      rw (drop_prefix-append prefix k, drop_prefix-append prefix j) (lookup-insert k j v db);
  del_succeeds = λ k db. refl;
  value-del =
      λ k j db. rw (drop_prefix-append prefix k, drop_prefix-append prefix j) (lookup-erase k j db);
  get_value = λ k db. refl;
  keys_found =
      λ db. (map (λ (k, v). k) db, refl, λ j. rw (drop_prefix-append prefix j) (elem-keys j db));
  read_back = λ ids. ap some (decode-encode ids);
}

abbrev dial : RedisConfig → Option RedisClient
dial config = some (client (key_prefix "caddy"))

dial-IsRedis :
    (c : RedisConfig) (reached : RedisClient)
    → dial c ≡ some reached
    → IsRedis reached (key_prefix "caddy")
dial-IsRedis c reached e =
    subst (λ x. IsRedis x (key_prefix "caddy"))
      (some-injective (client (key_prefix "caddy")) reached e) (redis (key_prefix "caddy"))

abbrev config : RedisConfig
config = record { address = "redis:6379"; password = ""; db = pos 0 }

choose_store-IsFaithful_example :
    (view : (choose_store dial (some config) "caddy").State → String → Option (List String))
    × IsFaithful (choose_store dial (some config) "caddy") view
choose_store-IsFaithful_example = choose_store-IsFaithful dial (some config) "caddy" dial-IsRedis
