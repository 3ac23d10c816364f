-- ===== src/Store/Choice.antt =====
-- Which store is taken: `newRedisStore`, and its use in `Provision`. The connection to Redis is a
-- parameter: the client for a configuration, if the server answers the ping.
use caddy_k8s.Base.{String, ◌≡◌, refl, Option, none, some, List}
use caddy_k8s.Dict.{lookup}
use caddy_k8s.Caddyfile.Options.{RedisConfig}
use caddy_k8s.Store.Interface.{RouteStore, IsFaithful}
use caddy_k8s.Store.Memory.{memory_store, memory_store-IsFaithful}
use caddy_k8s.Store.Redis.{RedisClient, key_prefix, redis_store}
use caddy_k8s.Store.RedisLaws.{IsRedis, redis_store-IsFaithful}

abbrev new_redis_store : String → Option RedisClient → RouteStore
new_redis_store ingress_class none = memory_store
new_redis_store ingress_class (some client) = redis_store client (key_prefix ingress_class)

-- Redis is optional: where it is not configured or not reached, the store in memory is taken.
unfoldable pub choose_store :
    (RedisConfig → Option RedisClient) → Option RedisConfig → String → RouteStore
choose_store dial none ingress_class = memory_store
choose_store dial (some config) ingress_class = new_redis_store ingress_class (dial config)

new_redis_store-IsFaithful :
    (ingress_class : String) (o : Option RedisClient)
    → ((client : RedisClient) → o ≡ some client → IsRedis client (key_prefix ingress_class))
    → (view : (new_redis_store ingress_class o).State → String → Option (List String)) × IsFaithful
        (new_redis_store ingress_class o)
        view
new_redis_store-IsFaithful ingress_class none redis =
    ((λ s j. lookup j s.contents), memory_store-IsFaithful)
new_redis_store-IsFaithful ingress_class (some client) redis =
    (_, redis_store-IsFaithful client (key_prefix ingress_class) (redis client refl))

-- Whether or not Redis is configured and reached, the store that is taken keeps what it is given, if every
-- client that is reached behaves as documented.
pub choose_store-IsFaithful :
    (dial : RedisConfig → Option RedisClient) (config : Option RedisConfig) (ingress_class : String)
    → ((c : RedisConfig) (client : RedisClient)
        → dial c ≡ some client
        → IsRedis client (key_prefix ingress_class))
    → (view : (choose_store dial config ingress_class).State → String → Option (List String))
      × IsFaithful (choose_store dial config ingress_class) view
unfolding choose_store
choose_store-IsFaithful dial none ingress_class redis =
    ((λ s j. lookup j s.contents), memory_store-IsFaithful)
choose_store-IsFaithful dial (some c) ingress_class redis =
    new_redis_store-IsFaithful ingress_class (dial c) (redis c)
